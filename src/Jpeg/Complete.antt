-- ===== src/Jpeg/Complete.antt =====
-- What `complete_frame` of src/mjpeg.rs keeps of a payload.
use mathlib.Core.Option.{some-injective}
use camera_rs.Base.{
  ℕ, zero, suc, ◌+◌, ◌-◌, ◌≤◌, ◌≡◌, refl, sym, ap, subst, true, not, ◌||◌, ◌&&◌, List, [], ◌∷◌,
  none, some, length, take, length-take, ltb, ◌==◌, if◌then◌else◌, Bool-cases, Option-cases, inl,
  inr, arith,
}
use camera_rs.Error.{CameraResult, ok}
use camera_rs.Jpeg.{marker_at, starts_frame, last_marker, complete_frame}

marker_at_bounded : (xs : List ℕ) (i : ℕ) → marker_at xs i ≡ true → i + 2 ≤ length xs
unfolding marker_at
marker_at_bounded [] i h = cc
marker_at_bounded (x ∷ []) i h = cc
marker_at_bounded (x ∷ y ∷ ys) zero h = omega arith
marker_at_bounded (x ∷ y ∷ ys) (suc i) h = omega (arith, marker_at_bounded (y ∷ ys) i h)

last_marker-at : (xs : List ℕ) (j : ℕ) → last_marker xs ≡ some j → marker_at xs j ≡ true
unfolding last_marker marker_at
last_marker-at [] j h = cc
last_marker-at (x ∷ []) j h = cc
last_marker-at (x ∷ y ∷ ys) j h = elim (Option-cases (last_marker (y ∷ ys))) [
  | inr (i, found) ↦
      subst (λ k. marker_at (x ∷ y ∷ ys) k ≡ true)
        (some-injective (suc i) j (rw (found, last_marker) at h)) (last_marker-at (y ∷ ys) i found)
  | inl missing ↦ first j (rw (missing, last_marker) at h)
]
  where
    first :
        (j : ℕ)
        → (if x == 255 && y == 217 then some 0 else none) ≡ some j
        → marker_at (x ∷ y ∷ ys) j ≡ true
    first zero e = ground arith
    first (suc j) e = absurd (ground arith)

last_marker-ge :
    (xs : List ℕ) (i : ℕ) → marker_at xs i ≡ true → (j : ℕ) × (last_marker xs ≡ some j) × (i ≤ j)
unfolding last_marker marker_at
last_marker-ge [] i h = absurd (cc h)
last_marker-ge (x ∷ []) i h = absurd (cc h)
last_marker-ge (x ∷ y ∷ ys) zero h = elim (Option-cases (last_marker (y ∷ ys))) [
  | inr (i, found) ↦ (suc i, rw (found, last_marker) refl, omega arith)
  | inl missing ↦ (0, rw (missing, last_marker, h) refl, omega arith)
]
last_marker-ge (x ∷ y ∷ ys) (suc i) h =
    let (j, found, ge) = last_marker-ge (y ∷ ys) i h in
    (suc j, rw (found, last_marker) refl, omega (arith, ge))

take-all : (xs : List ℕ) → take (length xs) xs ≡ xs
take-all [] = refl
take-all (x ∷ xs) = ap (λ t. x ∷ t) (take-all xs)

-- A payload that has an end marker at `i` and is accepted is cut to a prefix that ends with an end
-- marker, the last one of the payload: no marker, and so not the one at `i`, is cut off.
pub complete_frame_lem :
    (payload : List ℕ) (i : ℕ) {out : List ℕ}
    → complete_frame payload ≡ ok out
    → marker_at payload i ≡ true
    → (out ≡ take (length out) payload)
      × (marker_at payload (length out - 2) ≡ true)
      × (i + 2 ≤ length out)
unfolding complete_frame
complete_frame_lem payload i {out = out} e h =
    elim (Bool-cases (ltb (length payload) 4 || not (starts_frame payload))) [
      | inl bad ↦ absurd (cc (rw (bad, complete_frame) at e))
      | inr good ↦ elim (Bool-cases (marker_at payload (length payload - 2))) [
        | inl whole ↦
            subst IsCut (ok-injective payload out (rw (good, whole, complete_frame) at e))
              (sym (take-all payload), whole, marker_at_bounded payload i h)
        | inr cut ↦
            let (j, found, ge) = last_marker-ge payload i h in
            let size : length (take (j + 2) payload) ≡ j + 2 = omega (
              arith,
              length-take (j + 2) payload,
              marker_at_bounded payload j (last_marker-at payload j found),
            ) in
            subst IsCut
              (ok-injective (take (j + 2) payload) out (rw (good, cut, found, complete_frame) at e))
              (rw size (
                refl,
                subst (λ k. marker_at payload k ≡ true) (omega arith)
                    (last_marker-at payload j found),
                omega (arith, ge),
              ))
      ]
    ]
  where
    IsCut : List ℕ → Type 0
    IsCut o =
        (o ≡ take (length o) payload)
        × (marker_at payload (length o - 2) ≡ true)
        × (i + 2 ≤ length o)

    ok-injective : (xs ys : List ℕ) → CameraResult.ok xs ≡ CameraResult.ok ys → xs ≡ ys
    ok-injective xs ys q = cc
