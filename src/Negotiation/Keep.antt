-- ===== src/Negotiation/Keep.antt =====
-- No acceptable configuration is lost in src/api.rs on the way to the ranked list.
use camera_rs.Base.{
  ℕ, ◌≡◌, refl, sym, ap, subst, ◌∙◌, true, List, [], ◌∷◌, retain, Memᴰ, Bool-cases, inl, inr,
  if◌then◌else◌,
}
use camera_rs.Error.{CameraErrorKind, ok, err, new as error}
use camera_rs.Config.{CameraConfig}
use camera_rs.Format.Rate.{FrameRate}
use camera_rs.Negotiation.{
  CaptureRequest, is_empty, is_acceptable, key_le, sort_key, insert, sort_by_key, config_eq,
  dedup_after, dedup, rank_capture_configurations,
}
use camera_rs.Negotiation.Rank.{config_eq-eq}

dedup_after-keeps :
    (c x : CameraConfig) (ys : List CameraConfig) → Memᴰ c (x ∷ ys) → Memᴰ c (x ∷ dedup_after x ys)
unfolding dedup_after
dedup_after-keeps c x [] m = m
dedup_after-keeps c x (y ∷ ys) (Memᴰ.head e) = Memᴰ.head e
dedup_after-keeps c x (y ∷ ys) (Memᴰ.tail m) = elim (Bool-cases (config_eq x y)) [
  | inl same ↦
      rw (same, dedup_after)
        (dedup_after-keeps c x ys (subst (λ z. Memᴰ c (z ∷ ys)) (sym (config_eq-eq x y same)) m))
  | inr new ↦ rw (new, dedup_after) (Memᴰ.tail (dedup_after-keeps c y ys m))
]

module _ (delta : FrameRate → FrameRate → ℕ) (r : CaptureRequest) where
  retain-keeps :
      (c : CameraConfig) (cs : List CameraConfig)
      → is_acceptable r c ≡ true
      → Memᴰ c cs
      → Memᴰ c (retain (is_acceptable r) cs)
  retain-keeps c [] h m = elim m [ ]
  retain-keeps c (d ∷ cs) h (Memᴰ.head e) = rw (ap (is_acceptable r) (sym e) ∙ h) (Memᴰ.head e)
  retain-keeps c (d ∷ cs) h (Memᴰ.tail m) = elim (Bool-cases (is_acceptable r d)) [
    | inl yes_d ↦ rw yes_d (Memᴰ.tail (retain-keeps c cs h m))
    | inr no_d ↦ rw no_d (retain-keeps c cs h m)
  ]

  insert-new : (c : CameraConfig) (ds : List CameraConfig) → Memᴰ c (insert delta r c ds)
  unfolding insert
  insert-new c [] = Memᴰ.head refl
  insert-new c (d ∷ ds) = elim (Bool-cases (key_le (sort_key delta r c) (sort_key delta r d))) [
    | inl first ↦ rw (first, insert) (Memᴰ.head refl)
    | inr later ↦ rw (later, insert) (Memᴰ.tail (insert-new c ds))
  ]

  insert-keeps :
      (x c : CameraConfig) (ds : List CameraConfig) → Memᴰ x ds → Memᴰ x (insert delta r c ds)
  unfolding insert
  insert-keeps x c [] m = elim m [ ]
  insert-keeps x c (d ∷ ds) (Memᴰ.head e) =
      elim (Bool-cases (key_le (sort_key delta r c) (sort_key delta r d))) [
        | inl first ↦ rw (first, insert) (Memᴰ.tail (Memᴰ.head e))
        | inr later ↦ rw (later, insert) (Memᴰ.head e)
      ]
  insert-keeps x c (d ∷ ds) (Memᴰ.tail m) =
      elim (Bool-cases (key_le (sort_key delta r c) (sort_key delta r d))) [
        | inl first ↦ rw (first, insert) (Memᴰ.tail (Memᴰ.tail m))
        | inr later ↦ rw (later, insert) (Memᴰ.tail (insert-keeps x c ds m))
      ]

  sort-keeps :
      (x : CameraConfig) (cs : List CameraConfig) → Memᴰ x cs → Memᴰ x (sort_by_key delta r cs)
  unfolding sort_by_key
  sort-keeps x [] m = elim m [ ]
  sort-keeps x (c ∷ cs) (Memᴰ.head e) =
      subst (λ y. Memᴰ x (insert delta r y (sort_by_key delta r cs))) e
        (insert-new x (sort_by_key delta r cs))
  sort-keeps x (c ∷ cs) (Memᴰ.tail m) =
      insert-keeps x c (sort_by_key delta r cs) (sort-keeps x cs m)

  -- If a device offers an acceptable configuration, then the ranking succeeds and that configuration is
  -- in the list that it returns.
  pub rank-keeps :
      (c : CameraConfig) (cs : List CameraConfig)
      → is_acceptable r c ≡ true
      → Memᴰ c cs
      → (out : List CameraConfig) × (rank_capture_configurations delta r cs ≡ ok out) × Memᴰ c out
  unfolding rank_capture_configurations dedup
  rank-keeps c cs h m =
      ranked (sort_by_key delta r (retain (is_acceptable r) cs))
        (sort-keeps c (retain (is_acceptable r) cs) (retain-keeps c cs h m))
    where
      ranked :
          (sorted : List CameraConfig)
          → Memᴰ c sorted
          → (out : List CameraConfig) × ((if is_empty (dedup sorted)
                then err (error CameraErrorKind.unsupported_format)
                else ok (dedup sorted))
              ≡ ok out)
            × Memᴰ c out
      ranked [] n = elim n [ ]
      ranked (d ∷ ds) n = (d ∷ dedup_after d ds, refl, dedup_after-keeps c d ds n)
