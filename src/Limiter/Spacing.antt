-- ===== src/Limiter/Spacing.antt =====
-- How often the limiter of src/utils/frame_rate.rs lets a timestamp pass.
use camera_rs.Base.{
  ℕ, suc, ◌+◌, ◌*◌, ◌/◌, ◌^◌, ◌≤◌, ◌<◌, ◌≡◌, ◌⊎◌, refl, List, [], ◌∷◌, some, true, false, ltb, ◌==◌,
  ◌||◌, Bool-cases, inl, inr, arith, saturating_add, if◌then◌else◌,
}
use camera_rs.Limiter.{default_limiter, advance, accept, accepted}

-- The timestamps never step back behind `from`, and none exceeds `bound`.
unfoldable pub IsClock : ℕ → ℕ → List ℕ → Type 0
IsClock from bound [] = Unit
IsClock from bound (t ∷ ts) = (from ≤ t) × (t ≤ bound) × IsClock t bound ts

accept_lem :
    (interval t next last : ℕ)
    → 0 < interval
    → 0 < t
    → last ≤ t
    → accept t interval (record { next_ns = some next; last_ns = last }) ≡ (
        if ltb (saturating_add t (interval / 20)) next
        then (false, record { next_ns = some next; last_ns = t })
        else (true, record { next_ns = some (advance t interval next); last_ns = t }))
unfolding accept
accept_lem interval t next last hi ht order =
    let started : (interval == 0 || t == 0) ≡ false = ground arith in
    let forward : ltb t last ≡ false = ground arith in rw (started, forward) refl

-- An accepted timestamp has reached the phase but for the tolerance, and moves it on by an interval.
advance-ge :
    (interval bound t next : ℕ)
    → t ≤ bound
    → bound + 2 * interval < 2 ^ 64
    → ltb (saturating_add t (interval / 20)) next ≡ false
    → (next ≤ bound + interval / 20) × (next + interval ≤ advance t interval next)
advance-ge interval bound t next ht small e =
    let tolerance : interval / 20 ≤ interval = omega arith in
    let reached : next ≤ t + interval / 20 = ground (arith, tolerance) in
    (omega arith, ground (arith, tolerance, reached))

-- With the phase at `next`, `k` further frames need the clock to have come to `next + (k - 1) * interval`,
-- less the tolerance.
accepted-after :
    (interval bound : ℕ) (ts : List ℕ) (next last : ℕ)
    → 0 < interval
    → 0 < last
    → bound + 2 * interval < 2 ^ 64
    → IsClock last bound ts
    → let k = accepted interval ts (record { next_ns = some next; last_ns = last }) in
      (k ≡ 0) ⊎ (next + k * interval ≤ bound + interval / 20 + interval)
unfolding accepted IsClock
accepted-after interval bound [] next last hi hl small c = inl refl
accepted-after interval bound (t ∷ ts) next last hi hl small (order, below, c) =
    elim (Bool-cases (ltb (saturating_add t (interval / 20)) next)) [
      | inl early ↦
          rw (accept_lem interval t next last hi (omega arith) order, early)
            (accepted-after interval bound ts next t hi (omega arith) small c)
      | inr due ↦
          let (reached, moved) = advance-ge interval bound t next below small due in
          rw (accept_lem interval t next last hi (omega arith) order, due)
            (inr (
              count
                (accepted interval ts
                  (record { next_ns = some (advance t interval next); last_ns = t }))
                reached moved
                (accepted-after interval bound ts (advance t interval next) t hi (omega arith) small
                  c)))
    ]
  where
    count :
        (k : ℕ)
        → next ≤ bound + interval / 20
        → next + interval ≤ advance t interval next
        → (k ≡ 0) ⊎ (advance t interval next + k * interval ≤ bound + interval / 20 + interval)
        → next + suc k * interval ≤ bound + interval / 20 + interval
    count k reached moved (inl last_one) = rw last_one (omega (arith, reached))
    count k reached moved (inr more) = grind (arith, reached, moved, more)

-- A fresh limiter that meets a clock that does not step back, from `first` to at most `bound`, lets at
-- most one frame more pass than the intervals between them, with a twentieth of an interval to spare.
-- (No sum exceeds a `u64`.)
pub accepted_bounded :
    (interval bound first : ℕ) (ts : List ℕ)
    → 0 < interval
    → 0 < first
    → bound + 2 * interval < 2 ^ 64
    → IsClock first bound (first ∷ ts)
    → first + accepted interval (first ∷ ts) default_limiter * interval
      ≤ bound + interval / 20 + interval
unfolding accepted accept IsClock
accepted_bounded interval bound first ts hi hf small (_, below, c) =
    rw (accept_first, plain)
      (total (accepted interval ts (record { next_ns = some (first + interval); last_ns = first }))
        (accepted-after interval bound ts (first + interval) first hi hf small c))
  where
    plain : saturating_add first interval ≡ first + interval
    plain = ground (arith, below, small)

    accept_first :
        accept first interval default_limiter
        ≡ (true, record { next_ns = some (saturating_add first interval); last_ns = first })
    accept_first =
        let started : (interval == 0 || first == 0) ≡ false = ground arith in
        let forward : ltb first 0 ≡ false = ground arith in rw (accept, started, forward) refl

    total :
        (k : ℕ)
        → (k ≡ 0) ⊎ ((first + interval) + k * interval ≤ bound + interval / 20 + interval)
        → first + suc k * interval ≤ bound + interval / 20 + interval
    total k (inl last_one) = rw last_one (omega (arith, below))
    total k (inr more) = grind (arith, more)
