-- ===== src/Format/Rate/Tests.antt =====
-- Frame rates at concrete values.
use camera_rs.Base.{◌≡◌, refl}
use camera_rs.Error.{CameraErrorKind, ok, err, new as error}
use camera_rs.Format.Rate.{new, common_divisor}
use Prim.Native.Nat.{◌∣◌}
use camera_rs.Base.{ℕ, Ordering, ◌*◌, ◌≤◌, ◌<◌, ◌↔◌, ◌⊎◌, subst, arith}
use camera_rs.Format.Rate.{FrameRate, cmp}
use camera_rs.Format.Rate.Normal.{IsNormal, new_lem, cmp-eq_iff}

reduces_test : new 60 2 ≡ ok (record { numerator = 30; denominator = 1 })
unfolding new common_divisor
reduces_test = refl

abbrev sixty : ℕ
sixty = 60

abbrev two : ℕ
two = 2

new_example :
    (((sixty ≡ 0) ⊎ (two ≡ 0)) × (new 60 2 ≡ err (error CameraErrorKind.invalid_argument)))
    ⊎ ((0 < sixty)
        × (0 < two)
        × ((r : FrameRate) × (new 60 2 ≡ ok r)
            × IsNormal r
            × (r.numerator * 2 ≡ 60 * r.denominator)
            × (r.numerator ≤ 60)
            × (r.denominator ≤ 2)))
new_example = new_lem sixty two

abbrev per_second : ℕ → FrameRate
per_second n = record { numerator = n; denominator = 1 }

per_second-IsNormal : (n : ℕ) → 0 < n → IsNormal (per_second n)
per_second-IsNormal n h = record {
  numerator_pos = h;
  denominator_pos = omega arith;
  coprime = λ k c p q. subst (λ x. k ∣ x) (omega arith) q;
}

cmp_example : (cmp (per_second 30) (per_second 60) ≡ Ordering.eq) ↔ (per_second 30 ≡ per_second 60)
cmp_example =
    cmp-eq_iff (per_second 30) (per_second 60) (per_second-IsNormal 30 (omega arith))
      (per_second-IsNormal 60 (omega arith))
