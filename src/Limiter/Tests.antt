-- ===== src/Limiter/Tests.antt =====
-- The limiter on a stream at its nominal rate, and on one at twice that rate.
use camera_rs.Base.{ℕ, ◌+◌, ◌*◌, ◌/◌, ◌≤◌, ◌≡◌, refl, List, [], ◌∷◌, arith}
use camera_rs.Limiter.{default_limiter, accept, accepted}
use camera_rs.Limiter.Spacing.{IsClock, accepted_bounded}

abbrev nominal : List ℕ
nominal = 33333000 ∷ 66666000 ∷ 99999000 ∷ []

rounding_does_not_halve : accepted 33333333 nominal default_limiter ≡ 3
unfolding accepted accept
rounding_does_not_halve = refl

halves_sixty :
    accepted 33333333 (16666667 ∷ 33333334 ∷ 50000001 ∷ 66666668 ∷ []) default_limiter ≡ 2
unfolding accepted accept
halves_sixty = refl

accepted_bounded_example :
    33333000 + accepted 33333333 nominal default_limiter * 33333333
    ≤ 99999000 + 33333333 / 20 + 33333333
unfolding IsClock
accepted_bounded_example =
    accepted_bounded 33333333 99999000 33333000 (66666000 ∷ 99999000 ∷ []) (omega arith)
      (omega arith) (omega arith)
      (omega arith, omega arith, (omega arith, omega arith, (omega arith, omega arith, tt)))
