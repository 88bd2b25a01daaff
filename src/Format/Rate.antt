-- ===== src/Format/Rate.antt =====
-- `FrameRate` of src/format.rs: a positive rational, kept in lowest terms by `new`.
-- `u32` values are numbers below 2 ^ 32; the cross products of `cmp` are `u64` and cannot overflow.
pub mod Normal
mod Tests
use mathlib.Core.Logic.{dite}
use mathlib.Core.WellFounded.{Acc}
use camera_rs.Base.{
  ℕ, ◌*◌, ◌/◌, ◌%◌, ◌<◌, ◌||◌, Bool, true, false, compare, Ordering, ◌==◌, if◌then◌else◌, dec_lt,
  arith,
}
use camera_rs.Base.Order.{lt_acc}
use camera_rs.Error.{CameraErrorKind, CameraResult, ok, err, new as error}

pub record FrameRate : Type 0 where
  pub numerator : ℕ
  pub denominator : ℕ

pub mod-lt_divisor : (a b : ℕ) → 0 < b → a % b < b
mod-lt_divisor a b h = omega arith

-- `while b != 0 { r = a % b; a = b; b = r }`: the final `a`.
euclid : ℕ → (right : ℕ) → Acc ◌<◌ right → ℕ
euclid left right (Acc.intro _ below) =
    dite (dec_lt 0 right)
      (λ nonzero.
        euclid right (left % right) (below (left % right) (mod-lt_divisor left right nonzero)))
      (λ _. left)

unfoldable pub common_divisor : ℕ → ℕ → ℕ
unfolding euclid lt_acc dec_lt
common_divisor a b = euclid a b (lt_acc b)

-- `FrameRate::new`.
unfoldable pub new : ℕ → ℕ → CameraResult FrameRate
unfolding error
new numerator denominator =
    if numerator == 0 || denominator == 0
    then err (error CameraErrorKind.invalid_argument)
    else ok (record {
      numerator = numerator / common_divisor numerator denominator;
      denominator = denominator / common_divisor numerator denominator;
    })

-- `Ord::cmp`.
unfoldable pub cmp : FrameRate → FrameRate → Ordering
cmp x y = compare (x.numerator * y.denominator) (y.numerator * x.denominator)

-- The tests `minimum > preferred` and `rate >= minimum` of the clients.
abbrev pub rate_lt : FrameRate → FrameRate → Bool
rate_lt x y = elim (cmp x y) [ Ordering.lt ↦ true | _ ↦ false ]

abbrev pub rate_le : FrameRate → FrameRate → Bool
rate_le x y = elim (cmp x y) [ Ordering.gt ↦ false | _ ↦ true ]

-- `FrameRate::default`.
abbrev pub default : FrameRate
default = record { numerator = 30; denominator = 1 }
