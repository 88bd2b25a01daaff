-- ===== src/Format/Rate/Normal.antt =====
-- Frame rates are in lowest terms, so that structural equality and `cmp` agree.
use Prim.Native.Nat.{◌∣◌}
use mathlib.Core.WellFounded.{Acc}
use mathlib.Core.Logic.{dif_pos, dif_neg}
use native.Mathlib.Nat
use native.Mathlib.Bridge.{le_prop}
use camera_rs.Base.{
  ℕ, zero, suc, ◌*◌, ◌/◌, ◌%◌, ◌≤◌, ◌<◌, ◌≡◌, ◌↔◌, ◌⊎◌, inl, inr, ◌∙◌, sym, ap, subst, Ordering,
  dec_lt, arith,
}
use camera_rs.Base.Order.{lt_acc}
use camera_rs.Error.{CameraErrorKind, ok, err, new as error}
use camera_rs.Format.Rate.{FrameRate, euclid, common_divisor, mod-lt_divisor, new, cmp}

-- The greatest common divisor by what it divides and what divides it, also after scaling.
record IsGcd (a b g : ℕ) : Type 0 where
  left : g ∣ a
  right : g ∣ b
  scaled : (k c : ℕ) → k ∣ a * c → k ∣ b * c → k ∣ g * c

mod-scaled : (a b k c : ℕ) → k ∣ b * c → k ∣ a * c → k ∣ a % b * c
mod-scaled a b k c hb ha =
    (Nat.dvd-add_iff_right k (Nat.dvd-mul_left_of_dvd k hb (a / b))).1
      (subst (λ t. k ∣ t) (ap (λ t. t * c) (sym (Nat.div-add-mod a b)) ∙ grind arith) ha)

euclid-IsGcd : (a b : ℕ) (w : Acc ◌<◌ b) → IsGcd a b (euclid a b w)
unfolding euclid
euclid-IsGcd a b (Acc.intro _ smaller) = elim (dec_lt 0 b) [
  | yes h ↦
      let g = euclid-IsGcd b (a % b) (smaller (a % b) (mod-lt_divisor a b h)) in
      subst (IsGcd a b) (sym (dif_pos (dec_lt 0 b) le_prop h _ _)) (record {
        left = (Nat.dvd-mod_iff _ g.left).0 g.right;
        right = g.left;
        scaled = λ k c ha hb. g.scaled k c hb (mod-scaled a b k c hb ha);
      })
  | no h ↦ subst (IsGcd a b) (sym (dif_neg (dec_lt 0 b) h _ _)) (record {
    left = Nat.dvd_refl a;
    right = subst (λ t. a ∣ t) (omega arith) (Nat.dvd-zero a);
    scaled = λ k c ha hb. ha;
  })
]

common_divisor-IsGcd : (a b : ℕ) → IsGcd a b (common_divisor a b)
unfolding common_divisor
common_divisor-IsGcd a b = euclid-IsGcd a b (lt_acc b)

-- Both parts are positive, and only 1 divides both, also after scaling.
pub record IsNormal (r : FrameRate) : Type 0 where
  pub numerator_pos : 0 < r.numerator
  pub denominator_pos : 0 < r.denominator
  pub coprime : (k c : ℕ) → k ∣ r.numerator * c → k ∣ r.denominator * c → k ∣ c

module _ (n d : ℕ) (hn : 0 < n) (hd : 0 < d) where
  common_divisor_pos : 0 < common_divisor n d
  common_divisor_pos = Nat.pos_of_dvd_of_pos (common_divisor-IsGcd n d).right hd

  numerator_times : n / common_divisor n d * common_divisor n d ≡ n
  numerator_times = Nat.div-mul_cancel _ (common_divisor-IsGcd n d).left

  denominator_times : d / common_divisor n d * common_divisor n d ≡ d
  denominator_times = Nat.div-mul_cancel _ (common_divisor-IsGcd n d).right

pos_of_product : (q g n : ℕ) → q * g ≡ n → 0 < n → 0 < q
pos_of_product zero g n e h = grind arith
pos_of_product (suc q) g n e h = omega arith

-- A divisor of a scaled quotient divides, times `g`, the scaled product.
scale_back : (k q g n c : ℕ) → q * g ≡ n → k ∣ q * c → k * g ∣ n * c
scale_back k q g n c e h =
    subst (λ t. k * g ∣ t) (omega (arith, ap (λ (t : ℕ). t * c) e)) (Nat.mul-dvd-mul_right k h g)

same_ratio : (a b g n d : ℕ) → a * g ≡ n → b * g ≡ d → a * d ≡ n * b
same_ratio a b g n d p q = omega (arith, ap (λ (t : ℕ). a * t) q, ap (λ (t : ℕ). t * b) p)

pub new-ok :
    (n d : ℕ)
    → 0 < n
    → 0 < d
    → (r : FrameRate) × (new n d ≡ ok r)
      × IsNormal r
      × (r.numerator * d ≡ n * r.denominator)
      × (r.numerator ≤ n)
      × (r.denominator ≤ d)
unfolding new
new-ok n d hn hd = (
  record { numerator = n / g; denominator = d / g },
  ground arith,
  record {
    numerator_pos = pos_of_product _ g n en hn;
    denominator_pos = pos_of_product _ g d ed hd;
    coprime = λ k c ha hb. Nat.dvd_of_mul-dvd-mul_right k (common_divisor_pos n d hn hd) (
        subst (λ t. k * g ∣ t) (Nat.mul_comm g c)
          ((common_divisor-IsGcd n d).scaled (k * g) c (scale_back k (n / g) g n c en ha)
            (scale_back k (d / g) g d c ed hb)));
  },
  same_ratio (n / g) (d / g) g n d en ed,
  omega arith,
  omega arith,
)
  where
    g : ℕ
    g = common_divisor n d

    en : n / g * g ≡ n
    en = numerator_times n d hn hd

    ed : d / g * g ≡ d
    ed = denominator_times n d hn hd

refused : (n d : ℕ) → ((n ≡ 0) ⊎ (d ≡ 0)) → new n d ≡ err (error CameraErrorKind.invalid_argument)
unfolding new
refused n d (inl e) = ground (arith, e)
refused n d (inr e) = ground (arith, e)

-- `FrameRate::new` refuses a pair with a zero, as an invalid argument, and accepts every other: its result
-- is then in lowest terms, keeps the ratio of its arguments and is no greater than they are.
pub new_lem :
    (n d : ℕ)
    → (((n ≡ 0) ⊎ (d ≡ 0)) × (new n d ≡ err (error CameraErrorKind.invalid_argument)))
      ⊎ ((0 < n)
          × (0 < d)
          × ((r : FrameRate) × (new n d ≡ ok r)
              × IsNormal r
              × (r.numerator * d ≡ n * r.denominator)
              × (r.numerator ≤ n)
              × (r.denominator ≤ d)))
new_lem n d = elim (dec_lt 0 n) [
  | no zero_n ↦ inl (inl (omega (arith, zero_n)), refused n d (inl (omega (arith, zero_n))))
  | yes hn ↦ elim (dec_lt 0 d) [
    | no zero_d ↦ inl (inr (omega (arith, zero_d)), refused n d (inr (omega (arith, zero_d))))
    | yes hd ↦ inr (hn, hd, new-ok n d hn hd)
  ]
]

denominator-dvd :
    (x y : FrameRate)
    → IsNormal x
    → x.numerator * y.denominator ≡ y.numerator * x.denominator
    → x.denominator ∣ y.denominator
denominator-dvd x y hx e =
    hx.coprime x.denominator y.denominator
      (subst (λ t. x.denominator ∣ t) (sym e) (Nat.dvd-mul_left x.denominator y.numerator))
      (Nat.dvd-mul_right x.denominator y.denominator)

same_rate :
    (x y : FrameRate)
    → IsNormal x
    → IsNormal y
    → x.numerator * y.denominator ≡ y.numerator * x.denominator
    → x ≡ y
same_rate x y hx hy e = ground (arith, dens, nums)
  where
    dens : x.denominator ≡ y.denominator
    dens = Nat.dvd_antisymm (denominator-dvd x y hx e) (denominator-dvd y x hy (sym e))

    nums : x.numerator ≡ y.numerator
    nums =
        Nat.eq_of_mul-eq-mul_right y.denominator hy.denominator_pos x.numerator y.numerator
          (e ∙ ap (λ t. y.numerator * t) dens)

-- On rates in lowest terms `cmp` answers "equal" exactly for rates that are structurally equal.
pub cmp-eq_iff : (x y : FrameRate) → IsNormal x → IsNormal y → (cmp x y ≡ Ordering.eq) ↔ (x ≡ y)
unfolding cmp
cmp-eq_iff x y hx hy = (
  λ e. same_rate x y hx hy (ground arith),
  λ e. subst (λ z. cmp x z ≡ Ordering.eq) e (ground arith),
)
