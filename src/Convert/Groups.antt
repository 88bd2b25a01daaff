-- ===== src/Convert/Groups.antt =====
-- The copies by groups of pixels in src/conversion.rs are the nearest-neighbour map.
use camera_rs.Base.{
  ℕ, zero, suc, ◌+◌, ◌-◌, ◌*◌, ◌/◌, ◌≤◌, ◌<◌, ◌≡◌, refl, sym, ap, ap₂, ◌∙◌, Bool, ◌&&◌, List, [],
  ◌∷◌, ◌++◌, Option, none, some, get_elem?, length, take, drop, min, ◌==◌, is_multiple_of,
  Bool-cases, inl, inr, arith,
}
use mathlib.Core.List.{append_assoc}
use camera_rs.Convert.Map.{tabulate, nearest}
use camera_rs.Convert.Row.{
  all_three, pixel_at, prepend, map_pixels, copy_groups, resize_rgb_row_nearest,
}

-- `3 * p`, by steps of three.
abbrev triple : ℕ → ℕ
triple zero = 0
triple (suc p) = suc (suc (suc (triple p)))

triple-eq : (p : ℕ) → triple p ≡ p * 3
triple-eq zero = omega arith
triple-eq (suc p) = omega (arith, triple-eq p)

abbrev run : ℕ → ℕ → List ℕ
run x p = tabulate (λ i. i) x p

module _ {A : Type 0} where
  drop-nil : (n : ℕ) → drop {A = A} n [] ≡ []
  drop-nil zero = refl
  drop-nil (suc n) = refl

  take-nil : (n : ℕ) → take {A = A} n [] ≡ []
  take-nil zero = refl
  take-nil (suc n) = refl

  drop-drop : (m n : ℕ) (xs : List A) → drop m (drop n xs) ≡ drop (n + m) xs
  drop-drop m zero xs = ap (λ k. drop k xs) (left m)
    where
      left : (m : ℕ) → m ≡ 0 + m
      left m = omega arith
  drop-drop m (suc n) [] = drop-nil m ∙ sym (drop-nil (suc n + m))
  drop-drop m (suc n) (x ∷ xs) = drop-drop m n xs ∙ ap (λ k. drop k (x ∷ xs)) (shift n m)
    where
      shift : (n m : ℕ) → suc (n + m) ≡ suc n + m
      shift n m = omega arith

  drop-after_3 : (n : ℕ) (xs : List A) → drop n (drop 3 xs) ≡ drop (suc (suc (suc n))) xs
  drop-after_3 n [] = drop-nil n
  drop-after_3 n (x ∷ []) = drop-nil n
  drop-after_3 n (x ∷ y ∷ []) = drop-nil n
  drop-after_3 n (x ∷ y ∷ z ∷ xs) = refl

  take-after_3 :
      (n : ℕ) (xs : List A) → take 3 xs ++ take n (drop 3 xs) ≡ take (suc (suc (suc n))) xs
  take-after_3 n [] = take-nil n
  take-after_3 n (x ∷ []) = ap (λ ys. x ∷ ys) (take-nil n)
  take-after_3 n (x ∷ y ∷ []) = ap (λ ys. x ∷ y ∷ ys) (take-nil n)
  take-after_3 n (x ∷ y ∷ z ∷ xs) = refl

  pub length-drop : (n : ℕ) (xs : List A) → length (drop n xs) ≡ length xs - n
  length-drop zero xs = omega arith
  length-drop (suc n) [] = omega arith
  length-drop (suc n) (x ∷ xs) = omega (arith, length-drop n xs)

prepend-nothing : (o : Option (List ℕ)) → prepend (some []) o ≡ o
prepend-nothing none = refl
prepend-nothing (some xs) = refl

prepend-prepend :
    (a b : List ℕ) (o : Option (List ℕ))
    → prepend (some a) (prepend (some b) o) ≡ prepend (some (a ++ b)) o
prepend-prepend a b none = refl
prepend-prepend a b (some xs) = ap some (sym (append_assoc a b xs))

pixel_at-take :
    (source : List ℕ) (i : ℕ)
    → i + 3 ≤ length source
    → pixel_at source i ≡ some (take 3 (drop i source))
unfolding pixel_at
pixel_at-take [] i h = absurd (omega (arith, h))
pixel_at-take (r ∷ []) zero h = absurd (omega (arith, h))
pixel_at-take (r ∷ g ∷ []) zero h = absurd (omega (arith, h))
pixel_at-take (r ∷ g ∷ b ∷ rest) zero h = refl
pixel_at-take (r ∷ rest) (suc i) h =
    ap₂ (all_three (get_elem? rest i)) (ap (get_elem? (r ∷ rest)) (one_on i))
      (ap (get_elem? (r ∷ rest)) (two_on i))
    ∙ pixel_at-take rest i (omega (arith, h))
  where
    one_on : (i : ℕ) → suc i + 1 ≡ suc (i + 1)
    one_on i = omega arith

    two_on : (i : ℕ) → suc i + 2 ≡ suc (i + 2)
    two_on i = omega arith

pub map_pixels-cons :
    (source destination : List ℕ) (x : ℕ) (xs : List ℕ)
    → 3 ≤ length destination
    → map_pixels source destination (x ∷ xs)
      ≡ prepend (pixel_at source (x * 3)) (map_pixels source (drop 3 destination) xs)
unfolding map_pixels
map_pixels-cons source [] x xs h = absurd (omega (arith, h))
map_pixels-cons source (a ∷ []) x xs h = absurd (omega (arith, h))
map_pixels-cons source (a ∷ b ∷ []) x xs h = absurd (omega (arith, h))
map_pixels-cons source (a ∷ b ∷ c ∷ rest) x xs h = refl

-- A run of columns copies a run of bytes.
map_pixels-run :
    (source destination : List ℕ) (x p : ℕ) (xs : List ℕ)
    → (x + p) * 3 ≤ length source
    → triple p ≤ length destination
    → map_pixels source destination (run x p ++ xs)
      ≡ prepend
          (some (take (triple p) (drop (x * 3) source)))
          (map_pixels source (drop (triple p) destination) xs)
map_pixels-run source destination x zero xs h room =
    sym (prepend-nothing (map_pixels source destination xs))
map_pixels-run source destination x (suc p) xs h room =
    let rest = map_pixels source (drop (triple p) (drop 3 destination)) xs in
    map_pixels-cons source destination x (run (suc x) p ++ xs) (omega (arith, room))
    ∙ ap₂ prepend (pixel_at-take source (x * 3) (omega (arith, h))) (
        map_pixels-run source (drop 3 destination) (suc x) p xs (omega (arith, h))
          (omega (arith, room, length-drop 3 destination)))
    ∙ prepend-prepend (take 3 (drop (x * 3) source)) (take (triple p) (drop (suc x * 3) source))
        rest
    ∙ ap₂ (λ bytes left. prepend (some bytes) (map_pixels source left xs))
        (ap (λ k. take 3 (drop (x * 3) source) ++ take (triple p) k)
            (ap (λ k. drop k source) (next x) ∙ sym (drop-drop 3 (x * 3) source))
          ∙ take-after_3 (triple p) (drop (x * 3) source))
        (drop-after_3 (triple p) destination)
  where
    next : (x : ℕ) → suc x * 3 ≡ x * 3 + 3
    next x = omega arith

tabulate-split :
    (f : ℕ → ℕ) (start m n : ℕ)
    → tabulate f start (m + n) ≡ tabulate f start m ++ tabulate f (start + m) n
tabulate-split f start zero n = ap₂ (λ s k. tabulate f s k) (at start) (count n)
  where
    at : (s : ℕ) → s ≡ s + 0
    at s = omega arith

    count : (k : ℕ) → 0 + k ≡ k
    count k = omega arith
tabulate-split f start (suc m) n =
    ap (λ k. tabulate f start k) (more m n)
    ∙ ap (λ ys. f start ∷ ys)
        (tabulate-split f (suc start) m n
          ∙ ap (λ k. tabulate f (suc start) m ++ tabulate f k n) (on start m))
  where
    more : (m n : ℕ) → suc m + n ≡ suc (m + n)
    more m n = omega arith

    on : (s m : ℕ) → suc s + m ≡ s + suc m
    on s m = omega arith

tabulate-run :
    (f : ℕ → ℕ) (start x n : ℕ)
    → ((r : ℕ) → r < n → f (start + r) ≡ x + r)
    → tabulate f start n ≡ run x n
tabulate-run f start x zero e = refl
tabulate-run f start x (suc n) e =
    ap₂ (λ a rest. a ∷ rest) (ap f (at start) ∙ e 0 (omega arith) ∙ sym (at x))
      (tabulate-run f (suc start) (suc x) n
        (λ r lt. ap f (on start r) ∙ e (suc r) (omega (arith, lt)) ∙ sym (on x r)))
  where
    at : (s : ℕ) → s ≡ s + 0
    at s = omega arith

    on : (s r : ℕ) → suc s + r ≡ s + suc r
    on s r = omega arith

-- Groups of `q` source pixels of which the first `p` are shown.
module _ (p q : ℕ) (few : p ≤ q) (f : ℕ → ℕ)
    (agrees : (o r : ℕ) → r < p → f (o * p + r) ≡ o * q + r) where
  copy_groups-eq :
      (source destination : List ℕ) (o k : ℕ)
      → (o + k) * q * 3 ≤ length source
      → length destination ≡ k * triple p
      → map_pixels source destination (tabulate f (o * p) (k * p))
        ≡ some (copy_groups (q * 3) (triple p) k (drop (o * q * 3) source) destination)
  unfolding copy_groups map_pixels
  copy_groups-eq source [] o zero h room =
      ap (λ n. map_pixels source [] (tabulate f (o * p) n)) (nothing p)
    where
      nothing : (p : ℕ) → zero * p ≡ 0
      nothing p = omega arith
  copy_groups-eq source (b ∷ bs) o zero h room = absurd (grind (arith, room))
  copy_groups-eq source destination o (suc k) h room =
      ap (map_pixels source destination) (
        ap (tabulate f (o * p)) (one_more k p)
        ∙ tabulate-split f (o * p) p (k * p)
        ∙ ap₂ (λ xs s. xs ++ tabulate f s (k * p)) (tabulate-run f (o * p) (o * q) p (agrees o))
            (on o p))
      ∙ map_pixels-run source destination (o * q) p (tabulate f (suc o * p) (k * p))
          (grind (arith, h, few)) (grind (arith, room))
      ∙ ap (prepend (some (take (triple p) (drop (o * q * 3) source)))) (
          copy_groups-eq source (drop (triple p) destination) (suc o) k (grind (arith, h))
            (grind (arith, room, length-drop (triple p) destination)))
      ∙ ap
          (λ s. some (
            take (triple p) (drop (o * q * 3) source)
            ++ copy_groups (q * 3) (triple p) k s (drop (triple p) destination)))
          (ap (λ n. drop n source) (bytes o) ∙ sym (drop-drop (q * 3) (o * q * 3) source))
    where
      one_more : (k p : ℕ) → suc k * p ≡ p + k * p
      one_more k p = grind arith

      on : (o p : ℕ) → o * p + p ≡ suc o * p
      on o p = grind arith

      bytes : (o : ℕ) → suc o * q * 3 ≡ o * q * 3 + q * 3
      bytes o = grind arith

quotient-eq : (a q w : ℕ) → 0 < w → q * w ≤ a → a < q * w + w → a / w ≡ q
quotient-eq a q w p lo hi = grind arith

thirds-agree : (m o r : ℕ) → 0 < m → r < 2 → nearest (m * 3) (m * 2) (o * 2 + r) ≡ o * 3 + r
thirds-agree m o zero p h = quotient-eq _ _ _ (omega (arith, p)) (grind arith) (grind (arith, p))
thirds-agree m o (suc zero) p h =
    quotient-eq _ _ _ (omega (arith, p)) (grind arith) (grind (arith, p))
thirds-agree m o (suc (suc r)) p h = absurd (omega (arith, h))

quarters-agree : (m o r : ℕ) → 0 < m → r < 3 → nearest (m * 4) (m * 3) (o * 3 + r) ≡ o * 4 + r
quarters-agree m o zero p h = quotient-eq _ _ _ (omega (arith, p)) (grind arith) (grind (arith, p))
quarters-agree m o (suc zero) p h =
    quotient-eq _ _ _ (omega (arith, p)) (grind arith) (grind (arith, p))
quarters-agree m o (suc (suc zero)) p h =
    quotient-eq _ _ _ (omega (arith, p)) (grind arith) (grind (arith, p))
quarters-agree m o (suc (suc (suc r))) p h = absurd (omega (arith, h))

-- All groups of a row, from its first pixel on.
thirds-eq :
    (source destination : List ℕ) (m : ℕ)
    → 0 < m
    → length source ≡ m * 3 * 3
    → length destination ≡ m * 2 * 3
    → map_pixels source destination (tabulate (nearest (m * 3) (m * 2)) 0 (m * 2))
      ≡ some (copy_groups 9 6 m source destination)
thirds-eq source destination m p long wide =
    copy_groups-eq 2 3 (omega arith) (nearest (m * 3) (m * 2)) (λ o r lt. thirds-agree m o r p lt)
      source destination 0 m (omega (arith, long)) (omega (arith, wide))

quarters-eq :
    (source destination : List ℕ) (m : ℕ)
    → 0 < m
    → length source ≡ m * 4 * 3
    → length destination ≡ m * 3 * 3
    → map_pixels source destination (tabulate (nearest (m * 4) (m * 3)) 0 (m * 3))
      ≡ some (copy_groups 12 9 m source destination)
quarters-eq source destination m p long wide =
    copy_groups-eq 3 4 (omega arith) (nearest (m * 4) (m * 3)) (λ o r lt. quarters-agree m o r p lt)
      source destination 0 m (omega (arith, long)) (omega (arith, wide))

-- With the columns of a nearest-neighbour map, for a row of `sw` pixels and a destination of `dw`, the copies
-- by groups (two of three pixels, three of four) and the loop over the map give the same bytes: which way
-- the row takes does not show.
pub resize_rgb_row_nearest-eq :
    (source destination : List ℕ) (sw dw : ℕ)
    → 0 < dw
    → length source ≡ sw * 3
    → length destination ≡ dw * 3
    → let xs = tabulate (nearest sw dw) 0 dw in
      resize_rgb_row_nearest source destination xs ≡ map_pixels source destination xs
unfolding resize_rgb_row_nearest
resize_rgb_row_nearest-eq source destination sw dw some_pixel long wide =
    let xs = tabulate (nearest sw dw) 0 dw in
    let thirds : Bool =
      is_multiple_of (length source / 3) 3
      && length destination / 3 * 3 == length source / 3 * 2
      && length xs == length destination / 3 in
    let quarters : Bool =
      is_multiple_of (length source / 3) 4
      && length destination / 3 * 4 == length source / 3 * 3
      && length xs == length destination / 3 in
    elim (Bool-cases thirds) [
      | inl e ↦ rw e (
          let facts : (sw ≡ sw / 3 * 3)
              × (dw ≡ sw / 3 * 2)
              × (0 < sw / 3)
              × (min (length source / 9) (length destination / 6) ≡ sw / 3) =
            ground (arith, e, long, wide, some_pixel) in
          as_thirds (sw / 3) facts.0 facts.1 facts.2 facts.3)
      | inr other ↦ rw other (elim (Bool-cases quarters) [
        | inl e ↦ rw e (
            let facts : (sw ≡ sw / 4 * 4)
                × (dw ≡ sw / 4 * 3)
                × (0 < sw / 4)
                × (min (length source / 12) (length destination / 9) ≡ sw / 4) =
              ground (arith, e, long, wide, some_pixel) in
            as_quarters (sw / 4) facts.0 facts.1 facts.2 facts.3)
        | inr mapped ↦ rw mapped refl
      ])
    ]
  where
    as_thirds :
        (m : ℕ)
        → sw ≡ m * 3
        → dw ≡ m * 2
        → 0 < m
        → min (length source / 9) (length destination / 6) ≡ m
        → some
            (copy_groups 9 6 (min (length source / 9) (length destination / 6)) source destination)
          ≡ map_pixels source destination (tabulate (nearest sw dw) 0 dw)
    as_thirds m s d p groups =
        ap (λ k. some (copy_groups 9 6 k source destination)) groups
        ∙ sym (thirds-eq source destination m p (omega (arith, long, s)) (omega (arith, wide, d)))
        ∙ ap₂ (λ a b. map_pixels source destination (tabulate (nearest a b) 0 b)) (sym s) (sym d)

    as_quarters :
        (m : ℕ)
        → sw ≡ m * 4
        → dw ≡ m * 3
        → 0 < m
        → min (length source / 12) (length destination / 9) ≡ m
        → some (
            copy_groups 12 9 (min (length source / 12) (length destination / 9)) source destination)
          ≡ map_pixels source destination (tabulate (nearest sw dw) 0 dw)
    as_quarters m s d p groups =
        ap (λ k. some (copy_groups 12 9 k source destination)) groups
        ∙ sym (quarters-eq source destination m p (omega (arith, long, s)) (omega (arith, wide, d)))
        ∙ ap₂ (λ a b. map_pixels source destination (tabulate (nearest a b) 0 b)) (sym s) (sym d)
