-- ===== src/Hub/World/Count.antt =====
-- How often a buffer or an index is in use: sums over slots and leases.
use camera_rs.Base.{
  ℕ, zero, suc, ◌+◌, ◌≤◌, ◌≡◌, refl, Bool, true, false, List, [], ◌∷◌, ◌++◌, Option, none, some,
  get_elem?, set, remove_at, retain, ◌==◌, is_some_and, ltb, arith, Bool-cases, inl, inr, ap,
}
use camera_rs.Hub.State.{Hub, Slot, Storage, buffer_of}
use camera_rs.Hub.Reserve.{Lease}
use camera_rs.Hub.World.{OpenLease}

abbrev pub one_if : Bool → ℕ
one_if true = 1
one_if false = 0

module _ {ℓ} {A : Type ℓ} (p : A → Bool) where
  abbrev pub count_if : List A → ℕ
  count_if [] = 0
  count_if (x ∷ xs) = one_if (p x) + count_if xs

  abbrev weight : Option A → ℕ
  weight none = 0
  weight (some y) = one_if (p y)

  pub count_if-set :
      (xs : List A) (i : ℕ) (old new : A)
      → get_elem? xs i ≡ some old
      → count_if (set xs i new) + one_if (p old) ≡ count_if xs + one_if (p new)
  count_if-set [] i old new e = absurd (cc e)
  count_if-set (x ∷ xs) zero old new e =
      let same : one_if (p x) ≡ one_if (p old) = ap weight e in omega (arith, same)
  count_if-set (x ∷ xs) (suc i) old new e = omega (arith, count_if-set xs i old new e)

  pub count_if-remove_at :
      (xs : List A) (i : ℕ) (old : A)
      → get_elem? xs i ≡ some old
      → count_if (remove_at xs i) + one_if (p old) ≡ count_if xs
  count_if-remove_at [] i old e = absurd (cc e)
  count_if-remove_at (x ∷ xs) zero old e =
      let same : one_if (p x) ≡ one_if (p old) = ap weight e in omega (arith, same)
  count_if-remove_at (x ∷ xs) (suc i) old e = omega (arith, count_if-remove_at xs i old e)

  pub count_if-append : (xs ys : List A) → count_if (xs ++ ys) ≡ count_if xs + count_if ys
  count_if-append [] ys = omega arith
  count_if-append (x ∷ xs) ys = omega (arith, count_if-append xs ys)

  pub count_if-retain-le : (q : A → Bool) (xs : List A) → count_if (retain q xs) ≤ count_if xs
  count_if-retain-le q [] = omega arith
  count_if-retain-le q (x ∷ xs) = elim (Bool-cases (q x)) [
    | inl kept ↦ rw kept (omega (arith, count_if-retain-le q xs))
    | inr gone ↦ rw gone (omega (arith, count_if-retain-le q xs))
  ]

  pub one_if-le-count_if :
      (xs : List A) (i : ℕ) (x : A) → get_elem? xs i ≡ some x → one_if (p x) ≤ count_if xs
  one_if-le-count_if xs i x e = omega (arith, count_if-remove_at xs i x e)

  pub count_if-two-le :
      (xs : List A) (i j : ℕ) (x y : A)
      → get_elem? xs i ≡ some x
      → get_elem? xs j ≡ some y
      → (i ≡ j → ⊥)
      → one_if (p x) + one_if (p y) ≤ count_if xs
  count_if-two-le [] i j x y e d other = absurd (cc e)
  count_if-two-le (z ∷ zs) zero zero x y e d other = absurd (other refl)
  count_if-two-le (z ∷ zs) zero (suc j) x y e d other =
      let first : one_if (p z) ≡ one_if (p x) = ap weight e in
      omega (arith, first, one_if-le-count_if zs j y d)
  count_if-two-le (z ∷ zs) (suc i) zero x y e d other =
      let first : one_if (p z) ≡ one_if (p y) = ap weight d in
      omega (arith, first, one_if-le-count_if zs i x e)
  count_if-two-le (z ∷ zs) (suc i) (suc j) x y e d other =
      omega (arith, count_if-two-le zs i j x y e d (λ same. other (ap suc same)))

-- The slot holds buffer `b`; the lease has buffer `b`.
abbrev pub slot_has : ℕ → Slot → Bool
slot_has b s = is_some_and s.stored (λ d. buffer_of d == b)

abbrev pub lease_has : ℕ → OpenLease → Bool
lease_has b o = buffer_of o.lease.storage == b

-- How many slots hold buffer `b`, and whether the hub has ever made it.
abbrev pub uses : ℕ → Hub → ℕ
uses b h = count_if (slot_has b) h.pool.slots

abbrev pub made : ℕ → Hub → ℕ
made b h = one_if (ltb b h.next_buffer)

abbrev pub stored_has : ℕ → Option Storage → ℕ
stored_has b o = one_if (is_some_and o (λ d. buffer_of d == b))

abbrev pub granted_has : ℕ → Option Lease → ℕ
granted_has b none = 0
granted_has b (some l) = one_if (buffer_of l.storage == b)
