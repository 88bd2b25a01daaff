-- ===== src/Hub/Reports/Quantile.antt =====
-- The quantiles that `metrics` of src/frame.rs reports are in their order.
use camera_rs.Base.{
  ℕ, zero, suc, ◌≤◌, ◌<◌, List, [], ◌∷◌, length, get_or, leb, All, All-map, Bool-cases, inl, inr,
  arith, leb→le,
}
use camera_rs.Hub.State.{Hub}
use camera_rs.Hub.Reports.{insert, sort, quantile, metrics}

pub IsSorted : List ℕ → Type 0
IsSorted [] = Unit
IsSorted (x ∷ xs) = All (λ y. x ≤ y) xs × IsSorted xs

insert-All : (x y : ℕ) (ys : List ℕ) → x ≤ y → All (λ z. x ≤ z) ys → All (λ z. x ≤ z) (insert y ys)
unfolding insert
insert-All x y [] q a = (q, tt)
insert-All x y (z ∷ zs) q a = elim (Bool-cases (leb y z)) [
  | inl le ↦ rw le (q, a)
  | inr gt ↦ rw gt (a.0, insert-All x y zs q a.1)
]

insert-IsSorted : (x : ℕ) (ys : List ℕ) → IsSorted ys → IsSorted (insert x ys)
unfolding insert IsSorted
insert-IsSorted x [] s = (tt, tt)
insert-IsSorted x (y ∷ ys) s = elim (Bool-cases (leb x y)) [
  | inl le ↦
      let first : x ≤ y = leb→le x y le in
      rw le ((first, All-map (λ z. y ≤ z) (λ z. x ≤ z) ys (λ z q. omega arith) s.0), s)
  | inr gt ↦ rw gt (insert-All y x ys (ground arith) s.0, insert-IsSorted x ys s.1)
]

pub sort-IsSorted : (xs : List ℕ) → IsSorted (sort xs)
unfolding sort IsSorted
sort-IsSorted [] = tt
sort-IsSorted (x ∷ xs) = insert-IsSorted x (sort xs) (sort-IsSorted xs)

get_or-All : (x : ℕ) (xs : List ℕ) (i : ℕ) → i < length xs → All (λ y. x ≤ y) xs → x ≤ get_or xs i 0
get_or-All x [] i q a = omega arith
get_or-All x (y ∷ ys) zero q a = a.0
get_or-All x (y ∷ ys) (suc i) q a = get_or-All x ys i (omega arith) a.1

get_or_mono :
    (xs : List ℕ) (i j : ℕ) → IsSorted xs → i ≤ j → j < length xs → get_or xs i 0 ≤ get_or xs j 0
unfolding IsSorted
get_or_mono [] i j s q r = omega arith
get_or_mono (x ∷ xs) zero zero s q r = omega arith
get_or_mono (x ∷ xs) zero (suc j) s q r = get_or-All x xs j (omega arith) s.0
get_or_mono (x ∷ xs) (suc i) zero s q r = omega arith
get_or_mono (x ∷ xs) (suc i) (suc j) s q r = get_or_mono xs i j s.1 (omega arith) (omega arith)

pub quantile_mono : (xs : List ℕ) → IsSorted xs → quantile xs 50 ≤ quantile xs 95
unfolding quantile
quantile_mono [] s = omega arith
quantile_mono (x ∷ xs) s = get_or_mono (x ∷ xs) _ _ s (omega arith) (omega arith)

-- The median conversion time that `metrics` reports is at most the 95th percentile it reports.
pub metrics-ordered : (h : Hub) → (metrics h).conversion_p50_ns ≤ (metrics h).conversion_p95_ns
unfolding metrics
metrics-ordered h =
    quantile_mono (sort h.pool.conversion_samples) (sort-IsSorted h.pool.conversion_samples)
