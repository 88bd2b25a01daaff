-- ===== src/Convert/Map.antt =====
-- `NearestMap` of src/conversion.rs: which source column and row a destination pixel shows.
use camera_rs.Base.{
  ℕ, zero, suc, ◌+◌, ◌-◌, ◌*◌, ◌/◌, ◌<◌, ◌≡◌, refl, subst, Bool, true, false, List, [], ◌∷◌, some,
  get_elem?, length, if◌then◌else◌, ◌==◌, ◌&&◌, Bool-cases, inl, inr, arith,
}

-- `f` at `start`, `start + 1`, …: a vector filled by index.
abbrev pub tabulate : (ℕ → ℕ) → ℕ → ℕ → List ℕ
tabulate f start zero = []
tabulate f start (suc n) = f start ∷ tabulate f (suc start) n

pub length-tabulate : (f : ℕ → ℕ) (start n : ℕ) → length (tabulate f start n) ≡ n
length-tabulate f start zero = refl
length-tabulate f start (suc n) = omega (arith, length-tabulate f (suc start) n)

pub get_elem?-tabulate :
    (f : ℕ → ℕ) (start n i : ℕ) → i < n → get_elem? (tabulate f start n) i ≡ some (f (start + i))
get_elem?-tabulate f start zero i h = absurd (omega (arith, h))
get_elem?-tabulate f start (suc n) zero h = rw (start_at start) refl
  where
    start_at : (k : ℕ) → k + 0 ≡ k
    start_at k = omega arith
get_elem?-tabulate f start (suc n) (suc i) h =
    subst (λ k. get_elem? (tabulate f (suc start) n) i ≡ some (f k)) (omega arith)
      (get_elem?-tabulate f (suc start) n i (omega (arith, h)))

abbrev pub AllBelow : ℕ → List ℕ → Type 0
AllBelow b [] = Unit
AllBelow b (x ∷ xs) = (x < b) × AllBelow b xs

-- The source column, or row, of destination `d`.
abbrev pub nearest : ℕ → ℕ → ℕ → ℕ
nearest source destination d = d * source / destination

abbrev pub nearest_row : ℕ → ℕ → Bool → ℕ → ℕ
nearest_row source destination bottom_up d =
    let row = nearest source destination d in if bottom_up then source - row - 1 else row

pub record Dimensions : Type 0 where
  pub source_width : ℕ
  pub source_height : ℕ
  pub destination_width : ℕ
  pub destination_height : ℕ
  pub bottom_up : Bool

abbrev bool_eq : Bool → Bool → Bool
bool_eq true b = b
bool_eq false true = false
bool_eq false false = true

abbrev pub dimensions_eq : Dimensions → Dimensions → Bool
dimensions_eq a b =
    a.source_width == b.source_width
    && a.source_height == b.source_height
    && a.destination_width == b.destination_width
    && a.destination_height == b.destination_height
    && bool_eq a.bottom_up b.bottom_up

pub record NearestMap : Type 0 where
  pub dimensions : Dimensions
  pub x : List ℕ
  pub y : List ℕ

abbrev pub no_dimensions : Dimensions
no_dimensions = record {
  source_width = 0;
  source_height = 0;
  destination_width = 0;
  destination_height = 0;
  bottom_up = false;
}

-- `NearestMap::default()`.
abbrev pub default_map : NearestMap
default_map = record { dimensions = no_dimensions; x = []; y = [] }

abbrev pub columns : Dimensions → List ℕ
columns d = tabulate (nearest d.source_width d.destination_width) 0 d.destination_width

abbrev pub rows : Dimensions → List ℕ
rows d =
    tabulate (nearest_row d.source_height d.destination_height d.bottom_up) 0 d.destination_height

-- `NearestMap::update`: nothing to do for the dimensions it has.
unfoldable pub update : Dimensions → NearestMap → NearestMap
update d m =
    if dimensions_eq m.dimensions d then m else record { dimensions = d; x = columns d; y = rows d }

-- The vectors are those of the dimensions.
pub record IsCurrent (m : NearestMap) : Type 0 where
  pub columns_current : m.x ≡ columns m.dimensions
  pub rows_current : m.y ≡ rows m.dimensions

pub default_map-IsCurrent : IsCurrent default_map
default_map-IsCurrent = record { columns_current = refl; rows_current = refl }

bool_eq-eq : (a b : Bool) → bool_eq a b ≡ true → a ≡ b
bool_eq-eq true true e = refl
bool_eq-eq true false e = cc
bool_eq-eq false true e = cc
bool_eq-eq false false e = refl

dimensions_eq-eq : (a b : Dimensions) → dimensions_eq a b ≡ true → a ≡ b
dimensions_eq-eq a b e =
    let parts : (a.source_width ≡ b.source_width)
        × (a.source_height ≡ b.source_height)
        × (a.destination_width ≡ b.destination_width)
        × (a.destination_height ≡ b.destination_height)
        × (bool_eq a.bottom_up b.bottom_up ≡ true) =
      ground (arith, e) in
    rw (parts.0, parts.1, parts.2, parts.3, bool_eq-eq a.bottom_up b.bottom_up parts.4) refl

-- Whatever dimensions a map was last used for, after an update its vectors are those of the new dimensions,
-- computed afresh: the cached ones are kept only where they are the same.
pub update-IsCurrent :
    (d : Dimensions) (m : NearestMap)
    → IsCurrent m
    → (update d m).dimensions ≡ d × IsCurrent (update d m)
unfolding update
update-IsCurrent d m c = elim (Bool-cases (dimensions_eq m.dimensions d)) [
  | inl same ↦ rw same (dimensions_eq-eq m.dimensions d same, c)
  | inr other ↦ rw other (refl, record { columns_current = refl; rows_current = refl })
]

nearest-lt : (d s w : ℕ) → d < w → 0 < s → nearest s w d < s
nearest-lt d s w h p = grind arith

tabulate-AllBelow :
    (f : ℕ → ℕ) (b start n : ℕ)
    → ((d : ℕ) → d < start + n → f d < b)
    → AllBelow b (tabulate f start n)
tabulate-AllBelow f b start zero h = tt
tabulate-AllBelow f b start (suc n) h =
    (h start (omega arith), tabulate-AllBelow f b (suc start) n (λ d lt. h d (omega (arith, lt))))

-- Every destination column shows a column of the source, and every destination row one of its rows, also
-- in an image that is stored bottom-up.
pub columns-AllBelow : (d : Dimensions) → 0 < d.source_width → AllBelow d.source_width (columns d)
columns-AllBelow d p =
    tabulate-AllBelow _ d.source_width 0 d.destination_width
      (λ i lt. nearest-lt i d.source_width d.destination_width (omega (arith, lt)) p)

pub rows-AllBelow : (d : Dimensions) → 0 < d.source_height → AllBelow d.source_height (rows d)
rows-AllBelow d p =
    tabulate-AllBelow _ d.source_height 0 d.destination_height
      (λ i lt. below d.bottom_up i (omega (arith, lt)))
  where
    below :
        (b : Bool) (i : ℕ)
        → i < d.destination_height
        → nearest_row d.source_height d.destination_height b i < d.source_height
    below false i lt = nearest-lt i d.source_height d.destination_height lt p
    below true i lt = omega (arith, p)
