-- ===== src/Convert/Row.antt =====
-- `resize_rgb_row_nearest` of src/conversion.rs: one row of RGB pixels, by the map or by groups of pixels.
use camera_rs.Base.{
  ℕ, zero, suc, ◌+◌, ◌*◌, ◌/◌, ◌&&◌, List, [], ◌∷◌, ◌++◌, Option, none, some, get_elem?, length,
  take, drop, min, if◌then◌else◌, ◌==◌, is_multiple_of,
}

abbrev pub all_three : Option ℕ → Option ℕ → Option ℕ → Option (List ℕ)
all_three (some r) (some g) (some b) = some (r ∷ g ∷ b ∷ [])
all_three (some r) (some g) none = none
all_three (some r) none b = none
all_three none g b = none

-- The three bytes from `i` on; none past the end, where the source panics.
unfoldable pub pixel_at : List ℕ → ℕ → Option (List ℕ)
pixel_at source i =
    all_three (get_elem? source i) (get_elem? source (i + 1)) (get_elem? source (i + 2))

abbrev pub prepend : Option (List ℕ) → Option (List ℕ) → Option (List ℕ)
prepend none ys = none
prepend (some xs) none = none
prepend (some xs) (some ys) = some (xs ++ ys)

-- The loop over the pixels of the destination and the columns of the map; what has no column stays.
unfoldable pub map_pixels : List ℕ → List ℕ → List ℕ → Option (List ℕ)
unfolding pixel_at
map_pixels source (a ∷ b ∷ c ∷ destination) (x ∷ xs) =
    prepend (pixel_at source (x * 3)) (map_pixels source destination xs)
map_pixels source destination [] = some destination
map_pixels source [] (x ∷ xs) = some []
map_pixels source (a ∷ []) (x ∷ xs) = some (a ∷ [])
map_pixels source (a ∷ b ∷ []) (x ∷ xs) = some (a ∷ b ∷ [])

-- `copy_from_slice` of the first `to` bytes of each group of `from`, for the groups that both have.
unfoldable pub copy_groups : ℕ → ℕ → ℕ → List ℕ → List ℕ → List ℕ
copy_groups from to zero source destination = destination
copy_groups from to (suc groups) source destination =
    take to source ++ copy_groups from to groups (drop from source) (drop to destination)

unfoldable pub resize_rgb_row_nearest : List ℕ → List ℕ → List ℕ → Option (List ℕ)
unfolding map_pixels copy_groups
resize_rgb_row_nearest source destination xs =
    let source_width = length source / 3 in
    let destination_width = length destination / 3 in
    if is_multiple_of source_width 3
      && destination_width * 3 == source_width * 2
      && length xs == destination_width
    then some
        (copy_groups 9 6 (min (length source / 9) (length destination / 6)) source destination)
    else if is_multiple_of source_width 4
        && destination_width * 4 == source_width * 3
        && length xs == destination_width
    then some
        (copy_groups 12 9 (min (length source / 12) (length destination / 9)) source destination)
    else map_pixels source destination xs
