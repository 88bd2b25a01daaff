-- ===== src/Format/Layout/Build.antt =====
-- The packed RGB layout that the crate builds for its own output.
use camera_rs.Base.{ℕ, zero, suc, ◌+◌, ◌*◌, ◌-◌, ◌^◌, ◌≤◌, ◌<◌, ◌≡◌, ◌↔◌, arith}
use camera_rs.Error.{ok}
use camera_rs.Format.Pixel.{is_encoded, is_packed_422}
use camera_rs.Format.Layout.{rgb, plane_specs, check_strides, check_plane, check_planes, validate}

rows_of_rgb : (w h : ℕ) → 0 < w → 0 < h → (h - 1) * (w * 3) + ((w - 1) * 3 + 3) ≡ w * h * 3
rows_of_rgb (suc w) (suc h) hw hh = grind arith
rows_of_rgb zero h hw hh = absurd (omega arith)
rows_of_rgb (suc w) zero hw hh = absurd (omega arith)

area_le : (w h : ℕ) → 0 < h → w * 3 ≤ w * h * 3
area_le w (suc h) hh = grind arith
area_le w zero hh = absurd (omega arith)

area_le_rows : (w h : ℕ) → (h - 1) * (w * 3) ≤ w * h * 3
area_le_rows w (suc h) = grind arith
area_le_rows w zero = omega arith

-- The layout that `rgb` builds for positive dimensions whose byte count fits a `usize` is accepted for
-- a buffer of `len` bytes exactly when that holds the whole image.
pub validate-rgb :
    (w h len : ℕ)
    → 0 < w
    → 0 < h
    → w * h * 3 < 2 ^ 64
    → (validate (rgb w h) len ≡ ok tt) ↔ (w * h * 3 ≤ len)
unfolding validate rgb plane_specs check_planes check_plane check_strides is_encoded is_packed_422
validate-rgb w h len hw hh fits =
    ground (arith, rows_of_rgb w h hw hh, area_le w h hh, area_le_rows w h)
