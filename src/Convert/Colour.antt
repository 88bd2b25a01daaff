-- ===== src/Convert/Colour.antt =====
-- `yuv_pixel` of src/utils/color_convert.rs: fixed-point arithmetic of 10 bits. The source's
-- `i32` does not overflow on bytes with its coefficients; the integers here have no bound.
use camera_rs.Base.{ℕ, ◌+◌, ◌-◌, ◌*◌, ◌/◌, ◌≤◌, ◌≡◌, List, [], ◌∷◌, min, leb, if◌then◌else◌, arith}
use camera_rs.Base.Int.{ℤ, pos, negsuc, pos_part, neg_part}

-- `a - b`.
abbrev pub difference : ℕ → ℕ → ℤ
difference a b = if leb b a then pos (a - b) else negsuc (b - a - 1)

infix 60 ◌+ℤ◌
abbrev pub ◌+ℤ◌ : ℤ → ℤ → ℤ
a +ℤ b = difference (pos_part a + pos_part b) (neg_part a + neg_part b)

infix 60 ◌-ℤ◌
abbrev pub ◌-ℤ◌ : ℤ → ℤ → ℤ
a -ℤ b = difference (pos_part a + neg_part b) (neg_part a + pos_part b)

infix 70 ◌*ℤ◌
abbrev pub ◌*ℤ◌ : ℤ → ℤ → ℤ
a *ℤ b =
    difference (pos_part a * pos_part b + neg_part a * neg_part b)
      (pos_part a * neg_part b + neg_part a * pos_part b)

-- The array of `color_coefficients`.
pub record Coefficients : Type 0 where
  pub cy : ℤ
  pub cr : ℤ
  pub gu : ℤ
  pub gv : ℤ
  pub cb : ℤ
  pub offset : ℤ

abbrev pub bt601_full_coefficients : Coefficients
bt601_full_coefficients = record {
  cy = pos 1024;
  cr = pos 1436;
  gu = pos 352;
  gv = pos 731;
  cb = pos 1815;
  offset = pos 0;
}

-- `(n >> 10).clamp(0, 255) as u8`: a negative number stays negative under the shift.
abbrev pub clamped : ℤ → ℕ
clamped (pos n) = min (n / 1024) 255
clamped (negsuc n) = 0

unfoldable pub yuv_pixel : Coefficients → ℕ → ℕ → ℕ → List ℕ
yuv_pixel c y u v =
    let luma = (pos y -ℤ c.offset) *ℤ c.cy in
    let blue = pos u -ℤ pos 128 in
    let red = pos v -ℤ pos 128 in
    clamped ((luma +ℤ (c.cr *ℤ red)) +ℤ pos 512)
    ∷ clamped (((luma -ℤ (c.gu *ℤ blue)) -ℤ (c.gv *ℤ red)) +ℤ pos 512)
    ∷ clamped ((luma +ℤ (c.cb *ℤ blue)) +ℤ pos 512)
    ∷ []

-- Neutral chroma shows the luma as a grey, exactly, with the coefficients of the BT.601 full range.
pub yuv_pixel-grey :
    (y : ℕ) → y ≤ 255 → yuv_pixel bt601_full_coefficients y 128 128 ≡ y ∷ y ∷ y ∷ []
unfolding yuv_pixel
yuv_pixel-grey y h = ground (arith, h)
