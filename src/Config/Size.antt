-- ===== src/Config/Size.antt =====
-- What a valid configuration means, against an independent account of frame sizes.
use camera_rs.Base.{
  ℕ, ◌*◌, ◌/◌, ◌%◌, ◌<◌, ◌^◌, ◌≡◌, ◌↔◌, ◌⊎◌, ap, none, some, true, arith, inl, inr, Option-cases,
}
use camera_rs.Error.{ok}
use camera_rs.Config.{
  VideoFormat, CameraConfig, is_compressed, frame_data_size, frame_size, validate,
}

-- Bits of a pixel, 0 for a compressed format, and the grid that the dimensions must fit.
abbrev pub bits_per_pixel : VideoFormat → ℕ
bits_per_pixel VideoFormat.mjpeg = 0
bits_per_pixel VideoFormat.h264 = 0
bits_per_pixel VideoFormat.yuyv = 16
bits_per_pixel VideoFormat.uyvy = 16
bits_per_pixel VideoFormat.nv12 = 12
bits_per_pixel VideoFormat.rgb = 24
bits_per_pixel VideoFormat.gray = 8

abbrev pub FitsGrid : VideoFormat → ℕ → ℕ → Type 0
FitsGrid VideoFormat.yuyv w h = w % 2 ≡ 0
FitsGrid VideoFormat.uyvy w h = w % 2 ≡ 0
FitsGrid VideoFormat.nv12 w h = (w % 2 ≡ 0) × (h % 2 ≡ 0)
FitsGrid _ w h = Unit

even_product : (w h : ℕ) → w % 2 ≡ 0 → w * h % 2 ≡ 0
even_product w h e =
    let half : w ≡ 2 * (w / 2) = omega arith in omega (arith, ap (λ (t : ℕ). t * h) half)

-- A frame size is returned exactly for an uncompressed format, positive dimensions on the format's
-- grid and a byte count that a `usize` holds; it is then that byte count, `w * h` pixels of the
-- format's bits.
pub frame_data_size-some :
    (f : VideoFormat) (w h n : ℕ)
    → (frame_data_size f w h ≡ some n) ↔ (
        (0 < w)
        × (0 < h)
        × (0 < bits_per_pixel f)
        × FitsGrid f w h
        × (n < 2 ^ 64)
        × (n * 8 ≡ w * h * bits_per_pixel f))
unfolding frame_data_size
frame_data_size-some VideoFormat.mjpeg w h n = ground arith
frame_data_size-some VideoFormat.h264 w h n = ground arith
frame_data_size-some VideoFormat.yuyv w h n = ground arith
frame_data_size-some VideoFormat.uyvy w h n = ground arith
frame_data_size-some VideoFormat.nv12 w h n = ground (arith, even_product w h)
frame_data_size-some VideoFormat.rgb w h n = ground arith
frame_data_size-some VideoFormat.gray w h n = ground arith

-- A configuration is valid exactly when its dimensions and both parts of its rate are positive and,
-- unless its format is compressed, it has a frame size.
pub validate-ok :
    (c : CameraConfig)
    → (validate c ≡ ok tt) ↔ (
        (0 < c.width)
        × (0 < c.height)
        × (0 < c.fps)
        × (0 < c.fps_denominator)
        × ((is_compressed c.format ≡ true) ⊎ ((n : ℕ) × (frame_size c ≡ some n))))
unfolding validate
validate-ok c = (λ e. parts (Option-cases (frame_size c)) e, λ h. ground arith)
  where
    parts :
        (frame_size c ≡ none) ⊎ ((n : ℕ) × (frame_size c ≡ some n))
        → validate c ≡ ok tt
        → (0 < c.width)
          × (0 < c.height)
          × (0 < c.fps)
          × (0 < c.fps_denominator)
          × ((is_compressed c.format ≡ true) ⊎ ((n : ℕ) × (frame_size c ≡ some n)))
    parts (inl miss) e =
        let compressed : is_compressed c.format ≡ true = ground (arith, miss) in
        (ground arith, ground arith, ground arith, ground arith, inl compressed)
    parts (inr hit) e = (ground arith, ground arith, ground arith, ground arith, inr hit)
