-- ===== src/Convert/Safe.antt =====
-- A scaled conversion of src/conversion.rs, with the columns and rows of `NearestMap::update`, never reads past
-- the end of a frame whose layout `validate` accepts.
use camera_rs.Base.{ℕ, ◌*◌, ◌<◌, ◌≡◌, refl, subst, ◌∙◌, true, List, some, length, arith}
use camera_rs.Error.{ok}
use camera_rs.Format.Pixel.{PixelFormat, FrameLayout}
use camera_rs.Format.Layout.{validate}
use camera_rs.Convert.Colour.{Coefficients}
use camera_rs.Convert.Map.{
  Dimensions, columns, rows, length-tabulate, AllBelow, columns-AllBelow, rows-AllBelow,
}
use camera_rs.Convert.Scale.{is_yuv, map_row, yuv_sample, scale_yuv_scalar}
use camera_rs.Convert.Reads.{map_row-length, nv12-some, nv21-some, yuv420p-some}
use camera_rs.Convert.Packed422.{yuyv-some, uyvy-some}

pub validate-positive :
    (l : FrameLayout) (len : ℕ) → validate l len ≡ ok tt → (0 < l.width) × (0 < l.height)
unfolding validate
validate-positive l len valid = ground (arith, valid)

module _ (l : FrameLayout) (bytes : List ℕ) (c : Coefficients)
    (valid : validate l (length bytes) ≡ ok tt) where
  yuv_sample-some :
      (f : PixelFormat)
      → l.format ≡ f
      → is_yuv f ≡ true
      → (x y : ℕ) → x < l.width
      → y < l.height
      → (p : List ℕ) × (yuv_sample l bytes c y x ≡ some p) × (length p ≡ 3)
  unfolding is_yuv
  yuv_sample-some PixelFormat.yuyv e u x y hx hy = yuyv-some l bytes valid c x y hx hy e
  yuv_sample-some PixelFormat.uyvy e u x y hx hy = uyvy-some l bytes valid c x y hx hy e
  yuv_sample-some PixelFormat.nv12 e u x y hx hy = nv12-some l bytes valid c x y hx hy e
  yuv_sample-some PixelFormat.nv21 e u x y hx hy = nv21-some l bytes valid c x y hx hy e
  yuv_sample-some PixelFormat.yuv420p e u x y hx hy = yuv420p-some l bytes valid c x y hx hy e
  yuv_sample-some PixelFormat.rgb8 e u x y hx hy = absurd (cc u)
  yuv_sample-some PixelFormat.bgr8 e u x y hx hy = absurd (cc u)
  yuv_sample-some PixelFormat.bgra8 e u x y hx hy = absurd (cc u)
  yuv_sample-some PixelFormat.rgba8 e u x y hx hy = absurd (cc u)
  yuv_sample-some PixelFormat.argb8 e u x y hx hy = absurd (cc u)
  yuv_sample-some PixelFormat.gray8 e u x y hx hy = absurd (cc u)
  yuv_sample-some PixelFormat.mjpeg e u x y hx hy = absurd (cc u)
  yuv_sample-some PixelFormat.h264 e u x y hx hy = absurd (cc u)

  -- For a YUV frame whose layout `validate` accepts for its bytes, and any size of the destination, the
  -- conversion by pixels with the columns and rows of the nearest-neighbour map of these sizes, top-down or
  -- bottom-up, reads no byte outside the frame and gives three bytes for every pixel of the destination.
  pub scale_yuv_scalar-some :
      (d : Dimensions)
      → is_yuv l.format ≡ true
      → d.source_width ≡ l.width
      → d.source_height ≡ l.height
      → (out : List ℕ) × (scale_yuv_scalar l bytes c (columns d) (rows d) ≡ some out)
        × (length out ≡ d.destination_height * (d.destination_width * 3))
  unfolding scale_yuv_scalar
  scale_yuv_scalar-some d u w h =
      let (pw, ph) = validate-positive l (length bytes) valid in
      let (out, is_out, long) =
        map_row-length (λ y. map_row (yuv_sample l bytes c y) (columns d)) (length (columns d) * 3)
          l.height (rows d)
          (λ y hy.
            map_row-length (yuv_sample l bytes c y) 3 l.width (columns d)
              (λ x hx. yuv_sample-some l.format refl u x y hx hy)
              (subst (λ n. AllBelow n (columns d)) w (columns-AllBelow d (omega (arith, w, pw)))))
          (subst (λ n. AllBelow n (rows d)) h (rows-AllBelow d (omega (arith, h, ph)))) in
      (out, is_out, long ∙ sizes)
    where
      sizes :
          length (rows d) * (length (columns d) * 3)
          ≡ d.destination_height * (d.destination_width * 3)
      sizes =
          rw (length-tabulate _ 0 d.destination_height, length-tabulate _ 0 d.destination_width)
            refl
