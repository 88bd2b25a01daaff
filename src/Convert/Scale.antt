-- ===== src/Convert/Scale.antt =====
-- `scale_nearest` and `scale_yuv_scalar` of src/conversion.rs. The destination has room for the maps' rows and
-- columns, which the caller checks, and its old bytes do not show: the functions give the new ones. A read
-- past the end of the frame, where the source panics, gives none.
use camera_rs.Base.{
  ℕ, ◌+◌, ◌-◌, ◌*◌, ◌/◌, Bool, true, false, ◌&&◌, List, [], ◌∷◌, Option, none, some, get_elem?,
  length, take, drop, replicate, leb, if◌then◌else◌, ◌==◌,
}
use camera_rs.Format.Pixel.{PixelFormat, PlaneLayout, FrameLayout}
use camera_rs.Convert.Colour.{Coefficients, yuv_pixel}
use camera_rs.Convert.Row.{all_three, pixel_at, prepend, resize_rgb_row_nearest}

-- `&data[start..end]`.
abbrev pub slice : List ℕ → ℕ → ℕ → Option (List ℕ)
slice bytes start end =
    if leb start end && leb end (length bytes)
    then some (take (end - start) (drop start bytes))
    else none

-- The bytes of every entry of a map, one after the other.
abbrev pub map_row : (ℕ → Option (List ℕ)) → List ℕ → Option (List ℕ)
map_row f [] = some []
map_row f (x ∷ xs) = prepend (f x) (map_row f xs)

-- The pixel of a packed format whose bytes begin at `source`.
unfoldable pub packed_pixel : PixelFormat → List ℕ → ℕ → Option (List ℕ)
unfolding pixel_at
packed_pixel PixelFormat.rgb8 bytes source = pixel_at bytes source
packed_pixel PixelFormat.rgba8 bytes source = pixel_at bytes source
packed_pixel PixelFormat.bgr8 bytes source =
    all_three (get_elem? bytes (source + 2)) (get_elem? bytes (source + 1)) (get_elem? bytes source)
packed_pixel PixelFormat.bgra8 bytes source =
    all_three (get_elem? bytes (source + 2)) (get_elem? bytes (source + 1)) (get_elem? bytes source)
packed_pixel PixelFormat.argb8 bytes source = pixel_at bytes (source + 1)
packed_pixel PixelFormat.gray8 bytes source =
    all_three (get_elem? bytes source) (get_elem? bytes source) (get_elem? bytes source)
packed_pixel _ bytes source = none

-- The formats that `scale_yuv_scalar` takes.
unfoldable pub is_yuv : PixelFormat → Bool
is_yuv PixelFormat.yuyv = true
is_yuv PixelFormat.uyvy = true
is_yuv PixelFormat.nv12 = true
is_yuv PixelFormat.nv21 = true
is_yuv PixelFormat.yuv420p = true
is_yuv _ = false

-- The formats that `scale_nearest` takes.
unfoldable pub is_packed_rgb : PixelFormat → Bool
is_packed_rgb PixelFormat.rgb8 = true
is_packed_rgb PixelFormat.bgr8 = true
is_packed_rgb PixelFormat.bgra8 = true
is_packed_rgb PixelFormat.rgba8 = true
is_packed_rgb PixelFormat.argb8 = true
is_packed_rgb PixelFormat.gray8 = true
is_packed_rgb _ = false

abbrev pub is_rgb8 : PixelFormat → Bool
is_rgb8 PixelFormat.rgb8 = true
is_rgb8 _ = false

unfoldable pub scaled_row : FrameLayout → PlaneLayout → List ℕ → List ℕ → ℕ → Option (List ℕ)
unfolding packed_pixel resize_rgb_row_nearest
scaled_row l p bytes xs y =
    let row = p.offset + y * p.row_stride in
    if is_rgb8 l.format && p.pixel_stride == 3
    then elim (slice bytes row (row + l.width * 3)) [
      | none ↦ none
      | some source ↦ resize_rgb_row_nearest source (replicate (length xs * 3) 0) xs
    ]
    else map_row (λ x. packed_pixel l.format bytes (row + x * p.pixel_stride)) xs

unfoldable pub scale_nearest : FrameLayout → List ℕ → List ℕ → List ℕ → Option (List ℕ)
unfolding scaled_row
scale_nearest l bytes xs ys = elim l.planes [
  | [] ↦ none
  | p ∷ ps ↦ map_row (scaled_row l p bytes xs) ys
]

-- The conversion of three samples, where all can be read.
abbrev pub yuv_bytes : Coefficients → Option ℕ → Option ℕ → Option ℕ → Option (List ℕ)
yuv_bytes c (some y) (some u) (some v) = some (yuv_pixel c y u v)
yuv_bytes c (some y) (some u) none = none
yuv_bytes c (some y) none v = none
yuv_bytes c none u v = none

-- `x & !1`.
abbrev pub even_part : ℕ → ℕ
even_part x = x / 2 * 2

abbrev pub chroma_at : PlaneLayout → ℕ → ℕ → ℕ
chroma_at p x y = p.offset + y / 2 * p.row_stride + x / 2 * p.pixel_stride

unfoldable pub yuv_sample : FrameLayout → List ℕ → Coefficients → ℕ → ℕ → Option (List ℕ)
yuv_sample l bytes c y x = elim (get_elem? l.planes 0) [
  | none ↦ none
  | some luma ↦
      let row = luma.offset + y * luma.row_stride in
      let at = row + x * luma.pixel_stride in
      let pair = row + even_part x * 2 in
      elim l.format [
        | PixelFormat.uyvy ↦
            yuv_bytes c (get_elem? bytes (at + 1)) (get_elem? bytes pair)
              (get_elem? bytes (pair + 2))
        | PixelFormat.yuyv ↦
            yuv_bytes c (get_elem? bytes at) (get_elem? bytes (pair + 1))
              (get_elem? bytes (pair + 3))
        | PixelFormat.nv12 ↦ elim (get_elem? l.planes 1) [
          | none ↦ none
          | some p ↦
              yuv_bytes c (get_elem? bytes at) (get_elem? bytes (chroma_at p x y))
                (get_elem? bytes (chroma_at p x y + 1))
        ]
        | PixelFormat.nv21 ↦ elim (get_elem? l.planes 1) [
          | none ↦ none
          | some p ↦
              yuv_bytes c (get_elem? bytes at) (get_elem? bytes (chroma_at p x y + 1))
                (get_elem? bytes (chroma_at p x y))
        ]
        | PixelFormat.yuv420p ↦ elim (get_elem? l.planes 1) [
          | none ↦ none
          | some p ↦ elim (get_elem? l.planes 2) [
            | none ↦ none
            | some q ↦
                yuv_bytes c (get_elem? bytes at) (get_elem? bytes (chroma_at p x y))
                  (get_elem? bytes (chroma_at q x y))
          ]
        ]
        | _ ↦ none
      ]
]

-- `xs` has the destination's width, which the caller has checked to be positive: the source would panic on 0.
unfoldable pub scale_yuv_scalar :
    FrameLayout → List ℕ → Coefficients → List ℕ → List ℕ → Option (List ℕ)
unfolding yuv_sample
scale_yuv_scalar l bytes c xs ys = map_row (λ y. map_row (yuv_sample l bytes c y) xs) ys
