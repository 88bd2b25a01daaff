-- ===== src/Convert/Paths.antt =====
-- `ConversionRequest`, `selected_conversion_path` and the dispatch of `convert_layout_into` in src/conversion.rs.
use camera_rs.Base.{
  ℕ, ◌*◌, ◌/◌, Bool, true, false, not, ◌&&◌, List, Option, none, some, is_some_and, length, all,
  leb, ltb, ◌==◌, if◌then◌else◌, is_multiple_of, u64_max, min, get_elem?,
}
use camera_rs.Error.{CameraErrorKind, CameraResult, ok, err, ◌>>=◌, ◌>>◌, fail_if, new as error}
use camera_rs.Format.Pixel.{
  PixelFormat, PlaneLayout, FrameLayout, ColorInfo, ColorMatrix, ColorRange,
}
use camera_rs.Format.Layout.{validate, rgb_bytes}
use camera_rs.Convert.Scale.{is_yuv, is_rgb8}

pub record ConversionRequest : Type 0 where
  pub width : ℕ
  pub height : ℕ
  pub color_override : Option ColorInfo

unfoldable pub output_len : ConversionRequest → CameraResult ℕ
output_len r = elim (rgb_bytes r.width r.height) [
  | none ↦ err (error CameraErrorKind.invalid_frame)
  | some n ↦ if ltb 0 n then ok n else err (error CameraErrorKind.invalid_frame)
]

unfoldable pub new_request : ℕ → ℕ → CameraResult ConversionRequest
unfolding output_len
new_request width height =
    let r : ConversionRequest = record { width = width; height = height; color_override = none } in
    elim (output_len r) [ err e ↦ err e | ok n ↦ ok r ]

abbrev pub for_layout : FrameLayout → ConversionRequest
for_layout l = record { width = l.width; height = l.height; color_override = none }

abbrev pub with_color : ColorInfo → ConversionRequest → ConversionRequest
with_color c r = record r { color_override = some c }

unfoldable pub is_exact_half : FrameLayout → ConversionRequest → Bool
is_exact_half l r =
    not l.bottom_up
    && is_multiple_of l.width 2
    && is_multiple_of l.height 2
    && r.width == l.width / 2
    && r.height == l.height / 2

unfoldable pub is_exact_two_thirds : FrameLayout → ConversionRequest → Bool
is_exact_two_thirds l r = r.width * 3 == l.width * 2 && r.height * 3 == l.height * 2

unfoldable pub is_exact_three_quarters : FrameLayout → ConversionRequest → Bool
is_exact_three_quarters l r = r.width * 4 == l.width * 3 && r.height * 4 == l.height * 3

-- The names of the strategies, by what they name.
pub data Strategy : Type 0 where
  jpeg_adaptive_decode_scale unsupported_h264 nv12_direct_half yuv422_direct_half
        yuv420p_direct_half direct_full_size rgb_row_nearest_2x3 rgb_row_nearest_3x4
        yuv_row_convert_nearest_2x3 yuv_row_convert_nearest_3x4 yuv_row_convert_nearest
        mapped_nearest :
      Strategy

abbrev pub has_stride : ℕ → PlaneLayout → Bool
has_stride n p = p.pixel_stride == n

abbrev pub biplanar_strides : List PlaneLayout → Bool
biplanar_strides ps =
    length ps == 2
    && is_some_and (get_elem? ps 0) (has_stride 1)
    && is_some_and (get_elem? ps 1) (has_stride 2)

abbrev pub planar_strides : List PlaneLayout → Bool
planar_strides ps = length ps == 3 && all (has_stride 1) ps

abbrev pub packed_strides : List PlaneLayout → Bool
packed_strides ps = length ps == 1 && is_some_and (get_elem? ps 0) (has_stride 2)

unfoldable pub direct_half_path : FrameLayout → ConversionRequest → Option Strategy
unfolding is_exact_half
direct_half_path l r = if not (is_exact_half l r) then none else elim l.format [
  | PixelFormat.nv12 ↦ if biplanar_strides l.planes then some Strategy.nv12_direct_half else none
  | PixelFormat.nv21 ↦ if biplanar_strides l.planes then some Strategy.nv12_direct_half else none
  | PixelFormat.yuyv ↦ if packed_strides l.planes then some Strategy.yuv422_direct_half else none
  | PixelFormat.uyvy ↦ if packed_strides l.planes then some Strategy.yuv422_direct_half else none
  | PixelFormat.yuv420p ↦
      if planar_strides l.planes then some Strategy.yuv420p_direct_half else none
  | _ ↦ none
]

unfoldable pub supports_yuv_row_conversion : FrameLayout → Bool
supports_yuv_row_conversion l = elim l.format [
  | PixelFormat.yuyv ↦ true
  | PixelFormat.uyvy ↦ true
  | PixelFormat.nv12 ↦ biplanar_strides l.planes
  | PixelFormat.nv21 ↦ biplanar_strides l.planes
  | PixelFormat.yuv420p ↦ planar_strides l.planes
  | _ ↦ false
]

abbrev pub is_mjpeg : PixelFormat → Bool
is_mjpeg PixelFormat.mjpeg = true
is_mjpeg _ = false

abbrev pub is_h264 : PixelFormat → Bool
is_h264 PixelFormat.h264 = true
is_h264 _ = false

abbrev pub is_same_size : FrameLayout → ConversionRequest → Bool
is_same_size l r = r.width == l.width && r.height == l.height && not l.bottom_up

-- `saturating_mul(4)` against the width.
abbrev pub is_not_tiny : FrameLayout → ConversionRequest → Bool
is_not_tiny l r = leb l.width (min (r.width * 4) u64_max)

unfoldable pub yuv_row_strategy : FrameLayout → ConversionRequest → Strategy
unfolding is_exact_two_thirds is_exact_three_quarters
yuv_row_strategy l r =
    if is_exact_two_thirds l r
    then Strategy.yuv_row_convert_nearest_2x3
    else if is_exact_three_quarters l r
    then Strategy.yuv_row_convert_nearest_3x4
    else Strategy.yuv_row_convert_nearest

abbrev pub is_rgb_rows : FrameLayout → Bool
is_rgb_rows l = is_rgb8 l.format && is_some_and (get_elem? l.planes 0) (has_stride 3)

unfoldable pub selected_conversion_path : FrameLayout → ConversionRequest → Strategy
unfolding direct_half_path supports_yuv_row_conversion yuv_row_strategy
selected_conversion_path l r =
    if is_mjpeg l.format
    then Strategy.jpeg_adaptive_decode_scale
    else if is_h264 l.format
    then Strategy.unsupported_h264
    else elim (direct_half_path l r) [
      | some path ↦ path
      | none ↦
          if is_same_size l r
          then Strategy.direct_full_size
          else if is_rgb_rows l && is_exact_two_thirds l r
          then Strategy.rgb_row_nearest_2x3
          else if is_rgb_rows l && is_exact_three_quarters l r
          then Strategy.rgb_row_nearest_3x4
          else if is_yuv l.format && supports_yuv_row_conversion l && is_not_tiny l r
          then yuv_row_strategy l r
          else Strategy.mapped_nearest
    ]

-- What `convert_layout_into` calls for a frame.
pub data Route : Type 0 where
  jpeg : Route
  half : Strategy → Route
  full_size : Route
  yuv_rows : Route
  yuv_pixels : Route
  packed_pixels : Route

-- The matrix and the range that `color_coefficients` refuses; its arithmetic is floating-point.
unfoldable pub check_color : ColorInfo → CameraResult (Unit {0})
check_color c = elim c.matrix [
  | ColorMatrix.unknown ↦ err (error CameraErrorKind.unsupported_format)
  | _ ↦ elim c.range [
    | ColorRange.unknown ↦ err (error CameraErrorKind.unsupported_format)
    | _ ↦ ok tt
  ]
]

abbrev pub color_of : FrameLayout → ConversionRequest → ColorInfo
color_of l r = elim r.color_override [ none ↦ l.color | some c ↦ c ]

-- The kernels for a frame of the same size, by format and stride.
unfoldable pub has_full_size_kernel : FrameLayout → Bool
has_full_size_kernel l = elim l.format [
  | PixelFormat.rgb8 ↦ is_some_and (get_elem? l.planes 0) (has_stride 3)
  | PixelFormat.rgba8 ↦ is_some_and (get_elem? l.planes 0) (has_stride 4)
  | PixelFormat.bgra8 ↦ is_some_and (get_elem? l.planes 0) (has_stride 4)
  | PixelFormat.argb8 ↦ is_some_and (get_elem? l.planes 0) (has_stride 4)
  | PixelFormat.yuv420p ↦ true
  | PixelFormat.nv12 ↦ true
  | PixelFormat.nv21 ↦ true
  | PixelFormat.yuyv ↦ true
  | PixelFormat.uyvy ↦ true
  | _ ↦ false
]

-- The choice behind the checks.
unfoldable pub choose_route : FrameLayout → ConversionRequest → Route
unfolding direct_half_path has_full_size_kernel supports_yuv_row_conversion
choose_route l r = elim (direct_half_path l r) [
  | some path ↦ Route.half path
  | none ↦
      if is_same_size l r && has_full_size_kernel l
      then Route.full_size
      else if is_yuv l.format && supports_yuv_row_conversion l && is_not_tiny l r
      then Route.yuv_rows
      else if is_yuv l.format
      then Route.yuv_pixels
      else Route.packed_pixels
]

-- `convert_layout_into` up to the call of a kernel, for `len` bytes of a frame and a destination of `out` bytes.
unfoldable pub convert_route : FrameLayout → ℕ → ConversionRequest → ℕ → CameraResult Route
unfolding output_len check_color choose_route
convert_route l len r out = do
  validate l len
  wanted ← output_len r
  fail_if (not (wanted == out)) (error CameraErrorKind.invalid_frame)
  if is_mjpeg l.format
      then ok Route.jpeg
      else if is_h264 l.format
      then err (error CameraErrorKind.unsupported_format)
      else if is_yuv l.format
      then check_color (color_of l r) >> ok (choose_route l r)
      else ok (choose_route l r)
