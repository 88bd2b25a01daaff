-- ===== src/Format/Layout.antt =====
-- `FrameLayout` of src/format.rs: its two constructors and `validate`, which every frame passes before
-- a byte of it is read.
pub mod Bounds
pub mod Build
mod Tests
use camera_rs.Base.{
  ℕ, suc, ◌+◌, ◌*◌, ◌-◌, ◌%◌, Bool, true, false, not, ◌&&◌, ◌||◌, List, [], ◌∷◌, Option, none, some,
  length, ltb, ◌==◌, if◌then◌else◌, is_none_or, checked_add, checked_mul, div_ceil,
}
use camera_rs.Error.{
  CameraErrorKind, CameraResult, ok, err, ◌>>=◌, ◌>>◌, fail_if, ok_or, new as error, CameraError,
}
use camera_rs.Format.Pixel.{
  PixelFormat, PlaneLayout, FrameLayout, is_encoded, is_packed_422, default_color, upright,
}

-- `Option::unwrap_or(0)`.
abbrev or_zero : Option ℕ → ℕ
or_zero none = 0
or_zero (some n) = n

-- `width.checked_mul(height).and_then(|n| n.checked_mul(3))`.
abbrev pub rgb_bytes : ℕ → ℕ → Option ℕ
rgb_bytes w h = elim (checked_mul w h) [ none ↦ none | some n ↦ checked_mul n 3 ]

-- `FrameLayout::rgb`.
unfoldable pub rgb : ℕ → ℕ → FrameLayout
rgb w h = record {
  width = w;
  height = h;
  format = PixelFormat.rgb8;
  planes =
      record {
        offset = 0;
        length = or_zero (rgb_bytes w h);
        row_stride = or_zero (checked_mul w 3);
        pixel_stride = 3;
      }
      ∷ [];
  color = default_color;
  orientation = upright;
  bottom_up = false;
}

unfoldable pub packed_pixel_stride : PixelFormat → ℕ
packed_pixel_stride PixelFormat.rgb8 = 3
packed_pixel_stride PixelFormat.bgr8 = 3
packed_pixel_stride PixelFormat.bgra8 = 4
packed_pixel_stride PixelFormat.rgba8 = 4
packed_pixel_stride PixelFormat.argb8 = 4
packed_pixel_stride PixelFormat.yuyv = 2
packed_pixel_stride PixelFormat.uyvy = 2
packed_pixel_stride _ = 1

-- `FrameLayout::packed`.
unfoldable pub packed : ℕ → ℕ → PixelFormat → ℕ → ℕ → FrameLayout
unfolding packed_pixel_stride
packed w h format stride len = record {
  width = w;
  height = h;
  format = format;
  planes =
      record {
        offset = 0;
        length = len;
        row_stride = stride;
        pixel_stride = packed_pixel_stride format;
      }
      ∷ [];
  color = default_color;
  orientation = upright;
  bottom_up = false;
}

-- What a plane holds: columns, rows, and bytes of one sample.
pub record PlaneSpec : Type 0 where
  pub cols : ℕ
  pub rows : ℕ
  pub channels : ℕ

abbrev spec : ℕ → ℕ → ℕ → PlaneSpec
spec c r n = record { cols = c; rows = r; channels = n }

-- The `specs` of `validate`; `none` is its early return for an odd packed 4:2:2 width.
unfoldable pub plane_specs : PixelFormat → ℕ → ℕ → Option (List PlaneSpec)
plane_specs PixelFormat.mjpeg w h = some (spec 1 1 1 ∷ [])
plane_specs PixelFormat.h264 w h = some (spec 1 1 1 ∷ [])
plane_specs PixelFormat.nv12 w h = some (spec w h 1 ∷ spec (div_ceil w 2) (div_ceil h 2) 2 ∷ [])
plane_specs PixelFormat.nv21 w h = some (spec w h 1 ∷ spec (div_ceil w 2) (div_ceil h 2) 2 ∷ [])
plane_specs PixelFormat.yuv420p w h =
    some (
      spec w h 1 ∷ spec (div_ceil w 2) (div_ceil h 2) 1 ∷ spec (div_ceil w 2) (div_ceil h 2) 1 ∷ [])
plane_specs PixelFormat.rgb8 w h = some (spec w h 3 ∷ [])
plane_specs PixelFormat.bgr8 w h = some (spec w h 3 ∷ [])
plane_specs PixelFormat.bgra8 w h = some (spec w h 4 ∷ [])
plane_specs PixelFormat.rgba8 w h = some (spec w h 4 ∷ [])
plane_specs PixelFormat.argb8 w h = some (spec w h 4 ∷ [])
plane_specs PixelFormat.yuyv w h = if w % 2 == 0 then some (spec w h 2 ∷ []) else none
plane_specs PixelFormat.uyvy w h = if w % 2 == 0 then some (spec w h 2 ∷ []) else none
plane_specs PixelFormat.gray8 w h = some (spec w h 1 ∷ [])

unfoldable pub invalid : CameraError
invalid = error CameraErrorKind.invalid_frame

-- The strides of a plane against its spec.
unfoldable pub check_strides : PixelFormat → PlaneLayout → PlaneSpec → CameraResult (Unit {0})
unfolding invalid is_packed_422
check_strides format p s = do
  scaled ← ok_or (checked_mul (s.cols - 1) p.pixel_stride) invalid
  row ← ok_or (checked_add scaled s.channels) invalid
  skipped ← ok_or (checked_mul (s.rows - 1) p.row_stride) invalid
  required ← ok_or (checked_add skipped row) invalid
  fail_if
      (is_packed_422 format && not (p.pixel_stride == 2)
        || ltb p.pixel_stride s.channels
        || ltb p.row_stride row
        || ltb p.length required)
      invalid

-- One round of the loop over the planes.
unfoldable pub check_plane : PixelFormat → ℕ → PlaneLayout → PlaneSpec → CameraResult (Unit {0})
unfolding invalid is_encoded check_strides
check_plane format len p s = do
  fail_if (p.length == 0 || is_none_or (checked_add p.offset p.length) (λ n. ltb len n)) invalid
  if is_encoded format then ok tt else check_strides format p s

unfoldable pub check_planes :
    PixelFormat → ℕ → List PlaneLayout → List PlaneSpec → CameraResult (Unit {0})
check_planes format len (p ∷ ps) (s ∷ ss) =
    check_plane format len p s >> check_planes format len ps ss
check_planes format len [] ss = ok tt
check_planes format len (p ∷ ps) [] = ok tt

-- `FrameLayout::validate`.
unfoldable pub validate : FrameLayout → ℕ → CameraResult (Unit {0})
unfolding invalid
validate l len = do
  fail_if
      (l.width == 0
        || l.height == 0
        || not (
            l.orientation.rotation_degrees == 0
            || l.orientation.rotation_degrees == 90
            || l.orientation.rotation_degrees == 180
            || l.orientation.rotation_degrees == 270))
      invalid
  specs ← ok_or (plane_specs l.format l.width l.height) invalid
  fail_if (not (length l.planes == length specs)) invalid
  check_planes l.format len l.planes specs
