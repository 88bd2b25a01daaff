-- ===== src/Config.antt =====
-- `VideoFormat` and `CameraConfig` of src/types.rs: one capture mode and the size of its frames.
pub mod Size
mod Tests
use camera_rs.Base.{
  ℕ, ◌+◌, ◌*◌, ◌/◌, Bool, true, false, not, ◌&&◌, ◌||◌, Option, none, some, ◌==◌, if◌then◌else◌,
  checked_add, checked_mul, is_multiple_of,
}
use camera_rs.Error.{CameraErrorKind, CameraResult, ok, err, ◌>>◌, fail_if, new as error}
use camera_rs.Format.Rate.{FrameRate}
use camera_rs.Format.Rate

pub data VideoFormat : Type 0 where
  mjpeg yuyv uyvy nv12 rgb h264 gray : VideoFormat

pub VideoFormat-discrete : Discrete VideoFormat
VideoFormat-discrete = hlevel

-- The derived `==`, by the position of the variant.
abbrev pub format_index : VideoFormat → ℕ
format_index VideoFormat.mjpeg = 0
format_index VideoFormat.yuyv = 1
format_index VideoFormat.uyvy = 2
format_index VideoFormat.nv12 = 3
format_index VideoFormat.rgb = 4
format_index VideoFormat.h264 = 5
format_index VideoFormat.gray = 6

abbrev pub format_eq : VideoFormat → VideoFormat → Bool
format_eq a b = format_index a == format_index b

unfoldable pub is_compressed : VideoFormat → Bool
is_compressed VideoFormat.mjpeg = true
is_compressed VideoFormat.h264 = true
is_compressed _ = false

unfoldable pub bytes_per_pixel : VideoFormat → Option ℕ
bytes_per_pixel VideoFormat.yuyv = some 2
bytes_per_pixel VideoFormat.uyvy = some 2
bytes_per_pixel VideoFormat.rgb = some 3
bytes_per_pixel VideoFormat.gray = some 1
bytes_per_pixel _ = none

unfoldable pub checked_pixel_count : ℕ → ℕ → Option ℕ
checked_pixel_count width height =
    if width == 0 || height == 0 then none else checked_mul width height

-- The arms of `frame_data_size`, given the pixel count.
unfoldable pub data_size_of : VideoFormat → ℕ → ℕ → ℕ → Option ℕ
data_size_of VideoFormat.yuyv w h pixels = if is_multiple_of w 2 then checked_mul pixels 2 else none
data_size_of VideoFormat.uyvy w h pixels = if is_multiple_of w 2 then checked_mul pixels 2 else none
data_size_of VideoFormat.nv12 w h pixels =
    if is_multiple_of w 2 && is_multiple_of h 2 then checked_add pixels (pixels / 2) else none
data_size_of VideoFormat.rgb w h pixels = checked_mul pixels 3
data_size_of VideoFormat.gray w h pixels = some pixels
data_size_of _ w h pixels = none

unfoldable pub frame_data_size : VideoFormat → ℕ → ℕ → Option ℕ
unfolding checked_pixel_count data_size_of
frame_data_size f width height = elim (checked_pixel_count width height) [
  | none ↦ none
  | some n ↦ data_size_of f width height n
]

pub record CameraConfig : Type 0 where
  pub format : VideoFormat
  pub width : ℕ
  pub height : ℕ
  pub fps : ℕ
  pub fps_denominator : ℕ

unfoldable pub config : VideoFormat → ℕ → ℕ → ℕ → CameraConfig
config f w h fps = record { format = f; width = w; height = h; fps = fps; fps_denominator = 1 }

unfoldable pub with_frame_rate : CameraConfig → FrameRate → CameraConfig
with_frame_rate c rate = record c { fps = rate.numerator; fps_denominator = rate.denominator }

unfoldable pub frame_rate : CameraConfig → CameraResult FrameRate
frame_rate c = Rate.new c.fps c.fps_denominator

unfoldable pub frame_size : CameraConfig → Option ℕ
frame_size c = frame_data_size c.format c.width c.height

abbrev is_none : Option ℕ → Bool
is_none none = true
is_none (some n) = false

-- `CameraConfig::validate`.
unfoldable pub validate : CameraConfig → CameraResult (Unit {0})
unfolding is_compressed frame_size
validate c = do
  fail_if (c.width == 0 || c.height == 0) (error CameraErrorKind.invalid_argument)
  fail_if (c.fps == 0 || c.fps_denominator == 0) (error CameraErrorKind.invalid_argument)
  fail_if (not (is_compressed c.format) && is_none (frame_size c))
      (error CameraErrorKind.invalid_argument)
