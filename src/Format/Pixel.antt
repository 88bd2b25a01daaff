-- ===== src/Format/Pixel.antt =====
-- The data types of src/format.rs: pixel formats, colour metadata and plane layouts.
use camera_rs.Base.{ℕ, Bool, true, false, List}
use camera_rs.Base.Int.{ℤ}

pub data PixelFormat : Type 0 where
  rgb8 bgr8 bgra8 rgba8 argb8 yuyv uyvy nv12 nv21 yuv420p gray8 mjpeg h264 : PixelFormat

pub PixelFormat-discrete : Discrete PixelFormat
PixelFormat-discrete = hlevel

pub data ColorMatrix : Type 0 where
  unknown bt601 bt709 bt2020 smpte240m : ColorMatrix

pub data ColorRange : Type 0 where
  unknown full limited : ColorRange

pub data ColorPrimaries : Type 0 where
  unknown bt709 bt601_525 bt601_625 bt2020 display_p3 : ColorPrimaries

pub data TransferFunction : Type 0 where
  unknown linear srgb bt709 pq hlg : TransferFunction

pub data ClockDomain : Type 0 where
  unknown host_monotonic media_presentation device_monotonic : ClockDomain

pub record ColorInfo : Type 0 where
  pub matrix : ColorMatrix
  pub range : ColorRange
  pub primaries : ColorPrimaries
  pub transfer : TransferFunction

abbrev pub default_color : ColorInfo
default_color = record {
  matrix = ColorMatrix.unknown;
  range = ColorRange.unknown;
  primaries = ColorPrimaries.unknown;
  transfer = TransferFunction.unknown;
}

pub record SourceTimestamp : Type 0 where
  pub nanoseconds : ℤ
  pub clock : ClockDomain

pub record Orientation : Type 0 where
  pub rotation_degrees : ℕ
  pub mirrored : Bool

abbrev pub upright : Orientation
upright = record { rotation_degrees = 0; mirrored = false }

pub record PlaneLayout : Type 0 where
  pub offset : ℕ
  pub length : ℕ
  pub row_stride : ℕ
  pub pixel_stride : ℕ

pub record FrameLayout : Type 0 where
  pub width : ℕ
  pub height : ℕ
  pub format : PixelFormat
  pub planes : List PlaneLayout
  pub color : ColorInfo
  pub orientation : Orientation
  pub bottom_up : Bool

-- `matches!(format, Mjpeg | H264)` and `matches!(format, Yuyv | Uyvy)`.
unfoldable pub is_encoded : PixelFormat → Bool
is_encoded PixelFormat.mjpeg = true
is_encoded PixelFormat.h264 = true
is_encoded _ = false

unfoldable pub is_packed_422 : PixelFormat → Bool
is_packed_422 PixelFormat.yuyv = true
is_packed_422 PixelFormat.uyvy = true
is_packed_422 _ = false
