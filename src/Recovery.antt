-- ===== src/Recovery.antt =====
-- The recovery of a stream in src/api.rs: the delay before an attempt, and the check of what the driver
-- gives after one. Durations are nanoseconds.
pub mod Compatible
mod Tests
use camera_rs.Base.{ℕ, zero, suc, min, Bool, true, false, not, ◌&&◌, ◌||◌, ◌==◌, if◌then◌else◌}
use camera_rs.Error.{CameraErrorKind, CameraResult, ok, err, ◌>>=◌, ◌>>◌, fail_if, new as error}
use camera_rs.Config.{CameraConfig, format_eq, frame_rate}
use camera_rs.Format.Rate.{FrameRate}
use camera_rs.Format.Pixel.{FrameLayout}

-- The `match failed_attempts`.
unfoldable pub fast_delay : ℕ → ℕ → ℕ
fast_delay configured zero = 100000000
fast_delay configured (suc zero) = 100000000
fast_delay configured (suc (suc zero)) = 200000000
fast_delay configured (suc (suc (suc zero))) = 400000000
fast_delay configured (suc (suc (suc (suc n)))) = configured

unfoldable pub recovery_retry_delay : ℕ → ℕ → ℕ
unfolding fast_delay
recovery_retry_delay configured failed_attempts =
    min configured (fast_delay configured failed_attempts)

-- The derived `==` of `FrameRate`.
abbrev pub rate_eq : FrameRate → FrameRate → Bool
rate_eq a b = a.numerator == b.numerator && a.denominator == b.denominator

-- The comparison of the tuples of width, height and format.
abbrev pub same_mode : CameraConfig → CameraConfig → Bool
same_mode a b = a.width == b.width && a.height == b.height && format_eq a.format b.format

unfoldable pub validate_recovered_capture :
    CameraConfig → CameraConfig → FrameLayout → CameraResult (Unit {0})
unfolding frame_rate
validate_recovered_capture expected actual first = do
  fail_if (not (same_mode actual expected)) (error CameraErrorKind.unsupported_format)
  rate ← frame_rate actual
  wanted ← frame_rate expected
  fail_if (not (rate_eq rate wanted)) (error CameraErrorKind.unsupported_format)
  fail_if (not (first.width == actual.width && first.height == actual.height))
      (error CameraErrorKind.invalid_frame)
