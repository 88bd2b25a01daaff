-- ===== src/Recovery/Tests.antt =====
-- A recovery that comes back with an unreduced rate.
use camera_rs.Base.{suc, ◌≤◌, ◌≡◌, refl, false, [], none, some}
use camera_rs.Error.{ok}
use camera_rs.Config.{VideoFormat, CameraConfig, validate, frame_rate, frame_size, is_compressed}
use camera_rs.Format.Rate.{cmp, new, common_divisor}
use camera_rs.Format.Layout.{rgb}
use camera_rs.Format.Request.{default_budget}
use camera_rs.Negotiation.{CaptureRequest, NegotiationPriority, prefers, validate_requested_capture}
use camera_rs.Recovery.{recovery_retry_delay, validate_recovered_capture}
use camera_rs.Recovery.Compatible.{recovery_retry_delay-grows, recovered-IsAcceptable}

abbrev wish : CaptureRequest
wish = record {
  width = 640;
  height = 480;
  preferred_fps = record { numerator = 30; denominator = 1 };
  minimum_fps = some (record { numerator = 15; denominator = 1 });
  preferred_formats = [];
  priority = NegotiationPriority.low_cpu;
  exact_resolution = false;
  required_aspect_ratio = none;
  memory = default_budget;
  startup_timeout = 3000000000;
  reconnect = none;
}

abbrev negotiated : CameraConfig
negotiated = record {
  format = VideoFormat.mjpeg;
  width = 640;
  height = 480;
  fps = 30;
  fps_denominator = 1;
}

abbrev unreduced : CameraConfig
unreduced = record {
  format = VideoFormat.mjpeg;
  width = 640;
  height = 480;
  fps = 60;
  fps_denominator = 2;
}

satisfies_wish : validate_requested_capture wish negotiated (rgb 640 480) ≡ ok tt
unfolding validate_requested_capture validate frame_rate new common_divisor is_compressed frame_size
    prefers rgb cmp
satisfies_wish = refl

recovers : validate_recovered_capture negotiated unreduced (rgb 640 480) ≡ ok tt
unfolding validate_recovered_capture frame_rate new common_divisor rgb
recovers = refl

recovered_example : validate_requested_capture wish unreduced (rgb 640 480) ≡ ok tt
recovered_example =
    recovered-IsAcceptable wish negotiated unreduced (rgb 640 480) (rgb 640 480) satisfies_wish
      recovers

recovery_retry_delay_example :
    (recovery_retry_delay 1000000000 2 ≤ recovery_retry_delay 1000000000 (suc 2))
    × (recovery_retry_delay 1000000000 2 ≤ 1000000000)
recovery_retry_delay_example = recovery_retry_delay-grows 1000000000 2
