-- ===== src/Negotiation/Tests.antt =====
-- The negotiation of two modes at concrete values.
use camera_rs.Base.{ℕ, ◌≡◌, refl, ◌≢◌, ◌↔◌, true, false, List, [], ◌∷◌, none, All, Memᴰ}
use camera_rs.Error.{ok}
use camera_rs.Config.{
  VideoFormat, CameraConfig, validate, frame_rate, frame_size, is_compressed, frame_data_size,
}
use camera_rs.Format.Rate.{FrameRate, common_divisor, new}
use camera_rs.Format.Layout.{rgb}
use camera_rs.Format.Request.{default_budget}
use camera_rs.Negotiation.{
  CaptureFormat, NegotiationPriority, CaptureRequest, is_acceptable, validate_requested_capture,
  rank_capture_configurations, prefers, video_format, sort_key, preference, cost, key_le, insert,
  sort_by_key, dedup, dedup_after,
}
use camera_rs.Negotiation.Accept.{validate_requested_capture-ok}
use camera_rs.Negotiation.Rank.{IsInOrder, rank_capture_configurations_lem}
use camera_rs.Negotiation.Keep.{rank-keeps}

abbrev request : CaptureRequest
request = record {
  width = 640;
  height = 480;
  preferred_fps = record { numerator = 30; denominator = 1 };
  minimum_fps = none;
  preferred_formats = CaptureFormat.yuyv ∷ CaptureFormat.mjpeg ∷ [];
  priority = NegotiationPriority.low_cpu;
  exact_resolution = false;
  required_aspect_ratio = none;
  memory = default_budget;
  startup_timeout = 3000000000;
  reconnect = none;
}

abbrev mode : VideoFormat → CameraConfig
mode f = record { format = f; width = 640; height = 480; fps = 30; fps_denominator = 1 }

abbrev offered : List CameraConfig
offered = mode VideoFormat.mjpeg ∷ mode VideoFormat.h264 ∷ mode VideoFormat.yuyv ∷ []

abbrev no_delta : FrameRate → FrameRate → ℕ
no_delta x y = 0

accepts_mjpeg : is_acceptable request (mode VideoFormat.mjpeg) ≡ true
unfolding is_acceptable validate prefers video_format frame_size is_compressed
accepts_mjpeg = refl

ranks_yuyv_first :
    rank_capture_configurations no_delta request offered
    ≡ ok (mode VideoFormat.yuyv ∷ mode VideoFormat.mjpeg ∷ [])
unfolding rank_capture_configurations is_acceptable validate prefers video_format frame_size
    frame_data_size is_compressed frame_rate new common_divisor sort_key preference cost key_le
    insert sort_by_key dedup dedup_after
ranks_yuyv_first = refl

rank_capture_configurations_example :
    ((mode VideoFormat.yuyv ∷ mode VideoFormat.mjpeg ∷ []) ≢ [])
    × All
        (λ c. is_acceptable request c ≡ true)
        (mode VideoFormat.yuyv ∷ mode VideoFormat.mjpeg ∷ [])
    × IsInOrder no_delta request (mode VideoFormat.yuyv ∷ mode VideoFormat.mjpeg ∷ [])
rank_capture_configurations_example =
    rank_capture_configurations_lem no_delta request offered
      {out = mode VideoFormat.yuyv ∷ mode VideoFormat.mjpeg ∷ []} ranks_yuyv_first

rank-keeps_example :
    (out : List CameraConfig) × (rank_capture_configurations no_delta request offered ≡ ok out)
    × Memᴰ (mode VideoFormat.mjpeg) out
rank-keeps_example =
    rank-keeps no_delta request (mode VideoFormat.mjpeg) offered accepts_mjpeg (Memᴰ.head refl)

validate_requested_capture_example :
    (validate_requested_capture request (mode VideoFormat.mjpeg) (rgb 640 480) ≡ ok tt) ↔ (
      (is_acceptable request (mode VideoFormat.mjpeg) ≡ true)
      × ((rgb 640 480).width ≡ 640)
      × ((rgb 640 480).height ≡ 480))
validate_requested_capture_example =
    validate_requested_capture-ok request (mode VideoFormat.mjpeg) (rgb 640 480)
