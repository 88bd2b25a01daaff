-- ===== src/Negotiation.antt =====
-- The negotiation of a capture in src/api.rs: which configurations of a device a `CaptureRequest` (of
-- src/contract.rs) accepts, in which order they are tried, and the check of what a driver negotiated.
pub mod Accept
pub mod Rank
pub mod Keep
mod Tests
use camera_rs.Base.{
  ℕ, ◌+◌, ◌*◌, ◌-◌, Bool, true, false, not, ◌&&◌, ◌||◌, List, [], ◌∷◌, Option, none, some, map, any,
  retain, position, length, ltb, leb, ◌==◌, if◌then◌else◌, is_some_and, is_none_or, u64_max,
}
use camera_rs.Error.{CameraErrorKind, CameraResult, ok, err, ◌>>=◌, ◌>>◌, fail_if, new as error}
use camera_rs.Config.{
  VideoFormat, format_eq, CameraConfig, config, with_frame_rate, frame_rate, validate,
}
use camera_rs.Format.Rate.{FrameRate, rate_lt, rate_le}
use camera_rs.Format.Pixel.{FrameLayout}
use camera_rs.Format.Request.{MemoryBudget, ReconnectPolicy}

pub data CaptureFormat : Type 0 where
  mjpeg yuyv uyvy nv12 rgb8 h264 gray8 : CaptureFormat

-- `VideoFormat::from`.
unfoldable pub video_format : CaptureFormat → VideoFormat
video_format CaptureFormat.mjpeg = VideoFormat.mjpeg
video_format CaptureFormat.yuyv = VideoFormat.yuyv
video_format CaptureFormat.uyvy = VideoFormat.uyvy
video_format CaptureFormat.nv12 = VideoFormat.nv12
video_format CaptureFormat.rgb8 = VideoFormat.rgb
video_format CaptureFormat.h264 = VideoFormat.h264
video_format CaptureFormat.gray8 = VideoFormat.gray

pub data NegotiationPriority : Type 0 where
  low_latency low_cpu low_bandwidth fidelity : NegotiationPriority

pub record CaptureRequest : Type 0 where
  pub width : ℕ
  pub height : ℕ
  pub preferred_fps : FrameRate
  pub minimum_fps : Option FrameRate
  pub preferred_formats : List CaptureFormat
  pub priority : NegotiationPriority
  pub exact_resolution : Bool
  pub required_aspect_ratio : Option (ℕ × ℕ)
  pub memory : MemoryBudget
  pub startup_timeout : ℕ
  pub reconnect : Option ReconnectPolicy

abbrev pub is_empty {ℓ} : {A : Type ℓ} → List A → Bool
is_empty [] = true
is_empty (x ∷ xs) = false

abbrev pub is_ok {ℓ} : {A : Type ℓ} → CameraResult A → Bool
is_ok (ok a) = true
is_ok (err e) = false

-- `preferred_formats.iter().any(...)`.
unfoldable pub prefers : CaptureRequest → VideoFormat → Bool
prefers r f = any (λ format. format_eq (video_format format) f) r.preferred_formats

abbrev pub has_ratio : CameraConfig → ℕ × ℕ → Bool
has_ratio c (width, height) = c.width * height == c.height * width

abbrev pub same_size : CaptureRequest → CameraConfig → Bool
same_size r c = c.width == r.width && c.height == r.height

-- `config.frame_rate().is_ok_and(|rate| rate >= minimum)`.
unfoldable pub reaches : CameraConfig → FrameRate → Bool
unfolding frame_rate
reaches c minimum = elim (frame_rate c) [ ok rate ↦ rate_le minimum rate | err e ↦ false ]

-- The closure of `configurations.retain`.
unfoldable pub is_acceptable : CaptureRequest → CameraConfig → Bool
unfolding validate prefers reaches
is_acceptable r c =
    is_ok (validate c)
    && (is_empty r.preferred_formats || prefers r c.format)
    && is_none_or r.minimum_fps (reaches c)
    && (not r.exact_resolution || same_size r c)
    && is_none_or r.required_aspect_ratio (has_ratio c)

unfoldable pub validate_requested_capture :
    CaptureRequest → CameraConfig → FrameLayout → CameraResult (Unit {0})
unfolding validate frame_rate prefers
validate_requested_capture r actual first = do
  validate actual
  rate ← frame_rate actual
  fail_if (is_some_and r.minimum_fps (λ minimum. rate_lt rate minimum))
      (error CameraErrorKind.unsupported_format)
  fail_if (not (is_empty r.preferred_formats) && not (prefers r actual.format))
      (error CameraErrorKind.unsupported_format)
  fail_if (r.exact_resolution && not (same_size r actual))
      (error CameraErrorKind.unsupported_format)
  fail_if (is_some_and r.required_aspect_ratio (λ ratio. not (has_ratio actual ratio)))
      (error CameraErrorKind.unsupported_format)
  fail_if (not (first.width == actual.width) || not (first.height == actual.height))
      (error CameraErrorKind.invalid_frame)

-- The closure `preference`: `unwrap_or(preferred_formats.len())`.
unfoldable pub preference : CaptureRequest → VideoFormat → ℕ
preference r f =
    elim (position (λ preferred. format_eq (video_format preferred) f) r.preferred_formats) [
      | none ↦ length r.preferred_formats
      | some i ↦ i
    ]

-- The closure `cost`.
unfoldable pub cost : NegotiationPriority → VideoFormat → ℕ
cost NegotiationPriority.low_cpu VideoFormat.gray = 1
cost NegotiationPriority.low_cpu VideoFormat.mjpeg = 2
cost NegotiationPriority.low_cpu VideoFormat.h264 = 3
cost NegotiationPriority.low_cpu _ = 0
cost NegotiationPriority.low_bandwidth VideoFormat.h264 = 0
cost NegotiationPriority.low_bandwidth VideoFormat.mjpeg = 1
cost NegotiationPriority.low_bandwidth VideoFormat.nv12 = 2
cost NegotiationPriority.low_bandwidth VideoFormat.gray = 2
cost NegotiationPriority.low_bandwidth _ = 3
cost NegotiationPriority.low_latency VideoFormat.gray = 1
cost NegotiationPriority.low_latency VideoFormat.mjpeg = 2
cost NegotiationPriority.low_latency VideoFormat.h264 = 2
cost NegotiationPriority.low_latency _ = 0
cost NegotiationPriority.fidelity _ = 0

-- The tuple that `sort_by_key` compares from the left.
pub record SortKey : Type 0 where
  pub preference : ℕ
  pub cost : ℕ
  pub resolution_delta : ℕ
  pub frame_rate_delta : ℕ

unfoldable pub key_le : SortKey → SortKey → Bool
key_le a b =
    ltb a.preference b.preference
    || (a.preference == b.preference
        && (ltb a.cost b.cost
            || (a.cost == b.cost
                && (ltb a.resolution_delta b.resolution_delta
                    || (a.resolution_delta == b.resolution_delta
                        && leb a.frame_rate_delta b.frame_rate_delta)))))

-- `(a - b).unsigned_abs()`.
abbrev pub distance : ℕ → ℕ → ℕ
distance a b = (a - b) + (b - a)

abbrev pub config_eq : CameraConfig → CameraConfig → Bool
config_eq a b =
    format_eq a.format b.format
    && a.width == b.width
    && a.height == b.height
    && a.fps == b.fps
    && a.fps_denominator == b.fps_denominator

-- `Vec::dedup`: an entry equal to the one kept before it goes.
unfoldable pub dedup_after : CameraConfig → List CameraConfig → List CameraConfig
dedup_after x [] = []
dedup_after x (y ∷ ys) = elim (config_eq x y) [
  | true ↦ dedup_after x ys
  | false ↦ y ∷ dedup_after y ys
]

unfoldable pub dedup : List CameraConfig → List CameraConfig
unfolding dedup_after
dedup [] = []
dedup (x ∷ xs) = x ∷ dedup_after x xs

-- `delta` is the distance of two rates in millionths, a computation on floating-point numbers.
module _ (delta : FrameRate → FrameRate → ℕ) where
  unfoldable pub sort_key : CaptureRequest → CameraConfig → SortKey
  unfolding preference cost frame_rate
  sort_key r c = record {
    preference = preference r c.format;
    cost = cost r.priority c.format;
    resolution_delta = distance c.width r.width + distance c.height r.height;
    frame_rate_delta = elim (frame_rate c) [
      | err e ↦ u64_max
      | ok rate ↦ delta rate r.preferred_fps
    ];
  }

  -- `sort_by_key` is stable: an entry goes in front of those with the same key.
  unfoldable pub insert : CaptureRequest → CameraConfig → List CameraConfig → List CameraConfig
  unfolding sort_key key_le
  insert r c [] = c ∷ []
  insert r c (d ∷ ds) =
      let rest = insert r c ds in
      if key_le (sort_key r c) (sort_key r d) then c ∷ d ∷ ds else d ∷ rest

  unfoldable pub sort_by_key : CaptureRequest → List CameraConfig → List CameraConfig
  unfolding insert
  sort_by_key r [] = []
  sort_by_key r (c ∷ cs) = insert r c (sort_by_key r cs)

  unfoldable pub rank_capture_configurations :
      CaptureRequest → List CameraConfig → CameraResult (List CameraConfig)
  unfolding is_acceptable sort_by_key dedup
  rank_capture_configurations r cs =
      let ranked = dedup (sort_by_key r (retain (is_acceptable r) cs)) in
      if is_empty ranked then err (error CameraErrorKind.unsupported_format) else ok ranked

-- `direct_capture_candidates`: what is tried on a device that does not list its modes.
unfoldable pub direct_capture_candidates : CaptureRequest → List CameraConfig
unfolding video_format config with_frame_rate
direct_capture_candidates r =
    let formats =
      if is_empty r.preferred_formats then CaptureFormat.mjpeg ∷ [] else r.preferred_formats in
    map
      (λ format.
        with_frame_rate (config (video_format format) r.width r.height r.preferred_fps.numerator)
          r.preferred_fps)
      formats
