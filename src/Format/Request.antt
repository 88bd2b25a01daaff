-- ===== src/Format/Request.antt =====
-- `MemoryBudget`, `ReconnectPolicy` and `StreamRequest` of src/format.rs. Durations are numbers of
-- nanoseconds.
pub mod Accept
mod Tests
use camera_rs.Base.{
  ℕ, ◌*◌, ◌/◌, Bool, true, false, not, ◌&&◌, ◌||◌, Option, none, some, ltb, leb, ◌==◌,
  if◌then◌else◌, is_some_and,
}
use camera_rs.Error.{
  CameraErrorKind, CameraError, CameraResult, ok, err, ◌>>◌, fail_if, new as error,
}
use camera_rs.Config.{VideoFormat}
use camera_rs.Format.Layout.{rgb_bytes}
use camera_rs.Format.Rate.{FrameRate, default}

pub data OutputFormat : Type 0 where
  rgb8 native : OutputFormat

pub data SelectionPolicy : Type 0 where
  exact closest : SelectionPolicy

pub data OverflowPolicy : Type 0 where
  drop_oldest drop_newest : OverflowPolicy

pub data DeliveryPolicy : Type 0 where
  latest : DeliveryPolicy
  buffered : ℕ → OverflowPolicy → DeliveryPolicy

pub record MemoryBudget : Type 0 where
  pub buffers : ℕ
  pub bytes : ℕ

abbrev pub default_budget : MemoryBudget
default_budget = record { buffers = 6; bytes = 201326592 }

unfoldable pub invalid : CameraError
invalid = error CameraErrorKind.invalid_argument

-- `MemoryBudget::validate`.
unfoldable pub validate_budget : MemoryBudget → CameraResult (Unit {0})
unfolding invalid
validate_budget m = fail_if (not (leb 2 m.buffers && leb m.buffers 256) || m.bytes == 0) invalid

pub record ReconnectPolicy : Type 0 where
  pub max_attempts : Option ℕ
  pub delay : ℕ
  pub stall_timeout : ℕ

pub record StreamRequest : Type 0 where
  pub width : ℕ
  pub height : ℕ
  pub fps : FrameRate
  pub format : Option VideoFormat
  pub output : OutputFormat
  pub selection : SelectionPolicy
  pub memory : MemoryBudget
  pub startup_timeout : ℕ
  pub driver_buffers : Option ℕ
  pub reconnect : Option ReconnectPolicy

-- `StreamRequest::builder`; the setters of the builder are updates of its fields.
unfoldable pub builder : StreamRequest
builder = record {
  width = 640;
  height = 480;
  fps = default;
  format = none;
  output = OutputFormat.native;
  selection = SelectionPolicy.closest;
  memory = default_budget;
  startup_timeout = 3000000000;
  driver_buffers = none;
  reconnect = none;
}

abbrev pub wants_rgb : OutputFormat → Bool
wants_rgb OutputFormat.rgb8 = true
wants_rgb OutputFormat.native = false

-- `rgb.is_none()`, and `rgb.unwrap() > bytes / buffers`.
abbrev pub is_none : Option ℕ → Bool
is_none none = true
is_none (some n) = false

unfoldable pub policy_is_invalid : ReconnectPolicy → Bool
policy_is_invalid p =
    p.delay == 0 || p.stall_timeout == 0 || is_some_and p.max_attempts (λ n. n == 0)

-- `StreamRequestBuilder::build`.
unfoldable pub build : StreamRequest → CameraResult StreamRequest
unfolding invalid validate_budget policy_is_invalid
build r = do
  validate_budget r.memory
  fail_if
      (r.width == 0
        || r.height == 0
        || is_none (rgb_bytes r.width r.height)
        || r.startup_timeout == 0)
      invalid
  fail_if
      (wants_rgb r.output
        && is_some_and (rgb_bytes r.width r.height)
            (λ rgb. ltb (r.memory.bytes / r.memory.buffers) rgb))
      invalid
  fail_if (is_some_and r.driver_buffers (λ n. not (leb 2 n && leb n 32))) invalid
  fail_if (is_some_and r.reconnect policy_is_invalid) invalid
  ok r
