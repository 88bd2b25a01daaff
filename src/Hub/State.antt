-- ===== src/Hub/State.antt =====
-- The state of src/frame.rs. Instants are nanoseconds of one monotonic clock. `Arc`s are explicit: a
-- `Storage` names its buffer in the heap `heap`, and a buffer is shared while a live frame names it.
use camera_rs.Base.{
  ℕ, ◌+◌, Bool, false, not, List, [], ◌∷◌, ◌++◌, Option, none, some, any, ◌==◌, if◌then◌else◌,
}
use camera_rs.Base.Int.{ℤ}
use camera_rs.Format.Pixel.{FrameLayout, ClockDomain}
use camera_rs.Format.Rate.{FrameRate}
use camera_rs.Format.Request.{MemoryBudget, DeliveryPolicy}

pub record FrameKey : Type 0 where
  pub session : ℕ
  pub sequence : ℕ

-- `Storage::Rgb` with its buffer, height and width; `Storage::Bytes` with its buffer and capacity.
pub data Storage : Type 0 where
  rgb : ℕ → ℕ → ℕ → Storage
  bytes : ℕ → ℕ → Storage

abbrev pub buffer_of : Storage → ℕ
buffer_of (Storage.rgb b h w) = b
buffer_of (Storage.bytes b cap) = b

pub record CapturedFrame : Type 0 where
  pub key : FrameKey
  pub storage : Storage
  pub layout : FrameLayout
  pub captured_at : ℕ
  pub timestamp_ns : ℕ
  pub source_timestamp_ns : Option ℤ
  pub source_clock : ClockDomain
  pub source_sequence : Option ℕ

pub record Snapshot : Type 0 where
  pub session : ℕ
  pub active : Bool
  pub recovering : Bool
  pub reconnect_enabled : Bool
  pub latest : Option CapturedFrame

-- The metrics that the hub counts; `metrics()` adds what it reads off the pool.
pub record FrameMetrics : Type 0 where
  pub received : ℕ
  pub published : ℕ
  pub pool_drops : ℕ
  pub conversion_errors : ℕ
  pub consecutive_conversion_errors : ℕ
  pub max_consecutive_conversion_errors : ℕ
  pub conversion_total_ns : ℕ
  pub conversion_max_ns : ℕ

abbrev pub default_metrics : FrameMetrics
default_metrics = record {
  received = 0;
  published = 0;
  pool_drops = 0;
  conversion_errors = 0;
  consecutive_conversion_errors = 0;
  max_consecutive_conversion_errors = 0;
  conversion_total_ns = 0;
  conversion_max_ns = 0;
}

-- The source's fields `data` and `bytes`.
pub record Slot : Type 0 where
  pub stored : Option Storage
  pub bytes : ℕ

pub record Pool : Type 0 where
  pub slots : List Slot
  pub budget : MemoryBudget
  pub metrics : FrameMetrics
  pub started : Option ℕ
  pub stopped : Option ℕ
  pub last_source_activity : Option ℕ
  pub recent : List ℕ
  pub conversion_samples : List ℕ
  pub last_error_report : Option ℕ
  pub suppressed_error_reports : ℕ

-- `alive`: the receiver still owns its `Arc`. `linked`: the hub's list still names the subscriber.
-- `owner`: the stop flag that `with_stop_flag` set, by its current value.
pub record Subscriber : Type 0 where
  pub alive : Bool
  pub linked : Bool
  pub queue : List CapturedFrame
  pub delivery : DeliveryPolicy
  pub dropped : ℕ
  pub max_rate : Option FrameRate
  pub last_enqueued : Option ℕ
  pub owner : Option Bool

-- `pressure` is the channel of `ResourcePressure` events, oldest first, once a session has set it.
-- `held` are the frames that consumers keep; `next_session` is the counter that all hubs share.
pub record Hub : Type 0 where
  pub state : Snapshot
  pub pool : Pool
  pub subscribers : List Subscriber
  pub native_output : Bool
  pub pressure : Option (List ℕ)
  pub recovery_wake : ℕ
  pub heap : ℕ → List ℕ
  pub next_buffer : ℕ
  pub held : List CapturedFrame
  pub next_session : ℕ

abbrev pub option_list {ℓ} : {A : Type ℓ} → Option A → List A
option_list none = []
option_list (some a) = a ∷ []

-- The frames that the queues of living receivers hold.
abbrev pub queued_frames : List Subscriber → List CapturedFrame
queued_frames [] = []
queued_frames (s ∷ ss) = if s.alive then s.queue ++ queued_frames ss else queued_frames ss

-- Every frame that somebody can still read.
abbrev pub retained_frames : Hub → List CapturedFrame
retained_frames h = option_list h.state.latest ++ (queued_frames h.subscribers ++ h.held)

abbrev pub names_buffer : ℕ → List CapturedFrame → Bool
names_buffer b = any (λ f. buffer_of f.storage == b)

-- `Storage::unique`: no frame shares the buffer. (A slot that is leased has no storage.)
unfoldable pub is_unique : Hub → Storage → Bool
is_unique h s = not (names_buffer (buffer_of s) (retained_frames h))

abbrev pub total_bytes : List Slot → ℕ
total_bytes [] = 0
total_bytes (s ∷ ss) = s.bytes + total_bytes ss

-- `!state.active || state.session != session` is the negation.
unfoldable pub accepts : Hub → ℕ → Bool
accepts h session = if h.state.active then h.state.session == session else false

abbrev pub update : (ℕ → List ℕ) → ℕ → List ℕ → ℕ → List ℕ
update heap b v j = if j == b then v else heap j

-- What a reader of a frame sees.
abbrev pub bytes_of : Hub → CapturedFrame → List ℕ
bytes_of h f = h.heap (buffer_of f.storage)
