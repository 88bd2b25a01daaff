-- ===== src/Hub/Control.antt =====
-- The stream generations of `FrameHub` in src/frame.rs: `new`, `configure`, `start`, `stop`, the
-- recovery flags and `recovery_trigger`.
pub mod Generation
use camera_rs.Base.{
  ℕ, zero, suc, ◌+◌, ◌-◌, Bool, true, false, not, ◌&&◌, ◌||◌, List, [], ◌∷◌, Option, none, some,
  length, max, ltb, leb, ◌==◌, if◌then◌else◌, add_u64, map, any, retain, is_none_or, is_some_and,
}
use camera_rs.Error.{CameraErrorKind, CameraResult, ok, err, new as error}
use camera_rs.Format.Request.{MemoryBudget, default_budget, StreamRequest, OutputFormat, wants_rgb}
use camera_rs.Hub.State.{
  Hub, Pool, Slot, Snapshot, Subscriber, default_metrics, is_unique, total_bytes,
}
use camera_rs.Hub.Publish.{wake_recovery, frame_error_recovery_threshold}

-- `Snapshot::default()`.
abbrev pub default_snapshot : Snapshot
default_snapshot = record {
  session = 0;
  active = false;
  recovering = false;
  reconnect_enabled = false;
  latest = none;
}

-- `next_session` is the process-wide counter that the hub finds.
unfoldable pub new : ℕ → ℕ → Hub
new capacity next_session = record {
  state = default_snapshot;
  pool = record {
    slots = [];
    budget = record default_budget { buffers = max capacity 2 };
    metrics = default_metrics;
    started = none;
    stopped = none;
    last_source_activity = none;
    recent = [];
    conversion_samples = [];
    last_error_report = none;
    suppressed_error_reports = 0;
  };
  subscribers = [];
  native_output = false;
  pressure = none;
  recovery_wake = 0;
  heap = λ b. [];
  next_buffer = 0;
  held = [];
  next_session = next_session;
}

-- A slot whose storage a lease has.
abbrev pub is_leased : Slot → Bool
is_leased s = is_none_or s.stored (λ d. false) && ltb 0 s.bytes

-- `retain_mut`: a slot that no frame shares is given up.
abbrev pub is_kept : Hub → Slot → Bool
is_kept h s = is_none_or s.stored (λ d. not (is_unique h d))

-- `configure`: its checks in their order. The slots are purged before the budget is compared.
unfoldable pub configure : StreamRequest → Hub → CameraResult (Unit {0}) × Hub
unfolding is_unique
configure r h =
    if h.state.active || any is_leased h.pool.slots
    then (err (error CameraErrorKind.invalid_state), h)
    else (let slots = retain (is_kept h) h.pool.slots in
        if ltb r.memory.buffers (length slots) || ltb r.memory.bytes (total_bytes slots)
        then (
          err (error CameraErrorKind.invalid_argument),
          record h { pool = record h.pool { slots = slots } },
        )
        else (
          ok tt,
          record h {
            pool = record h.pool { slots = slots; budget = r.memory };
            native_output = not (wants_rgb r.output);
          },
        ))

-- The closure of `clear_queues`.
unfoldable pub clear_queue : Subscriber → Subscriber
clear_queue s =
    if s.linked then if s.alive then record s { queue = [] } else record s { linked = false } else s

unfoldable pub clear_queues : List Subscriber → List Subscriber
clear_queues = map clear_queue

unfoldable pub start : ℕ → Hub → ℕ × Hub
unfolding clear_queues clear_queue
start now h = (
  h.next_session,
  record h {
    pool = record h.pool {
      metrics = default_metrics;
      started = some now;
      stopped = none;
      last_source_activity = some now;
      recent = [];
      conversion_samples = [];
      last_error_report = none;
      suppressed_error_reports = 0;
    };
    subscribers = clear_queues h.subscribers;
    state = record h.state { session = h.next_session; active = true; latest = none };
    next_session = add_u64 h.next_session 1;
  },
)

-- `stop` in its two parts: a publication that comes between them may refill a queue.
unfoldable pub stop_queues : ℕ → Hub → Hub
unfolding clear_queues clear_queue
stop_queues now h = record h {
  pool = record h.pool { stopped = some now };
  subscribers = clear_queues h.subscribers;
}

unfoldable pub stop_state : Hub → Hub
unfolding wake_recovery
stop_state h = wake_recovery (record h { state = record h.state { active = false; latest = none } })

unfoldable pub stop : ℕ → Hub → Hub
unfolding stop_queues stop_state
stop now h = stop_state (stop_queues now h)

unfoldable pub begin_recovery : Hub → Hub
begin_recovery h = record h { state = record h.state { recovering = true } }

unfoldable pub end_recovery : Hub → Hub
end_recovery h = record h { state = record h.state { recovering = false } }

unfoldable pub enable_recovery : Hub → Hub
enable_recovery h = record h { state = record h.state { reconnect_enabled = true } }

unfoldable pub disable_recovery : Hub → Hub
disable_recovery h = record h {
  state = record h.state { reconnect_enabled = false; recovering = false };
}

pub data RecoveryTrigger : Type 0 where
  source_stopped : RecoveryTrigger
  source_stalled : RecoveryTrigger
  frame_errors : ℕ → RecoveryTrigger

unfoldable pub recovery_trigger : ℕ → ℕ → Hub → Option RecoveryTrigger
recovery_trigger now stall_timeout h =
    if not h.state.active
    then some RecoveryTrigger.source_stopped
    else if leb frame_error_recovery_threshold h.pool.metrics.consecutive_conversion_errors
    then some (RecoveryTrigger.frame_errors h.pool.metrics.consecutive_conversion_errors)
    else if is_none_or h.pool.last_source_activity (λ activity. leb stall_timeout (now - activity))
    then some RecoveryTrigger.source_stalled
    else none
