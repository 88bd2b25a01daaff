-- ===== src/Hub/Publish.antt =====
-- The publication of frames in src/frame.rs: the accounting of `record_conversion_error` and
-- `record_input_drop`, `finish_publish` and `publish`.
pub mod Native
pub mod Writable
pub mod Sequence
pub mod Immutable
use camera_rs.Base.{
  ℕ, zero, suc, ◌+◌, ◌-◌, Bool, true, false, not, List, [], ◌∷◌, ◌++◌, Option, none, some, length,
  max, ltb, leb, ◌==◌, if◌then◌else◌, add_u64, saturating_add, checked_add, map,
}
use camera_rs.Base.Int.{ℤ}
use camera_rs.Error.{
  CameraErrorKind, CameraError, CameraResult, ok, err, ◌>>=◌, ◌>>◌, fail_if, ok_or, new as error,
}
use camera_rs.Format.Pixel.{FrameLayout, PlaneLayout, ClockDomain, SourceTimestamp}
use camera_rs.Format.Layout.{validate}
use camera_rs.Format.Rate.{FrameRate}
use camera_rs.Hub.State.{
  Hub, Pool, FrameKey, FrameMetrics, CapturedFrame, Snapshot, Storage, accepts, update, buffer_of,
}
use camera_rs.Hub.Delivery.{deliver_all, pop_front}
use camera_rs.Hub.Reserve.{Lease, reserve, drop_lease, report_resource_pressure, note_received}

abbrev pub frame_error_recovery_threshold : ℕ
frame_error_recovery_threshold = 8

-- `wake_recovery`: the generation wraps.
unfoldable pub wake_recovery : Hub → Hub
wake_recovery h = record h { recovery_wake = add_u64 h.recovery_wake 1 }

-- The three counters of `record_conversion_error`.
unfoldable pub count_error : FrameMetrics → FrameMetrics
count_error m =
    let consecutive = add_u64 m.consecutive_conversion_errors 1 in
    record m {
      conversion_errors = add_u64 m.conversion_errors 1;
      consecutive_conversion_errors = consecutive;
      max_consecutive_conversion_errors = max m.max_consecutive_conversion_errors consecutive;
    }

unfoldable pub record_conversion_error : ℕ → ℕ → Bool → Hub → Hub
unfolding count_error wake_recovery note_received
record_conversion_error now session source_activity h =
    if accepts h session
    then (let noted = if source_activity then note_received now h else h in
        let metrics = count_error noted.pool.metrics in
        let counted = record noted { pool = record noted.pool { metrics = metrics } } in
        if metrics.consecutive_conversion_errors == frame_error_recovery_threshold
        then wake_recovery counted
        else counted)
    else h

unfoldable pub record_input_drop : ℕ → ℕ → Hub → Hub
unfolding note_received report_resource_pressure
record_input_drop now session h =
    if h.state.session == session
    then (let noted = note_received now h in
        let dropped = add_u64 noted.pool.metrics.pool_drops 1 in
        let metrics = record noted.pool.metrics { pool_drops = dropped } in
        report_resource_pressure dropped
          (record noted { pool = record noted.pool { metrics = metrics } }))
    else h

pub record Publication : Type 0 where
  pub session : ℕ
  pub layout : FrameLayout
  pub timestamp : Option SourceTimestamp
  pub source_sequence : Option ℕ
  pub captured_at : ℕ
  pub elapsed : ℕ

-- `state.latest.as_ref().map_or(1, |f| f.key.sequence + 1)`.
unfoldable pub next_sequence : Option CapturedFrame → ℕ
next_sequence none = 1
next_sequence (some f) = add_u64 f.key.sequence 1

abbrev pub nanoseconds_of : Option SourceTimestamp → Option ℤ
nanoseconds_of none = none
nanoseconds_of (some t) = some t.nanoseconds

abbrev pub clock_of : Option SourceTimestamp → ClockDomain
clock_of none = ClockDomain.unknown
clock_of (some t) = t.clock

-- The frame that `finish_publish` makes at the system time `timestamp_ns`.
unfoldable pub make_frame : Publication → ℕ → Storage → Option CapturedFrame → CapturedFrame
unfolding next_sequence
make_frame p timestamp_ns storage latest = record {
  key = record { session = p.session; sequence = next_sequence latest };
  storage = storage;
  layout = p.layout;
  captured_at = p.captured_at;
  timestamp_ns = timestamp_ns;
  source_timestamp_ns = nanoseconds_of p.timestamp;
  source_clock = clock_of p.timestamp;
  source_sequence = p.source_sequence;
}

-- Publication times older than a second leave the front of the queue.
unfoldable pub trim_recent : ℕ → List ℕ → List ℕ
trim_recent now [] = []
trim_recent now (t ∷ ts) =
    let rest = trim_recent now ts in if ltb 1000000000 (now - t) then rest else t ∷ ts

abbrev pub pop_sample : List ℕ → List ℕ
pop_sample [] = []
pop_sample (x ∷ xs) = xs

-- The accounting after a publication.
unfoldable pub note_published : ℕ → ℕ → Pool → Pool
unfolding trim_recent
note_published now elapsed p = record p {
  metrics = record p.metrics {
    published = add_u64 p.metrics.published 1;
    consecutive_conversion_errors = 0;
    conversion_total_ns = saturating_add p.metrics.conversion_total_ns elapsed;
    conversion_max_ns = max p.metrics.conversion_max_ns elapsed;
  };
  conversion_samples =
      (if length p.conversion_samples == 256
        then pop_sample p.conversion_samples
        else p.conversion_samples)
      ++ (elapsed ∷ []);
  recent = trim_recent now (p.recent ++ (now ∷ []));
}

-- What the caller knows of a publication: the clocks at its calls.
pub record Clock : Type 0 where
  pub now : ℕ
  pub elapsed : ℕ
  pub timestamp_ns : ℕ

-- A conversion writes into the buffer it is given, and may fail after it has written.
abbrev pub Convert : Type 0
Convert = List ℕ → CameraResult (Unit {0}) × List ℕ

module _ (interval : FrameRate → ℕ) where
  unfoldable pub finish_publish : Publication → ℕ → Lease → Hub → Bool × Hub
  unfolding make_frame note_published deliver_all
  finish_publish p timestamp_ns lease h =
      if accepts h p.session
      then (let frame = make_frame p timestamp_ns lease.storage h.state.latest in
          (
            true,
            record h {
              subscribers = deliver_all interval frame h.subscribers;
              state = record h.state { latest = some frame };
              pool = note_published p.captured_at p.elapsed h.pool;
            },
          ))
      else (false, h)

  -- `publish` with the lease in hand: the conversion, then the publication, then the drop of the lease.
  unfoldable pub publish_lease :
      Clock → Publication → Convert → Lease → Hub → CameraResult Bool × Hub
  unfolding finish_publish record_conversion_error drop_lease
  publish_lease clock p convert lease h =
      let (result, written) = convert (h.heap (buffer_of lease.storage)) in
      let filled = record h { heap = update h.heap (buffer_of lease.storage) written } in
      elim result [
        | err e ↦
            (err e, drop_lease lease (record_conversion_error clock.now p.session false filled))
        | ok u ↦
            let (published, h') = finish_publish p clock.timestamp_ns lease filled in
            (ok published, drop_lease lease h')
      ]

  unfoldable pub publish :
      Clock
      → ℕ
      → FrameLayout
      → Option SourceTimestamp
      → Option ℕ
      → Bool
      → Convert
      → Hub
      → CameraResult Bool × Hub
  unfolding reserve publish_lease
  publish clock session layout timestamp source_sequence rgb convert h =
      let (reserved, h') = reserve clock.now session layout rgb h in
      elim reserved [
        | err e ↦ (err e, h')
        | ok none ↦ (ok false, h')
        | ok (some lease) ↦
            publish_lease clock
              (record {
                session = session;
                layout = layout;
                timestamp = timestamp;
                source_sequence = source_sequence;
                captured_at = clock.now;
                elapsed = clock.elapsed;
              })
              convert lease h'
      ]
