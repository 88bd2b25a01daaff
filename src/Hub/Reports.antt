-- ===== src/Hub/Reports.antt =====
-- What the hub of src/frame.rs reports: `log_frame_error` with its limit of one report a second,
-- `source_stall_remaining`, and the snapshots of `metrics` and `stats`.
pub mod Limit
pub mod Quantile
mod Tests
use camera_rs.Base.{
  ℕ, zero, suc, ◌+◌, ◌-◌, ◌*◌, ◌/◌, Bool, true, false, not, List, [], ◌∷◌, Option, none, some,
  length, ltb, leb, get_or, retain, div_ceil, is_some_and, if◌then◌else◌, add_u64,
}
use camera_rs.Hub.State.{Hub, Pool, FrameMetrics, CapturedFrame, is_unique, total_bytes}
use camera_rs.Hub.Control.{is_kept}

-- `timeout.saturating_sub(activity.elapsed())`, zero without an activity.
unfoldable pub source_stall_remaining : ℕ → ℕ → Hub → ℕ
source_stall_remaining now timeout h = elim h.pool.last_source_activity [
  | none ↦ 0
  | some activity ↦ timeout - (now - activity)
]

-- Whether the previous report is less than a second old.
abbrev pub is_suppressed : ℕ → Pool → Bool
is_suppressed now p = is_some_and p.last_error_report (λ previous. ltb (now - previous) 1000000000)

-- `log_frame_error`: the number of suppressed errors that the report names, if there is a report.
unfoldable pub log_frame_error : ℕ → Hub → Option ℕ × Hub
log_frame_error now h =
    if is_suppressed now h.pool
    then (
      none,
      record h {
        pool = record h.pool {
          suppressed_error_reports = add_u64 h.pool.suppressed_error_reports 1;
        };
      },
    )
    else (
      some h.pool.suppressed_error_reports,
      record h {
        pool = record h.pool { suppressed_error_reports = 0; last_error_report = some now };
      },
    )

-- The frame errors at the given instants, in their order.
unfoldable pub log_frame_errors : List ℕ → Hub → List (Option ℕ) × Hub
unfolding log_frame_error
log_frame_errors [] h = ([], h)
log_frame_errors (now ∷ later) h =
    let (report, h') = log_frame_error now h in
    let (reports, h'') = log_frame_errors later h' in (report ∷ reports, h'')

-- `sort_unstable` on numbers.
unfoldable pub insert : ℕ → List ℕ → List ℕ
insert x [] = x ∷ []
insert x (y ∷ ys) = let rest = insert x ys in if leb x y then x ∷ y ∷ ys else y ∷ rest

unfoldable pub sort : List ℕ → List ℕ
unfolding insert
sort [] = []
sort (x ∷ xs) = insert x (sort xs)

-- The closure `quantile` of `metrics`, on sorted samples.
unfoldable pub quantile : List ℕ → ℕ → ℕ
quantile samples percent = get_or samples (div_ceil (length samples * percent) 100 - 1) 0

-- The snapshot of `metrics`: the counted metrics and the fields that it reads off the pool.
pub record MetricsReport : Type 0 where
  pub counted : FrameMetrics
  pub allocated_buffers : ℕ
  pub allocated_bytes : ℕ
  pub retained_buffers : ℕ
  pub conversion_p50_ns : ℕ
  pub conversion_p95_ns : ℕ

unfoldable pub metrics : Hub → MetricsReport
unfolding sort quantile is_unique
metrics h =
    let samples = sort h.pool.conversion_samples in
    record {
      counted = h.pool.metrics;
      allocated_buffers = length h.pool.slots;
      allocated_bytes = total_bytes h.pool.slots;
      retained_buffers = length (retain (is_kept h) h.pool.slots);
      conversion_p50_ns = quantile samples 50;
      conversion_p95_ns = quantile samples 95;
    }

-- `current_fps` is a whole number of frames, as an `f64` in the source.
pub record StreamStats : Type 0 where
  pub total_frames : ℕ
  pub dropped_frames : ℕ
  pub current_fps : ℕ
  pub buffer_size : ℕ
  pub buffered_frames : ℕ
  pub uptime_seconds : ℕ

abbrev pub unwrap_or : ℕ → Option ℕ → ℕ
unwrap_or d none = d
unwrap_or d (some n) = n

abbrev pub uptime : ℕ → Pool → ℕ
uptime now p = elim p.started [ none ↦ 0 | some t ↦ (unwrap_or now p.stopped - t) / 1000000000 ]

abbrev pub recent_frames : ℕ → List ℕ → ℕ
recent_frames now ts = length (retain (λ t. ltb (now - t) 1000000000) ts)

-- `usize::from(self.latest().is_some())`.
abbrev pub latest_count : Option CapturedFrame → ℕ
latest_count none = 0
latest_count (some f) = 1

unfoldable pub stats : ℕ → Hub → StreamStats
stats now h = record {
  total_frames = h.pool.metrics.received;
  dropped_frames = add_u64 h.pool.metrics.pool_drops h.pool.metrics.conversion_errors;
  current_fps = if h.state.active then recent_frames now h.pool.recent else 0;
  buffer_size = h.pool.budget.buffers;
  buffered_frames = latest_count h.state.latest;
  uptime_seconds = uptime now h.pool;
}
