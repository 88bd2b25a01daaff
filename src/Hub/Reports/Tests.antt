-- ===== src/Hub/Reports/Tests.antt =====
-- Frame errors in a burst, a quiet source and three conversions, on a hub that has just started.
use camera_rs.Base.{ℕ, ◌+◌, ◌-◌, ◌<◌, ◌≤◌, ◌≡◌, ◌↔◌, refl, List, [], ◌∷◌, none, some, length, arith}
use camera_rs.Hub.State.{Hub}
use camera_rs.Hub.Control.{new, start, recovery_trigger}
use camera_rs.Hub.Reports.{log_frame_errors, source_stall_remaining, metrics}
use camera_rs.Hub.Reports.Limit.{reported, log_frame_errors-accounted, source_stall_remaining-exact}
use camera_rs.Hub.Reports.Quantile.{metrics-ordered}

abbrev started : Hub
unfolding start
started = (start 100 (new 4 1)).1

abbrev converted : Hub
converted = record started {
  pool = record started.pool { conversion_samples = 900 ∷ 100 ∷ 500 ∷ [] };
}

abbrev burst : List ℕ
burst = 200 ∷ 300 ∷ 400 ∷ 1000000200 ∷ []

burst-reports : (log_frame_errors burst started).0 ≡ some 0 ∷ none ∷ none ∷ some 2 ∷ []
unfolding log_frame_errors started
burst-reports = refl

log_frame_errors-accounted_example :
    reported (log_frame_errors burst started).0
      + (log_frame_errors burst started).1.pool.suppressed_error_reports
    ≡ started.pool.suppressed_error_reports + length burst
unfolding started
log_frame_errors-accounted_example = log_frame_errors-accounted burst started (omega arith)

source_stall_remaining_example :
    recovery_trigger 5000 2000 started ≡ none
    ↔ 5000 - 1000 < source_stall_remaining 1000 2000 started
unfolding recovery_trigger started
source_stall_remaining_example =
    source_stall_remaining-exact 1000 5000 2000 100 started refl (omega arith) (omega arith) refl

metrics-ordered_example :
    (metrics converted).conversion_p50_ns ≤ (metrics converted).conversion_p95_ns
metrics-ordered_example = metrics-ordered converted

reported-quantiles : (metrics converted).conversion_p50_ns ≡ 500
unfolding metrics started
reported-quantiles = refl
