-- ===== src/Hub/Reports/Limit.antt =====
-- The limit on reports of frame errors loses no count, and the wait for a stalled source is exact.
use camera_rs.Base.{
  ℕ, suc, ◌+◌, ◌-◌, ◌<◌, ◌≤◌, ◌≡◌, ◌↔◌, List, [], ◌∷◌, Option, none, some, length, arith,
}
use camera_rs.Hub.State.{Hub}
use camera_rs.Hub.Control.{recovery_trigger}
use camera_rs.Hub.Reports.{log_frame_error, log_frame_errors, source_stall_remaining}

-- The errors that the reports stand for: each for its own and for those it names as suppressed.
pub reported : List (Option ℕ) → ℕ
reported [] = 0
reported (none ∷ rs) = reported rs
reported (some n ∷ rs) = suc n + reported rs

log_frame_error-accounted :
    (now : ℕ) (h : Hub)
    → h.pool.suppressed_error_reports < 18446744073709551615
    → reported ((log_frame_error now h).0 ∷ [])
        + (log_frame_error now h).1.pool.suppressed_error_reports
      ≡ suc h.pool.suppressed_error_reports
unfolding log_frame_error reported
log_frame_error-accounted now h q = ground arith

reported-∷ :
    (r : Option ℕ) (rs : List (Option ℕ)) → reported (r ∷ rs) ≡ reported (r ∷ []) + reported rs
unfolding reported
reported-∷ none rs = omega arith
reported-∷ (some n) rs = omega arith

-- Over any sequence of frame errors, the reports that are logged stand for every error but those still
-- pending: each for itself and for the suppressed ones it names, while the count stays in 64 bits.
pub log_frame_errors-accounted :
    (ts : List ℕ) (h : Hub)
    → h.pool.suppressed_error_reports + length ts < 18446744073709551616
    → reported (log_frame_errors ts h).0 + (log_frame_errors ts h).1.pool.suppressed_error_reports
      ≡ h.pool.suppressed_error_reports + length ts
unfolding log_frame_errors reported
log_frame_errors-accounted [] h q = omega arith
log_frame_errors-accounted (t ∷ ts) h q =
    let h' = (log_frame_error t h).1 in
    let one = log_frame_error-accounted t h (omega arith) in
    let rest = log_frame_errors-accounted ts h' (omega arith) in
    let split = reported-∷ (log_frame_error t h).0 (log_frame_errors ts h').0 in omega arith

-- When there is no recovery trigger at `now`, `source_stall_remaining` is exactly how long it stays so
-- with no further activity: a later check finds no trigger just when less than that has passed. The last
-- activity is not after `now`, and nothing else changes.
pub source_stall_remaining-exact :
    (now later timeout activity : ℕ) (h : Hub)
    → h.pool.last_source_activity ≡ some activity
    → activity ≤ now
    → now ≤ later
    → recovery_trigger now timeout h ≡ none
    → recovery_trigger later timeout h ≡ none ↔ later - now < source_stall_remaining now timeout h
unfolding recovery_trigger source_stall_remaining
source_stall_remaining-exact now later timeout activity h e past order quiet =
    (λ still. ground arith, λ soon. ground arith)
