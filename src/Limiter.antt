-- ===== src/Limiter.antt =====
-- `FrameRateLimiter` of src/utils/frame_rate.rs: which native timestamps pass at a given interval.
pub mod Spacing
mod Tests
use camera_rs.Base.{
  ℕ, zero, suc, ◌+◌, ◌/◌, Bool, true, false, ◌||◌, List, [], ◌∷◌, Option, none, some, ltb, ◌==◌,
  if◌then◌else◌, saturating_add,
}

pub record FrameRateLimiter : Type 0 where
  pub next_ns : Option ℕ
  pub last_ns : ℕ

abbrev pub default_limiter : FrameRateLimiter
default_limiter = record { next_ns = none; last_ns = 0 }

-- A timestamp before the last one clears the phase.
abbrev pub phase : FrameRateLimiter → ℕ → Option ℕ
phase l timestamp = if ltb timestamp l.last_ns then none else l.next_ns

-- The phase after an accepted timestamp.
abbrev pub advance : ℕ → ℕ → ℕ → ℕ
advance timestamp interval next =
    if ltb (saturating_add next interval) timestamp
    then saturating_add timestamp interval
    else saturating_add next interval

unfoldable pub accept : ℕ → ℕ → FrameRateLimiter → Bool × FrameRateLimiter
accept timestamp interval l =
    if interval == 0 || timestamp == 0 then (true, l) else (elim (phase l timestamp) [
      | none ↦
          (true, record { next_ns = some (saturating_add timestamp interval); last_ns = timestamp })
      | some next ↦
          if ltb (saturating_add timestamp (interval / 20)) next
          then (false, record { next_ns = some next; last_ns = timestamp })
          else (
            true,
            record { next_ns = some (advance timestamp interval next); last_ns = timestamp },
          )
    ])

-- How many of a sequence of timestamps pass.
unfoldable pub accepted : ℕ → List ℕ → FrameRateLimiter → ℕ
unfolding accept
accepted interval [] l = 0
accepted interval (t ∷ ts) l =
    let (passed, l') = accept t interval l in
    let rest = accepted interval ts l' in if passed then suc rest else rest
