-- ===== src/Session/Counting.antt =====
-- The attempts that the recovery task of src/api.rs has made, by where the task is.
use camera_rs.Base.{ℕ, ◌≤◌, ◌<◌, ◌≡◌, refl, Bool, true, false, All, if◌then◌else◌}
use camera_rs.Session.{Session, SessionState, RecoveryPhase, Holder, Loop}

-- The number of the attempt that a state announces is in 1 … m.
abbrev pub Within : ℕ → SessionState → Type 0
Within m (SessionState.recovering attempt) = attempt ≤ m
Within m _ = Unit

-- The attempts that have failed while the task is at the top of its loop or woken.
abbrev pub Idle : ℕ → ℕ → Loop → Type 0
Idle m attempt Loop.waiting = attempt < m
Idle m attempt (Loop.woken t retrying) = attempt < m
Idle m attempt Loop.holding = ⊥
Idle m attempt Loop.finished = Unit

abbrev pub Counted : ℕ → ℕ → Loop → Holder → Type 0
Counted m attempt task Holder.nobody = Idle m attempt task
Counted m attempt task (Holder.stopper p) = Idle m attempt task
Counted m attempt task (Holder.recovery (RecoveryPhase.locked t)) =
    (task ≡ Loop.holding) × (attempt < m)
Counted m attempt task (Holder.recovery p) = (task ≡ Loop.holding) × (attempt ≤ m)

pub record IsBounded (m : ℕ) (s : Session) : Type 0 where
  pub announced : All (Within m) s.events
  pub counted : Counted m s.attempt s.task s.holder

-- While the task does not hold the lock, it counts as idle, and may go on to another place.
pub others :
    (m attempt : ℕ) (task : Loop) (holder : Holder)
    → Counted m attempt task holder
    → (task ≡ Loop.holding → ⊥)
    → Idle m attempt task × ((task' : Loop) → Idle m attempt task' → Counted m attempt task' holder)
others m attempt task Holder.nobody c other = (c, λ task' i. i)
others m attempt task (Holder.stopper p) c other = (c, λ task' i. i)
others m attempt task (Holder.recovery (RecoveryPhase.locked t)) c other = absurd (other c.0)
others m attempt task (Holder.recovery (RecoveryPhase.trying t)) c other = absurd (other c.0)
others m attempt task (Holder.recovery (RecoveryPhase.rested t)) c other = absurd (other c.0)
others m attempt task (Holder.recovery (RecoveryPhase.launching t)) c other = absurd (other c.0)
others m attempt task (Holder.recovery (RecoveryPhase.tried t r)) c other = absurd (other c.0)
others m attempt task (Holder.recovery (RecoveryPhase.checked t r)) c other = absurd (other c.0)
others m attempt task (Holder.recovery RecoveryPhase.recovered) c other = absurd (other c.0)
others m attempt task (Holder.recovery RecoveryPhase.given_up) c other = absurd (other c.0)
others m attempt task (Holder.recovery RecoveryPhase.ended) c other = absurd (other c.0)

pub either :
    (P : Session → Type 0) (b : Bool) (x y : Session)
    → (b ≡ true → P x)
    → (b ≡ false → P y)
    → P (if b then x else y)
either P true x y p q = p refl
either P false x y p q = q refl
