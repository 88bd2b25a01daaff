-- ===== src/Session/Safe.antt =====
-- What every step of a session of src/api.rs keeps: once it is closed, it has told its source to rest and the
-- hub is quiet until the device is given up, and the device is given up only then.
use camera_rs.Base.{ℕ, ◌≡◌, refl, sym, subst, ◌∙◌, true, false}
use camera_rs.Hub.State.{Hub}
use camera_rs.Hub.Publish.{wake_recovery}
use camera_rs.Hub.Control.{stop, stop_queues, stop_state, end_recovery, disable_recovery}
use camera_rs.Session.{Session, StopPhase, RecoveryPhase, Holder, Command, halt}

-- No generation runs, and none is awaited.
pub record IsQuiet (h : Hub) : Type 0 where
  pub inactive : h.state.active ≡ false
  pub unrecovering : h.state.recovering ≡ false
  pub unreconnecting : h.state.reconnect_enabled ≡ false

pub record IsOver (s : Session) : Type 0 where
  pub quiet : s.busy ≡ true → IsQuiet s.hub
  pub source_at_rest : s.source ≡ Command.rest
  pub metrics_captured : s.captured ≡ true

pub record IsHalted (s : Session) : Type 0 where
  pub stopping_set : s.stopping ≡ true
  pub still_open : s.closed ≡ false
  pub hub_quiet : IsQuiet s.hub

-- What the holder of the lock has established.
abbrev pub Held : Holder → Session → Type 0
Held Holder.nobody s = Unit
Held (Holder.stopper StopPhase.entered) s = Unit
Held (Holder.stopper StopPhase.halted) s = IsHalted s
Held (Holder.stopper (StopPhase.answered r)) s = IsHalted s × (s.source ≡ Command.rest)
Held (Holder.stopper (StopPhase.recorded r)) s = s.closed ≡ true
Held (Holder.stopper StopPhase.reported) s = s.closed ≡ true
Held (Holder.recovery RecoveryPhase.ended) s = s.closed ≡ true
Held (Holder.recovery (RecoveryPhase.locked t)) s = s.closed ≡ false
Held (Holder.recovery (RecoveryPhase.trying t)) s = s.closed ≡ false
Held (Holder.recovery (RecoveryPhase.rested t)) s = s.closed ≡ false
Held (Holder.recovery (RecoveryPhase.launching t)) s = s.closed ≡ false
Held (Holder.recovery (RecoveryPhase.tried t r)) s = s.closed ≡ false
Held (Holder.recovery (RecoveryPhase.checked t r)) s = s.closed ≡ false
Held (Holder.recovery RecoveryPhase.recovered) s = s.closed ≡ false
Held (Holder.recovery RecoveryPhase.given_up) s = s.closed ≡ false

-- `closing`, `freeing`: a closed session is stopping, and a device that is free has a closed session.
pub record IsSafe (s : Session) : Type 0 where
  pub closing : s.closed ≡ true → s.stopping ≡ true
  pub freeing : s.busy ≡ false → s.closed ≡ true
  pub over : s.closed ≡ true → IsOver s
  pub held : Held s.holder s

-- A step that starts and ends with the session open.
pub open-IsSafe :
    (s s' : Session)
    → s.closed ≡ false
    → s'.closed ≡ s.closed
    → s'.busy ≡ s.busy
    → Held s'.holder s'
    → IsSafe s
    → IsSafe s'
open-IsSafe s s' e closed busy held i = record {
  closing = λ c. absurd (cc (c, closed, e));
  freeing = λ f. absurd (cc (i.freeing (sym busy ∙ f), e));
  over = λ c. absurd (cc (c, closed, e));
  held = held;
}

pub halt-IsQuiet : (now : ℕ) (h : Hub) → IsQuiet (halt now h)
unfolding halt stop stop_queues stop_state end_recovery disable_recovery wake_recovery
halt-IsQuiet now h = record { inactive = refl; unrecovering = refl; unreconnecting = refl }

-- An operation that leaves the three flags down.
pub record IsCalming (h h' : Hub) : Type 0 where
  pub active : h.state.active ≡ false → h'.state.active ≡ false
  pub recovering : h'.state.recovering ≡ h.state.recovering
  pub reconnecting : h'.state.reconnect_enabled ≡ h.state.reconnect_enabled

pub calming-IsQuiet : (h h' : Hub) → IsCalming h h' → IsQuiet h → IsQuiet h'
calming-IsQuiet h h' c q = record {
  inactive = c.active q.inactive;
  unrecovering = c.recovering ∙ q.unrecovering;
  unreconnecting = c.reconnecting ∙ q.unreconnecting;
}

-- The flag stays set, a quiet hub stays quiet, and the rest of what `Held` and `IsOver` speak of is the same.
pub record IsNeutral (s s' : Session) : Type 0 where
  pub stays_stopping : s.stopping ≡ true → s'.stopping ≡ true
  pub stays_quiet : IsQuiet s.hub → IsQuiet s'.hub
  pub same_closed : s'.closed ≡ s.closed
  pub same_busy : s'.busy ≡ s.busy
  pub same_source : s'.source ≡ s.source
  pub same_captured : s'.captured ≡ s.captured

neutral-IsHalted : (s s' : Session) → IsNeutral s s' → IsHalted s → IsHalted s'
neutral-IsHalted s s' n q = record {
  stopping_set = n.stays_stopping q.stopping_set;
  still_open = n.same_closed ∙ q.still_open;
  hub_quiet = n.stays_quiet q.hub_quiet;
}

neutral-Held : (holder : Holder) (s s' : Session) → IsNeutral s s' → Held holder s → Held holder s'
neutral-Held Holder.nobody s s' n q = tt
neutral-Held (Holder.stopper StopPhase.entered) s s' n q = tt
neutral-Held (Holder.stopper StopPhase.halted) s s' n q = neutral-IsHalted s s' n q
neutral-Held (Holder.stopper (StopPhase.answered r)) s s' n q =
    (neutral-IsHalted s s' n q.0, n.same_source ∙ q.1)
neutral-Held (Holder.stopper (StopPhase.recorded r)) s s' n q = n.same_closed ∙ q
neutral-Held (Holder.stopper StopPhase.reported) s s' n q = n.same_closed ∙ q
neutral-Held (Holder.recovery p) s s' n q = held p q
  where
    held : (p : RecoveryPhase) → Held (Holder.recovery p) s → Held (Holder.recovery p) s'
    held RecoveryPhase.ended q = n.same_closed ∙ q
    held (RecoveryPhase.locked t) q = n.same_closed ∙ q
    held (RecoveryPhase.trying t) q = n.same_closed ∙ q
    held (RecoveryPhase.rested t) q = n.same_closed ∙ q
    held (RecoveryPhase.launching t) q = n.same_closed ∙ q
    held (RecoveryPhase.tried t r) q = n.same_closed ∙ q
    held (RecoveryPhase.checked t r) q = n.same_closed ∙ q
    held RecoveryPhase.recovered q = n.same_closed ∙ q
    held RecoveryPhase.given_up q = n.same_closed ∙ q

-- A neutral step, whoever holds the lock afterwards.
pub moved-IsSafe : (s s' : Session) → IsNeutral s s' → Held s'.holder s' → IsSafe s → IsSafe s'
moved-IsSafe s s' n held i = record {
  closing = λ c. n.stays_stopping (i.closing (sym n.same_closed ∙ c));
  freeing = λ f. n.same_closed ∙ i.freeing (sym n.same_busy ∙ f);
  over = λ c.
      let o = i.over (sym n.same_closed ∙ c) in
      record {
        quiet = λ b. n.stays_quiet (o.quiet (sym n.same_busy ∙ b));
        source_at_rest = n.same_source ∙ o.source_at_rest;
        metrics_captured = n.same_captured ∙ o.metrics_captured;
      };
  held = held;
}

-- A neutral step that leaves the lock alone.
pub neutral-IsSafe : (s s' : Session) → IsNeutral s s' → s'.holder ≡ s.holder → IsSafe s → IsSafe s'
neutral-IsSafe s s' n same i =
    moved-IsSafe s s' n (subst (λ x. Held x s') (sym same) (neutral-Held s.holder s s' n i.held)) i

-- A holder of the lock in a session that is closed relies on nothing of the hub.
closed-Held :
    (holder : Holder) (s : Session) (h : Hub)
    → s.closed ≡ true
    → Held holder s
    → Held holder (record s { hub = h })
closed-Held Holder.nobody s h c q = tt
closed-Held (Holder.stopper StopPhase.entered) s h c q = tt
closed-Held (Holder.stopper StopPhase.halted) s h c q = absurd (cc (c, q.still_open))
closed-Held (Holder.stopper (StopPhase.answered r)) s h c q = absurd (cc (c, q.0.still_open))
closed-Held (Holder.stopper (StopPhase.recorded r)) s h c q = q
closed-Held (Holder.stopper StopPhase.reported) s h c q = q
closed-Held (Holder.recovery p) s h c q = held p q
  where
    held :
        (p : RecoveryPhase)
        → Held (Holder.recovery p) s
        → Held (Holder.recovery p) (record s { hub = h })
    held RecoveryPhase.ended q = q
    held (RecoveryPhase.locked t) q = q
    held (RecoveryPhase.trying t) q = q
    held (RecoveryPhase.rested t) q = q
    held (RecoveryPhase.launching t) q = q
    held (RecoveryPhase.tried t r) q = q
    held (RecoveryPhase.checked t r) q = q
    held RecoveryPhase.recovered q = q
    held RecoveryPhase.given_up q = q

-- The next session of the device does not touch what a session that has given it up keeps.
pub reused-IsSafe :
    (s : Session) (h : Hub) → s.busy ≡ false → IsSafe s → IsSafe (record s { hub = h })
reused-IsSafe s h free i =
    let o = i.over (i.freeing free) in
    record {
      closing = i.closing;
      freeing = i.freeing;
      over = λ c. record {
        quiet = λ b. absurd (cc (b, free));
        source_at_rest = o.source_at_rest;
        metrics_captured = o.metrics_captured;
      };
      held = closed-Held s.holder s h (i.freeing free) i.held;
    }

-- A step that the session's parts do not see.
pub hub-IsNeutral :
    (s : Session) (h : Hub) → (IsQuiet s.hub → IsQuiet h) → IsNeutral s (record s { hub = h })
hub-IsNeutral s h c = record {
  stays_stopping = λ e. e;
  stays_quiet = c;
  same_closed = refl;
  same_busy = refl;
  same_source = refl;
  same_captured = refl;
}
