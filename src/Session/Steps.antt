-- ===== src/Session/Steps.antt =====
-- The steps of a session of src/api.rs keep it safe.
use camera_rs.Base.{
  ℕ, ◌≡◌, refl, subst, Bool, true, false, not, ◌&&◌, Bool-cases, inl, inr, arith, is_some_and,
  is_none_or, leb, if◌then◌else◌,
}
use camera_rs.Error.{CameraResult, ok, err}
use camera_rs.Hub.Reserve.{Lease}
use camera_rs.Hub.Publish.{Publication, finish_publish, wake_recovery}
use camera_rs.Hub.Control.{RecoveryTrigger, stop, stop_queues, stop_state, recovery_trigger}
use camera_rs.Session.{
  Session, StopPhase, RecoveryPhase, Holder, Loop, request_stop, announce, set_state, halt,
  stop_body, stop_source, stop_record, stop_report, stop_release, wake, enter_attempt,
  begin_attempt, rest_source, check_start, launch, check_stopping, attempt_done, attempt_failed,
  resume, give_up, give_up_release,
}
use camera_rs.Session.Moves.{Policy, Step, Reach, here, then_step}
use camera_rs.Session.Safe.{
  IsQuiet, Held, IsSafe, IsCalming, IsNeutral, open-IsSafe, halt-IsQuiet, calming-IsQuiet,
  moved-IsSafe, neutral-IsSafe, reused-IsSafe, hub-IsNeutral,
}

module _ (policy : Policy) (s : Session) where
  request_stop-IsNeutral : IsNeutral s (request_stop s)
  unfolding request_stop
  request_stop-IsNeutral = record {
    stays_stopping = λ e. ground arith;
    stays_quiet = λ q. subst IsQuiet (ground arith) q;
    same_closed = ground arith;
    same_busy = ground arith;
    same_source = ground arith;
    same_captured = ground arith;
  }

  request_stop-holder : (request_stop s).holder ≡ s.holder
  unfolding request_stop
  request_stop-holder = ground arith

  announce-IsSafe : (now left : ℕ) → IsSafe s → IsSafe (announce now left s)
  unfolding announce set_state
  announce-IsSafe now left i =
      neutral-IsSafe s (announce now left s)
        (record {
          stays_stopping = λ e. e;
          stays_quiet = λ q. halt-IsQuiet now s.hub;
          same_closed = refl;
          same_busy = refl;
          same_source = refl;
          same_captured = refl;
        })
        refl i

  finish_publish-IsCalming :
      (p : Publication) (timestamp_ns : ℕ) (l : Lease)
      → IsCalming s.hub (finish_publish policy.interval p timestamp_ns l s.hub).1
  unfolding finish_publish
  finish_publish-IsCalming p timestamp_ns l = record {
    active = λ e. ground (arith, e);
    recovering = ground arith;
    reconnecting = ground arith;
  }

  stop-IsCalming : (now : ℕ) → IsCalming s.hub (stop now s.hub)
  unfolding stop stop_queues stop_state wake_recovery
  stop-IsCalming now = record { active = λ e. refl; recovering = refl; reconnecting = refl }

  alike : (task : Loop) (holder : Holder) → IsNeutral s (record s { task = task; holder = holder })
  alike task holder = record {
    stays_stopping = λ e. e;
    stays_quiet = λ q. q;
    same_closed = refl;
    same_busy = refl;
    same_source = refl;
    same_captured = refl;
  }

  stop_body-IsSafe :
      (now : ℕ) → s.holder ≡ Holder.stopper StopPhase.entered → IsSafe s → IsSafe (stop_body now s)
  unfolding stop_body
  stop_body-IsSafe now e i = after s.closed refl
    where
      after :
          (b : Bool)
          → s.closed ≡ b
          → IsSafe (
              if b then record s { holder = Holder.nobody } else record s {
                stopping = true;
                hub = halt now s.hub;
                holder = Holder.stopper StopPhase.halted;
              })
      after true closed =
          moved-IsSafe s (record s { holder = Holder.nobody }) (alike s.task Holder.nobody) tt i
      after false still =
          open-IsSafe s _ still refl refl
            (record { stopping_set = refl; still_open = still; hub_quiet = halt-IsQuiet now s.hub })
            i

  stop_source-IsSafe :
      (r : CameraResult (Unit {0}))
      → s.holder ≡ Holder.stopper StopPhase.halted
      → IsSafe s
      → IsSafe (stop_source r s)
  unfolding stop_source
  stop_source-IsSafe r e i =
      let h : Held (Holder.stopper StopPhase.halted) s = subst (λ x. Held x s) e i.held in
      open-IsSafe s _ h.still_open refl refl
        (
          record {
            stopping_set = h.stopping_set;
            still_open = h.still_open;
            hub_quiet = h.hub_quiet;
          },
          refl,
        )
        i

  stop_record-IsSafe :
      (r : CameraResult (Unit {0}))
      → s.holder ≡ Holder.stopper (StopPhase.answered r)
      → IsSafe s
      → IsSafe (stop_record r s)
  unfolding stop_record
  stop_record-IsSafe r e i =
      let h : Held (Holder.stopper (StopPhase.answered r)) s = subst (λ x. Held x s) e i.held in
      record {
        closing = λ c. h.0.stopping_set;
        freeing = λ f. refl;
        over = λ c. record {
          quiet = λ b. h.0.hub_quiet;
          source_at_rest = h.1;
          metrics_captured = refl;
        };
        held = refl;
      }

  give_up-IsSafe : (now : ℕ) → IsSafe (give_up now s)
  unfolding give_up
  give_up-IsSafe now = record {
    closing = λ c. refl;
    freeing = λ f. refl;
    over = λ c. record {
      quiet = λ b. halt-IsQuiet now s.hub;
      source_at_rest = refl;
      metrics_captured = refl;
    };
    held = refl;
  }

  -- The device is given up behind a closed session.
  release-IsSafe :
      (task : Loop)
      → s.closed ≡ true
      → IsSafe s
      → IsSafe (record s { busy = false; holder = Holder.nobody; task = task })
  release-IsSafe task closed i = record {
    closing = i.closing;
    freeing = λ f. closed;
    over = λ c. record {
      quiet = λ b. absurd (cc b);
      source_at_rest = (i.over c).source_at_rest;
      metrics_captured = (i.over c).metrics_captured;
    };
    held = tt;
  }

  enter_attempt-IsSafe :
      (now timeout : ℕ) (t : RecoveryTrigger) (retrying : Bool)
      → s.holder ≡ Holder.nobody
      → IsSafe s
      → IsSafe (enter_attempt now timeout t retrying s)
  unfolding enter_attempt
  enter_attempt-IsSafe now timeout t retrying e i =
      after s.stopping refl
        (not retrying && is_none_or (recovery_trigger now timeout s.hub) (λ u. false))
    where
      still_open : (b : Bool) → s.closed ≡ b → s.stopping ≡ false → s.closed ≡ false
      still_open true closed running = absurd (cc (i.closing closed, running))
      still_open false still running = still

      after :
          (b : Bool)
          → s.stopping ≡ b
          → (again : Bool)
          → IsSafe (
              if b
              then record s { task = Loop.finished }
              else if again
              then record s { task = Loop.waiting }
              else record s {
                task = Loop.holding;
                holder = Holder.recovery (RecoveryPhase.locked t);
              })
      after true stopping again = neutral-IsSafe s _ (alike Loop.finished s.holder) refl i
      after false running true = neutral-IsSafe s _ (alike Loop.waiting s.holder) refl i
      after false running false =
          let still = still_open s.closed refl running in open-IsSafe s _ still refl refl still i

  check_stopping-IsSafe :
      (t : RecoveryTrigger) (r : CameraResult (Unit {0}))
      → s.closed ≡ false
      → IsSafe s
      → IsSafe (check_stopping t r s)
  unfolding check_stopping
  check_stopping-IsSafe t r still i = elim (Bool-cases s.stopping) [
    | inl stopping ↦ rw stopping (open-IsSafe s _ still refl refl tt i)
    | inr running ↦ rw running (open-IsSafe s _ still refl refl still i)
  ]

  check_start-IsSafe :
      (t : RecoveryTrigger) → s.closed ≡ false → IsSafe s → IsSafe (check_start t s)
  unfolding check_start
  check_start-IsSafe t still i = elim (Bool-cases s.stopping) [
    | inl stopping ↦ rw stopping (open-IsSafe s _ still refl refl still i)
    | inr running ↦ rw running (open-IsSafe s _ still refl refl still i)
  ]

  attempt_done-IsSafe :
      (now : ℕ) (t : RecoveryTrigger) (r : CameraResult (Unit {0}))
      → s.closed ≡ false
      → IsSafe s
      → IsSafe (attempt_done now policy.max_attempts t r s)
  unfolding attempt_done attempt_failed set_state
  attempt_done-IsSafe now t (ok u) still i = open-IsSafe s _ still refl refl still i
  attempt_done-IsSafe now t (err e) still i =
      elim (Bool-cases (is_some_and policy.max_attempts (λ n. leb n s.attempt))) [
        | inl last ↦ rw last (open-IsSafe s _ still refl refl still i)
        | inr more ↦ rw more (open-IsSafe s _ still refl refl tt i)
      ]

module _ (policy : Policy) where
  pub Step-IsSafe : {s t : Session} → Step policy s t → IsSafe s → IsSafe t
  unfolding wake stop_report stop_release begin_attempt rest_source launch resume give_up_release
      set_state
  Step-IsSafe {s} Step.requests_stop i =
      neutral-IsSafe s _ (request_stop-IsNeutral policy s) (request_stop-holder policy s) i
  Step-IsSafe {s} (Step.announces now left e) i = announce-IsSafe policy s now left i
  Step-IsSafe {s} (Step.enters e) i =
      moved-IsSafe s _ (alike policy s s.task (Holder.stopper StopPhase.entered)) tt i
  Step-IsSafe {s} (Step.stops now e) i = stop_body-IsSafe policy s now e i
  Step-IsSafe {s} (Step.stops_source r e) i = stop_source-IsSafe policy s r e i
  Step-IsSafe {s} (Step.records r e) i = stop_record-IsSafe policy s r e i
  Step-IsSafe {s} (Step.reports r e) i =
      moved-IsSafe s _ (reported r) (subst (λ x. Held x s) e i.held) i
    where
      reported : (r : CameraResult (Unit {0})) → IsNeutral s (stop_report r s)
      reported r = record {
        stays_stopping = λ e. e;
        stays_quiet = λ q. q;
        same_closed = refl;
        same_busy = refl;
        same_source = refl;
        same_captured = refl;
      }
  Step-IsSafe {s} (Step.releases e) i =
      release-IsSafe policy s s.task (subst (λ x. Held x s) e i.held) i
  Step-IsSafe {s} (Step.triggers now t e p f) i =
      neutral-IsSafe s _ (alike policy s _ s.holder) refl i
  Step-IsSafe {s} (Step.retries t e p) i = neutral-IsSafe s _ (alike policy s _ s.holder) refl i
  Step-IsSafe {s} (Step.locks now t retrying e f) i =
      enter_attempt-IsSafe policy s now policy.stall_timeout t retrying f i
  Step-IsSafe {s} (Step.begins t e) i =
      let still : s.closed ≡ false = subst (λ x. Held x s) e i.held in
      open-IsSafe s _ still refl refl still i
  Step-IsSafe {s} (Step.rests t e) i =
      let still : s.closed ≡ false = subst (λ x. Held x s) e i.held in
      open-IsSafe s _ still refl refl still i
  Step-IsSafe {s} (Step.stays_down t x e) i =
      let still : s.closed ≡ false = subst (λ x. Held x s) e i.held in
      open-IsSafe s _ still refl refl still i
  Step-IsSafe {s} (Step.checks_start t e) i =
      check_start-IsSafe policy s t (subst (λ x. Held x s) e i.held) i
  Step-IsSafe {s} (Step.launches now begins t r e) i =
      let still : s.closed ≡ false = subst (λ x. Held x s) e i.held in
      open-IsSafe s _ still refl refl still i
  Step-IsSafe {s} (Step.checks_stopping t r e) i =
      check_stopping-IsSafe policy s t r (subst (λ x. Held x s) e i.held) i
  Step-IsSafe {s} (Step.settles now t r e) i =
      attempt_done-IsSafe policy s now t r (subst (λ x. Held x s) e i.held) i
  Step-IsSafe {s} (Step.resumes e) i =
      let still : s.closed ≡ false = subst (λ x. Held x s) e i.held in
      open-IsSafe s _ still refl refl tt i
  Step-IsSafe {s} (Step.gives_up now e) i = give_up-IsSafe policy s now
  Step-IsSafe {s} (Step.leaves e) i =
      release-IsSafe policy s Loop.finished (subst (λ x. Held x s) e i.held) i
  Step-IsSafe {s} (Step.publishes p timestamp_ns l) i =
      neutral-IsSafe s _
        (hub-IsNeutral s _
          (calming-IsQuiet s.hub _ (finish_publish-IsCalming policy s p timestamp_ns l)))
        refl i
  Step-IsSafe {s} (Step.ends_stream now) i =
      neutral-IsSafe s _ (hub-IsNeutral s _ (calming-IsQuiet s.hub _ (stop-IsCalming policy s now)))
        refl i
  Step-IsSafe {s} (Step.reuses h free) i = reused-IsSafe s h free i

  pub Reach-IsSafe : {s t : Session} → Reach policy s t → IsSafe s → IsSafe t
  Reach-IsSafe here i = i
  Reach-IsSafe (then_step r st) i = Step-IsSafe st (Reach-IsSafe r i)
