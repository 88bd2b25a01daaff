-- ===== src/Session/Attempts.antt =====
-- The number of recovery attempts of a session of src/api.rs.
use camera_rs.Base.{
  ℕ, ◌≤◌, ◌<◌, ◌≡◌, refl, sym, subst, Bool, true, false, not, ◌&&◌, ◌||◌, [], ◌∷◌, some, max, leb,
  All, All-append, is_some_and, is_none_or, if◌then◌else◌, arith, add_u32,
}
use camera_rs.Error.{CameraErrorKind, CameraResult, ok, err, new as error}
use camera_rs.Hub.State.{Hub}
use camera_rs.Hub.Control.{RecoveryTrigger, recovery_trigger}
use camera_rs.Session.{
  Session, SessionState, StopPhase, RecoveryPhase, Holder, Loop, begin, request_stop, announce,
  stop_body, stop_source, stop_record, stop_report, stop_release, wake, enter_attempt,
  begin_attempt, rest_source, check_start, launch, check_stopping, attempt_done, attempt_failed,
  resume, give_up, give_up_release, set_state, final_state,
}
use camera_rs.Session.Moves.{Policy, Step, Reach, here, then_step}
use camera_rs.Session.Numbering.{Follows, reach-Follows}
use camera_rs.Session.Counting.{Within, Idle, Counted, IsBounded, others, either}

final-Within : (m : ℕ) (r : CameraResult (Unit {0})) → Within m (final_state r)
final-Within m (ok u) = tt
final-Within m (err e) = tt

begin-IsBounded : (m : ℕ) → 0 < m → (reconnect : Bool) (h : Hub) → IsBounded m (begin reconnect h)
unfolding begin
begin-IsBounded m lt reconnect h = record { announced = (tt, tt); counted = place reconnect }
  where
    place : (b : Bool) → Idle m 0 (if b then Loop.waiting else Loop.finished)
    place true = lt
    place false = tt

module _ (policy : Policy) (n : ℕ) (limited : policy.max_attempts ≡ some n) where
  abbrev bound : ℕ
  bound = max n 1

  request_stop-IsBounded : (s : Session) → IsBounded bound s → IsBounded bound (request_stop s)
  unfolding request_stop
  request_stop-IsBounded s b =
      either (IsBounded bound) (s.stopping || s.closed) _ _
        (λ e. record { announced = b.announced; counted = b.counted })
        (λ e. record { announced = b.announced; counted = b.counted })

  stop_body-IsBounded :
      (now : ℕ) (s : Session)
      → s.holder ≡ Holder.stopper StopPhase.entered
      → IsBounded bound s
      → IsBounded bound (stop_body now s)
  unfolding stop_body
  stop_body-IsBounded now s e b =
      let c : Idle bound s.attempt s.task = subst (Counted bound s.attempt s.task) e b.counted in
      either (IsBounded bound) s.closed _ _
        (λ closed. record { announced = b.announced; counted = c })
        (λ still. record { announced = b.announced; counted = c })

  check_start-IsBounded :
      (t : RecoveryTrigger) (s : Session)
      → s.holder ≡ Holder.recovery (RecoveryPhase.rested t)
      → IsBounded bound s
      → IsBounded bound (check_start t s)
  unfolding check_start
  check_start-IsBounded t s e b = record { announced = b.announced; counted = after s.stopping }
    where
      after :
          (f : Bool)
          → Counted bound s.attempt s.task (
              Holder.recovery (
                if f
                then RecoveryPhase.tried t (err (error CameraErrorKind.stream_stopped))
                else RecoveryPhase.launching t))
      after true = subst (Counted bound s.attempt s.task) e b.counted
      after false = subst (Counted bound s.attempt s.task) e b.counted

  check_stopping-IsBounded :
      (t : RecoveryTrigger) (r : CameraResult (Unit {0})) (s : Session)
      → s.holder ≡ Holder.recovery (RecoveryPhase.tried t r)
      → IsBounded bound s
      → IsBounded bound (check_stopping t r s)
  unfolding check_stopping
  check_stopping-IsBounded t r s e b =
      either (IsBounded bound) s.stopping _ _
        (λ stopping. record { announced = b.announced; counted = tt })
        (λ running. record {
          announced = b.announced;
          counted = subst (Counted bound s.attempt s.task) e b.counted;
        })

  wake-IsBounded :
      (t : RecoveryTrigger) (retrying : Bool) (s : Session)
      → s.task ≡ Loop.waiting
      → IsBounded bound s
      → IsBounded bound (wake t retrying s)
  unfolding wake
  wake-IsBounded t retrying s e b = record { announced = b.announced; counted = moved s.stopping }
    where
      free :
          Idle bound s.attempt s.task
          × ((task' : Loop) → Idle bound s.attempt task' → Counted bound s.attempt task' s.holder)
      free = others bound s.attempt s.task s.holder b.counted (λ h. absurd (cc (e, h)))

      moved :
          (f : Bool)
          → Counted bound s.attempt (if f then Loop.finished else Loop.woken t retrying) s.holder
      moved true = free.1 Loop.finished tt
      moved false = free.1 (Loop.woken t retrying) (subst (Idle bound s.attempt) e free.0)

  enter_attempt-IsBounded :
      (now : ℕ) (t : RecoveryTrigger) (retrying : Bool) (s : Session)
      → s.task ≡ Loop.woken t retrying
      → s.holder ≡ Holder.nobody
      → IsBounded bound s
      → IsBounded bound (enter_attempt now policy.stall_timeout t retrying s)
  unfolding enter_attempt
  enter_attempt-IsBounded now t retrying s e f b =
      either (IsBounded bound) s.stopping _ _
        (λ stopping. record { announced = b.announced; counted = free Loop.finished tt })
        (λ running.
          either (IsBounded bound)
            (not retrying
              && is_none_or (recovery_trigger now policy.stall_timeout s.hub) (λ u. false))
            (record s { task = Loop.waiting })
            (record s { task = Loop.holding; holder = Holder.recovery (RecoveryPhase.locked t) })
            (λ again. record { announced = b.announced; counted = free Loop.waiting few })
            (λ tries. record { announced = b.announced; counted = (refl, few) }))
    where
      few : s.attempt < bound
      few = subst (Idle bound s.attempt) e (subst (Counted bound s.attempt s.task) f b.counted)

      free : (task : Loop) → Idle bound s.attempt task → Counted bound s.attempt task s.holder
      free task i = subst (Counted bound s.attempt task) (sym f) i

  begin_attempt-IsBounded :
      (t : RecoveryTrigger) (s : Session)
      → s.holder ≡ Holder.recovery (RecoveryPhase.locked t)
      → IsBounded bound s
      → IsBounded bound (begin_attempt t s)
  unfolding begin_attempt set_state
  begin_attempt-IsBounded t s e b =
      let c : (s.task ≡ Loop.holding) × (s.attempt < bound) =
        subst (Counted bound s.attempt s.task) e b.counted in
      let few : add_u32 s.attempt 1 ≤ bound = omega (arith, c.1) in
      record {
        announced = All-append (Within bound) s.events _ b.announced (few, tt);
        counted = (c.0, few);
      }

  attempt_done-IsBounded :
      (now : ℕ) (t : RecoveryTrigger) (r : CameraResult (Unit {0})) (s : Session)
      → s.task ≡ Loop.holding
      → s.attempt ≤ bound
      → IsBounded bound s
      → IsBounded bound (attempt_done now policy.max_attempts t r s)
  unfolding attempt_done attempt_failed set_state
  attempt_done-IsBounded now t (ok u) s e few b = record {
    announced = b.announced;
    counted = (e, few);
  }
  attempt_done-IsBounded now t (err x) s e few b =
      either (IsBounded bound) (is_some_and policy.max_attempts (λ k. leb k s.attempt)) _ _
        (λ last. record {
          announced =
              All-append (Within bound) s.events (SessionState.failed x ∷ []) b.announced (tt, tt);
          counted = (e, few);
        })
        (λ more. record { announced = b.announced; counted = fewer (rw limited at more) })
    where
      fewer : leb n s.attempt ≡ false → s.attempt < bound
      fewer more = ground (arith, more)

  Step-IsBounded : {s t : Session} → Step policy s t → IsBounded bound s → IsBounded bound t
  unfolding announce set_state stop_source stop_record stop_report stop_release rest_source launch
      resume give_up give_up_release
  Step-IsBounded {s} Step.requests_stop b = request_stop-IsBounded s b
  Step-IsBounded {s} (Step.announces now left e) b = record {
    announced = All-append (Within bound) s.events _ b.announced (tt, tt);
    counted = b.counted;
  }
  Step-IsBounded {s} (Step.enters e) b = record {
    announced = b.announced;
    counted = subst (Counted bound s.attempt s.task) e b.counted;
  }
  Step-IsBounded {s} (Step.stops now e) b = stop_body-IsBounded now s e b
  Step-IsBounded {s} (Step.stops_source r e) b = record {
    announced = b.announced;
    counted = subst (Counted bound s.attempt s.task) e b.counted;
  }
  Step-IsBounded {s} (Step.records r e) b = record {
    announced = b.announced;
    counted = subst (Counted bound s.attempt s.task) e b.counted;
  }
  Step-IsBounded {s} (Step.reports r e) b = record {
    announced = All-append (Within bound) s.events _ b.announced (final-Within bound r, tt);
    counted = subst (Counted bound s.attempt s.task) e b.counted;
  }
  Step-IsBounded {s} (Step.releases e) b = record {
    announced = b.announced;
    counted = subst (Counted bound s.attempt s.task) e b.counted;
  }
  Step-IsBounded {s} (Step.triggers now t e p f) b = wake-IsBounded t false s e b
  Step-IsBounded {s} (Step.retries t e p) b = wake-IsBounded t true s e b
  Step-IsBounded {s} (Step.locks now t retrying e f) b =
      enter_attempt-IsBounded now t retrying s e f b
  Step-IsBounded {s} (Step.begins t e) b = begin_attempt-IsBounded t s e b
  Step-IsBounded {s} (Step.rests t e) b = record {
    announced = b.announced;
    counted = subst (Counted bound s.attempt s.task) e b.counted;
  }
  Step-IsBounded {s} (Step.stays_down t x e) b = record {
    announced = b.announced;
    counted = subst (Counted bound s.attempt s.task) e b.counted;
  }
  Step-IsBounded {s} (Step.checks_start t e) b = check_start-IsBounded t s e b
  Step-IsBounded {s} (Step.launches now begins t r e) b = record {
    announced = b.announced;
    counted = subst (Counted bound s.attempt s.task) e b.counted;
  }
  Step-IsBounded {s} (Step.checks_stopping t r e) b = check_stopping-IsBounded t r s e b
  Step-IsBounded {s} (Step.settles now t r e) b =
      let c : (s.task ≡ Loop.holding) × (s.attempt ≤ bound) =
        subst (Counted bound s.attempt s.task) e b.counted in
      attempt_done-IsBounded now t r s c.0 c.1 b
  Step-IsBounded {s} (Step.resumes e) b = record {
    announced = All-append (Within bound) s.events _ b.announced (tt, tt);
    counted = omega arith;
  }
  Step-IsBounded {s} (Step.gives_up now e) b = record {
    announced = b.announced;
    counted = subst (Counted bound s.attempt s.task) e b.counted;
  }
  Step-IsBounded {s} (Step.leaves e) b = record { announced = b.announced; counted = tt }
  Step-IsBounded {s} (Step.publishes p timestamp_ns l) b = record {
    announced = b.announced;
    counted = b.counted;
  }
  Step-IsBounded {s} (Step.ends_stream now) b = record {
    announced = b.announced;
    counted = b.counted;
  }
  Step-IsBounded {s} (Step.reuses h free) b = record {
    announced = b.announced;
    counted = b.counted;
  }

  Reach-IsBounded : {s t : Session} → Reach policy s t → IsBounded bound s → IsBounded bound t
  Reach-IsBounded here b = b
  Reach-IsBounded (then_step r st) b = Step-IsBounded st (Reach-IsBounded r b)

-- With a limit of attempts, in any order of the users' steps of a session: no lifecycle event announces a
-- recovery attempt above the limit (above 1 where the limit is 0), and the attempts are numbered on from 1
-- since the last `Streaming` event, which starts the count again.
pub attempts-bounded :
    (policy : Policy) (n : ℕ) (reconnect : Bool) (h : Hub) (s : Session)
    → policy.max_attempts ≡ some n
    → Reach policy (begin reconnect h) s
    → All (Within (max n 1)) s.events × Follows 0 s.events
attempts-bounded policy n reconnect h s limited r = (
  (Reach-IsBounded policy n limited r
      (begin-IsBounded (max n 1) (omega arith) reconnect h)).announced,
  reach-Follows policy reconnect h s r,
)
