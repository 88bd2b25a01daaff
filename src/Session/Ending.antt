-- ===== src/Session/Ending.antt =====
-- What the end of a session of src/api.rs means for its readers, for backends and for the device.
use camera_rs.Base.{ℕ, ◌⊎◌, inl, inr, Bool-cases, ◌≡◌, refl, ◌∙◌, Bool, true, false, Option, arith}
use camera_rs.Error.{CameraErrorKind, CameraResult, ok, err, new as error}
use camera_rs.Hub.State.{Hub, Subscriber, FrameKey, accepts}
use camera_rs.Hub.Control.{RecoveryTrigger}
use camera_rs.Hub.Receive.{Poll, poll, is_over}
use camera_rs.Session.{
  Session, Command, begin, request_stop, announce, stop_body, stop_source, stop_record, stop_report,
  stop_release, wake, enter_attempt, begin_attempt, rest_source, check_start, launch,
  check_stopping, attempt_done, attempt_failed, resume, give_up, give_up_release, set_state,
}
use camera_rs.Session.Moves.{Policy, Step, Reach, here, then_step, Reach-trans}
use camera_rs.Session.Safe.{IsQuiet, IsSafe}
use camera_rs.Session.Steps.{Reach-IsSafe}

begin-IsSafe : (reconnect : Bool) (h : Hub) → IsSafe (begin reconnect h)
unfolding begin
begin-IsSafe reconnect h = record {
  closing = λ c. absurd (cc c);
  freeing = λ f. absurd (cc f);
  over = λ c. absurd (cc c);
  held = tt;
}

quiet-accepts : (h : Hub) (session : ℕ) → IsQuiet h → accepts h session ≡ false
unfolding accepts
quiet-accepts h session q = rw q.inactive refl

quiet-poll :
    (h : Hub) (s : Subscriber) (last : Option FrameKey)
    → IsQuiet h
    → (poll h.state s last).0 ≡ Poll.ready (err (error CameraErrorKind.stream_stopped))
unfolding poll is_over
quiet-poll h s last q = ground (arith, q.inactive, q.unrecovering, q.unreconnecting)

attempt_done-closed :
    (now : ℕ) (max_attempts : Option ℕ) (t : RecoveryTrigger) (r : CameraResult (Unit {0}))
    (s : Session)
    → (attempt_done now max_attempts t r s).closed ≡ s.closed
unfolding attempt_done attempt_failed set_state
attempt_done-closed now max_attempts t (ok u) s = refl
attempt_done-closed now max_attempts t (err e) s = ground arith

module _ (policy : Policy) where
  Step-closed : {s t : Session} → Step policy s t → s.closed ≡ true → t.closed ≡ true
  unfolding request_stop announce stop_body stop_source stop_record stop_report stop_release wake
      enter_attempt begin_attempt rest_source check_start launch check_stopping attempt_failed
      resume give_up give_up_release set_state
  Step-closed {s} Step.requests_stop c = ground (arith, c)
  Step-closed {s} (Step.announces now left e) c = c
  Step-closed {s} (Step.enters e) c = c
  Step-closed {s} (Step.stops now e) c = ground (arith, c)
  Step-closed {s} (Step.stops_source r e) c = c
  Step-closed {s} (Step.records r e) c = refl
  Step-closed {s} (Step.reports r e) c = c
  Step-closed {s} (Step.releases e) c = c
  Step-closed {s} (Step.triggers now t e p f) c = c
  Step-closed {s} (Step.retries t e p) c = c
  Step-closed {s} (Step.locks now t retrying e f) c = ground (arith, c)
  Step-closed {s} (Step.begins t e) c = c
  Step-closed {s} (Step.rests t e) c = c
  Step-closed {s} (Step.stays_down t x e) c = c
  Step-closed {s} (Step.checks_start t e) c = c
  Step-closed {s} (Step.launches now begins t r e) c = c
  Step-closed {s} (Step.checks_stopping t r e) c = ground (arith, c)
  Step-closed {s} (Step.settles now t r e) c = attempt_done-closed now policy.max_attempts t r s ∙ c
  Step-closed {s} (Step.resumes e) c = c
  Step-closed {s} (Step.gives_up now e) c = refl
  Step-closed {s} (Step.leaves e) c = c
  Step-closed {s} (Step.publishes p timestamp_ns l) c = c
  Step-closed {s} (Step.ends_stream now) c = c
  Step-closed {s} (Step.reuses h free) c = c

  Reach-closed : {s t : Session} → Reach policy s t → s.closed ≡ true → t.closed ≡ true
  Reach-closed here c = c
  Reach-closed (then_step r st) c = Step-closed st (Reach-closed r c)

  -- Once a session that began on any hub is closed, in any order of its users' steps, it stays closed, and at
  -- every later time its stop flag is set, the last it told its source was to rest, and its metrics are
  -- captured. Until it gives the device up, for another session to start, the hub moreover accepts the frames
  -- of no generation, and every round of every reader's `next` ends with `stream_stopped`.
  pub closed-over :
      (reconnect : Bool) (h : Hub) (s t : Session) (session : ℕ) (reader : Subscriber)
      (last : Option FrameKey)
      → Reach policy (begin reconnect h) s
      → s.closed ≡ true
      → Reach policy s t
      → (t.closed ≡ true)
        × (t.stopping ≡ true)
        × (t.source ≡ Command.rest)
        × (t.captured ≡ true)
        × ((t.busy ≡ false)
            ⊎ ((accepts t.hub session ≡ false)
                × ((poll t.hub.state reader last).0
                    ≡ Poll.ready (err (error CameraErrorKind.stream_stopped)))))
  closed-over reconnect h s t session reader last r closed later =
      let c = Reach-closed later closed in
      let i = Reach-IsSafe policy (Reach-trans policy r later) (begin-IsSafe reconnect h) in
      let o = i.over c in
      (
        c,
        i.closing c,
        o.source_at_rest,
        o.metrics_captured,
        elim (Bool-cases t.busy) [
          | inr free ↦ inl free
          | inl busy ↦ inr (
            quiet-accepts t.hub session (o.quiet busy),
            quiet-poll t.hub reader last (o.quiet busy),
          )
        ],
      )

  -- The device is given up only by a closed session that has last told its source to rest, in any order of the
  -- users' steps.
  pub free-closed :
      (reconnect : Bool) (h : Hub) (s : Session)
      → Reach policy (begin reconnect h) s
      → s.busy ≡ false
      → (s.closed ≡ true) × (s.source ≡ Command.rest)
  free-closed reconnect h s r free =
      let i = Reach-IsSafe policy r (begin-IsSafe reconnect h) in
      let c = i.freeing free in (c, (i.over c).source_at_rest)
