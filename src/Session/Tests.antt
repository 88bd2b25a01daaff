-- ===== src/Session/Tests.antt =====
-- Sessions at concrete values: an ordered end, a `request_stop` that announces itself too late, and
-- recovery attempts that fail.
use camera_rs.Base.{
  suc, ◌-◌, ◌⊎◌, List, [], ◌∷◌, ◌≡◌, refl, true, false, none, some, arith, max, All,
}
use camera_rs.Error.{CameraErrorKind, CameraError, ok, err, new as error}
use camera_rs.Hub.State.{Hub, Subscriber, accepts}
use camera_rs.Hub.Control.{RecoveryTrigger, new, start, recovery_trigger}
use camera_rs.Hub.Receive.{Poll, poll, new_subscriber, latest_only}
use camera_rs.Session.{
  Session, SessionState, Command, StopPhase, RecoveryPhase, Holder, begin, request_stop, announce,
  stop_body, stop_source, stop_record, stop_report, stop_release, wake, enter_attempt,
  begin_attempt, rest_source, check_stopping, attempt_done, attempt_failed, is_terminal, set_state,
}
use camera_rs.Session.Moves.{Policy, Step, Reach, here, then_step}
use camera_rs.Session.Ending.{closed-over, free-closed}
use camera_rs.Session.Counting.{Within}
use camera_rs.Session.Attempts.{attempts-bounded}
use camera_rs.Session.Failing.{Failure, IsRetrying, EndsWith, failing_turns, failing_turns-end}
use camera_rs.Session.Numbering.{Follows}

abbrev policy : Policy
policy = record { stall_timeout = 100; max_attempts = some 3; interval = λ r. 0 }

abbrev running_hub : Hub
running_hub = (start 1 (new 3 1)).1

abbrev begun : Session
begun = begin true running_hub

abbrev entered : Session → Session
entered s = record s { holder = Holder.stopper StopPhase.entered }

-- `stop` from the lock to the mark `closed`.
abbrev ending : Session → Session
ending s = stop_record (ok tt) (stop_source (ok tt) (stop_body 5 (entered s)))

abbrev ended : Session → Session
ended s = stop_release (stop_report (ok tt) (ending s))

ending_reach : Reach policy begun (ending (request_stop begun))
unfolding begin request_stop stop_body stop_source
ending_reach =
    then_step
      (then_step
        (then_step (then_step (then_step here Step.requests_stop) (Step.enters refl))
          (Step.stops 5 refl))
        (Step.stops_source (ok tt) refl))
      (Step.records (ok tt) refl)

ended_reach : Reach policy begun (ended (request_stop begun))
unfolding begin request_stop stop_body stop_source stop_record stop_report
ended_reach = then_step (then_step ending_reach (Step.reports (ok tt) refl)) (Step.releases refl)

abbrev reader : Subscriber
reader = new_subscriber latest_only none

-- The announcement that comes after the end.
abbrev overtaken : Session
overtaken = announce 6 0 (ended (request_stop begun))

overtaken_reach : Reach policy (ended (request_stop begun)) overtaken
unfolding begin request_stop stop_body stop_source stop_record stop_report stop_release set_state
overtaken_reach = then_step here (Step.announces 6 0 refl)

-- The session before it gives its device up, then with the announcement of its `request_stop`.
abbrev ending_session : Session
ending_session = ending (request_stop begun)

abbrev announced : Session
announced = announce 6 0 ending_session

announced_reach : Reach policy ending_session announced
unfolding begin request_stop stop_body stop_source stop_record set_state
announced_reach = then_step here (Step.announces 6 0 refl)

closed-over_example :
    (announced.closed ≡ true)
    × (announced.stopping ≡ true)
    × (announced.source ≡ Command.rest)
    × (announced.captured ≡ true)
    × ((announced.busy ≡ false)
        ⊎ ((accepts announced.hub 1 ≡ false)
            × ((poll announced.hub.state reader none).0
                ≡ Poll.ready (err (error CameraErrorKind.stream_stopped)))))
unfolding begin request_stop stop_body stop_source stop_record stop_report stop_release set_state
closed-over_example =
    closed-over policy true running_hub ending_session announced 1 reader none ending_reach refl
      announced_reach

-- The device is free, and its next session has begun a generation of the same hub.
abbrev reused : Session
reused = record (ended (request_stop begun)) { hub = (start 7 running_hub).1 }

reused_reach : Reach policy (ended (request_stop begun)) reused
unfolding begin request_stop stop_body stop_source stop_record stop_report stop_release set_state
reused_reach = then_step here (Step.reuses (start 7 running_hub).1 refl)

reused_accepts : accepts reused.hub 2 ≡ true
unfolding accepts start new
reused_accepts = refl

free-closed_example :
    ((ended (request_stop begun)).closed ≡ true)
    × ((ended (request_stop begun)).source ≡ Command.rest)
unfolding begin request_stop stop_body stop_source stop_record stop_report stop_release set_state
free-closed_example =
    free-closed policy true running_hub (ended (request_stop begun)) ended_reach refl

-- A closed session with a free device and no call under way whose last state is `Stopping`.
overtaken_state :
    (overtaken.closed ≡ true)
    × (overtaken.busy ≡ false)
    × (overtaken.requests ≡ 0)
    × (overtaken.state ≡ SessionState.stopping)
    × (is_terminal overtaken.state ≡ false)
unfolding begin request_stop stop_body stop_source stop_record stop_report stop_release announce
    set_state is_terminal
overtaken_state = (refl, refl, refl, refl, refl)

-- A first attempt, announced.
abbrev attempting : Session
attempting = begin_attempt (RecoveryTrigger.source_stalled) (
    enter_attempt 200 100 RecoveryTrigger.source_stalled false
      (wake RecoveryTrigger.source_stalled false begun))

attempting_reach : Reach policy begun attempting
unfolding begin wake enter_attempt recovery_trigger start new
attempting_reach =
    then_step
      (then_step (then_step here (Step.triggers 200 RecoveryTrigger.source_stalled refl refl refl))
        (Step.locks 200 RecoveryTrigger.source_stalled false refl refl))
      (Step.begins RecoveryTrigger.source_stalled refl)

attempts-bounded_example : All (Within (max 3 1)) attempting.events × Follows 0 attempting.events
attempts-bounded_example =
    attempts-bounded policy 3 true running_hub attempting refl attempting_reach

abbrev timeout : CameraError
timeout = error CameraErrorKind.timeout

-- A first attempt that has failed, so that the task is to retry.
abbrev again : Session
again = attempt_done 200 (some 3) RecoveryTrigger.source_stalled (err timeout) (
    check_stopping RecoveryTrigger.source_stalled (err timeout)
      (record (rest_source RecoveryTrigger.source_stalled attempting) {
        holder = Holder.recovery (RecoveryPhase.tried RecoveryTrigger.source_stalled (err timeout));
      }))

again-IsRetrying : IsRetrying RecoveryTrigger.source_stalled again
unfolding begin wake enter_attempt recovery_trigger start new begin_attempt rest_source
    check_stopping attempt_done attempt_failed set_state
again-IsRetrying = record {
  at_top = refl;
  pending = refl;
  free = refl;
  running = refl;
  still_open = refl;
}

-- A capture that starts and is refused, then a stop of the source that times out.
abbrev failures : List Failure
failures =
    record {
      now = 300;
      launched = true;
      begins = true;
      reason = error CameraErrorKind.unsupported_format;
    }
    ∷ record { now = 400; launched = false; begins = false; reason = timeout }
    ∷ []

failing_turns-end_example :
    EndsWith policy RecoveryTrigger.source_stalled 3 refl failures
      (3 - suc again.attempt)
      again
      (failing_turns policy RecoveryTrigger.source_stalled failures again)
unfolding begin wake enter_attempt recovery_trigger start new begin_attempt rest_source
    check_stopping attempt_done attempt_failed set_state
failing_turns-end_example =
    failing_turns-end policy RecoveryTrigger.source_stalled 3 refl failures again again-IsRetrying
      (omega arith) (omega arith) (omega arith)
