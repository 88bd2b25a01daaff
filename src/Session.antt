-- ===== src/Session.antt =====
-- The capture session of src/api.rs after its start: `request_stop`, `stop` and the loop of
-- `spawn_recovery`, as the steps of callers, of stop tasks and of the recovery task between the places
-- where another may run. The source is not modelled: its calls may answer anything, and the model keeps
-- the last that this session told it. The hub and the source are the device's: once a session has given the
-- device up, its next session may do anything to the hub. What `metrics()` and `stats()` read is recorded as done or not.
pub mod Moves
pub mod Safe
pub mod Steps
pub mod Ending
pub mod Counting
pub mod Numbering
pub mod Attempts
pub mod Failing
mod Tests
use camera_rs.Base.{
  ℕ, zero, suc, ◌+◌, ◌≡◌, Bool, true, false, not, ◌&&◌, ◌||◌, List, [], ◌∷◌, ◌++◌, Option, none,
  some, leb, is_some_and, is_none_or, if◌then◌else◌, add_u32,
}
use camera_rs.Error.{CameraErrorKind, CameraError, CameraResult, ok, err, new as error}
use camera_rs.Hub.State.{Hub}
use camera_rs.Hub.Control.{
  RecoveryTrigger, start, stop, begin_recovery, end_recovery, enable_recovery, disable_recovery,
  recovery_trigger,
}

pub data SessionState : Type 0 where
  starting : SessionState
  streaming : SessionState
  recovering : ℕ → SessionState
  stopping : SessionState
  stopped : SessionState
  failed : CameraError → SessionState

unfoldable pub is_streaming : SessionState → Bool
is_streaming SessionState.streaming = true
is_streaming _ = false

unfoldable pub is_terminal : SessionState → Bool
is_terminal SessionState.stopped = true
is_terminal (SessionState.failed e) = true
is_terminal _ = false

-- The last call that the session made of the source.
pub data Command : Type 0 where
  run : Command
  rest : Command

-- Where a stop task that holds the lock is.
pub data StopPhase : Type 0 where
  entered : StopPhase
  halted : StopPhase
  answered : CameraResult (Unit {0}) → StopPhase
  recorded : CameraResult (Unit {0}) → StopPhase
  reported : StopPhase

-- Where the recovery task that holds the lock is.
pub data RecoveryPhase : Type 0 where
  locked : RecoveryTrigger → RecoveryPhase
  trying : RecoveryTrigger → RecoveryPhase
  rested : RecoveryTrigger → RecoveryPhase
  launching : RecoveryTrigger → RecoveryPhase
  tried : RecoveryTrigger → CameraResult (Unit {0}) → RecoveryPhase
  checked : RecoveryTrigger → CameraResult (Unit {0}) → RecoveryPhase
  recovered : RecoveryPhase
  given_up : RecoveryPhase
  ended : RecoveryPhase

-- Who holds `lifecycle`.
pub data Holder : Type 0 where
  nobody : Holder
  stopper : StopPhase → Holder
  recovery : RecoveryPhase → Holder

-- Where the recovery task is: at the top of its loop, woken (by a trigger, for a retry or not), with the
-- lock, or done.
pub data Loop : Type 0 where
  waiting : Loop
  woken : RecoveryTrigger → Bool → Loop
  holding : Loop
  finished : Loop

-- `events` are the lifecycle events, oldest first; `requests` counts the calls of `request_stop` that
-- have set the flag and not yet announced it; `captured` tells that `terminal_metrics` is set. `attempt`
-- and `pending_trigger` are the variables of the recovery task.
pub record Session : Type 0 where
  pub state : SessionState
  pub events : List SessionState
  pub stopping : Bool
  pub closed : Bool
  pub busy : Bool
  pub captured : Bool
  pub requests : ℕ
  pub hub : Hub
  pub source : Command
  pub holder : Holder
  pub task : Loop
  pub attempt : ℕ
  pub pending_trigger : Option RecoveryTrigger

unfoldable pub set_state : SessionState → Session → Session
set_state st s = record s { state = st; events = s.events ++ (st ∷ []) }

-- `disable_recovery`, `end_recovery` and `stop` of the hub.
unfoldable pub halt : ℕ → Hub → Hub
unfolding disable_recovery end_recovery stop
halt now h = stop now (end_recovery (disable_recovery h))

-- The first lines of `request_stop`: the swap of the flag.
unfoldable pub request_stop : Session → Session
request_stop s =
    if s.stopping || s.closed
    then record s { stopping = true }
    else record s { stopping = true; requests = suc s.requests }

-- The rest of a `request_stop` that found the flag clear; `left` others are still to announce theirs.
unfoldable pub announce : ℕ → ℕ → Session → Session
unfolding set_state halt
announce now left s =
    let announced = set_state SessionState.stopping s in
    record announced { hub = halt now announced.hub; requests = left }

-- `stop` behind the lock: nothing if the session is closed.
unfoldable pub stop_body : ℕ → Session → Session
unfolding halt
stop_body now s = if s.closed then record s { holder = Holder.nobody } else record s {
  stopping = true;
  hub = halt now s.hub;
  holder = Holder.stopper StopPhase.halted;
}

unfoldable pub stop_source : CameraResult (Unit {0}) → Session → Session
stop_source r s = record s { source = Command.rest; holder = Holder.stopper (StopPhase.answered r) }

unfoldable pub stop_record : CameraResult (Unit {0}) → Session → Session
stop_record r s = record s {
  captured = true;
  closed = true;
  holder = Holder.stopper (StopPhase.recorded r);
}

abbrev pub final_state : CameraResult (Unit {0}) → SessionState
final_state (ok u) = SessionState.stopped
final_state (err e) = SessionState.failed e

unfoldable pub stop_report : CameraResult (Unit {0}) → Session → Session
unfolding set_state
stop_report r s = record (set_state (final_state r) s) {
  holder = Holder.stopper StopPhase.reported;
}

unfoldable pub stop_release : Session → Session
stop_release s = record s { busy = false; holder = Holder.nobody }

-- What `stop` returns once the session is closed.
unfoldable pub stop_answer : Session → CameraResult (Unit {0})
stop_answer s = elim s.state [ SessionState.failed e ↦ err e | _ ↦ ok tt ]

-- The recovery task after its wait: the first check of the flag.
unfoldable pub wake : RecoveryTrigger → Bool → Session → Session
wake t retrying s = record s { task = if s.stopping then Loop.finished else Loop.woken t retrying }

-- The checks behind the lock.
unfoldable pub enter_attempt : ℕ → ℕ → RecoveryTrigger → Bool → Session → Session
unfolding recovery_trigger
enter_attempt now stall_timeout t retrying s =
    if s.stopping
    then record s { task = Loop.finished }
    else if not retrying && is_none_or (recovery_trigger now stall_timeout s.hub) (λ u. false)
    then record s { task = Loop.waiting }
    else record s { task = Loop.holding; holder = Holder.recovery (RecoveryPhase.locked t) }

unfoldable pub begin_attempt : RecoveryTrigger → Session → Session
unfolding set_state begin_recovery
begin_attempt t s =
    let attempt = add_u32 s.attempt 1 in
    let announced = set_state (SessionState.recovering attempt) s in
    record announced {
      attempt = attempt;
      hub = begin_recovery announced.hub;
      holder = Holder.recovery (RecoveryPhase.trying t);
    }

unfoldable pub rest_source : RecoveryTrigger → Session → Session
rest_source t s = record s {
  source = Command.rest;
  holder = Holder.recovery (RecoveryPhase.rested t);
}

-- The check between the stop of the source and its start.
unfoldable pub check_start : RecoveryTrigger → Session → Session
check_start t s = record s {
  holder = Holder.recovery (
      if s.stopping
      then RecoveryPhase.tried t (err (error CameraErrorKind.stream_stopped))
      else RecoveryPhase.launching t);
}

-- The source is told to start, and may begin a generation of the hub; `r` is what the start, the wait
-- for a first frame and the checks come to.
unfoldable pub launch : ℕ → Bool → RecoveryTrigger → CameraResult (Unit {0}) → Session → Session
unfolding start
launch now begins t r s = record s {
  source = Command.run;
  hub = if begins then (start now s.hub).1 else s.hub;
  holder = Holder.recovery (RecoveryPhase.tried t r);
}

-- The check after an attempt.
unfoldable pub check_stopping : RecoveryTrigger → CameraResult (Unit {0}) → Session → Session
check_stopping t r s =
    if s.stopping
    then record s { source = Command.rest; holder = Holder.nobody; task = Loop.finished }
    else record s { holder = Holder.recovery (RecoveryPhase.checked t r) }

-- The failed attempt: another, or the end of the session with its error.
unfoldable pub attempt_failed : ℕ → Option ℕ → RecoveryTrigger → CameraError → Session → Session
unfolding stop set_state
attempt_failed now max_attempts t e s =
    let rested = record s {
      source = Command.rest;
      hub = stop now s.hub;
      pending_trigger = some t;
    } in
    if is_some_and max_attempts (λ n. leb n rested.attempt)
    then record (set_state (SessionState.failed e) rested) {
      holder = Holder.recovery RecoveryPhase.given_up;
    }
    else record rested { holder = Holder.nobody; task = Loop.waiting }

unfoldable pub attempt_done :
    ℕ → Option ℕ → RecoveryTrigger → CameraResult (Unit {0}) → Session → Session
unfolding end_recovery attempt_failed
attempt_done now max_attempts t (ok u) s = record s {
  hub = end_recovery s.hub;
  holder = Holder.recovery RecoveryPhase.recovered;
}
attempt_done now max_attempts t (err e) s = attempt_failed now max_attempts t e s

unfoldable pub resume : Session → Session
unfolding set_state
resume s = record (set_state SessionState.streaming s) {
  attempt = 0;
  pending_trigger = none;
  holder = Holder.nobody;
  task = Loop.waiting;
}

-- After `Failed` is announced: the flag, the hub, the source, the metrics and `closed`.
unfoldable pub give_up : ℕ → Session → Session
unfolding halt
give_up now s = record s {
  stopping = true;
  hub = halt now s.hub;
  source = Command.rest;
  captured = true;
  closed = true;
  holder = Holder.recovery RecoveryPhase.ended;
}

unfoldable pub give_up_release : Session → Session
give_up_release s = record s { busy = false; holder = Holder.nobody; task = Loop.finished }

-- The end of `start_inner`, once a configuration has given a first frame: the session with the hub it
-- found, and its recovery task if the request asks for one.
unfoldable pub begin : Bool → Hub → Session
unfolding enable_recovery
begin reconnect h = record {
  state = SessionState.streaming;
  events = SessionState.streaming ∷ [];
  stopping = false;
  closed = false;
  busy = true;
  captured = false;
  requests = 0;
  hub = if reconnect then enable_recovery h else h;
  source = Command.run;
  holder = Holder.nobody;
  task = if reconnect then Loop.waiting else Loop.finished;
  attempt = 0;
  pending_trigger = none;
}
