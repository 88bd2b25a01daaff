-- ===== src/Session/Moves.antt =====
-- The steps that one session of src/api.rs takes, in any order of its users: callers of `request_stop`, tasks
-- of `stop`, the recovery task, the backend that publishes frames or ends its stream by itself, and the next
-- session of the same device, which has the same hub, once the device is free.
use camera_rs.Base.{ℕ, suc, ◌≡◌, Bool, true, false, Option, none, some}
use camera_rs.Error.{CameraError, CameraResult, err}
use camera_rs.Format.Rate.{FrameRate}
use camera_rs.Hub.State.{Hub}
use camera_rs.Hub.Reserve.{Lease}
use camera_rs.Hub.Publish.{Publication, finish_publish}
use camera_rs.Hub.Control.{RecoveryTrigger, stop, recovery_trigger}
use camera_rs.Session.{
  Session, StopPhase, RecoveryPhase, Holder, Loop, request_stop, announce, stop_body, stop_source,
  stop_record, stop_report, stop_release, wake, enter_attempt, begin_attempt, rest_source,
  check_start, launch, check_stopping, attempt_done, resume, give_up, give_up_release,
}

-- `ReconnectPolicy` as the recovery task uses it, and the frame intervals of the hub.
pub record Policy : Type 0 where
  pub stall_timeout : ℕ
  pub max_attempts : Option ℕ
  pub interval : FrameRate → ℕ

module _ (policy : Policy) where
  pub data Step (s : Session) : Session → Type 0 where
    requests_stop : Step s (request_stop s)
    announces : (now left : ℕ) → s.requests ≡ suc left → Step s (announce now left s)
    enters :
        s.holder ≡ Holder.nobody → Step s (record s { holder = Holder.stopper StopPhase.entered })
    stops : (now : ℕ) → s.holder ≡ Holder.stopper StopPhase.entered → Step s (stop_body now s)
    stops_source :
        (r : CameraResult (Unit {0}))
        → s.holder ≡ Holder.stopper StopPhase.halted
        → Step s (stop_source r s)
    records :
        (r : CameraResult (Unit {0}))
        → s.holder ≡ Holder.stopper (StopPhase.answered r)
        → Step s (stop_record r s)
    reports :
        (r : CameraResult (Unit {0}))
        → s.holder ≡ Holder.stopper (StopPhase.recorded r)
        → Step s (stop_report r s)
    releases : s.holder ≡ Holder.stopper StopPhase.reported → Step s (stop_release s)
    triggers :
        (now : ℕ) (t : RecoveryTrigger)
        → s.task ≡ Loop.waiting
        → s.pending_trigger ≡ none
        → recovery_trigger now policy.stall_timeout s.hub ≡ some t
        → Step s (wake t false s)
    retries :
        (t : RecoveryTrigger)
        → s.task ≡ Loop.waiting
        → s.pending_trigger ≡ some t
        → Step s (wake t true s)
    locks :
        (now : ℕ) (t : RecoveryTrigger) (retrying : Bool)
        → s.task ≡ Loop.woken t retrying
        → s.holder ≡ Holder.nobody
        → Step s (enter_attempt now policy.stall_timeout t retrying s)
    begins :
        (t : RecoveryTrigger)
        → s.holder ≡ Holder.recovery (RecoveryPhase.locked t)
        → Step s (begin_attempt t s)
    rests :
        (t : RecoveryTrigger)
        → s.holder ≡ Holder.recovery (RecoveryPhase.trying t)
        → Step s (rest_source t s)
    stays_down :
        (t : RecoveryTrigger) (e : CameraError)
        → s.holder ≡ Holder.recovery (RecoveryPhase.rested t)
        → Step s (record s { holder = Holder.recovery (RecoveryPhase.tried t (err e)) })
    checks_start :
        (t : RecoveryTrigger)
        → s.holder ≡ Holder.recovery (RecoveryPhase.rested t)
        → Step s (check_start t s)
    launches :
        (now : ℕ) (begins : Bool) (t : RecoveryTrigger) (r : CameraResult (Unit {0}))
        → s.holder ≡ Holder.recovery (RecoveryPhase.launching t)
        → Step s (launch now begins t r s)
    checks_stopping :
        (t : RecoveryTrigger) (r : CameraResult (Unit {0}))
        → s.holder ≡ Holder.recovery (RecoveryPhase.tried t r)
        → Step s (check_stopping t r s)
    settles :
        (now : ℕ) (t : RecoveryTrigger) (r : CameraResult (Unit {0}))
        → s.holder ≡ Holder.recovery (RecoveryPhase.checked t r)
        → Step s (attempt_done now policy.max_attempts t r s)
    resumes : s.holder ≡ Holder.recovery RecoveryPhase.recovered → Step s (resume s)
    gives_up :
        (now : ℕ) → s.holder ≡ Holder.recovery RecoveryPhase.given_up → Step s (give_up now s)
    leaves : s.holder ≡ Holder.recovery RecoveryPhase.ended → Step s (give_up_release s)
    publishes :
        (p : Publication) (timestamp_ns : ℕ) (l : Lease)
        → Step s (record s { hub = (finish_publish policy.interval p timestamp_ns l s.hub).1 })
    ends_stream : (now : ℕ) → Step s (record s { hub = stop now s.hub })
    reuses : (h : Hub) → s.busy ≡ false → Step s (record s { hub = h })

  pub data Reach (s : Session) : Session → Type 0 where
    here : Reach s s
    then_step : {t u : Session} → Reach s t → Step t u → Reach s u

  pub Reach-trans : {s t u : Session} → Reach s t → Reach t u → Reach s u
  Reach-trans r here = r
  Reach-trans r (then_step q st) = then_step (Reach-trans r q) st
