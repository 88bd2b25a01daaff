-- ===== src/Session/Numbering.antt =====
-- The numbers that the recovery attempts of a session of src/api.rs announce.
use camera_rs.Base.{
  ℕ, ◌≡◌, refl, sym, subst, ◌∙◌, Bool, List, [], ◌∷◌, ◌++◌, Option, leb, is_some_and, add_u32,
  arith,
}
use camera_rs.Session.Counting.{either}
use camera_rs.Error.{CameraResult, ok, err}
use camera_rs.Hub.Control.{RecoveryTrigger}
use camera_rs.Hub.State.{Hub}
use camera_rs.Session.{
  Session, SessionState, begin, request_stop, announce, stop_body, stop_source, stop_record,
  stop_report, stop_release, wake, enter_attempt, begin_attempt, rest_source, check_start, launch,
  check_stopping, attempt_done, attempt_failed, resume, give_up, give_up_release, set_state,
}
use camera_rs.Session.Moves.{Policy, Step, Reach, here, then_step}

-- The attempts that have failed in a row after an event that follows `n` of them: a stream that runs starts
-- the count again.
abbrev pub count_event : ℕ → SessionState → ℕ
count_event n (SessionState.recovering k) = k
count_event n SessionState.streaming = 0
count_event n _ = n

-- An attempt has the number that follows the count.
abbrev pub IsNext : ℕ → SessionState → Type 0
IsNext n (SessionState.recovering k) = k ≡ add_u32 n 1
IsNext n _ = Unit

-- From `n` failed attempts on, each attempt that is announced has the next number.
pub Follows : ℕ → List SessionState → Type 0
Follows n [] = Unit
Follows n (e ∷ es) = IsNext n e × Follows (count_event n e) es

count_events : ℕ → List SessionState → ℕ
count_events n [] = n
count_events n (e ∷ es) = count_events (count_event n e) es

record IsNumbered (s : Session) : Type 0 where
  pub follows : Follows 0 s.events
  pub counted : count_events 0 s.events ≡ s.attempt

Follows-append :
    (n : ℕ) (es : List SessionState) (e : SessionState)
    → Follows n es
    → IsNext (count_events n es) e
    → Follows n (es ++ (e ∷ []))
unfolding Follows count_events
Follows-append n [] e f m = (m, tt)
Follows-append n (d ∷ es) e f m = (f.0, Follows-append (count_event n d) es e f.1 m)

count_events-append :
    (n : ℕ) (es : List SessionState) (e : SessionState)
    → count_events n (es ++ (e ∷ [])) ≡ count_event (count_events n es) e
unfolding count_events
count_events-append n [] e = refl
count_events-append n (d ∷ es) e = count_events-append (count_event n d) es e

-- A step that announces nothing and counts nothing.
same-IsNumbered :
    (s t : Session) → t.events ≡ s.events → t.attempt ≡ s.attempt → IsNumbered s → IsNumbered t
same-IsNumbered s t e a i = record {
  follows = subst (Follows 0) (sym e) i.follows;
  counted = subst (λ es. count_events 0 es ≡ t.attempt) (sym e) (i.counted ∙ sym a);
}

-- A step that announces `e`.
event-IsNumbered :
    (s t : Session) (e : SessionState)
    → t.events ≡ s.events ++ (e ∷ [])
    → IsNext s.attempt e
    → t.attempt ≡ count_event s.attempt e
    → IsNumbered s
    → IsNumbered t
event-IsNumbered s t e events follows attempt i = record {
  follows =
      subst (Follows 0) (sym events)
        (Follows-append 0 s.events e i.follows (subst (λ n. IsNext n e) (sym i.counted) follows));
  counted =
      subst (λ es. count_events 0 es ≡ t.attempt) (sym events)
        (count_events-append 0 s.events e
          ∙ subst (λ n. count_event n e ≡ t.attempt) (sym i.counted) (sym attempt));
}

report-IsNumbered :
    (r : CameraResult (Unit {0})) (s : Session) → IsNumbered s → IsNumbered (stop_report r s)
unfolding stop_report set_state
report-IsNumbered (ok u) s i = event-IsNumbered s _ SessionState.stopped refl tt refl i
report-IsNumbered (err x) s i = event-IsNumbered s _ (SessionState.failed x) refl tt refl i

done-IsNumbered :
    (now : ℕ) (limit : Option ℕ) (t : RecoveryTrigger) (r : CameraResult (Unit {0})) (s : Session)
    → IsNumbered s
    → IsNumbered (attempt_done now limit t r s)
unfolding attempt_done attempt_failed set_state
done-IsNumbered now limit t (ok u) s i = same-IsNumbered s _ refl refl i
done-IsNumbered now limit t (err x) s i =
    either IsNumbered (is_some_and limit (λ k. leb k s.attempt)) _ _
      (λ last. event-IsNumbered s _ (SessionState.failed x) refl tt refl i)
      (λ more. same-IsNumbered s _ refl refl i)

module _ (policy : Policy) where
  Step-IsNumbered : {s t : Session} → Step policy s t → IsNumbered s → IsNumbered t
  unfolding request_stop announce stop_body stop_source stop_record stop_release wake enter_attempt
      begin_attempt rest_source check_start launch check_stopping resume give_up give_up_release
      set_state
  Step-IsNumbered {s} Step.requests_stop i = same-IsNumbered s _ (ground arith) (ground arith) i
  Step-IsNumbered {s} (Step.announces now left e) i =
      event-IsNumbered s _ SessionState.stopping refl tt refl i
  Step-IsNumbered {s} (Step.enters e) i = same-IsNumbered s _ refl refl i
  Step-IsNumbered {s} (Step.stops now e) i = same-IsNumbered s _ (ground arith) (ground arith) i
  Step-IsNumbered {s} (Step.stops_source r e) i = same-IsNumbered s _ refl refl i
  Step-IsNumbered {s} (Step.records r e) i = same-IsNumbered s _ refl refl i
  Step-IsNumbered {s} (Step.reports r e) i = report-IsNumbered r s i
  Step-IsNumbered {s} (Step.releases e) i = same-IsNumbered s _ refl refl i
  Step-IsNumbered {s} (Step.triggers now t e p f) i = same-IsNumbered s _ refl refl i
  Step-IsNumbered {s} (Step.retries t e p) i = same-IsNumbered s _ refl refl i
  Step-IsNumbered {s} (Step.locks now t retrying e f) i =
      same-IsNumbered s _ (ground arith) (ground arith) i
  Step-IsNumbered {s} (Step.begins t e) i =
      event-IsNumbered s _ (SessionState.recovering (add_u32 s.attempt 1)) refl refl refl i
  Step-IsNumbered {s} (Step.rests t e) i = same-IsNumbered s _ refl refl i
  Step-IsNumbered {s} (Step.stays_down t x e) i = same-IsNumbered s _ refl refl i
  Step-IsNumbered {s} (Step.checks_start t e) i = same-IsNumbered s _ refl refl i
  Step-IsNumbered {s} (Step.launches now begins t r e) i = same-IsNumbered s _ refl refl i
  Step-IsNumbered {s} (Step.checks_stopping t r e) i =
      same-IsNumbered s _ (ground arith) (ground arith) i
  Step-IsNumbered {s} (Step.settles now t r e) i = done-IsNumbered now policy.max_attempts t r s i
  Step-IsNumbered {s} (Step.resumes e) i =
      event-IsNumbered s _ SessionState.streaming refl tt refl i
  Step-IsNumbered {s} (Step.gives_up now e) i = same-IsNumbered s _ refl refl i
  Step-IsNumbered {s} (Step.leaves e) i = same-IsNumbered s _ refl refl i
  Step-IsNumbered {s} (Step.publishes p timestamp_ns l) i = same-IsNumbered s _ refl refl i
  Step-IsNumbered {s} (Step.ends_stream now) i = same-IsNumbered s _ refl refl i
  Step-IsNumbered {s} (Step.reuses h free) i = same-IsNumbered s _ refl refl i

  Reach-IsNumbered : {s t : Session} → Reach policy s t → IsNumbered s → IsNumbered t
  Reach-IsNumbered here i = i
  Reach-IsNumbered (then_step r st) i = Step-IsNumbered st (Reach-IsNumbered r i)

  pub reach-Follows :
      (reconnect : Bool) (h : Hub) (s : Session)
      → Reach policy (begin reconnect h) s
      → Follows 0 s.events
  unfolding begin Follows count_events
  reach-Follows reconnect h s r =
      (Reach-IsNumbered r (record { follows = (tt, tt); counted = refl })).follows
