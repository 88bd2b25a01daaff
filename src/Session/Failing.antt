-- ===== src/Session/Failing.antt =====
-- Recovery attempts of src/api.rs that fail one after the other, with nobody else at work: the loop of
-- `spawn_recovery` on a list of failures.
use camera_rs.Base.{
  ℕ, suc, ◌+◌, ◌-◌, ◌≤◌, ◌<◌, ◌≡◌, refl, subst, sym, Bool, true, false, some, max, leb, List, [],
  ◌∷◌, length, get_elem?, if◌then◌else◌, Bool-cases, inl, inr, arith, add_u32, u32_mod,
}
use camera_rs.Error.{CameraError, err}
use camera_rs.Hub.Control.{RecoveryTrigger}
use camera_rs.Session.{
  Session, SessionState, RecoveryPhase, Holder, Loop, wake, enter_attempt, begin_attempt,
  rest_source, check_start, launch, check_stopping, attempt_done, attempt_failed, give_up,
  give_up_release, set_state,
}
use camera_rs.Session.Moves.{Policy, Step, Reach, here, then_step, Reach-trans}
use camera_rs.Session.Counting.{either}

-- An attempt that fails with `reason`, in the stop of the source or its check if the source is not
-- `launched`, else in the start, the wait for a first frame or the checks of the capture; `begins` tells
-- whether the hub had a new generation by then.
pub record Failure : Type 0 where
  pub now : ℕ
  pub launched : Bool
  pub begins : Bool
  pub reason : CameraError

-- A retry up to the stop of the source.
unfoldable rested_session : Policy → RecoveryTrigger → ℕ → Session → Session
unfolding wake enter_attempt begin_attempt rest_source
rested_session policy t now s =
    rest_source t (begin_attempt t (enter_attempt now policy.stall_timeout t true (wake t true s)))

-- The failure of the attempt.
unfoldable failed_session : RecoveryTrigger → Failure → Session → Session
unfolding check_start launch
failed_session t f s =
    if f.launched
    then launch f.now f.begins t (err f.reason) (check_start t s)
    else record s { holder = Holder.recovery (RecoveryPhase.tried t (err f.reason)) }

-- One turn of the loop for a retry that fails.
unfoldable pub failing_turn : Policy → RecoveryTrigger → Failure → Session → Session
unfolding rested_session failed_session check_stopping attempt_done
failing_turn policy t f s =
    attempt_done f.now policy.max_attempts t (err f.reason)
      (check_stopping t (err f.reason) (failed_session t f (rested_session policy t f.now s)))

abbrev has_given_up : Holder → Bool
has_given_up (Holder.recovery RecoveryPhase.given_up) = true
has_given_up _ = false

-- Turns that fail one after the other, until the session is given up.
unfoldable pub failing_turns : Policy → RecoveryTrigger → List Failure → Session → Session
unfolding failing_turn give_up give_up_release
failing_turns policy t [] s = s
failing_turns policy t (f ∷ fs) s =
    let s' = failing_turn policy t f s in
    let rest = failing_turns policy t fs s' in
    if has_given_up s'.holder then give_up_release (give_up f.now s') else rest

-- A task at the top of its loop that is to retry after the trigger `t`, and nobody who stops the session.
pub record IsRetrying (t : RecoveryTrigger) (s : Session) : Type 0 where
  pub at_top : s.task ≡ Loop.waiting
  pub pending : s.pending_trigger ≡ some t
  pub free : s.holder ≡ Holder.nobody
  pub running : s.stopping ≡ false
  pub still_open : s.closed ≡ false

-- A turn on its way, with nobody who stops the session; `attempt` attempts were made before.
record IsTrying (phase : RecoveryPhase) (attempt : ℕ) (s : Session) : Type 0 where
  at : s.holder ≡ Holder.recovery phase
  counted : s.attempt ≡ add_u32 attempt 1
  running : s.stopping ≡ false
  still_open : s.closed ≡ false

get_elem?-later :
    (f g : Failure) (fs : List Failure) (j k : ℕ)
    → k ≡ suc j
    → get_elem? fs j ≡ some g
    → get_elem? (f ∷ fs) k ≡ some g
get_elem?-later f g fs j k e h = subst (λ i. get_elem? (f ∷ fs) i ≡ some g) (sym e) h

get_elem?-first : (f : Failure) (fs : List Failure) (k : ℕ) → k ≡ 0 → get_elem? (f ∷ fs) k ≡ some f
get_elem?-first f fs k e = subst (λ i. get_elem? (f ∷ fs) i ≡ some f) (sym e) refl

module _ (policy : Policy) (t : RecoveryTrigger) where
  rested_session-IsTrying :
      (now : ℕ) (s : Session)
      → IsRetrying t s
      → IsTrying (RecoveryPhase.rested t) s.attempt (rested_session policy t now s)
  unfolding rested_session wake enter_attempt begin_attempt rest_source set_state
  rested_session-IsTrying now s r =
      rw (r.running)
        (record { at = refl; counted = refl; running = refl; still_open = r.still_open })

  failed_session-IsTrying :
      (f : Failure) (attempt : ℕ) (s : Session)
      → IsTrying (RecoveryPhase.rested t) attempt s
      → IsTrying (RecoveryPhase.tried t (err f.reason)) attempt (failed_session t f s)
  unfolding failed_session check_start launch
  failed_session-IsTrying f attempt s i =
      either (IsTrying (RecoveryPhase.tried t (err f.reason)) attempt) f.launched _ _
        (λ b. record {
          at = refl;
          counted = i.counted;
          running = i.running;
          still_open = i.still_open;
        })
        (λ b. record {
          at = refl;
          counted = i.counted;
          running = i.running;
          still_open = i.still_open;
        })

  tried-IsTrying :
      (f : Failure) (s : Session)
      → IsRetrying t s
      → IsTrying
          (RecoveryPhase.tried t (err f.reason))
          s.attempt
          (failed_session t f (rested_session policy t f.now s))
  tried-IsTrying f s r =
      failed_session-IsTrying f s.attempt (rested_session policy t f.now s)
        (rested_session-IsTrying f.now s r)

  rested_session-Reach :
      (now : ℕ) (s : Session) → IsRetrying t s → Reach policy s (rested_session policy t now s)
  unfolding rested_session wake enter_attempt begin_attempt set_state
  rested_session-Reach now s r =
      then_step
        (then_step
          (then_step (then_step here (Step.retries t r.at_top r.pending))
            (Step.locks now t true (rw (r.running) refl) r.free))
          (Step.begins t (rw (r.running) refl)))
        (Step.rests t refl)

  failed_session-Reach :
      (f : Failure) (attempt : ℕ) (s u : Session)
      → IsTrying (RecoveryPhase.rested t) attempt u
      → Reach policy s u
      → Reach policy s (failed_session t f u)
  unfolding failed_session check_start
  failed_session-Reach f attempt s u i reach =
      either (Reach policy s) f.launched _ _
        (λ b.
          then_step (then_step reach (Step.checks_start t i.at))
            (Step.launches f.now f.begins t (err f.reason) (rw (i.running) refl)))
        (λ b. then_step reach (Step.stays_down t f.reason i.at))

  settled-Reach :
      (f : Failure) (attempt : ℕ) (s u : Session)
      → IsTrying (RecoveryPhase.tried t (err f.reason)) attempt u
      → Reach policy s u
      → Reach policy s (
          attempt_done f.now policy.max_attempts t
            (err f.reason)
            (check_stopping t (err f.reason) u))
  unfolding check_stopping
  settled-Reach f attempt s u i reach =
      then_step (then_step reach (Step.checks_stopping t (err f.reason) i.at))
        (Step.settles f.now t (err f.reason) (rw (i.running) refl))

  failing_turn-Reach :
      (f : Failure) (s : Session) → IsRetrying t s → Reach policy s (failing_turn policy t f s)
  unfolding failing_turn
  failing_turn-Reach f s r = settled-Reach f s.attempt s _ (tried-IsTrying f s r) (
      failed_session-Reach f s.attempt s (rested_session policy t f.now s)
        (rested_session-IsTrying f.now s r) (rested_session-Reach f.now s r))

  module _ (n : ℕ) (limited : policy.max_attempts ≡ some n) where
    settle-last :
        (f : Failure) (attempt : ℕ) (u : Session)
        → IsTrying (RecoveryPhase.tried t (err f.reason)) attempt u
        → leb n (add_u32 attempt 1) ≡ true
        → let s' =
            attempt_done f.now policy.max_attempts t
              (err f.reason)
              (check_stopping t (err f.reason) u) in
          (s'.holder ≡ Holder.recovery RecoveryPhase.given_up)
          × (s'.state ≡ SessionState.failed f.reason)
    unfolding check_stopping attempt_done attempt_failed set_state
    settle-last f attempt u i last = rw (i.running, limited, i.counted, last) (refl, refl)

    settle-more :
        (f : Failure) (attempt : ℕ) (u : Session)
        → IsTrying (RecoveryPhase.tried t (err f.reason)) attempt u
        → leb n (add_u32 attempt 1) ≡ false
        → let s' =
            attempt_done f.now policy.max_attempts t
              (err f.reason)
              (check_stopping t (err f.reason) u) in
          IsRetrying t s' × (s'.attempt ≡ add_u32 attempt 1)
    unfolding check_stopping attempt_done attempt_failed set_state
    settle-more f attempt u i more =
        rw (i.running, limited, i.counted, more)
          (
            record {
              at_top = refl;
              pending = refl;
              free = refl;
              running = refl;
              still_open = i.still_open;
            },
            refl,
          )

    turn-last :
        (f : Failure) (s : Session)
        → IsRetrying t s
        → leb n (add_u32 s.attempt 1) ≡ true
        → let s' = failing_turn policy t f s in
          (s'.holder ≡ Holder.recovery RecoveryPhase.given_up)
          × (s'.state ≡ SessionState.failed f.reason)
    unfolding failing_turn
    turn-last f s r last = settle-last f s.attempt _ (tried-IsTrying f s r) last

    turn-more :
        (f : Failure) (s : Session)
        → IsRetrying t s
        → leb n (add_u32 s.attempt 1) ≡ false
        → let s' = failing_turn policy t f s in IsRetrying t s' × (s'.attempt ≡ add_u32 s.attempt 1)
    unfolding failing_turn
    turn-more f s r more = settle-more f s.attempt _ (tried-IsTrying f s r) more

    -- From `s` steps lead to `u`, a session that has failed for good with the failure of `fs` at `k`.
    abbrev pub EndsWith : List Failure → ℕ → Session → Session → Type 0
    EndsWith fs k s u =
        ((f : Failure) × (get_elem? fs k ≡ some f) × (u.state ≡ SessionState.failed f.reason))
        × Reach policy s u
        × (u.closed ≡ true)
        × (u.busy ≡ false)
        × (u.holder ≡ Holder.nobody)
        × (u.task ≡ Loop.finished)

    ends-now :
        (f : Failure) (fs : List Failure) (k : ℕ) (s : Session)
        → IsRetrying t s
        → leb n (add_u32 s.attempt 1) ≡ true
        → k ≡ 0
        → EndsWith (f ∷ fs) k s (failing_turns policy t (f ∷ fs) s)
    unfolding failing_turns give_up give_up_release
    ends-now f fs k s r last first =
        let (held, failed) = turn-last f s r last in
        let reach : Reach policy s (give_up_release (give_up f.now (failing_turn policy t f s))) =
          then_step (then_step (failing_turn-Reach f s r) (Step.gives_up f.now held))
            (Step.leaves refl) in
        rw held ((f, get_elem?-first f fs k first, failed), reach, refl, refl, refl, refl)

    ends-later :
        (f : Failure) (fs : List Failure) (j k : ℕ) (s : Session)
        → IsRetrying t s
        → leb n (add_u32 s.attempt 1) ≡ false
        → k ≡ suc j
        → EndsWith fs j
            (failing_turn policy t f s)
            (failing_turns policy t fs (failing_turn policy t f s))
        → EndsWith (f ∷ fs) k s (failing_turns policy t (f ∷ fs) s)
    unfolding failing_turns
    ends-later f fs j k s r more next ((g, at, failed), reach, closed, free, held, done) =
        rw ((turn-more f s r more).0.free) (
          (g, get_elem?-later f g fs j k next at, failed),
          Reach-trans policy (failing_turn-Reach f s r) reach,
          closed,
          free,
          held,
          done,
        )

    -- From a session whose recovery task is to retry, with `n` as the limit of attempts and fewer than `n`
    -- made (none, where `n` is 0), attempts that fail one after the other, each in any of its ways, come to
    -- an end, if no one else takes a step: as many failures as there are attempts left are enough. The turns
    -- are steps of the session, the error of the last attempt is its state, it is closed, its device is free,
    -- and the task has let go of the lock and finished.
    pub failing_turns-end :
        (fs : List Failure) (s : Session)
        → IsRetrying t s
        → n < u32_mod
        → s.attempt < max n 1
        → max n 1 ≤ s.attempt + length fs
        → EndsWith fs (max n 1 - suc s.attempt) s (failing_turns policy t fs s)
    unfolding failing_turns
    failing_turns-end [] s r word few enough = absurd (omega (arith, few, enough))
    failing_turns-end (f ∷ fs) s r word few enough =
        elim (Bool-cases (leb n (add_u32 s.attempt 1))) [
          | inl last ↦ ends-now f fs _ s r last (ground (arith, last, few, word))
          | inr more ↦
              let s' = failing_turn policy t f s in
              let (r', counted) = turn-more f s r more in
              let next : s'.attempt ≡ suc s.attempt = ground (arith, counted, few, word) in
              let left : s'.attempt < max n 1 = ground (arith, more, next, counted) in
              ends-later f fs (max n 1 - suc s'.attempt) _ s r more (omega (arith, next, left))
                (failing_turns-end fs s' r' word left (omega (arith, enough, next)))
        ]
