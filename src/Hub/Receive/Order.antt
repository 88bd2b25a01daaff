-- ===== src/Hub/Receive/Order.antt =====
-- The order in which a reader of src/frame.rs sees frames.
use camera_rs.Base.{
  ℕ, suc, ◌-◌, ◌≤◌, ◌<◌, ◌≡◌, refl, ap, subst, ◌∙◌, true, false, List, [], ◌∷◌, ◌++◌, Option, none,
  some, length, leb, ltb, is_some_and, All, All-append, Bool-cases, Option-cases, inl, inr, arith,
}
use mathlib.Core.Option.{some-injective}
use camera_rs.Error.{ok}
use camera_rs.Format.Request.{DeliveryPolicy}
use camera_rs.Format.Rate.{FrameRate}
use camera_rs.Hub.State.{FrameKey, CapturedFrame, Snapshot, Subscriber}
use camera_rs.Hub.Delivery.{enqueue, offer, pop_front, is_drop_newest}
use camera_rs.Hub.Receive.{Poll, pop_new, is_new, poll, is_over, key_eq}

-- Frames of one session with strictly increasing sequence numbers, none above the bound.
unfoldable pub IsRun : ℕ → ℕ → List CapturedFrame → Type 0
IsRun session bound [] = Unit
IsRun session bound (f ∷ fs) =
    (f.key.session ≡ session)
    × (f.key.sequence ≤ bound)
    × All (λ g. f.key.sequence < g.key.sequence) fs
    × IsRun session bound fs

-- Every frame of the list has a sequence number above `n`.
abbrev pub IsAbove : ℕ → List CapturedFrame → Type 0
IsAbove n = All (λ g. n < g.key.sequence)

pub IsRun-snoc :
    (session bound : ℕ) (fs : List CapturedFrame) (f : CapturedFrame)
    → IsRun session bound fs
    → f.key.session ≡ session
    → f.key.sequence ≡ suc bound
    → IsRun session (suc bound) (fs ++ (f ∷ []))
unfolding IsRun
IsRun-snoc session bound [] f r here next = (here, omega arith, tt, tt)
IsRun-snoc session bound (g ∷ gs) f r here next = (
  r.0,
  omega (arith, r.1),
  All-append (λ x. g.key.sequence < x.key.sequence) gs (f ∷ []) r.2 (omega (arith, r.1), tt),
  IsRun-snoc session bound gs f r.3 here next,
)

pub IsRun-weaken :
    (session bound : ℕ) (fs : List CapturedFrame)
    → IsRun session bound fs
    → IsRun session (suc bound) fs
unfolding IsRun
IsRun-weaken session bound [] r = tt
IsRun-weaken session bound (f ∷ fs) r =
    (r.0, omega (arith, r.1), r.2, IsRun-weaken session bound fs r.3)

IsRun-pop :
    (session bound : ℕ) (fs : List CapturedFrame)
    → IsRun session bound fs
    → IsRun session bound (pop_front fs)
unfolding IsRun
IsRun-pop session bound [] r = tt
IsRun-pop session bound (f ∷ fs) r = r.3

-- A frame with the next sequence number leaves a run a run, whatever the policy drops.
enqueue-IsRun :
    (policy : DeliveryPolicy) (f : CapturedFrame) (s : Subscriber) (session bound : ℕ)
    → f.key.session ≡ session
    → f.key.sequence ≡ suc bound
    → IsRun session bound s.queue
    → IsRun session (suc bound) (enqueue policy f s).queue
unfolding enqueue IsRun
enqueue-IsRun DeliveryPolicy.latest f s session bound here next r =
    IsRun-snoc session bound [] f tt here next
enqueue-IsRun (DeliveryPolicy.buffered capacity overflow) f s session bound here next r =
    elim (Bool-cases (leb capacity (length s.queue))) [
      | inl full ↦
          rw (full, enqueue)
            (elim (Bool-cases (is_drop_newest overflow)) [
              | inl newest ↦ rw newest (IsRun-weaken session bound s.queue r)
              | inr oldest ↦ rw oldest (
                  IsRun-snoc session bound (pop_front s.queue) f (IsRun-pop session bound s.queue r)
                    here next)
            ])
      | inr room ↦ rw (room, enqueue) (IsRun-snoc session bound s.queue f r here next)
    ]

-- What `pop_new` returns is the first new frame: later than every frame it passed, earlier than the rest.
pub pop_new-IsRun :
    (session bound : ℕ) (last : Option FrameKey) (fs : List CapturedFrame) (f : CapturedFrame)
    → IsRun session bound fs
    → (pop_new session last fs).0 ≡ some f
    → (is_new session last f ≡ true)
      × (f.key.session ≡ session)
      × IsAbove f.key.sequence (pop_new session last fs).1
      × IsRun session bound (pop_new session last fs).1
unfolding IsRun pop_new
pop_new-IsRun session bound last [] f r e = cc
pop_new-IsRun session bound last (g ∷ gs) f r e = elim (Bool-cases (is_new session last g)) [
  | inl new ↦ rw (new, pop_new) (first new (some-injective g f (rw (new, pop_new) at e)))
  | inr old ↦ rw (old, pop_new) (pop_new-IsRun session bound last gs f r.3 (rw (old, pop_new) at e))
]
  where
    first :
        is_new session last g ≡ true
        → g ≡ f
        → (is_new session last f ≡ true)
          × (f.key.session ≡ session)
          × IsAbove f.key.sequence gs
          × IsRun session bound gs
    first new same =
        subst
          (λ x.
            (is_new session last x ≡ true)
            × (x.key.session ≡ session)
            × IsAbove x.key.sequence gs
            × IsRun session bound gs)
          same (new, r.0, r.2, r.3)

-- A reader that waits has an empty queue left.
pop_new-none :
    (session : ℕ) (last : Option FrameKey) (fs : List CapturedFrame)
    → (pop_new session last fs).0 ≡ none
    → (pop_new session last fs).1 ≡ []
unfolding pop_new
pop_new-none session last [] e = refl
pop_new-none session last (g ∷ gs) e = elim (Bool-cases (is_new session last g)) [
  | inl new ↦ absurd (cc (rw (new, pop_new) at e))
  | inr old ↦ rw (old, pop_new) (pop_new-none session last gs (rw (old, pop_new) at e))
]

-- If a reader's queue is a run of the current session, then a round of `next` that returns a frame
-- returns one of the current session, other than the last one it returned, and leaves a run of frames
-- that are all later than it.
pub poll-in_order :
    (state : Snapshot) (s : Subscriber) (last : Option FrameKey) (bound : ℕ) (f : CapturedFrame)
    → IsRun state.session bound s.queue
    → (poll state s last).0 ≡ Poll.ready (ok f)
    → (f.key.session ≡ state.session)
      × (is_some_and last (key_eq f.key) ≡ false)
      × ((poll state s last).1.1 ≡ some f.key)
      × IsAbove f.key.sequence (poll state s last).1.0.queue
      × IsRun state.session bound (poll state s last).1.0.queue
unfolding poll
poll-in_order state s last bound f r e = elim (Bool-cases (is_over state s)) [
  | inl over ↦ absurd (cc (rw (over, poll) at e))
  | inr live ↦ elim (Option-cases (pop_new state.session last s.queue).0) [
    | inl nothing ↦ absurd (cc (rw (live, poll, nothing) at e))
    | inr (g, popped) ↦
        let same : g ≡ f = ready-injective g f (rw (live, poll, popped) at e) in
        let (new, here, above, run) =
          pop_new-IsRun state.session bound last s.queue f r (popped ∙ ap some same) in
        rw (live, poll, popped) (here, ground arith, ap (λ x. some x.key) same, above, run)
  ]
]
  where
    ready-injective : (g f : CapturedFrame) → Poll.ready (ok g) ≡ Poll.ready (ok f) → g ≡ f
    ready-injective g f e = cc

-- The rate limit refuses a frame or leaves it to the queue.
pub offer-IsRun :
    (interval : FrameRate → ℕ) (f : CapturedFrame) (s : Subscriber) (session bound : ℕ)
    → f.key.session ≡ session
    → f.key.sequence ≡ suc bound
    → IsRun session bound s.queue
    → IsRun session (suc bound) (offer interval f s).queue
unfolding offer
offer-IsRun interval f s session bound here next r = elim (Option-cases s.max_rate) [
  | inl unlimited ↦ rw (unlimited, offer) (enqueue-IsRun s.delivery f s session bound here next r)
  | inr (rate, limited) ↦
      rw (limited, offer)
        (elim (Bool-cases (
          is_some_and s.last_enqueued
            (λ previous. ltb (f.captured_at - previous) (interval rate)))) [
              | inl soon ↦ rw soon (IsRun-weaken session bound s.queue r)
              | inr due ↦ rw due (
                  enqueue-IsRun s.delivery f (record s { last_enqueued = some f.captured_at })
                    session bound here next r)
            ])
]

enqueue-flags :
    (policy : DeliveryPolicy) (f : CapturedFrame) (s : Subscriber)
    → ((enqueue policy f s).alive ≡ s.alive) × ((enqueue policy f s).linked ≡ s.linked)
unfolding enqueue
enqueue-flags DeliveryPolicy.latest f s = (refl, refl)
enqueue-flags (DeliveryPolicy.buffered capacity overflow) f s = (ground arith, ground arith)

pub offer-flags :
    (interval : FrameRate → ℕ) (f : CapturedFrame) (s : Subscriber)
    → ((offer interval f s).alive ≡ s.alive) × ((offer interval f s).linked ≡ s.linked)
unfolding offer
offer-flags interval f s =
    let plain = enqueue-flags s.delivery f s in
    let timed = enqueue-flags s.delivery f (record s { last_enqueued = some f.captured_at }) in
    (ground (arith, plain, timed), ground (arith, plain, timed))
