-- ===== src/Hub/World/Frames.antt =====
-- Which frames can be read after an operation of src/frame.rs: those from before, and the one that was
-- published.
use camera_rs.Base.{
  ℕ, Bool, true, false, List, [], ◌∷◌, ◌++◌, Option, some, All, All-append, is_some_and, leb, ltb,
  ◌-◌, length, Bool-cases, Option-cases, inl, inr,
}
use camera_rs.Format.Rate.{FrameRate}
use camera_rs.Format.Request.{DeliveryPolicy}
use camera_rs.Hub.State.{
  Hub, FrameKey, CapturedFrame, Subscriber, option_list, queued_frames, retained_frames,
}
use camera_rs.Hub.Delivery.{enqueue, offer, deliver, deliver_all, pop_front, is_drop_newest}
use camera_rs.Hub.Control.{clear_queue, clear_queues}
use camera_rs.Hub.Receive.{with_stop_flag, pop_new, is_new}
use camera_rs.Hub.World.{drop_receiver}

module _ (P : CapturedFrame → Type 0) where
  -- The frames of a living reader.
  abbrev pub Reads : Bool → List CapturedFrame → Type 0
  Reads true queue = All P queue
  Reads false queue = Unit

  abbrev pub IsReading : Subscriber → Type 0
  IsReading s = Reads s.alive s.queue

  All-split : (xs ys : List CapturedFrame) → All P (xs ++ ys) → All P xs × All P ys
  All-split [] ys a = (tt, a)
  All-split (x ∷ xs) ys a = let (h, t) = All-split xs ys a.1 in ((a.0, h), t)

  pub queued-IsReading : (ss : List Subscriber) → All P (queued_frames ss) → All IsReading ss
  queued-IsReading [] a = tt
  queued-IsReading (s ∷ ss) a = elim (Bool-cases s.alive) [
    | inl alive ↦
        let (mine, rest) = All-split s.queue (queued_frames ss) (rw alive at a) in
        (rw alive mine, queued-IsReading ss rest)
    | inr dead ↦ (rw dead tt, queued-IsReading ss (rw dead at a))
  ]

  pub IsReading-queued : (ss : List Subscriber) → All IsReading ss → All P (queued_frames ss)
  IsReading-queued [] a = tt
  IsReading-queued (s ∷ ss) a = elim (Bool-cases s.alive) [
    | inl alive ↦
        rw alive
          (All-append P s.queue (queued_frames ss) (rw alive at (a.0)) (IsReading-queued ss a.1))
    | inr dead ↦ rw dead (IsReading-queued ss a.1)
  ]

  abbrev pub IsKept : Hub → Type 0
  IsKept h = All P (option_list h.state.latest) × All IsReading h.subscribers × All P h.held

  pub retained-IsKept : (h : Hub) → All P (retained_frames h) → IsKept h
  retained-IsKept h a =
      let (latest, rest) =
        All-split (option_list h.state.latest) (queued_frames h.subscribers ++ h.held) a in
      let (queued, held) = All-split (queued_frames h.subscribers) h.held rest in
      (latest, queued-IsReading h.subscribers queued, held)

  pub IsKept-retained : (h : Hub) → IsKept h → All P (retained_frames h)
  IsKept-retained h (latest, reading, held) =
      All-append P (option_list h.state.latest) (queued_frames h.subscribers ++ h.held) latest (
        All-append P (queued_frames h.subscribers) h.held (IsReading-queued h.subscribers reading)
          held)

  pop_front-All : (fs : List CapturedFrame) → All P fs → All P (pop_front fs)
  pop_front-All [] a = tt
  pop_front-All (f ∷ fs) a = a.1

  enqueue-All :
      (d : DeliveryPolicy) (f : CapturedFrame) (s : Subscriber)
      → P f
      → All P s.queue
      → All P (enqueue d f s).queue
  unfolding enqueue
  enqueue-All DeliveryPolicy.latest f s h a = (h, tt)
  enqueue-All (DeliveryPolicy.buffered capacity overflow) f s h a =
      elim (Bool-cases (leb capacity (length s.queue))) [
        | inl full ↦
            rw (full, enqueue)
              (elim (Bool-cases (is_drop_newest overflow)) [
                | inl newest ↦ rw newest a
                | inr oldest ↦
                    rw oldest
                      (All-append P (pop_front s.queue) (f ∷ []) (pop_front-All s.queue a) (h, tt))
              ])
        | inr room ↦ rw (room, enqueue) (All-append P s.queue (f ∷ []) a (h, tt))
      ]

  offer-All :
      (interval : FrameRate → ℕ) (f : CapturedFrame) (s : Subscriber)
      → P f
      → All P s.queue
      → All P (offer interval f s).queue
  unfolding offer
  offer-All interval f s h a = elim (Option-cases s.max_rate) [
    | inl unlimited ↦ rw (unlimited, offer) (enqueue-All s.delivery f s h a)
    | inr (rate, limited) ↦
        rw (limited, offer)
          (elim (Bool-cases (
            is_some_and s.last_enqueued
              (λ previous. ltb (f.captured_at - previous) (interval rate)))) [
                | inl soon ↦ rw soon a
                | inr due ↦
                    rw due (
                      enqueue-All s.delivery f (record s { last_enqueued = some f.captured_at }) h
                        a)
              ])
  ]

  pub Reads-All : (alive : Bool) (queue : List CapturedFrame) → All P queue → Reads alive queue
  Reads-All true queue a = a
  Reads-All false queue a = tt

  pub deliver-IsReading :
      (interval : FrameRate → ℕ) (f : CapturedFrame) (s : Subscriber)
      → P f
      → IsReading s
      → IsReading (deliver interval f s)
  unfolding deliver
  deliver-IsReading interval f s h a = elim (Bool-cases s.linked) [
    | inr gone ↦ rw gone a
    | inl linked ↦ rw linked (elim (Bool-cases s.alive) [
      | inr dead ↦ rw dead tt
      | inl alive ↦ rw alive (elim (Bool-cases (is_some_and s.owner (λ stopped. stopped))) [
        | inl stopped ↦ rw stopped tt
        | inr running ↦
            rw running
              (Reads-All _ _ (offer-All interval f (record s { linked = true }) h (rw alive at a)))
      ])
    ])
  ]

  pub deliver_all-IsReading :
      (interval : FrameRate → ℕ) (f : CapturedFrame) (ss : List Subscriber)
      → P f
      → All IsReading ss
      → All IsReading (deliver_all interval f ss)
  unfolding deliver_all
  deliver_all-IsReading interval f [] h a = tt
  deliver_all-IsReading interval f (s ∷ ss) h a =
      (deliver-IsReading interval f s h a.0, deliver_all-IsReading interval f ss h a.1)

  clear_queue-IsReading : (s : Subscriber) → IsReading s → IsReading (clear_queue s)
  unfolding clear_queue
  clear_queue-IsReading s a = elim (Bool-cases s.linked) [
    | inr gone ↦ rw gone a
    | inl linked ↦
        rw linked (elim (Bool-cases s.alive) [ inr dead ↦ rw dead tt | inl alive ↦ rw alive tt ])
  ]

  pub clear_queues-IsReading :
      (ss : List Subscriber) → All IsReading ss → All IsReading (clear_queues ss)
  unfolding clear_queues
  clear_queues-IsReading [] a = tt
  clear_queues-IsReading (s ∷ ss) a = (clear_queue-IsReading s a.0, clear_queues-IsReading ss a.1)

  pub drop_receiver-IsReading : (s : Subscriber) → IsReading (drop_receiver s)
  drop_receiver-IsReading s = tt

  pub with_stop_flag-IsReading :
      (flag : Bool) (s : Subscriber) → IsReading s → IsReading (with_stop_flag flag s)
  unfolding with_stop_flag
  with_stop_flag-IsReading true s a = elim (Option-cases s.owner) [
    | inl unset ↦ rw (unset, with_stop_flag) (Reads-All s.alive [] tt)
    | inr (old, have) ↦ rw (have, with_stop_flag) (Reads-All s.alive [] tt)
  ]
  with_stop_flag-IsReading false s a = elim (Option-cases s.owner) [
    | inl unset ↦ rw (unset, with_stop_flag) a
    | inr (old, have) ↦ rw (have, with_stop_flag) a
  ]

  pub pop_new-All :
      (session : ℕ) (last : Option FrameKey) (fs : List CapturedFrame)
      → All P fs
      → let (popped, rest) = pop_new session last fs in All P (option_list popped) × All P rest
  unfolding pop_new
  pop_new-All session last [] a = (tt, tt)
  pop_new-All session last (f ∷ fs) a = elim (Bool-cases (is_new session last f)) [
    | inl new ↦ rw new ((a.0, tt), a.1)
    | inr old ↦ rw old (pop_new-All session last fs a.1)
  ]
