-- ===== src/Hub/Delivery.antt =====
-- The closure that `finish_publish` of src/frame.rs runs for each subscriber.
pub mod Queue
pub mod Account
mod Tests
use camera_rs.Base.{
  ℕ, ◌-◌, Bool, true, false, List, [], ◌∷◌, ◌++◌, Option, none, some, length, ltb, leb,
  if◌then◌else◌, is_some_and, add_u64, map,
}
use camera_rs.Format.Rate.{FrameRate}
use camera_rs.Format.Request.{DeliveryPolicy, OverflowPolicy}
use camera_rs.Hub.State.{CapturedFrame, Subscriber}

-- `VecDeque::pop_front` and `push_back`.
abbrev pub pop_front : List CapturedFrame → List CapturedFrame
pop_front [] = []
pop_front (f ∷ fs) = fs

abbrev pub push_back : List CapturedFrame → CapturedFrame → List CapturedFrame
push_back fs f = fs ++ (f ∷ [])

abbrev pub is_drop_newest : OverflowPolicy → Bool
is_drop_newest OverflowPolicy.drop_newest = true
is_drop_newest OverflowPolicy.drop_oldest = false

-- The `match subscriber.delivery`.
unfoldable pub enqueue : DeliveryPolicy → CapturedFrame → Subscriber → Subscriber
enqueue DeliveryPolicy.latest f s = record s {
  queue = f ∷ [];
  dropped = add_u64 s.dropped (length s.queue);
}
enqueue (DeliveryPolicy.buffered capacity overflow) f s =
    if leb capacity (length s.queue)
    then if is_drop_newest overflow
      then record s { dropped = add_u64 s.dropped 1 }
      else record s { queue = push_back (pop_front s.queue) f; dropped = add_u64 s.dropped 1 }
    else record s { queue = push_back s.queue f }

-- `FrameRate::interval` is a computation on floating-point numbers: a parameter, in nanoseconds.
module _ (interval : FrameRate → ℕ) where
  -- `captured_at.saturating_duration_since(previous) < rate.interval()`.
  abbrev too_soon : FrameRate → CapturedFrame → Option ℕ → Bool
  too_soon rate f last =
      is_some_and last (λ previous. ltb (f.captured_at - previous) (interval rate))

  -- The rate limit, then the queue.
  unfoldable pub offer : CapturedFrame → Subscriber → Subscriber
  unfolding enqueue
  offer f s = elim s.max_rate [
    | none ↦ enqueue s.delivery f s
    | some rate ↦
        if too_soon rate f s.last_enqueued
        then record s { dropped = add_u64 s.dropped 1 }
        else enqueue s.delivery f (record s { last_enqueued = some f.captured_at })
  ]

  -- The whole closure: a dead or stopped subscriber is unlinked, a stopped one with its queue cleared.
  unfoldable pub deliver : CapturedFrame → Subscriber → Subscriber
  unfolding offer
  deliver f s =
      if s.linked
      then if s.alive
        then if is_some_and s.owner (λ stopped. stopped)
          then record s { linked = false; queue = [] }
          else offer f s
        else record s { linked = false }
      else s

  unfoldable pub deliver_all : CapturedFrame → List Subscriber → List Subscriber
  deliver_all f = map (deliver f)
