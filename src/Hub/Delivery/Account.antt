-- ===== src/Hub/Delivery/Account.antt =====
-- Every frame that is offered to a reader is queued or counted as dropped.
use camera_rs.Base.{
  ℕ, ◌+◌, ◌<◌, ◌^◌, ◌≡◌, [], ◌∷◌, length, length-append, arith, some, true, false, is_some_and,
}
use camera_rs.Format.Rate.{FrameRate}
use camera_rs.Format.Request.{DeliveryPolicy}
use camera_rs.Hub.State.{CapturedFrame, Subscriber}
use camera_rs.Hub.Delivery.{enqueue, offer, deliver, pop_front}
use camera_rs.Hub.Delivery.Queue.{limit, length-pop_front}

enqueue_account :
    (d : DeliveryPolicy) (f : CapturedFrame) (s : Subscriber)
    → 0 < limit d
    → s.dropped + length s.queue + 1 < 2 ^ 64
    → (enqueue d f s).dropped + length (enqueue d f s).queue ≡ s.dropped + length s.queue + 1
unfolding enqueue
enqueue_account d f s pos fits = ground (
  arith,
  length-append s.queue (f ∷ []),
  length-append (pop_front s.queue) (f ∷ []),
  length-pop_front s.queue,
)

-- A delivery to a linked, living reader that has not been stopped adds exactly one to the frames that
-- its queue holds and its drop counter counts together, on every branch: rate limit, overflow by
-- either policy, or room. (The counter wraps at 2 ^ 64, which the premise excludes.)
pub deliver_account :
    (interval : FrameRate → ℕ) (f : CapturedFrame) (s : Subscriber)
    → 0 < limit s.delivery
    → s.linked ≡ true
    → s.alive ≡ true
    → is_some_and s.owner (λ stopped. stopped) ≡ false
    → s.dropped + length s.queue + 1 < 2 ^ 64
    → let s' = deliver interval f s in s'.dropped + length s'.queue ≡ s.dropped + length s.queue + 1
unfolding deliver offer
deliver_account interval f s pos linked alive running fits = ground (
  arith,
  enqueue_account s.delivery f s pos fits,
  enqueue_account s.delivery f (record s { last_enqueued = some f.captured_at }) pos fits,
)
