-- ===== src/Hub/Control/Generation.antt =====
-- The generations of src/frame.rs: what `start` and `stop` leave in the queues.
use camera_rs.Base.{
  ℕ, ◌≡◌, refl, Bool, true, false, List, [], ◌∷◌, ◌++◌, if◌then◌else◌, Option, none, All,
  Bool-cases, inl, inr, arith,
}
use camera_rs.Error.{CameraErrorKind, err, new as error}
use camera_rs.Hub.State.{Hub, Subscriber, CapturedFrame, FrameKey, accepts, queued_frames}
use camera_rs.Hub.Control.{start, stop, stop_queues, stop_state, clear_queue, clear_queues}
use camera_rs.Hub.Publish.{wake_recovery}
use camera_rs.Hub.Receive.{Poll, poll, is_over}
use camera_rs.Hub.Receive.Order.{IsRun}
use camera_rs.Hub.Publish.Sequence.{QueueClaim, IsReader, IsOrdered}

clear_queue-IsReader :
    (session bound session' bound' : ℕ) (s : Subscriber)
    → IsReader session bound s
    → IsReader session' bound' (clear_queue s)
unfolding IsReader QueueClaim clear_queue IsRun
clear_queue-IsReader session bound session' bound' s r = elim (Bool-cases s.linked) [
  | inr gone ↦ rw gone (unlinked s.alive (rw gone at r))
  | inl linked ↦
      rw linked (elim (Bool-cases s.alive) [ inr dead ↦ rw dead tt | inl alive ↦ rw alive tt ])
]
  where
    unlinked :
        (alive : Bool)
        → QueueClaim alive false session bound s.queue
        → QueueClaim alive false session' bound' s.queue
    unlinked true q = q
    unlinked false q = q

clear_queues-IsReader :
    (session bound session' bound' : ℕ) (ss : List Subscriber)
    → All (IsReader session bound) ss
    → All (IsReader session' bound') (clear_queues ss)
unfolding clear_queues
clear_queues-IsReader session bound session' bound' [] a = tt
clear_queues-IsReader session bound session' bound' (s ∷ ss) a = (
  clear_queue-IsReader session bound session' bound' s a.0,
  clear_queues-IsReader session bound session' bound' ss a.1,
)

-- A cleared subscriber, and the frames that are queued behind it.
clear_queue-empty :
    (session bound : ℕ) (s : Subscriber) (rest : List CapturedFrame)
    → IsReader session bound s
    → rest ≡ []
    → (if (clear_queue s).alive then (clear_queue s).queue ++ rest else rest) ≡ []
unfolding IsReader QueueClaim clear_queue
clear_queue-empty session bound s rest r e = after s.alive s.linked s.queue refl refl refl r
  where
    after :
        (alive linked : Bool) (queue : List CapturedFrame)
        → s.alive ≡ alive
        → s.linked ≡ linked
        → s.queue ≡ queue
        → QueueClaim s.alive s.linked session bound s.queue
        → (if (clear_queue s).alive then (clear_queue s).queue ++ rest else rest) ≡ []
    after true true queue a l q c = rw (l, a, e) refl
    after true false queue a l q c = let c' : s.queue ≡ [] = rw (a, l) at c in rw (l, a, c', e) refl
    after false true queue a l q c = rw (l, a) e
    after false false queue a l q c = rw (l, a) e

clear_queues-empty :
    (session bound : ℕ) (ss : List Subscriber)
    → All (IsReader session bound) ss
    → queued_frames (clear_queues ss) ≡ []
unfolding clear_queues
clear_queues-empty session bound [] a = refl
clear_queues-empty session bound (s ∷ ss) a =
    clear_queue-empty session bound s (queued_frames (clear_queues ss)) a.0
      (clear_queues-empty session bound ss a.1)

-- A new generation and the end of one, with nobody at work in between: both keep the order of the queues,
-- and leave no latest frame and no frame in the queue of a living reader.
pub generation-IsOrdered :
    (now : ℕ) (h : Hub)
    → IsOrdered h
    → let h' = (start now h).1 in
      let h'' = stop now h in
      (IsOrdered h' × (h'.state.latest ≡ none) × (queued_frames h'.subscribers ≡ []))
      × (IsOrdered h'' × (h''.state.latest ≡ none) × (queued_frames h''.subscribers ≡ []))
unfolding start stop stop_queues stop_state wake_recovery
generation-IsOrdered now h o =
    let empty = clear_queues-empty _ _ h.subscribers o.queues in
    (
      (
        record { current = tt; queues = clear_queues-IsReader _ _ _ _ h.subscribers o.queues },
        refl,
        empty,
      ),
      (
        record { current = tt; queues = clear_queues-IsReader _ _ _ _ h.subscribers o.queues },
        refl,
        empty,
      ),
    )

-- After `stop`, unless a recovery is running or may start, no session publishes, there is no latest
-- frame, and a round of any reader's `next` answers `StreamStopped`.
pub stop_lem :
    (now session : ℕ) (h : Hub) (s : Subscriber) (last : Option FrameKey)
    → h.state.recovering ≡ false
    → h.state.reconnect_enabled ≡ false
    → (accepts (stop now h) session ≡ false)
      × ((stop now h).state.latest ≡ none)
      × ((poll (stop now h).state s last).0
          ≡ Poll.ready (err (error CameraErrorKind.stream_stopped)))
unfolding stop stop_queues stop_state wake_recovery accepts poll is_over
stop_lem now session h s last recovering reconnect = (refl, refl, ground arith)
