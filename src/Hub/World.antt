-- ===== src/Hub/World.antt =====
-- The users of one `FrameHub` of src/frame.rs side by side: backends with leases (`publish` and
-- `NativeWriteLease`), readers, consumers that keep frames, and the session that starts and stops the
-- hub. Each step is one operation under its lock; the steps of several users come in any order.
pub mod Count
pub mod Frames
pub mod Spending
pub mod Sound
pub mod Steps
pub mod Effect
pub mod Keeping
pub mod Safety
mod Tests
use camera_rs.Base.{
  ℕ, zero, suc, ◌≡◌, Bool, true, false, ◌||◌, List, [], ◌∷◌, ◌++◌, Option, none, some, get_elem?,
  set, remove_at,
}
use camera_rs.Error.{CameraResult}
use camera_rs.Format.Pixel.{FrameLayout}
use camera_rs.Format.Rate.{FrameRate}
use camera_rs.Format.Request.{StreamRequest}
use camera_rs.Hub.State.{Hub, CapturedFrame, Storage, Subscriber, buffer_of, update}
use camera_rs.Hub.Reserve.{Lease, reserve, drop_lease}
use camera_rs.Hub.Reserve.Exclusive.{granted}
use camera_rs.Hub.Publish.{Publication, finish_publish, record_conversion_error, record_input_drop}
use camera_rs.Hub.Control.{
  configure, start, stop, stop_queues, stop_state, begin_recovery, end_recovery, enable_recovery,
  disable_recovery,
}
use camera_rs.Hub.Receive.{SubscriptionOptions, FrameReceiver, subscribe_with, with_stop_flag, next}

-- A lease that its backend has not dropped. Once a frame shares its storage it is not written again.
pub record OpenLease : Type 0 where
  pub lease : Lease
  pub published : Bool

pub record World : Type 0 where
  pub hub : Hub
  pub leases : List OpenLease

abbrev pub with_hub : World → Hub → World
with_hub w h = record w { hub = h }

abbrev pub opened : Option Lease → List OpenLease → List OpenLease
opened none ls = ls
opened (some l) ls = record { lease = l; published = false } ∷ ls

abbrev pub write : Lease → List ℕ → Hub → Hub
write l v h = record h { heap = update h.heap (buffer_of l.storage) v }

abbrev pub set_subscriber : ℕ → Subscriber → Hub → Hub
set_subscriber k s h = record h { subscribers = set h.subscribers k s }

-- The receiver is dropped: the hub's weak reference dies with its queue.
abbrev pub drop_receiver : Subscriber → Subscriber
drop_receiver s = record s { alive = false }

module _ (interval : FrameRate → ℕ) where
  pub data Step (w : World) : World → Type 0 where
    reserves :
        (now session : ℕ) (layout : FrameLayout) (rgb : Bool)
        → Step w (
            let (r, h) = reserve now session layout rgb w.hub in
            record { hub = h; leases = opened (granted r) w.leases })
    writes :
        (k : ℕ) (l : Lease) (v : List ℕ)
        → get_elem? w.leases k ≡ some (record { lease = l; published = false })
        → Step w (with_hub w (write l v w.hub))
    publishes :
        (k : ℕ) (l : Lease) (p : Publication) (timestamp_ns : ℕ)
        → get_elem? w.leases k ≡ some (record { lease = l; published = false })
        → Step w (
            let (done, h) = finish_publish interval p timestamp_ns l w.hub in
            record { hub = h; leases = set w.leases k (record { lease = l; published = done }) })
    releases :
        (k : ℕ) (o : OpenLease)
        → get_elem? w.leases k ≡ some o
        → Step w (record { hub = drop_lease o.lease w.hub; leases = remove_at w.leases k })
    configures : (r : StreamRequest) → Step w (with_hub w (configure r w.hub).1)
    starts : (now : ℕ) → Step w (with_hub w (start now w.hub).1)
    stops : (now : ℕ) → Step w (with_hub w (stop now w.hub))
    stops_queues : (now : ℕ) → Step w (with_hub w (stop_queues now w.hub))
    stops_state : Step w (with_hub w (stop_state w.hub))
    begins_recovery : Step w (with_hub w (begin_recovery w.hub))
    ends_recovery : Step w (with_hub w (end_recovery w.hub))
    enables_recovery : Step w (with_hub w (enable_recovery w.hub))
    disables_recovery : Step w (with_hub w (disable_recovery w.hub))
    fails :
        (now session : ℕ) (activity : Bool)
        → Step w (with_hub w (record_conversion_error now session activity w.hub))
    drops_input : (now session : ℕ) → Step w (with_hub w (record_input_drop now session w.hub))
    subscribes : (o : SubscriptionOptions) → Step w (with_hub w (subscribe_with o w.hub).1)
    flags :
        (k : ℕ) (s : Subscriber) (flag : Bool)
        → get_elem? w.hub.subscribers k ≡ some s
        → Step w (with_hub w (set_subscriber k (with_stop_flag flag s) w.hub))
    leaves :
        (k : ℕ) (s : Subscriber)
        → get_elem? w.hub.subscribers k ≡ some s
        → Step w (with_hub w (set_subscriber k (drop_receiver s) w.hub))
    receives :
        (r : FrameReceiver) (s : Subscriber)
        → get_elem? w.hub.subscribers r.subscriber ≡ some s
        → s.alive ≡ true
        → Step w (with_hub w (next r w.hub).1.1)
    keeps_latest :
        (f : CapturedFrame)
        → w.hub.state.latest ≡ some f
        → Step w (with_hub w (record w.hub { held = f ∷ w.hub.held }))
    clones :
        (k : ℕ) (f : CapturedFrame)
        → get_elem? w.hub.held k ≡ some f
        → Step w (with_hub w (record w.hub { held = f ∷ w.hub.held }))
    forgets : (k : ℕ) → Step w (with_hub w (record w.hub { held = remove_at w.hub.held k }))

  pub data Reach (w : World) : World → Type 0 where
    here : Reach w w
    then_step : {v u : World} → Reach w v → Step v u → Reach w u
