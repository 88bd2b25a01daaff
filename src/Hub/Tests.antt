-- ===== src/Hub/Tests.antt =====
-- A hub with one reader at concrete values.
use camera_rs.Base.{
  ℕ, ◌≡◌, ◌⊎◌, ◌≢◌, refl, true, false, [], ◌∷◌, none, some, is_some_and, add_u64, arith,
}
use camera_rs.Error.{CameraErrorKind, ok, err, new as error}
use camera_rs.Format.Pixel.{ClockDomain}
use camera_rs.Format.Layout.{rgb}
use camera_rs.Format.Rate.{FrameRate}
use camera_rs.Format.Request.{DeliveryPolicy, OverflowPolicy}
use camera_rs.Hub.State.{Hub, CapturedFrame, Subscriber, Storage, accepts, queued_frames}
use camera_rs.Hub.Reserve.{Lease, reserve}
use camera_rs.Hub.Reserve.Budget.{IsWithinBudget, reserve-IsWithinBudget}
use camera_rs.Hub.Reserve.Quiet.{IsQuiet}
use camera_rs.Hub.Reserve.Exclusive.{IsAllocated, IsPrivate, granted, reserve-IsPrivate}
use camera_rs.Hub.State.{bytes_of}
use camera_rs.Hub.Publish.Immutable.{publish-immutable}
use camera_rs.Hub.Publish.{Clock, publish, Publication, finish_publish}
use camera_rs.Hub.Publish.Sequence.{
  IsOrdered, IsReader, QueueClaim, last_sequence, finish_publish_lem, finish_publish-IsOrdered,
}
use camera_rs.Hub.Control.{new, start, stop}
use camera_rs.Hub.Control.Generation.{generation-IsOrdered, stop_lem}
use camera_rs.Hub.Receive.{Poll, poll, pop_new, key_eq}
use camera_rs.Hub.Receive.Order.{IsRun, IsAbove, poll-in_order}

abbrev frame : ℕ → CapturedFrame
frame n = record {
  key = record { session = 1; sequence = n };
  storage = Storage.bytes 0 24;
  layout = rgb 4 2;
  captured_at = n;
  timestamp_ns = 0;
  source_timestamp_ns = none;
  source_clock = ClockDomain.unknown;
  source_sequence = none;
}

abbrev reader : Subscriber
reader = record {
  alive = true;
  linked = true;
  queue = frame 1 ∷ [];
  delivery = DeliveryPolicy.buffered 2 OverflowPolicy.drop_oldest;
  dropped = 0;
  max_rate = none;
  last_enqueued = none;
  owner = none;
}

-- One published frame in the pool's only slot, still in the reader's queue.
abbrev busy_hub : Hub
busy_hub = record (new 2 1) {
  state = record {
    session = 1;
    active = true;
    recovering = false;
    reconnect_enabled = false;
    latest = some (frame 1);
  };
  pool = record (new 2 1).pool {
    slots = record { stored = some (Storage.bytes 0 24); bytes = 24 } ∷ [];
    budget = record { buffers = 2; bytes = 100 };
  };
  subscribers = reader ∷ [];
  next_buffer = 1;
}

busy_hub-IsWithinBudget : IsWithinBudget busy_hub.pool
busy_hub-IsWithinBudget = record { slots_bounded = omega arith; bytes_bounded = omega arith }

reserve-IsWithinBudget_example : IsWithinBudget (reserve 5 1 (rgb 4 2) true busy_hub).1.pool
reserve-IsWithinBudget_example =
    reserve-IsWithinBudget 5 1 (rgb 4 2) true busy_hub busy_hub-IsWithinBudget

busy_hub-IsAllocated : IsAllocated busy_hub
unfolding IsAllocated new
busy_hub-IsAllocated = (omega arith, (omega arith, tt))

reserve-IsPrivate_example :
    IsQuiet busy_hub (reserve 5 1 (rgb 4 2) true busy_hub).1
    × IsPrivate busy_hub (granted (reserve 5 1 (rgb 4 2) true busy_hub).0)
reserve-IsPrivate_example = reserve-IsPrivate 5 1 (rgb 4 2) true busy_hub busy_hub-IsAllocated

busy_hub-IsOrdered : IsOrdered busy_hub
unfolding IsReader QueueClaim IsRun
busy_hub-IsOrdered = record { current = refl; queues = ((refl, omega arith, tt, tt), tt) }

abbrev no_interval : FrameRate → ℕ
no_interval r = 0

abbrev publication : Publication
publication = record {
  session = 1;
  layout = rgb 4 2;
  timestamp = none;
  source_sequence = none;
  captured_at = 5;
  elapsed = 1;
}

abbrev lease : Lease
lease = record { index = 1; storage = Storage.rgb 1 2 4 }

finish_publish-IsOrdered_example :
    IsOrdered (finish_publish no_interval publication 9 lease busy_hub).1
finish_publish-IsOrdered_example =
    finish_publish-IsOrdered no_interval publication 9 lease busy_hub (omega arith)
      busy_hub-IsOrdered

finish_publish_example :
    let (published, h') = finish_publish no_interval publication 9 lease busy_hub in
    ((published ≡ true)
      × (busy_hub.state.active ≡ true)
      × (busy_hub.state.session ≡ 1)
      × (f : CapturedFrame) × (h'.state.latest ≡ some f)
      × (f.storage ≡ lease.storage)
      × (f.key.session ≡ busy_hub.state.session)
      × (f.key.sequence ≡ add_u64 (last_sequence busy_hub.state.latest) 1))
    ⊎ ((published ≡ false)
        × ((busy_hub.state.active ≡ false) ⊎ (busy_hub.state.session ≢ 1))
        × (h' ≡ busy_hub))
finish_publish_example = finish_publish_lem no_interval publication 9 lease busy_hub

generation_example :
    let h' = (start 7 busy_hub).1 in
    let h'' = stop 7 busy_hub in
    (IsOrdered h' × (h'.state.latest ≡ none) × (queued_frames h'.subscribers ≡ []))
    × (IsOrdered h'' × (h''.state.latest ≡ none) × (queued_frames h''.subscribers ≡ []))
generation_example = generation-IsOrdered 7 busy_hub busy_hub-IsOrdered

stop_example :
    (accepts (stop 7 busy_hub) 1 ≡ false)
    × ((stop 7 busy_hub).state.latest ≡ none)
    × ((poll (stop 7 busy_hub).state reader none).0
        ≡ Poll.ready (err (error CameraErrorKind.stream_stopped)))
stop_example = stop_lem 7 1 busy_hub reader none refl refl

poll_returns : (poll busy_hub.state reader none).0 ≡ Poll.ready (ok (frame 1))
unfolding poll pop_new
poll_returns = refl

poll-in_order_example :
    (1 ≡ busy_hub.state.session)
    × (is_some_and none (key_eq (frame 1).key) ≡ false)
    × ((poll busy_hub.state reader none).1.1 ≡ some (frame 1).key)
    × IsAbove (frame 1).key.sequence (poll busy_hub.state reader none).1.0.queue
    × IsRun busy_hub.state.session 1 (poll busy_hub.state reader none).1.0.queue
unfolding IsRun
poll-in_order_example = poll-in_order busy_hub.state reader none 1 (frame 1) one_frame poll_returns
  where
    one_frame : IsRun 1 1 (frame 1 ∷ [])
    one_frame = (refl, omega arith, tt, tt)

abbrev clock : Clock
clock = record { now = 5; elapsed = 1; timestamp_ns = 9 }

publish-immutable_example :
    bytes_of
      (publish no_interval clock 1 (rgb 4 2) none none true (λ out. (ok tt, [])) busy_hub).1
      (frame 1)
    ≡ bytes_of busy_hub (frame 1)
publish-immutable_example =
    publish-immutable no_interval clock 1 (rgb 4 2) none none true (λ out. (ok tt, [])) busy_hub 0
      (frame 1) busy_hub-IsAllocated refl
