-- ===== src/Hub/Delivery/Tests.antt =====
-- One delivery at concrete values.
use camera_rs.Base.{ℕ, ◌+◌, ◌≤◌, ◌≡◌, refl, true, [], ◌∷◌, ◌++◌, none, length, arith}
use camera_rs.Format.Pixel.{ClockDomain}
use camera_rs.Format.Layout.{rgb}
use camera_rs.Format.Rate.{FrameRate}
use camera_rs.Format.Request.{DeliveryPolicy, OverflowPolicy}
use camera_rs.Hub.State.{CapturedFrame, Subscriber, Storage}
use camera_rs.Hub.Delivery.{enqueue, deliver}
use camera_rs.Hub.Delivery.Queue.{limit, kept, enqueue-eq-kept, deliver-bounded}
use camera_rs.Hub.Delivery.Account.{deliver_account}

abbrev frame : ℕ → CapturedFrame
frame n = record {
  key = record { session = 1; sequence = n };
  storage = Storage.bytes n 24;
  layout = rgb 4 2;
  captured_at = n;
  timestamp_ns = 0;
  source_timestamp_ns = none;
  source_clock = ClockDomain.unknown;
  source_sequence = none;
}

abbrev policy : DeliveryPolicy
policy = DeliveryPolicy.buffered 2 OverflowPolicy.drop_oldest

abbrev full_reader : Subscriber
full_reader = record {
  alive = true;
  linked = true;
  queue = frame 1 ∷ frame 2 ∷ [];
  delivery = policy;
  dropped = 0;
  max_rate = none;
  last_enqueued = none;
  owner = none;
}

abbrev no_interval : FrameRate → ℕ
no_interval r = 0

enqueue_example :
    (enqueue policy (frame 3) full_reader).queue ≡ kept policy (full_reader.queue ++ (frame 3 ∷ []))
enqueue_example = enqueue-eq-kept policy (frame 3) full_reader (omega arith) (omega arith)

deliver-bounded_example :
    (length (deliver no_interval (frame 3) full_reader).queue
      ≤ limit (deliver no_interval (frame 3) full_reader).delivery)
    × ((deliver no_interval (frame 3) full_reader).delivery ≡ full_reader.delivery)
deliver-bounded_example =
    deliver-bounded no_interval (frame 3) full_reader (omega arith) (omega arith)

deliver_account_example :
    (deliver no_interval (frame 3) full_reader).dropped
      + length (deliver no_interval (frame 3) full_reader).queue
    ≡ full_reader.dropped + length full_reader.queue + 1
deliver_account_example =
    deliver_account no_interval (frame 3) full_reader (omega arith) refl refl refl (omega arith)
