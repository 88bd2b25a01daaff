-- ===== src/Hub/Receive.antt =====
-- The readers of src/frame.rs: `subscribe_with`, `with_stop_flag`, one round of the loop of
-- `FrameReceiver::next`, and `SubscriptionOptions` of src/contract.rs.
pub mod Order
use camera_rs.Base.{
  ℕ, zero, suc, Bool, true, false, not, ◌&&◌, ◌||◌, List, [], ◌∷◌, ◌++◌, Option, none, some, length,
  leb, ◌==◌, if◌then◌else◌, is_some_and, get_elem?, set,
}
use camera_rs.Error.{CameraErrorKind, CameraResult, ok, err, fail_if, new as error}
use camera_rs.Format.Rate.{FrameRate}
use camera_rs.Format.Request.{MemoryBudget, DeliveryPolicy, OverflowPolicy}
use camera_rs.Hub.State.{Hub, FrameKey, CapturedFrame, Snapshot, Subscriber, option_list}
use camera_rs.Hub.Delivery.{pop_front}

pub record SubscriptionOptions : Type 0 where
  pub delivery : DeliveryPolicy
  pub max_rate : Option FrameRate

abbrev pub latest_only : SubscriptionOptions
latest_only = record { delivery = DeliveryPolicy.latest; max_rate = none }

abbrev pub buffered : ℕ → SubscriptionOptions
buffered capacity = record {
  delivery = DeliveryPolicy.buffered capacity OverflowPolicy.drop_oldest;
  max_rate = none;
}

unfoldable pub validate_options : SubscriptionOptions → MemoryBudget → CameraResult (Unit {0})
validate_options o budget = elim o.delivery [
  | DeliveryPolicy.latest ↦ ok tt
  | DeliveryPolicy.buffered capacity overflow ↦
      fail_if (capacity == 0 || leb budget.buffers capacity)
        (error CameraErrorKind.invalid_argument)
]

-- `FrameReceiver`: the subscriber by its place in the hub's list, and the key of the last frame.
pub record FrameReceiver : Type 0 where
  pub subscriber : ℕ
  pub last : Option FrameKey

abbrev pub captured_time : Option CapturedFrame → Option ℕ
captured_time none = none
captured_time (some f) = some f.captured_at

-- The subscriber that `subscribe_with` makes: its queue has the latest frame at once.
unfoldable pub new_subscriber : SubscriptionOptions → Option CapturedFrame → Subscriber
new_subscriber o first = record {
  alive = true;
  linked = true;
  queue = option_list first;
  delivery = o.delivery;
  dropped = 0;
  max_rate = o.max_rate;
  last_enqueued = captured_time first;
  owner = none;
}

unfoldable pub subscribe_with : SubscriptionOptions → Hub → CameraResult FrameReceiver × Hub
unfolding validate_options new_subscriber
subscribe_with o h = elim (validate_options o h.pool.budget) [
  | err e ↦ (err e, h)
  | ok u ↦ (
    ok (record { subscriber = length h.subscribers; last = none }),
    record h { subscribers = h.subscribers ++ (new_subscriber o h.state.latest ∷ []) },
  )
]

-- `with_stop_flag`: `OnceLock::set` keeps a flag that is there.
unfoldable pub with_stop_flag : Bool → Subscriber → Subscriber
with_stop_flag flag s =
    let cleared = if flag then record s { queue = [] } else s in
    elim s.owner [ none ↦ record cleared { owner = some flag } | some old ↦ cleared ]

abbrev pub key_eq : FrameKey → FrameKey → Bool
key_eq a b = a.session == b.session && a.sequence == b.sequence

-- `Some(f.key) != self.last && f.key.session == state.session`.
abbrev pub is_new : ℕ → Option FrameKey → CapturedFrame → Bool
is_new session last f = not (is_some_and last (key_eq f.key)) && f.key.session == session

-- The loop that pops the queue: the first new frame, and what is left behind it.
unfoldable pub pop_new :
    ℕ → Option FrameKey → List CapturedFrame → Option CapturedFrame × List CapturedFrame
pop_new session last [] = (none, [])
pop_new session last (f ∷ fs) =
    let rest = pop_new session last fs in if is_new session last f then (some f, fs) else rest

-- A stopped stream, or a reader whose owner stopped.
unfoldable pub is_over : Snapshot → Subscriber → Bool
is_over state s =
    is_some_and s.owner (λ stopped. stopped)
    || (not state.active && not state.recovering && not state.reconnect_enabled)

-- What a round of `next` comes to: a result, or a wait for a change of the state.
pub data Poll : Type 0 where
  ready : CameraResult CapturedFrame → Poll
  pending : Poll

-- One round of the loop of `next`.
unfoldable pub poll :
    Snapshot → Subscriber → Option FrameKey → Poll × (Subscriber × Option FrameKey)
unfolding is_over pop_new
poll state s last =
    if is_over state s
    then (Poll.ready (err (error CameraErrorKind.stream_stopped)), (s, last))
    else (let (popped, rest) = pop_new state.session last s.queue in
        elim popped [
          | some f ↦ (Poll.ready (ok f), (record s { queue = rest }, some f.key))
          | none ↦ (Poll.pending, (record s { queue = rest }, last))
        ])

-- A round of `next` on the hub; the frame it returns is kept by its consumer.
unfoldable pub next : FrameReceiver → Hub → Poll × (FrameReceiver × Hub)
unfolding poll
next r h = elim (get_elem? h.subscribers r.subscriber) [
  | none ↦ (Poll.pending, (r, h))
  | some s ↦
      let (answer, (s', last)) = poll h.state s r.last in
      let subscribers = set h.subscribers r.subscriber s' in
      (
        answer,
        (
          record r { last = last },
          record h { subscribers = subscribers; held = kept answer h.held },
        ),
      )
]
  where
    kept : Poll → List CapturedFrame → List CapturedFrame
    kept (Poll.ready (ok f)) held = f ∷ held
    kept (Poll.ready (err e)) held = held
    kept Poll.pending held = held
