-- ===== src/Hub/World/Steps.antt =====
-- The operations of readers and consumers of src/frame.rs, and the drop of a lease: no frame becomes readable
-- that was not.
use camera_rs.Base.{
  ℕ, ◌+◌, ◌≤◌, ◌≡◌, refl, subst, true, false, List, [], ◌∷◌, ◌++◌, none, some, get_elem?, All,
  All-append, All-set, All-get_elem?, ◌==◌, Bool-cases, Option-cases, inl, inr, arith, length,
}
use camera_rs.Error.{CameraResult, ok, err}
use camera_rs.Hub.State.{Hub, CapturedFrame, Subscriber, buffer_of, option_list, accepts}
use camera_rs.Format.Rate.{FrameRate}
use camera_rs.Hub.Publish.{Publication, finish_publish, make_frame, note_published}
use camera_rs.Hub.Reserve.{Lease, drop_lease}
use camera_rs.Hub.Receive.{
  SubscriptionOptions, FrameReceiver, subscribe_with, validate_options, new_subscriber, next, poll,
  is_over, pop_new,
}
use camera_rs.Hub.World.{set_subscriber}
use camera_rs.Hub.World.Frames.{IsKept, IsReading, Reads-All, pop_new-All, deliver_all-IsReading}
use camera_rs.Hub.World.Count.{one_if, count_if-set, slot_has, uses}
use camera_rs.Hub.World.Sound.{IsCalm, IsCalm-refl, kept-IsCalm}

pub drop_lease-uses :
    (l : Lease) (h : Hub) (b : ℕ)
    → uses b (drop_lease l h) ≤ uses b h + one_if (buffer_of l.storage == b)
unfolding drop_lease
drop_lease-uses l h b = elim (Option-cases (get_elem? h.pool.slots l.index)) [
  | inl gone ↦ rw (gone, drop_lease) (omega arith)
  | inr (s, at) ↦
      rw (at, drop_lease)
        (omega (
          arith,
          count_if-set (slot_has b) h.pool.slots l.index s (record s { stored = some l.storage })
              at,
        ))
]

pub drop_lease-IsCalm : (l : Lease) (h : Hub) → IsCalm h (drop_lease l h)
unfolding drop_lease
drop_lease-IsCalm l h = record {
  frames = λ P a. subst (All P) (ground arith) a;
  buffers = ground arith;
  contents = λ b. ground arith;
}

pub subscribe_with-IsCalm : (o : SubscriptionOptions) (h : Hub) → IsCalm h (subscribe_with o h).1
unfolding subscribe_with new_subscriber
subscribe_with-IsCalm o h = after (validate_options o h.pool.budget)
  where
    after :
        (r : CameraResult (Unit {0}))
        → IsCalm h
            (elim r as (λ x. CameraResult FrameReceiver × Hub) [
              | err e ↦ (err e, h)
              | ok u ↦ (
                ok (record { subscriber = length h.subscribers; last = none }),
                record h { subscribers = h.subscribers ++ (new_subscriber o h.state.latest ∷ []) },
              )
            ]).1
    after (err e) = IsCalm-refl h
    after (ok u) =
        kept-IsCalm h _
          (λ P (latest, reading, held). (
            latest,
            All-append (IsReading P) h.subscribers (new_subscriber o h.state.latest ∷ []) reading
                (latest, tt),
            held,
          ))
          refl (λ b. refl)

-- A reader whose frames were readable.
pub set_subscriber-IsCalm :
    (k : ℕ) (s : Subscriber) (h : Hub)
    → ((P : CapturedFrame → Type 0) → IsKept P h → IsReading P s)
    → IsCalm h (set_subscriber k s h)
set_subscriber-IsCalm k s h reads =
    kept-IsCalm h _
      (λ P (latest, reading, held). (
        latest,
        All-set (IsReading P) h.subscribers k s reading (reads P (latest, reading, held)),
        held,
      ))
      refl (λ b. refl)

pub held-IsCalm :
    (fs : List CapturedFrame) (h : Hub)
    → ((P : CapturedFrame → Type 0) → IsKept P h → All P fs)
    → IsCalm h (record h { held = fs })
held-IsCalm fs h holds =
    kept-IsCalm h _
      (λ P (latest, reading, held). (latest, reading, holds P (latest, reading, held))) refl
      (λ b. refl)

pub next-IsCalm :
    (r : FrameReceiver) (s : Subscriber) (h : Hub)
    → get_elem? h.subscribers r.subscriber ≡ some s
    → s.alive ≡ true
    → IsCalm h (next r h).1.1
unfolding next poll
next-IsCalm r s h at alive =
    rw (at, next)
      (elim (Bool-cases (is_over h.state s)) [
        | inl over ↦ rw over (
            set_subscriber-IsCalm r.subscriber s h (λ P (latest, reading, held).
              All-get_elem? (IsReading P) h.subscribers r.subscriber s reading at))
        | inr running ↦ rw running (elim (Option-cases (pop_new h.state.session r.last s.queue).0) [
          | inl nothing ↦ rw nothing (
              set_subscriber-IsCalm r.subscriber
                (record s { queue = (pop_new h.state.session r.last s.queue).1 }) h
                (λ P (latest, reading, held). Reads-All P s.alive _ (rest P reading).1))
          | inr (f, popped) ↦ rw popped (
              kept-IsCalm h _
                (λ P (latest, reading, held). (
                  latest,
                  All-set (IsReading P) h.subscribers r.subscriber
                      (record s { queue = (pop_new h.state.session r.last s.queue).1 }) reading
                      (Reads-All P s.alive _ (rest P reading).1),
                  ((rw popped at (rest P reading).0).0, held),
                ))
                refl (λ b. refl))
        ])
      ])
  where
    rest :
        (P : CapturedFrame → Type 0)
        → All (IsReading P) h.subscribers
        → let (popped, left) = pop_new h.state.session r.last s.queue in
          All P (option_list popped) × All P left
    rest P reading =
        pop_new-All P h.state.session r.last s.queue
          (rw alive at (All-get_elem? (IsReading P) h.subscribers r.subscriber s reading at))

module _ (interval : FrameRate → ℕ) where
  -- The frame that is published has the lease's storage.
  pub finish_publish-IsKept :
      (p : Publication) (timestamp_ns : ℕ) (l : Lease) (h : Hub) (P : CapturedFrame → Type 0)
      → ((f : CapturedFrame) → f.storage ≡ l.storage → P f)
      → IsKept P h
      → IsKept P (finish_publish interval p timestamp_ns l h).1
  unfolding finish_publish make_frame
  finish_publish-IsKept p timestamp_ns l h P mine (latest, reading, held) =
      elim (Bool-cases (accepts h p.session)) [
        | inr refused ↦ rw refused (latest, reading, held)
        | inl taken ↦ rw taken (
          (mine _ refl, tt),
          deliver_all-IsReading P interval _ h.subscribers (mine _ refl) reading,
          held,
        )
      ]

  pub finish_publish-same :
      (p : Publication) (timestamp_ns : ℕ) (l : Lease) (h : Hub)
      → let h' = (finish_publish interval p timestamp_ns l h).1 in
        (h'.next_buffer ≡ h.next_buffer)
        × ((b : ℕ) → h'.heap b ≡ h.heap b)
        × ((b : ℕ) → uses b h' ≡ uses b h)
  unfolding finish_publish note_published
  finish_publish-same p timestamp_ns l h = (ground arith, λ b. ground arith, λ b. ground arith)

  -- A publication that is refused changes nothing.
  pub finish_publish-refused :
      (p : Publication) (timestamp_ns : ℕ) (l : Lease) (h : Hub)
      → (finish_publish interval p timestamp_ns l h).0 ≡ false
      → (finish_publish interval p timestamp_ns l h).1 ≡ h
  unfolding finish_publish
  finish_publish-refused p timestamp_ns l h e = elim (Bool-cases (accepts h p.session)) [
    | inr refused ↦ rw refused refl
    | inl taken ↦ absurd (cc (rw taken at e))
  ]
