-- ===== src/Hub/Delivery/Queue.antt =====
-- The queue of a subscriber keeps the newest or the oldest frames, never more than its capacity.
use camera_rs.Base.{
  Bool-cases, inl, inr, leb, leb→le, subst, sym, ℕ, zero, suc, ◌-◌, ◌≤◌, ◌<◌, ◌≡◌, refl, ap, List,
  [], ◌∷◌, ◌++◌, length, take, drop, length-append, arith, some,
}
use camera_rs.Format.Rate.{FrameRate}
use camera_rs.Format.Request.{DeliveryPolicy, OverflowPolicy}
use camera_rs.Hub.State.{CapturedFrame, Subscriber}
use camera_rs.Hub.Delivery.{enqueue, offer, deliver, pop_front}

-- What a subscription may hold: one frame, or its capacity.
abbrev pub limit : DeliveryPolicy → ℕ
limit DeliveryPolicy.latest = 1
limit (DeliveryPolicy.buffered capacity overflow) = capacity

-- The frames that a subscription keeps of all that it has seen.
abbrev pub kept : DeliveryPolicy → List CapturedFrame → List CapturedFrame
kept DeliveryPolicy.latest seen = drop (length seen - 1) seen
kept (DeliveryPolicy.buffered capacity OverflowPolicy.drop_oldest) seen =
    drop (length seen - capacity) seen
kept (DeliveryPolicy.buffered capacity OverflowPolicy.drop_newest) seen = take capacity seen

pub length-pop_front : (q : List CapturedFrame) → length (pop_front q) ≡ length q - 1
length-pop_front [] = omega arith
length-pop_front (x ∷ xs) = omega arith

drop-snoc : (q : List CapturedFrame) (f : CapturedFrame) → drop (length q) (q ++ (f ∷ [])) ≡ f ∷ []
drop-snoc [] f = refl
drop-snoc (x ∷ q) f = drop-snoc q f

take-snoc_full : (q : List CapturedFrame) (f : CapturedFrame) → take (length q) (q ++ (f ∷ [])) ≡ q
take-snoc_full [] f = refl
take-snoc_full (x ∷ q) f = ap (λ t. x ∷ t) (take-snoc_full q f)

take_all : (n : ℕ) (q : List CapturedFrame) → length q ≤ n → take n q ≡ q
take_all zero [] h = refl
take_all zero (x ∷ q) h = absurd (omega arith)
take_all (suc n) [] h = refl
take_all (suc n) (x ∷ q) h = ap (λ t. x ∷ t) (take_all n q (omega arith))

drop_front :
    (q : List CapturedFrame) (f : CapturedFrame)
    → 0 < length q
    → drop 1 (q ++ (f ∷ [])) ≡ pop_front q ++ (f ∷ [])
drop_front [] f h = absurd (omega arith)
drop_front (x ∷ q) f h = refl

-- One delivery turns a queue within its limit into what the policy keeps of that queue and the new
-- frame: the newest frame, the newest `capacity` frames, or the oldest `capacity` frames.
pub enqueue-eq-kept :
    (d : DeliveryPolicy) (f : CapturedFrame) (s : Subscriber)
    → 0 < limit d
    → length s.queue ≤ limit d
    → (enqueue d f s).queue ≡ kept d (s.queue ++ (f ∷ []))
unfolding enqueue
enqueue-eq-kept DeliveryPolicy.latest f s pos h =
    let all : length (s.queue ++ (f ∷ [])) - 1 ≡ length s.queue =
      omega (arith, length-append s.queue (f ∷ [])) in
    rw (all, drop-snoc s.queue f)
enqueue-eq-kept (DeliveryPolicy.buffered capacity OverflowPolicy.drop_oldest) f s pos h =
    elim (Bool-cases (leb capacity (length s.queue))) [
      | inl full ↦
          let one : length (s.queue ++ (f ∷ [])) - capacity ≡ 1 =
            omega (arith, length-append s.queue (f ∷ []), leb→le _ _ full) in
          rw (full, one, drop_front s.queue f (omega (arith, leb→le _ _ full)))
      | inr space ↦
          let fits : length (s.queue ++ (f ∷ [])) - capacity ≡ 0 =
            ground (arith, length-append s.queue (f ∷ [])) in
          rw (space, fits)
    ]
enqueue-eq-kept (DeliveryPolicy.buffered capacity OverflowPolicy.drop_newest) f s pos h =
    elim (Bool-cases (leb capacity (length s.queue))) [
      | inl full ↦
          let exact : capacity ≡ length s.queue = omega (arith, leb→le _ _ full) in
          rw full (
            subst (λ c. s.queue ≡ take c (s.queue ++ (f ∷ []))) (sym exact)
              (sym (take-snoc_full s.queue f)))
      | inr space ↦
          rw space (sym (take_all capacity _ (ground (arith, length-append s.queue (f ∷ [])))))
    ]

enqueue-bounded :
    (d : DeliveryPolicy) (f : CapturedFrame) (s : Subscriber)
    → 0 < limit d
    → length s.queue ≤ limit d
    → length (enqueue d f s).queue ≤ limit d
unfolding enqueue
enqueue-bounded DeliveryPolicy.latest f s pos h = omega arith
enqueue-bounded (DeliveryPolicy.buffered capacity overflow) f s pos h = ground (
  arith,
  length-append s.queue (f ∷ []),
  length-append (pop_front s.queue) (f ∷ []),
  length-pop_front s.queue,
)

delivery-enqueue :
    (d : DeliveryPolicy) (f : CapturedFrame) (s : Subscriber)
    → (enqueue d f s).delivery ≡ s.delivery
unfolding enqueue
delivery-enqueue d f s = ground arith

-- No delivery lets a queue grow beyond the limit of its subscription.
pub deliver-bounded :
    (interval : FrameRate → ℕ) (f : CapturedFrame) (s : Subscriber)
    → 0 < limit s.delivery
    → length s.queue ≤ limit s.delivery
    → (length (deliver interval f s).queue ≤ limit (deliver interval f s).delivery)
      × ((deliver interval f s).delivery ≡ s.delivery)
unfolding deliver offer
deliver-bounded interval f s pos h = ground (
  arith,
  enqueue-bounded s.delivery f s pos h,
  enqueue-bounded s.delivery f (record s { last_enqueued = some f.captured_at }) pos h,
  delivery-enqueue s.delivery f s,
  delivery-enqueue s.delivery f (record s { last_enqueued = some f.captured_at }),
)
