-- ===== src/Hub/Publish/Sequence.antt =====
-- The sequence numbers of src/frame.rs: what `finish_publish` answers, and the order of every queue.
use camera_rs.Base.{
  ℕ, suc, ◌<◌, ◌≡◌, refl, sym, subst, ◌∙◌, ◌⊎◌, ◌≢◌, Bool, true, false, List, [], ◌∷◌, Option, none,
  some, is_some_and, add_u64, u64_mod, All, Bool-cases, inl, inr, arith,
}
use camera_rs.Format.Rate.{FrameRate}
use camera_rs.Hub.State.{Hub, CapturedFrame, Subscriber, accepts}
use camera_rs.Hub.Delivery.{offer, deliver, deliver_all}
use camera_rs.Hub.Reserve.{Lease}
use camera_rs.Hub.Publish.{Publication, make_frame, next_sequence, finish_publish}
use camera_rs.Hub.Receive.Order.{IsRun, offer-IsRun, offer-flags}

-- A living reader's queue: a run if the hub's list names it, else empty.
unfoldable pub QueueClaim : Bool → Bool → ℕ → ℕ → List CapturedFrame → Type 0
QueueClaim false linked session bound queue = Unit
QueueClaim true true session bound queue = IsRun session bound queue
QueueClaim true false session bound queue = queue ≡ []

unfoldable pub IsReader : ℕ → ℕ → Subscriber → Type 0
IsReader session bound s = QueueClaim s.alive s.linked session bound s.queue

abbrev pub last_sequence : Option CapturedFrame → ℕ
last_sequence none = 0
last_sequence (some f) = f.key.sequence

abbrev pub IsOf : ℕ → Option CapturedFrame → Type 0
IsOf session none = Unit
IsOf session (some f) = f.key.session ≡ session

-- The latest frame is of the current session, and so is every queued one, in order and none later.
pub record IsOrdered (h : Hub) : Type 0 where
  pub current : IsOf h.state.session h.state.latest
  pub queues : All (IsReader h.state.session (last_sequence h.state.latest)) h.subscribers

QueueClaim-run :
    (alive linked : Bool) (session bound : ℕ) (queue : List CapturedFrame)
    → alive ≡ true
    → linked ≡ true
    → IsRun session bound queue
    → QueueClaim alive linked session bound queue
unfolding QueueClaim
QueueClaim-run alive linked session bound queue a l r =
    subst (λ b. QueueClaim b linked session bound queue) (sym a)
      (subst (λ b. QueueClaim true b session bound queue) (sym l) r)

next_sequence_lem : (o : Option CapturedFrame) → next_sequence o ≡ add_u64 (last_sequence o) 1
unfolding next_sequence
next_sequence_lem none = refl
next_sequence_lem (some f) = refl

small_sum : (n : ℕ) → suc n < u64_mod → add_u64 n 1 ≡ suc n
small_sum n small = omega arith

module _ (interval : FrameRate → ℕ) where
  pub deliver-IsReader :
      (f : CapturedFrame) (s : Subscriber) (session bound : ℕ)
      → f.key.session ≡ session
      → f.key.sequence ≡ suc bound
      → IsReader session bound s
      → IsReader session (suc bound) (deliver interval f s)
  unfolding IsReader QueueClaim deliver IsRun
  deliver-IsReader f s session bound here next r = elim (Bool-cases s.linked) [
    | inr gone ↦ rw gone (unlinked s.alive (rw gone at r))
    | inl linked ↦ rw linked (elim (Bool-cases s.alive) [
      | inr dead ↦ rw dead tt
      | inl alive ↦ rw alive (elim (Bool-cases (is_some_and s.owner (λ stopped. stopped))) [
        | inl stopped ↦ rw stopped refl
        | inr running ↦ rw running (
            let s' : Subscriber = record s { linked = true } in
            QueueClaim-run _ _ session (suc bound) (offer interval f s').queue
              ((offer-flags interval f s').0 ∙ alive) (offer-flags interval f s').1
              (offer-IsRun interval f s' session bound here next (rw (alive, linked) at r)))
      ])
    ])
  ]
    where
      unlinked :
          (alive : Bool)
          → QueueClaim alive false session bound s.queue
          → QueueClaim alive false session (suc bound) s.queue
      unlinked true q = q
      unlinked false q = q

  deliver_all-IsReader :
      (f : CapturedFrame) (ss : List Subscriber) (session bound : ℕ)
      → f.key.session ≡ session
      → f.key.sequence ≡ suc bound
      → All (IsReader session bound) ss
      → All (IsReader session (suc bound)) (deliver_all interval f ss)
  unfolding deliver_all
  deliver_all-IsReader f [] session bound here next a = tt
  deliver_all-IsReader f (s ∷ ss) session bound here next a = (
    deliver-IsReader f s session bound here next a.0,
    deliver_all-IsReader f ss session bound here next a.1,
  )

  -- A publication is accepted exactly in the active session that it names. Then the latest frame is
  -- the new one, with the lease's storage, that session, and the number after the last one, 1 at first;
  -- a refused publication changes nothing.
  pub finish_publish_lem :
      (p : Publication) (timestamp_ns : ℕ) (lease : Lease) (h : Hub)
      → let (published, h') = finish_publish interval p timestamp_ns lease h in
        ((published ≡ true)
          × (h.state.active ≡ true)
          × (h.state.session ≡ p.session)
          × (f : CapturedFrame) × (h'.state.latest ≡ some f)
          × (f.storage ≡ lease.storage)
          × (f.key.session ≡ h.state.session)
          × (f.key.sequence ≡ add_u64 (last_sequence h.state.latest) 1))
        ⊎ ((published ≡ false)
            × ((h.state.active ≡ false) ⊎ (h.state.session ≢ p.session))
            × (h' ≡ h))
  unfolding finish_publish accepts make_frame next_sequence
  finish_publish_lem p timestamp_ns lease h = elim (Bool-cases (accepts h p.session)) [
    | inr refused ↦ rw (refused, finish_publish) (inr (refl, refusal refused, refl))
    | inl taken ↦
        let session_of : h.state.session ≡ p.session = ground (arith, taken) in
        rw (taken, finish_publish)
          (inl (
            refl,
            ground (arith, taken),
            session_of,
            make_frame p timestamp_ns lease.storage h.state.latest,
            refl,
            refl,
            sym session_of,
            next_sequence_lem h.state.latest,
          ))
  ]
    where
      refusal :
          accepts h p.session ≡ false → (h.state.active ≡ false) ⊎ (h.state.session ≢ p.session)
      refusal e = elim (Bool-cases h.state.active) [
        | inr off ↦ inl off
        | inl on ↦ inr (λ same. absurd (ground (arith, e, on, same)))
      ]

  -- A publication keeps the order, while the sequence number does not wrap.
  pub finish_publish-IsOrdered :
      (p : Publication) (timestamp_ns : ℕ) (lease : Lease) (h : Hub)
      → suc (last_sequence h.state.latest) < u64_mod
      → IsOrdered h
      → IsOrdered (finish_publish interval p timestamp_ns lease h).1
  unfolding finish_publish accepts make_frame
  finish_publish-IsOrdered p timestamp_ns lease h small o =
      elim (Bool-cases (accepts h p.session)) [
        | inr refused ↦ rw (refused, finish_publish) o
        | inl taken ↦
            rw (taken, finish_publish)
              (record {
                current = sym (session_of taken);
                queues =
                    subst
                      (λ n. All (IsReader h.state.session n) (
                        deliver_all interval
                          (make_frame p timestamp_ns lease.storage h.state.latest) h.subscribers))
                      (sym next)
                      (deliver_all-IsReader (make_frame p timestamp_ns lease.storage h.state.latest)
                        h.subscribers h.state.session (last_sequence h.state.latest)
                        (sym (session_of taken)) next o.queues);
              })
      ]
    where
      session_of : accepts h p.session ≡ true → h.state.session ≡ p.session
      session_of e = ground arith

      next : next_sequence h.state.latest ≡ suc (last_sequence h.state.latest)
      next = next_sequence_lem h.state.latest ∙ small_sum (last_sequence h.state.latest) small
