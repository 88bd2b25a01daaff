-- ===== src/Hub/World/Keeping.antt =====
-- Every step of Hub/World keeps the well-formedness of the hub and its leases, and the bytes of the frames
-- that can be read.
use camera_rs.Base.{
  ℕ, zero, suc, ap, ◌+◌, ◌<◌, ◌≡◌, refl, sym, subst, ◌∙◌, Bool, false, List, Option, none, some,
  get_elem?, set, get_elem?-set_other, get_elem?-set_self, get_elem?-lt, All, All-map,
  All-get_elem?, ◌==◌, ==_iff, Bool-cases, inl, inr, arith,
}
use camera_rs.Format.Pixel.{FrameLayout}
use camera_rs.Format.Rate.{FrameRate}
use camera_rs.Hub.State.{Hub, CapturedFrame, buffer_of, bytes_of, retained_frames}
use camera_rs.Hub.Reserve.{Lease, reserve}
use camera_rs.Hub.Reserve.Quiet.{IsQuiet}
use camera_rs.Hub.Reserve.Exclusive.{IsAllocated, IsPrivate, granted, reserve-IsPrivate}
use camera_rs.Hub.Publish.{Publication, finish_publish}
use camera_rs.Hub.Publish.Immutable.{names_buffer-get_elem?}
use camera_rs.Hub.World.{World, OpenLease, Step, opened}
use camera_rs.Hub.World.Frames.{retained-IsKept, IsKept-retained}
use camera_rs.Hub.World.Count.{
  count_if, count_if-set, count_if-two-le, one_if-le-count_if, lease_has, uses, granted_has,
}
use camera_rs.Hub.World.Spending.{IsSpent, reserve-IsSpent}
use camera_rs.Hub.World.Sound.{IsSound, Avoids, writable, unnamed-All, calm-IsSound}
use camera_rs.Hub.World.Steps.{finish_publish-IsKept, finish_publish-same, finish_publish-refused}
use camera_rs.Hub.World.Effect.{Effect, Step-Effect}

opened-count :
    (b : ℕ) (g : Option Lease) (ls : List OpenLease)
    → count_if (lease_has b) (opened g ls) ≡ granted_has b g + count_if (lease_has b) ls
opened-count b none ls = omega arith
opened-count b (some l) ls = refl

lease_of : Option OpenLease → Lease → Lease
lease_of none d = d
lease_of (some o) d = o.lease

writable-injective : (l l' : Lease) → some (writable l) ≡ some (writable l') → l ≡ l'
unfolding lease_of
writable-injective l l' e = ap (λ o. lease_of o l) e

reserved-IsSound :
    (now session : ℕ) (layout : FrameLayout) (rgb : Bool) (w : World)
    → IsSound w
    → IsSound (
        let (r, h) = reserve now session layout rgb w.hub in
        record { hub = h; leases = opened (granted r) w.leases })
unfolding IsAllocated IsSpent IsPrivate
reserved-IsSound now session layout rgb w s = record {
  frames_made = subst (All (λ f. buffer_of f.storage < h'.next_buffer)) (sym quiet.frames) (
      All-map (λ f. buffer_of f.storage < w.hub.next_buffer)
        (λ f. buffer_of f.storage < h'.next_buffer) (retained_frames w.hub)
        (λ f lt. omega (arith, lt, quiet.buffers)) s.frames_made);
  apart = λ b.
      omega (
        arith,
        s.apart b,
        reserve-IsSpent now session layout rgb w.hub b,
        opened-count b g w.leases,
      );
  hidden = λ k l e.
      subst (All (Avoids (buffer_of l.storage))) (sym quiet.frames) (hides g private k l e);
}
  where
    h' : Hub
    h' = (reserve now session layout rgb w.hub).1

    g : Option Lease
    g = granted (reserve now session layout rgb w.hub).0

    quiet : IsQuiet w.hub h'
    quiet = (reserve-IsPrivate now session layout rgb w.hub s.frames_made).0

    private : IsPrivate w.hub g
    private = (reserve-IsPrivate now session layout rgb w.hub s.frames_made).1

    hides :
        (g : Option Lease)
        → IsPrivate w.hub g
        → (k : ℕ) (l : Lease) → get_elem? (opened g w.leases) k ≡ some (writable l)
        → All (Avoids (buffer_of l.storage)) (retained_frames w.hub)
    hides none p k l e = s.hidden k l e
    hides (some l') p zero l e =
        unnamed-All (buffer_of l.storage) (retained_frames w.hub)
          (subst (λ x. IsPrivate w.hub (some x)) (writable-injective l' l e) p)
    hides (some l') p (suc k) l e = s.hidden k l e

-- A buffer with an owner was made.
owned-made :
    (w : World) (k : ℕ) (l : Lease)
    → IsSound w
    → get_elem? w.leases k ≡ some (writable l)
    → buffer_of l.storage < w.hub.next_buffer
owned-made w k l s e = ground (
  arith,
  s.apart (buffer_of l.storage),
  (==_iff (buffer_of l.storage) (buffer_of l.storage)).1 refl,
  one_if-le-count_if (lease_has (buffer_of l.storage)) w.leases k (writable l) e,
)

-- Two open leases have two buffers.
leases-apart :
    (w : World) (i j : ℕ) (a b : OpenLease)
    → IsSound w
    → get_elem? w.leases i ≡ some a
    → get_elem? w.leases j ≡ some b
    → (i ≡ j → ⊥)
    → (buffer_of a.lease.storage == buffer_of b.lease.storage) ≡ false
leases-apart w i j a b s e d other =
    let m = buffer_of b.lease.storage in
    elim (Bool-cases (buffer_of a.lease.storage == m)) [
      | inr apart ↦ apart
      | inl same ↦ ground (
        arith,
        s.apart m,
        same,
        (==_iff m m).1 refl,
        count_if-two-le (lease_has m) w.leases i j a b e d other,
      )
    ]

module _ (interval : FrameRate → ℕ) where
  published-IsSound :
      (k : ℕ) (l : Lease) (p : Publication) (timestamp_ns : ℕ) (w : World)
      → get_elem? w.leases k ≡ some (writable l)
      → IsSound w
      → IsSound (
          let (done, h) = finish_publish interval p timestamp_ns l w.hub in
          record { hub = h; leases = set w.leases k (record { lease = l; published = done }) })
  unfolding IsAllocated lease_of
  published-IsSound k l p timestamp_ns w e s = record {
    frames_made =
        subst (λ n. All (λ f. buffer_of f.storage < n) (retained_frames h')) (sym buffers)
          (frames (λ f. buffer_of f.storage < w.hub.next_buffer)
            (λ f same.
              subst (λ st. buffer_of st < w.hub.next_buffer) (sym same) (owned-made w k l s e))
            s.frames_made);
    apart = λ b. ground (
      arith,
      s.apart b,
      uses-same b,
      count_if-set (lease_has b) w.leases k (writable l) (record { lease = l; published = done }) e,
      buffers,
    );
    hidden = λ j l' d. hides j l' d;
  }
    where
      done : Bool
      done = (finish_publish interval p timestamp_ns l w.hub).0

      h' : Hub
      h' = (finish_publish interval p timestamp_ns l w.hub).1

      buffers : h'.next_buffer ≡ w.hub.next_buffer
      buffers = (finish_publish-same interval p timestamp_ns l w.hub).0

      uses-same : (b : ℕ) → uses b h' ≡ uses b w.hub
      uses-same = (finish_publish-same interval p timestamp_ns l w.hub).2

      frames :
          (P : CapturedFrame → Type 0)
          → ((f : CapturedFrame) → f.storage ≡ l.storage → P f)
          → All P (retained_frames w.hub)
          → All P (retained_frames h')
      frames P mine a =
          IsKept-retained P h' (
            finish_publish-IsKept interval p timestamp_ns l w.hub P mine
              (retained-IsKept P w.hub a))

      other :
          (j : ℕ) (l' : Lease)
          → (k ≡ j → ⊥)
          → get_elem? w.leases j ≡ some (writable l')
          → All (Avoids (buffer_of l'.storage)) (retained_frames h')
      other j l' apart d =
          frames (Avoids (buffer_of l'.storage))
            (λ f same.
              subst (λ st. (buffer_of st == buffer_of l'.storage) ≡ false) (sym same)
                (leases-apart w k j (writable l) (writable l') s e d apart))
            (s.hidden j l' d)

      is_published : Option OpenLease → Bool
      is_published none = false
      is_published (some o) = o.published

      hides :
          (j : ℕ) (l' : Lease)
          → get_elem? (set w.leases k (record { lease = l; published = done })) j
            ≡ some (writable l')
          → All (Avoids (buffer_of l'.storage)) (retained_frames h')
      hides j l' d = elim (Bool-cases (k == j)) [
        | inr apart ↦
            let distinct : k ≡ j → ⊥ = λ same. absurd (cc (apart, (==_iff k j).1 same)) in
            other j l' distinct (sym (get_elem?-set_other w.leases k j _ distinct) ∙ d)
        | inl same ↦
            let at : k ≡ j = (==_iff k j).0 same in
            let mine : some (record { lease = l; published = done }) ≡ some (writable l') =
              sym (
                get_elem?-set_self w.leases k (record { lease = l; published = done })
                  (get_elem?-lt w.leases k (writable l) e))
              ∙ subst
                  (λ i.
                    get_elem? (set w.leases k (record { lease = l; published = done })) i
                    ≡ some (writable l'))
                  (sym at) d in
            let unchanged : h' ≡ w.hub =
              finish_publish-refused interval p timestamp_ns l w.hub (ap is_published mine) in
            let whose : l ≡ l' = ap (λ o. lease_of o l) mine in
            subst (λ x. All (Avoids (buffer_of x.storage)) (retained_frames h')) whose
              (subst (λ h. All (Avoids (buffer_of l.storage)) (retained_frames h)) (sym unchanged)
                (s.hidden k l e))
      ]

  Effect-IsSound : (w : World) {v : World} → Effect interval w v → IsSound w → IsSound v
  unfolding IsAllocated
  Effect-IsSound w {v} (Effect.calm c fewer still) s = calm-IsSound w v c fewer still s
  Effect-IsSound w (Effect.reserved now session layout rgb) s =
      reserved-IsSound now session layout rgb w s
  Effect-IsSound w (Effect.wrote k l v e) s = record {
    frames_made = s.frames_made;
    apart = s.apart;
    hidden = s.hidden;
  }
  Effect-IsSound w (Effect.published k l p timestamp_ns e) s =
      published-IsSound k l p timestamp_ns w e s

  pub Step-IsSound : {w v : World} → Step interval w v → IsSound w → IsSound v
  Step-IsSound {w} st s = Effect-IsSound w (Step-Effect interval st) s

  Effect-contents :
      (w : World) {v : World} (i : ℕ) (f : CapturedFrame)
      → Effect interval w v
      → IsSound w
      → get_elem? (retained_frames w.hub) i ≡ some f
      → bytes_of v.hub f ≡ bytes_of w.hub f
  unfolding IsAllocated
  Effect-contents w i f (Effect.calm c fewer still) s e = c.contents (buffer_of f.storage)
  Effect-contents w i f (Effect.reserved now session layout rgb) s e =
      (reserve-IsPrivate now session layout rgb w.hub s.frames_made).0.contents
        (buffer_of f.storage)
        (All-get_elem? (λ g. buffer_of g.storage < w.hub.next_buffer) (retained_frames w.hub) i f
          s.frames_made e)
        (names_buffer-get_elem? (retained_frames w.hub) i f e)
  Effect-contents w i f (Effect.wrote k l v d) s e =
      rw
        (All-get_elem? (Avoids (buffer_of l.storage)) (retained_frames w.hub) i f (s.hidden k l d)
          e)
        refl
  Effect-contents w i f (Effect.published k l p timestamp_ns d) s e =
      (finish_publish-same interval p timestamp_ns l w.hub).1 (buffer_of f.storage)

  pub Step-contents :
      {w v : World} (i : ℕ) (f : CapturedFrame)
      → Step interval w v
      → IsSound w
      → get_elem? (retained_frames w.hub) i ≡ some f
      → bytes_of v.hub f ≡ bytes_of w.hub f
  Step-contents {w} i f st s e = Effect-contents w i f (Step-Effect interval st) s e
