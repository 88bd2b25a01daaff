-- ===== src/Hub/Publish/Immutable.antt =====
-- `publish` of src/frame.rs changes the bytes of no frame that somebody can read.
use mathlib.Core.Option.{some-injective}
use camera_rs.Base.{
  ℕ, zero, suc, ap, ◌<◌, ◌≡◌, refl, subst, ◌∙◌, Bool, true, false, List, [], ◌∷◌, Option, none,
  some, get_elem?, ◌==◌, ==_iff, Bool-cases, inl, inr, arith, All-get_elem?,
}
use camera_rs.Error.{CameraResult, ok, err}
use camera_rs.Format.Pixel.{FrameLayout, SourceTimestamp}
use camera_rs.Format.Rate.{FrameRate}
use camera_rs.Hub.State.{
  Hub, CapturedFrame, retained_frames, names_buffer, buffer_of, bytes_of, update,
}
use camera_rs.Hub.Reserve.{Lease, reserve, drop_lease}
use camera_rs.Hub.Reserve.Quiet.{IsQuiet}
use camera_rs.Hub.Reserve.Exclusive.{IsAllocated, IsPrivate, granted, reserve-IsPrivate}
use camera_rs.Hub.Publish.{
  Clock, Convert, Publication, record_conversion_error, finish_publish, publish_lease, publish,
  wake_recovery,
}

pub drop_lease-heap : (l : Lease) (h : Hub) (b : ℕ) → (drop_lease l h).heap b ≡ h.heap b
unfolding drop_lease
drop_lease-heap l h b = ground arith

record_conversion_error-heap :
    (now session : ℕ) (activity : Bool) (h : Hub) (b : ℕ)
    → (record_conversion_error now session activity h).heap b ≡ h.heap b
unfolding record_conversion_error wake_recovery
record_conversion_error-heap now session activity h b = ground arith

pub names_buffer-get_elem? :
    (fs : List CapturedFrame) (i : ℕ) (f : CapturedFrame)
    → get_elem? fs i ≡ some f
    → names_buffer (buffer_of f.storage) fs ≡ true
names_buffer-get_elem? [] i f e = absurd (cc e)
names_buffer-get_elem? (g ∷ gs) zero f e =
    let same : g ≡ f = some-injective g f e in
    let b : buffer_of g.storage ≡ buffer_of f.storage = ap (λ x. buffer_of x.storage) same in
    ground (arith, (==_iff (buffer_of g.storage) (buffer_of f.storage)).1 b)
names_buffer-get_elem? (g ∷ gs) (suc i) f e = ground (arith, names_buffer-get_elem? gs i f e)

apart :
    (b c : ℕ) (fs : List CapturedFrame)
    → names_buffer b fs ≡ true
    → names_buffer c fs ≡ false
    → (b == c) ≡ false
apart b c fs named unnamed = elim (Bool-cases (b == c)) [
  | inr other ↦ other
  | inl same ↦
      absurd (cc (unnamed, subst (λ x. names_buffer x fs ≡ true) ((==_iff b c).0 same) named))
]

lease-unnamed :
    (h : Hub) (l : Lease)
    → IsPrivate h (some l)
    → names_buffer (buffer_of l.storage) (retained_frames h) ≡ false
unfolding IsPrivate
lease-unnamed h l q = q

module _ (interval : FrameRate → ℕ) where
  pub finish_publish-heap :
      (p : Publication) (timestamp_ns : ℕ) (l : Lease) (h : Hub) (b : ℕ)
      → (finish_publish interval p timestamp_ns l h).1.heap b ≡ h.heap b
  unfolding finish_publish
  finish_publish-heap p timestamp_ns l h b = ground arith

  -- The conversion and what follows it write the lease's buffer alone.
  publish_lease-heap :
      (clock : Clock) (p : Publication) (convert : Convert) (l : Lease) (h : Hub) (b : ℕ)
      → (b == buffer_of l.storage) ≡ false
      → (publish_lease interval clock p convert l h).1.heap b ≡ h.heap b
  unfolding publish_lease
  publish_lease-heap clock p convert l h b other = after (convert (h.heap (buffer_of l.storage))).0
    where
      filled : Hub
      filled = record h {
        heap = update h.heap (buffer_of l.storage) (convert (h.heap (buffer_of l.storage))).1;
      }

      kept : filled.heap b ≡ h.heap b
      kept = rw other refl

      after :
          (result : CameraResult (Unit {0}))
          → (elim result as (λ x. CameraResult Bool × Hub) [
            | err e ↦
                (err e, drop_lease l (record_conversion_error clock.now p.session false filled))
            | ok u ↦
                let (published, h') = finish_publish interval p clock.timestamp_ns l filled in
                (ok published, drop_lease l h')
          ]).1.heap
              b
            ≡ h.heap b
      after (err e) =
          drop_lease-heap l (record_conversion_error clock.now p.session false filled) b
          ∙ record_conversion_error-heap clock.now p.session false filled b
          ∙ kept
      after (ok u) =
          drop_lease-heap l (finish_publish interval p clock.timestamp_ns l filled).1 b
          ∙ finish_publish-heap p clock.timestamp_ns l filled b
          ∙ kept

  -- Whatever a publication meets (a stopped session, an exhausted pool, a conversion that fails after it
  -- has written), every frame that could be read before it has the bytes it had, if the frames' buffers
  -- are in the heap.
  pub publish-immutable :
      (clock : Clock) (session : ℕ) (layout : FrameLayout) (timestamp : Option SourceTimestamp)
      (source_sequence : Option ℕ) (rgb : Bool) (convert : Convert) (h : Hub) (i : ℕ)
      (f : CapturedFrame)
      → IsAllocated h
      → get_elem? (retained_frames h) i ≡ some f
      → bytes_of (publish interval clock session layout timestamp source_sequence rgb convert h).1 f
        ≡ bytes_of h f
  unfolding publish IsAllocated
  publish-immutable clock session layout timestamp source_sequence rgb convert h i f a at =
      after (reserve clock.now session layout rgb h).0 reserved.1
    where
      b : ℕ
      b = buffer_of f.storage

      reserved :
          IsQuiet h (reserve clock.now session layout rgb h).1
          × IsPrivate h (granted (reserve clock.now session layout rgb h).0)
      reserved = reserve-IsPrivate clock.now session layout rgb h a

      h' : Hub
      h' = (reserve clock.now session layout rgb h).1

      named : names_buffer b (retained_frames h) ≡ true
      named = names_buffer-get_elem? (retained_frames h) i f at

      kept : h'.heap b ≡ h.heap b
      kept =
          reserved.0.contents b
            (All-get_elem? (λ g. buffer_of g.storage < h.next_buffer) (retained_frames h) i f a at)
            named

      publication : Publication
      publication = record {
        session = session;
        layout = layout;
        timestamp = timestamp;
        source_sequence = source_sequence;
        captured_at = clock.now;
        elapsed = clock.elapsed;
      }

      after :
          (r : CameraResult (Option Lease))
          → IsPrivate h (granted r)
          → (elim r as (λ x. CameraResult Bool × Hub) [
            | err e ↦ (err e, h')
            | ok none ↦ (ok false, h')
            | ok (some lease) ↦ publish_lease interval clock publication convert lease h'
          ]).1.heap
              b
            ≡ h.heap b
      after (err e) q = kept
      after (ok none) q = kept
      after (ok (some lease)) q =
          publish_lease-heap clock publication convert lease h' b
            (apart b (buffer_of lease.storage) (retained_frames h) named (lease-unnamed h lease q))
          ∙ kept
