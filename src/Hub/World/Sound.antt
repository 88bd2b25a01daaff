-- ===== src/Hub/World/Sound.antt =====
-- The well-formedness of the hub of src/frame.rs with its leases, and the operations that make no frame
-- readable.
use camera_rs.Base.{
  ℕ, ◌+◌, ◌≤◌, ◌<◌, ◌≡◌, refl, sym, subst, Bool, false, List, [], ◌∷◌, some, get_elem?, All, ◌==◌,
  Bool-cases, inl, inr, arith,
}
use camera_rs.Hub.State.{Hub, CapturedFrame, buffer_of, names_buffer, retained_frames}
use camera_rs.Hub.Reserve.Exclusive.{IsAllocated}
use camera_rs.Format.Request.{StreamRequest}
use camera_rs.Hub.Reserve.{Lease, note_received, report_resource_pressure}
use camera_rs.Hub.Publish.{record_input_drop, record_conversion_error, wake_recovery}
use camera_rs.Hub.Control.{configure, start, stop, stop_queues, stop_state, is_kept}
use camera_rs.Hub.World.Frames.{IsKept, IsKept-retained, retained-IsKept, clear_queues-IsReading}
use camera_rs.Hub.World.{World, OpenLease, with_hub}
use camera_rs.Hub.World.Count.{count_if, count_if-retain-le, slot_has, lease_has, uses, made}

-- A lease that its backend may still write.
abbrev pub writable : Lease → OpenLease
writable l = record { lease = l; published = false }

-- The frame has another buffer than `b`.
abbrev pub Avoids : ℕ → CapturedFrame → Type 0
Avoids b f = (buffer_of f.storage == b) ≡ false

-- The slots and the open leases that name buffer `b`.
abbrev pub owners : ℕ → World → ℕ
owners b w = uses b w.hub + count_if (lease_has b) w.leases

-- `frames_made`: a readable frame has a buffer that was made. `apart`: a buffer has one owner at most, and
-- none before it is made. `hidden`: no readable frame has the buffer of a lease that can be written.
pub record IsSound (w : World) : Type 0 where
  pub frames_made : IsAllocated w.hub
  pub apart : (b : ℕ) → owners b w ≤ made b w.hub
  pub hidden :
      (k : ℕ) (l : Lease)
      → get_elem? w.leases k ≡ some (writable l)
      → All (Avoids (buffer_of l.storage)) (retained_frames w.hub)

pub unnamed-All : (b : ℕ) (fs : List CapturedFrame) → names_buffer b fs ≡ false → All (Avoids b) fs
unnamed-All b [] e = tt
unnamed-All b (f ∷ fs) e = elim (Bool-cases (buffer_of f.storage == b)) [
  | inl same ↦ absurd (cc (rw same at e))
  | inr other ↦ (other, unnamed-All b fs (rw other at e))
]

-- No new frame is readable, whatever is asked of the frames; the bytes and the buffers are the same.
pub record IsCalm (h h' : Hub) : Type 1 where
  pub frames : (P : CapturedFrame → Type 0) → All P (retained_frames h) → All P (retained_frames h')
  pub buffers : h'.next_buffer ≡ h.next_buffer
  pub contents : (b : ℕ) → h'.heap b ≡ h.heap b

-- An operation after which no frame is new, no buffer has more owners and no lease can be written again.
pub calm-IsSound :
    (w v : World)
    → IsCalm w.hub v.hub
    → ((b : ℕ) → owners b v ≤ owners b w)
    → ((k : ℕ) (l : Lease)
        → get_elem? v.leases k ≡ some (writable l)
        → (j : ℕ) × (get_elem? w.leases j ≡ some (writable l)))
    → IsSound w
    → IsSound v
unfolding IsAllocated
calm-IsSound w v c fewer still s = record {
  frames_made =
      subst (λ n. All (λ f. buffer_of f.storage < n) (retained_frames v.hub)) (sym c.buffers)
        (c.frames (λ f. buffer_of f.storage < w.hub.next_buffer) s.frames_made);
  apart = λ b. omega (arith, fewer b, s.apart b, made-same b);
  hidden =
      λ k l e. let (j, d) = still k l e in c.frames (Avoids (buffer_of l.storage)) (s.hidden j l d);
}
  where
    made-same : (b : ℕ) → made b v.hub ≡ made b w.hub
    made-same b = rw (c.buffers) refl

pub IsCalm-refl : (h : Hub) → IsCalm h h
IsCalm-refl h = record { frames = λ P a. a; buffers = refl; contents = λ b. refl }

-- Calm with the same leases.
pub calm_hub-IsSound :
    (w : World) (h : Hub)
    → IsCalm w.hub h
    → ((b : ℕ) → uses b h ≤ uses b w.hub)
    → IsSound w
    → IsSound (with_hub w h)
calm_hub-IsSound w h c fewer s =
    calm-IsSound w (with_hub w h) c (λ b. omega (arith, fewer b)) (λ k l e. (k, e)) s

-- What is kept of the frames, in the terms of `IsKept`.
pub kept-IsCalm :
    (h h' : Hub)
    → ((P : CapturedFrame → Type 0) → IsKept P h → IsKept P h')
    → h'.next_buffer ≡ h.next_buffer
    → ((b : ℕ) → h'.heap b ≡ h.heap b)
    → IsCalm h h'
kept-IsCalm h h' k buffers contents = record {
  frames = λ P a. IsKept-retained P h' (k P (retained-IsKept P h a));
  buffers = buffers;
  contents = contents;
}

module _ (now : ℕ) (h : Hub) where
  pub start-IsCalm : IsCalm h (start now h).1
  unfolding start
  start-IsCalm =
      kept-IsCalm h _
        (λ P (latest, reading, held). (tt, clear_queues-IsReading P h.subscribers reading, held))
        refl (λ b. refl)

  pub stop_queues-IsCalm : IsCalm h (stop_queues now h)
  unfolding stop_queues
  stop_queues-IsCalm =
      kept-IsCalm h _
        (λ P (latest, reading, held).
          (latest, clear_queues-IsReading P h.subscribers reading, held))
        refl (λ b. refl)

  pub stop_state-IsCalm : IsCalm h (stop_state h)
  unfolding stop_state wake_recovery
  stop_state-IsCalm =
      kept-IsCalm h _ (λ P (latest, reading, held). (tt, reading, held)) refl (λ b. refl)

  pub stop-IsCalm : IsCalm h (stop now h)
  unfolding stop stop_queues stop_state wake_recovery
  stop-IsCalm =
      kept-IsCalm h _
        (λ P (latest, reading, held). (tt, clear_queues-IsReading P h.subscribers reading, held))
        refl (λ b. refl)

  pub record_input_drop-IsCalm : (session : ℕ) → IsCalm h (record_input_drop now session h)
  unfolding record_input_drop note_received report_resource_pressure
  record_input_drop-IsCalm session = record {
    frames = λ P a. subst (All P) (ground arith) a;
    buffers = ground arith;
    contents = λ b. ground arith;
  }

  pub record_conversion_error-IsCalm :
      (session : ℕ) (activity : Bool) → IsCalm h (record_conversion_error now session activity h)
  unfolding record_conversion_error note_received wake_recovery
  record_conversion_error-IsCalm session activity = record {
    frames = λ P a. subst (All P) (ground arith) a;
    buffers = ground arith;
    contents = λ b. ground arith;
  }

pub configure-IsCalm : (r : StreamRequest) (h : Hub) → IsCalm h (configure r h).1
unfolding configure
configure-IsCalm r h = record {
  frames = λ P a. subst (All P) (ground arith) a;
  buffers = ground arith;
  contents = λ b. ground arith;
}

pub configure-uses : (r : StreamRequest) (h : Hub) (b : ℕ) → uses b (configure r h).1 ≤ uses b h
unfolding configure
configure-uses r h b = ground (arith, count_if-retain-le (slot_has b) (is_kept h) h.pool.slots)
