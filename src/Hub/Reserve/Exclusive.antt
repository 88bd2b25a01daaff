-- ===== src/Hub/Reserve/Exclusive.antt =====
-- The storage that `reserve` of src/frame.rs hands out is shared with no frame.
use camera_rs.Base.{
  ℕ, ◌<◌, ◌≡◌, refl, List, [], ◌∷◌, ◌++◌, length, Option, none, some, true, false, Bool, is_none_or,
  ◌-◌, ltb, Bool-cases, Option-cases, inl, inr, arith, position, position-some, All,
}
use camera_rs.Error.{CameraResult, ok, err}
use camera_rs.Format.Pixel.{FrameLayout}
use camera_rs.Hub.State.{
  Hub, Slot, Storage, CapturedFrame, buffer_of, retained_frames, names_buffer, is_unique, accepts,
  total_bytes,
}
use camera_rs.Hub.Reserve.{
  Lease, frame_length, note_received, storage_for, allocated, commit_storage, fill_slot,
  choose_slot, reserve, is_free, empty_slot, with_slots,
}
use camera_rs.Hub.Reserve.Quiet.{IsQuiet, free_slot, reserve-IsQuiet}

-- Every frame that can be read has its buffer in the heap.
unfoldable pub IsAllocated : Hub → Type 0
IsAllocated h = All (λ f. buffer_of f.storage < h.next_buffer) (retained_frames h)

-- The lease in the answer of `reserve`.
abbrev pub granted : CameraResult (Option Lease) → Option Lease
granted (ok lease) = lease
granted (err e) = none

-- The lease, if there is one, has a buffer that no readable frame of `h` names.
unfoldable pub IsPrivate : Hub → Option Lease → Type 0
IsPrivate h none = Unit
IsPrivate h (some lease) = names_buffer (buffer_of lease.storage) (retained_frames h) ≡ false

unnamed :
    (n : ℕ) (fs : List CapturedFrame)
    → All (λ f. buffer_of f.storage < n) fs
    → names_buffer n fs ≡ false
unnamed n [] a = refl
unnamed n (f ∷ fs) a = ground (arith, unnamed n fs a.1, a.0)

storage_for-private :
    (l : FrameLayout) (rgb : Bool) (n : ℕ) (o : Option Storage) (h : Hub)
    → is_none_or o (is_unique h) ≡ true
    → IsAllocated h
    → names_buffer (buffer_of (storage_for l rgb n o h).0) (retained_frames h) ≡ false
unfolding storage_for is_unique IsAllocated
storage_for-private l true n none h u a = unnamed h.next_buffer (retained_frames h) a
storage_for-private l false n none h u a = unnamed h.next_buffer (retained_frames h) a
storage_for-private l true n (some (Storage.bytes b size)) h u a =
    unnamed h.next_buffer (retained_frames h) a
storage_for-private l false n (some (Storage.rgb b hh w)) h u a =
    unnamed h.next_buffer (retained_frames h) a
storage_for-private l true n (some (Storage.rgb b hh w)) h u a =
    ground (arith, unnamed h.next_buffer (retained_frames h) a)
storage_for-private l false n (some (Storage.bytes b size)) h u a =
    ground (arith, unnamed h.next_buffer (retained_frames h) a)

fill_slot-IsPrivate :
    (l : FrameLayout) (rgb : Bool) (n index : ℕ) (s : Slot) (h : Hub)
    → is_none_or s.stored (is_unique h) ≡ true
    → IsAllocated h
    → IsPrivate h (fill_slot l rgb n index s h).0
unfolding fill_slot commit_storage IsPrivate
fill_slot-IsPrivate l rgb n index s h u a =
    let available : ℕ = h.pool.budget.bytes - (total_bytes h.pool.slots - s.bytes) in
    let (storage, after) = storage_for l rgb n s.stored h in
    elim (Bool-cases (ltb available n)) [
      | inl over ↦ rw over tt
      | inr fits ↦ rw fits (elim (Bool-cases (ltb available (allocated storage n))) [
        | inl over ↦ rw over tt
        | inr room ↦ rw room (storage_for-private l rgb n s.stored h u a)
      ])
    ]

choose_slot-IsPrivate :
    (l : FrameLayout) (rgb : Bool) (n : ℕ) (h : Hub)
    → IsAllocated h
    → IsPrivate h (choose_slot l rgb n h).0
unfolding choose_slot IsPrivate IsAllocated
choose_slot-IsPrivate l rgb n h a = elim (Option-cases (position (is_free h) h.pool.slots)) [
  | inr (i, found) ↦
      rw (found, choose_slot)
        (let (s, at, free) = position-some (is_free h) h.pool.slots i found in
          rw at (fill_slot-IsPrivate l rgb n i s h (free_slot h s free) a))
  | inl nothing ↦
      rw (nothing, choose_slot)
        (elim (Bool-cases (ltb (length h.pool.slots) h.pool.budget.buffers)) [
          | inl room ↦ rw room (
              fill_slot-IsPrivate l rgb n (length h.pool.slots) empty_slot
                (with_slots (h.pool.slots ++ (empty_slot ∷ [])) h) refl a)
          | inr full ↦ rw full tt
        ])
]

-- A reservation that grants a lease gives it a buffer that no readable frame (the latest, a queued one,
-- one that a consumer keeps) names, if the frames' buffers are in the heap; and whatever it answers, the
-- same frames stay readable and the bytes of each are as before.
pub reserve-IsPrivate :
    (now session : ℕ) (l : FrameLayout) (rgb : Bool) (h : Hub)
    → IsAllocated h
    → IsQuiet h (reserve now session l rgb h).1
      × IsPrivate h (granted (reserve now session l rgb h).0)
unfolding reserve IsAllocated IsPrivate
reserve-IsPrivate now session l rgb h a = (
  reserve-IsQuiet now session l rgb h,
  elim (Bool-cases (accepts h session)) [
    | inr refused ↦ rw refused tt
    | inl taken ↦ rw taken (after (frame_length l rgb))
  ],
)
  where
    after :
        (r : CameraResult ℕ)
        → IsPrivate h (
            granted
              (elim r as (λ x. CameraResult (Option Lease) × Hub) [
                | err e ↦ (err e, h)
                | ok n ↦
                    let (lease, h') = choose_slot l rgb n (note_received now h) in (ok lease, h')
              ]).0)
    after (err e) = tt
    after (ok n) = choose_slot-IsPrivate l rgb n (note_received now h) a
