-- ===== src/Hub/Reserve/Quiet.antt =====
-- `reserve` of src/frame.rs leaves the readable frames and their bytes alone.
use camera_rs.Base.{
  ℕ, ◌≤◌, ◌<◌, ◌≡◌, refl, sym, subst, ◌∙◌, List, [], ◌∷◌, ◌++◌, length, set, Option, none, some,
  true, false, Bool, is_none_or, ◌&&◌, ◌-◌, if◌then◌else◌, ltb, ◌==◌, ==_iff, Bool-cases,
  Option-cases, inl, inr, arith, position, position-some,
}
use camera_rs.Error.{CameraResult, ok, err}
use camera_rs.Format.Pixel.{FrameLayout}
use camera_rs.Hub.State.{
  Hub, Slot, Storage, retained_frames, names_buffer, is_unique, accepts, total_bytes, update,
}
use camera_rs.Hub.Reserve.{
  Lease, frame_length, pool_drop, note_received, storage_for, allocated, commit_storage, fill_slot,
  choose_slot, reserve, is_free, empty_slot, with_slots, emptied_slot, fresh, pop_last, resize,
}

-- The same frames stay readable, and each reads as before.
pub record IsQuiet (h h' : Hub) : Type 0 where
  pub frames : retained_frames h' ≡ retained_frames h
  pub buffers : h.next_buffer ≤ h'.next_buffer
  pub contents :
      (b : ℕ) → b < h.next_buffer → names_buffer b (retained_frames h) ≡ true → h'.heap b ≡ h.heap b

pub IsQuiet-refl : (h : Hub) → IsQuiet h h
IsQuiet-refl h = record { frames = refl; buffers = omega arith; contents = λ b lt named. refl }

pub IsQuiet-trans : (a b c : Hub) → IsQuiet a b → IsQuiet b c → IsQuiet a c
IsQuiet-trans a b c p q = record {
  frames = q.frames ∙ p.frames;
  buffers = omega (arith, p.buffers, q.buffers);
  contents = λ i lt named.
      q.contents i (omega (arith, lt, p.buffers))
        (subst (λ fs. names_buffer i fs ≡ true) (sym p.frames) named)
      ∙ p.contents i lt named;
}

pool_drop-IsQuiet : (h : Hub) → IsQuiet h (pool_drop h)
unfolding pool_drop
pool_drop-IsQuiet h = record {
  frames = ground arith;
  buffers = ground arith;
  contents = λ b lt named. ground arith;
}

fresh-IsQuiet : (n : ℕ) (h : Hub) → IsQuiet h (fresh n h)
fresh-IsQuiet n h = record {
  frames = refl;
  buffers = omega arith;
  contents = λ b lt named. ground (arith, ==_iff b h.next_buffer);
}

drop_with-IsQuiet : (slots : List Slot) (h : Hub) → IsQuiet h (pool_drop (with_slots slots h))
drop_with-IsQuiet slots h =
    let q = pool_drop-IsQuiet (with_slots slots h) in
    record { frames = q.frames; buffers = q.buffers; contents = q.contents }

with_slots-IsQuiet :
    (slots : List Slot) (h h' : Hub) → IsQuiet (with_slots slots h) h' → IsQuiet h h'
with_slots-IsQuiet slots h h' q = record {
  frames = q.frames;
  buffers = q.buffers;
  contents = q.contents;
}

overwrite-IsQuiet :
    (b : ℕ) (v : List ℕ) (h : Hub)
    → names_buffer b (retained_frames h) ≡ false
    → IsQuiet h (record h { heap = update h.heap b v })
overwrite-IsQuiet b v h free = record {
  frames = refl;
  buffers = omega arith;
  contents = λ i lt named. apart i named;
}
  where
    apart :
        (i : ℕ)
        → names_buffer i (retained_frames h) ≡ true
        → (if i == b then v else h.heap i) ≡ h.heap i
    apart i named = elim (Bool-cases (i == b)) [
      | inl same ↦ absurd (
          cc (
            named,
            free,
            subst (λ j. names_buffer j (retained_frames h) ≡ names_buffer b (retained_frames h))
                (sym ((==_iff i b).0 same)) refl,
          ))
      | inr other ↦ rw other refl
    ]

-- What a slot gives up is named by no frame.
storage_for-IsQuiet :
    (l : FrameLayout) (rgb : Bool) (n : ℕ) (o : Option Storage) (h : Hub)
    → is_none_or o (is_unique h) ≡ true
    → IsQuiet h (storage_for l rgb n o h).1
unfolding storage_for is_unique
storage_for-IsQuiet l true n none h u = fresh-IsQuiet n h
storage_for-IsQuiet l false n none h u = fresh-IsQuiet n h
storage_for-IsQuiet l true n (some (Storage.bytes b size)) h u = fresh-IsQuiet n h
storage_for-IsQuiet l false n (some (Storage.rgb b hh w)) h u = fresh-IsQuiet n h
storage_for-IsQuiet l true n (some (Storage.rgb b hh w)) h u =
    elim (Bool-cases (hh == l.height && w == l.width)) [
      | inl fits ↦ rw (fits, storage_for) (IsQuiet-refl h)
      | inr other ↦ rw (other, storage_for) (fresh-IsQuiet n h)
    ]
storage_for-IsQuiet l false n (some (Storage.bytes b size)) h u = elim (Bool-cases (ltb size n)) [
  | inl small ↦ rw (small, storage_for) (fresh-IsQuiet n h)
  | inr fits ↦
      rw (fits, storage_for) (overwrite-IsQuiet b (resize (h.heap b) n) h (ground (arith, u)))
]

commit_storage-IsQuiet :
    (n available index : ℕ) (storage : Storage) (h : Hub)
    → IsQuiet h (commit_storage n available index storage h).1
unfolding commit_storage
commit_storage-IsQuiet n available index storage h =
    elim (Bool-cases (ltb available (allocated storage n))) [
      | inl over ↦ rw over (
          IsQuiet-trans h (fresh 0 h) _ (fresh-IsQuiet 0 h)
            (drop_with-IsQuiet (set h.pool.slots index (emptied_slot h)) (fresh 0 h)))
      | inr fits ↦
          rw fits (record { frames = refl; buffers = omega arith; contents = λ b lt named. refl })
    ]

fill_slot-IsQuiet :
    (l : FrameLayout) (rgb : Bool) (n index : ℕ) (s : Slot) (h : Hub)
    → is_none_or s.stored (is_unique h) ≡ true
    → IsQuiet h (fill_slot l rgb n index s h).1
unfolding fill_slot
fill_slot-IsQuiet l rgb n index s h u =
    let available : ℕ = h.pool.budget.bytes - (total_bytes h.pool.slots - s.bytes) in
    elim (Bool-cases (ltb available n)) [
      | inl over ↦ rw over (elim (Bool-cases (s.bytes == 0)) [
        | inl unused ↦ rw unused (drop_with-IsQuiet (pop_last h.pool.slots) h)
        | inr used ↦ rw used (pool_drop-IsQuiet h)
      ])
      | inr fits ↦ rw fits (
          IsQuiet-trans h (storage_for l rgb n s.stored h).1 _
            (storage_for-IsQuiet l rgb n s.stored h u)
            (commit_storage-IsQuiet n available index (storage_for l rgb n s.stored h).0
              (storage_for l rgb n s.stored h).1))
    ]

pub free_slot : (h : Hub) (s : Slot) → is_free h s ≡ true → is_none_or s.stored (is_unique h) ≡ true
free_slot h s e = elim (Option-cases s.stored) [
  | inl nothing ↦ rw nothing refl
  | inr (x, some_x) ↦ rw some_x (rw some_x at e)
]

-- A free slot, and one that holds nothing, may be filled.
choose_slot-IsQuiet :
    (l : FrameLayout) (rgb : Bool) (n : ℕ) (h : Hub) → IsQuiet h (choose_slot l rgb n h).1
unfolding choose_slot
choose_slot-IsQuiet l rgb n h = elim (Option-cases (position (is_free h) h.pool.slots)) [
  | inr (i, found) ↦
      rw (found, choose_slot)
        (let (s, at, free) = position-some (is_free h) h.pool.slots i found in
          rw at (fill_slot-IsQuiet l rgb n i s h (free_slot h s free)))
  | inl nothing ↦
      rw (nothing, choose_slot)
        (elim (Bool-cases (ltb (length h.pool.slots) h.pool.budget.buffers)) [
          | inl room ↦ rw room (
              with_slots-IsQuiet (h.pool.slots ++ (empty_slot ∷ [])) h _ (
                fill_slot-IsQuiet l rgb n (length h.pool.slots) empty_slot
                  (with_slots (h.pool.slots ++ (empty_slot ∷ [])) h) refl))
          | inr full ↦ rw full (pool_drop-IsQuiet h)
        ])
]

pub reserve-IsQuiet :
    (now session : ℕ) (l : FrameLayout) (rgb : Bool) (h : Hub)
    → IsQuiet h (reserve now session l rgb h).1
unfolding reserve
reserve-IsQuiet now session l rgb h = elim (Bool-cases (accepts h session)) [
  | inr refused ↦ rw refused (IsQuiet-refl h)
  | inl taken ↦ rw taken (after (frame_length l rgb))
]
  where
    after :
        (r : CameraResult ℕ)
        → IsQuiet h
            (elim r as (λ x. CameraResult (Option Lease) × Hub) [
              | err e ↦ (err e, h)
              | ok n ↦ let (lease, h') = choose_slot l rgb n (note_received now h) in (ok lease, h')
            ]).1
    after (err e) = IsQuiet-refl h
    after (ok n) =
        let q = choose_slot-IsQuiet l rgb n (note_received now h) in
        record { frames = q.frames; buffers = q.buffers; contents = q.contents }
