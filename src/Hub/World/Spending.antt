-- ===== src/Hub/World/Spending.antt =====
-- `reserve` of src/frame.rs counted by buffers: what a lease and the pool name afterwards is what the pool
-- named before, or newly made.
use camera_rs.Base.{
  ℕ, suc, ◌+◌, ◌-◌, ◌≤◌, ◌≡◌, refl, Bool, true, false, ◌&&◌, List, [], ◌∷◌, ◌++◌, Option, none,
  some, get_elem?, set, length, position, position-some, ltb, ◌==◌, ==_iff, Bool-cases,
  Option-cases, inl, inr, arith,
}
use camera_rs.Error.{CameraResult, ok, err}
use camera_rs.Format.Pixel.{FrameLayout}
use camera_rs.Hub.State.{Hub, Slot, Storage, total_bytes, accepts}
use camera_rs.Hub.Reserve.{
  Lease, frame_length, pool_drop, note_received, storage_for, allocated, commit_storage, fill_slot,
  choose_slot, reserve, is_free, empty_slot, with_slots, emptied_slot, leased_slot, fresh, pop_last,
}
use camera_rs.Hub.Reserve.Exclusive.{granted}
use camera_rs.Hub.Reserve.Budget.{get_elem?-append_last, storage_for-pool}
use camera_rs.Hub.World.Count.{
  one_if, count_if, count_if-set, count_if-append, slot_has, uses, made, stored_has, granted_has,
}

unfoldable pub IsSpent : Hub → Option Lease × Hub → Type 0
IsSpent h (g, h') = (b : ℕ) → uses b h' + granted_has b g + made b h ≤ uses b h + made b h'

-- A new buffer is the next one.
fresh-made : (b n : ℕ) → one_if (n == b) + one_if (ltb b n) ≤ one_if (ltb b (suc n))
fresh-made b n = ground (arith, ==_iff n b)

storage_for-made :
    (l : FrameLayout) (rgb : Bool) (n : ℕ) (o : Option Storage) (h : Hub) (b : ℕ)
    → let (st, h') = storage_for l rgb n o h in
      stored_has b (some st) + made b h ≤ stored_has b o + made b h'
unfolding storage_for
storage_for-made l true n none h b = omega (arith, fresh-made b h.next_buffer)
storage_for-made l false n none h b = omega (arith, fresh-made b h.next_buffer)
storage_for-made l true n (some (Storage.bytes c size)) h b =
    omega (arith, fresh-made b h.next_buffer)
storage_for-made l false n (some (Storage.rgb c hh w)) h b =
    omega (arith, fresh-made b h.next_buffer)
storage_for-made l true n (some (Storage.rgb c hh w)) h b =
    elim (Bool-cases (hh == l.height && w == l.width)) [
      | inl fits ↦ rw (fits, storage_for) (omega arith)
      | inr other ↦ rw (other, storage_for) (omega (arith, fresh-made b h.next_buffer))
    ]
storage_for-made l false n (some (Storage.bytes c size)) h b = elim (Bool-cases (ltb size n)) [
  | inl small ↦ rw (small, storage_for) (omega (arith, fresh-made b h.next_buffer))
  | inr fits ↦ rw (fits, storage_for) (omega arith)
]

pop_last-count :
    (b : ℕ) (ss : List Slot) → count_if (slot_has b) (pop_last ss) ≤ count_if (slot_has b) ss
pop_last-count b [] = omega arith
pop_last-count b (s ∷ []) = omega arith
pop_last-count b (s ∷ t ∷ ss) = omega (arith, pop_last-count b (t ∷ ss))

pool_drop-uses :
    (h : Hub) (b : ℕ) → (uses b (pool_drop h) ≡ uses b h) × (made b (pool_drop h) ≡ made b h)
unfolding pool_drop
pool_drop-uses h b = (ground arith, ground arith)

commit_storage-uses :
    (n available index : ℕ) (st : Storage) (h : Hub) (s : Slot) (b : ℕ)
    → get_elem? h.pool.slots index ≡ some s
    → let (g, h') = commit_storage n available index st h in
      uses b h' + granted_has b g + stored_has b s.stored + made b h
      ≤ uses b h + stored_has b (some st) + made b h'
unfolding commit_storage
commit_storage-uses n available index st h s b e =
    elim (Bool-cases (ltb available (allocated st n))) [
      | inl over ↦ rw over (
          let (u, m) =
            pool_drop-uses (with_slots (set h.pool.slots index (emptied_slot h)) (fresh 0 h)) b in
          omega (
            arith,
            u,
            m,
            fresh-made b h.next_buffer,
            count_if-set (slot_has b) h.pool.slots index s (emptied_slot h) e,
          ))
      | inr fits ↦ rw fits (
          omega (
            arith,
            count_if-set (slot_has b) h.pool.slots index s (leased_slot (allocated st n)) e,
          ))
    ]

fill_slot-IsSpent :
    (l : FrameLayout) (rgb : Bool) (n index : ℕ) (s : Slot) (h : Hub)
    → get_elem? h.pool.slots index ≡ some s
    → IsSpent h (fill_slot l rgb n index s h)
unfolding fill_slot IsSpent
fill_slot-IsSpent l rgb n index s h e b =
    let available : ℕ = h.pool.budget.bytes - (total_bytes h.pool.slots - s.bytes) in
    elim (Bool-cases (ltb available n)) [
      | inl over ↦ rw over (elim (Bool-cases (s.bytes == 0)) [
        | inl unused ↦ rw unused (
            let (u, m) = pool_drop-uses (with_slots (pop_last h.pool.slots) h) b in
            omega (arith, u, m, pop_last-count b h.pool.slots))
        | inr used ↦ rw used (let (u, m) = pool_drop-uses h b in omega (arith, u, m))
      ])
      | inr fits ↦ rw fits (
          let (st, h') = storage_for l rgb n s.stored h in
          let same = storage_for-pool l rgb n s.stored h in
          omega (
            arith,
            storage_for-made l rgb n s.stored h b,
            uses-pool h h' b same,
            commit_storage-uses n available index st h' s b (rw same e),
          ))
    ]
  where
    uses-pool : (h h' : Hub) (b : ℕ) → h'.pool ≡ h.pool → uses b h' ≡ uses b h
    uses-pool h h' b same = rw same refl

choose_slot-IsSpent :
    (l : FrameLayout) (rgb : Bool) (n : ℕ) (h : Hub) → IsSpent h (choose_slot l rgb n h)
unfolding choose_slot IsSpent
choose_slot-IsSpent l rgb n h b = elim (Option-cases (position (is_free h) h.pool.slots)) [
  | inr (i, found) ↦
      rw (found, choose_slot)
        (let (s, at, free) = position-some (is_free h) h.pool.slots i found in
          rw at (fill_slot-IsSpent l rgb n i s h at b))
  | inl nothing ↦
      rw (nothing, choose_slot)
        (elim (Bool-cases (ltb (length h.pool.slots) h.pool.budget.buffers)) [
          | inl room ↦ rw room (
              omega (
                arith,
                count_if-append (slot_has b) h.pool.slots (empty_slot ∷ []),
                fill_slot-IsSpent l rgb n (length h.pool.slots) empty_slot
                    (with_slots (h.pool.slots ++ (empty_slot ∷ [])) h)
                    (get_elem?-append_last h.pool.slots empty_slot) b,
              ))
          | inr full ↦ rw full (let (u, m) = pool_drop-uses h b in omega (arith, u, m))
        ])
]

-- For every buffer: the slots that hold it and the lease that has it, if one is granted, are no more
-- afterwards than the slots before, or one more if the buffer was made by the reservation.
pub reserve-IsSpent :
    (now session : ℕ) (l : FrameLayout) (rgb : Bool) (h : Hub)
    → IsSpent h (let (r, h') = reserve now session l rgb h in (granted r, h'))
unfolding reserve IsSpent
reserve-IsSpent now session l rgb h b = elim (Bool-cases (accepts h session)) [
  | inr refused ↦ rw refused (omega arith)
  | inl taken ↦ rw taken (after (frame_length l rgb))
]
  where
    after :
        (r : CameraResult ℕ)
        → let (r', h') : CameraResult (Option Lease) × Hub = elim r [
          | err e ↦ (err e, h)
          | ok n ↦ let (lease, h') = choose_slot l rgb n (note_received now h) in (ok lease, h')
        ] in
          uses b h' + granted_has b (granted r') + made b h ≤ uses b h + made b h'
    after (err e) = omega arith
    after (ok n) = choose_slot-IsSpent l rgb n (note_received now h) b
