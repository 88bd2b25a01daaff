-- ===== src/Hub/Reserve/Budget.antt =====
-- The pool never outgrows its memory budget.
use camera_rs.Base.{
  ℕ, zero, suc, ◌+◌, ◌-◌, ◌≤◌, ◌≡◌, refl, ap, List, [], ◌∷◌, ◌++◌, length, length-append,
  length-set, get_elem?, set, Option, none, some, true, false, Bool, ltb, ltb→lt, ◌==◌, Bool-cases,
  Option-cases, inl, inr, arith, position, subst, sym,
}
use camera_rs.Error.{CameraResult, ok, err}
use camera_rs.Format.Pixel.{FrameLayout}
use camera_rs.Hub.State.{Hub, Pool, Slot, Storage, total_bytes, accepts}
use camera_rs.Hub.Reserve.{
  Lease, frame_length, pool_drop, note_received, pop_last, storage_for, allocated, commit_storage,
  fill_slot, choose_slot, reserve, leased_slot, is_free, empty_slot, with_slots, emptied_slot,
  fresh,
}

-- No more slots than buffers, and no more bytes than the budget.
pub record IsWithinBudget (p : Pool) : Type 0 where
  pub slots_bounded : length p.slots ≤ p.budget.buffers
  pub bytes_bounded : total_bytes p.slots ≤ p.budget.bytes

pub total_bytes-set :
    (ss : List Slot) (i : ℕ) (s t : Slot)
    → get_elem? ss i ≡ some s
    → total_bytes (set ss i t) + s.bytes ≡ total_bytes ss + t.bytes
total_bytes-set [] i s t e = cc
total_bytes-set (x ∷ ss) zero s t e =
    let same : x.bytes ≡ s.bytes = ap (λ o. bytes_or o) e in omega arith
  where
    bytes_or : Option Slot → ℕ
    bytes_or none = 0
    bytes_or (some r) = r.bytes
total_bytes-set (x ∷ ss) (suc i) s t e = omega (arith, total_bytes-set ss i s t e)

pub bytes-le-total :
    (ss : List Slot) (i : ℕ) (s : Slot) → get_elem? ss i ≡ some s → s.bytes ≤ total_bytes ss
bytes-le-total ss i s e = omega (arith, total_bytes-set ss i s (record s { bytes = 0 }) e)

total_bytes-append :
    (ss : List Slot) (t : Slot) → total_bytes (ss ++ (t ∷ [])) ≡ total_bytes ss + t.bytes
total_bytes-append [] t = omega arith
total_bytes-append (x ∷ ss) t = omega (arith, total_bytes-append ss t)

pub get_elem?-append_last :
    (ss : List Slot) (t : Slot) → get_elem? (ss ++ (t ∷ [])) (length ss) ≡ some t
get_elem?-append_last [] t = refl
get_elem?-append_last (x ∷ ss) t = get_elem?-append_last ss t

pop_last_le :
    (ss : List Slot)
    → (length (pop_last ss) ≤ length ss) × (total_bytes (pop_last ss) ≤ total_bytes ss)
pop_last_le [] = (omega arith, omega arith)
pop_last_le (s ∷ []) = (omega arith, omega arith)
pop_last_le (s ∷ t ∷ ss) = let rest = pop_last_le (t ∷ ss) in (omega arith, omega arith)

-- A counter, a report and a storage leave slots and budget alone.
pub pool_drop-slots :
    (h : Hub)
    → ((pool_drop h).pool.slots ≡ h.pool.slots) × ((pool_drop h).pool.budget ≡ h.pool.budget)
unfolding pool_drop
pool_drop-slots h = (ground arith, ground arith)

pub storage_for-pool :
    (l : FrameLayout) (rgb : Bool) (n : ℕ) (o : Option Storage) (h : Hub)
    → (storage_for l rgb n o h).1.pool ≡ h.pool
unfolding storage_for
storage_for-pool l true n (some (Storage.rgb b hh w)) h = ground arith
storage_for-pool l true n (some (Storage.bytes b cap)) h = refl
storage_for-pool l true n none h = refl
storage_for-pool l false n (some (Storage.rgb b hh w)) h = refl
storage_for-pool l false n (some (Storage.bytes b cap)) h = ground arith
storage_for-pool l false n none h = refl

pool_drop-IsWithinBudget : (h : Hub) → IsWithinBudget h.pool → IsWithinBudget (pool_drop h).pool
unfolding pool_drop
pool_drop-IsWithinBudget h w = record {
  slots_bounded = ground (arith, w.slots_bounded);
  bytes_bounded = ground (arith, w.bytes_bounded);
}

-- The slot `s` may grow to `available` bytes.
pub record HasRoom (p : Pool) (available index : ℕ) (s : Slot) : Type 0 where
  pub at_index : get_elem? p.slots index ≡ some s
  pub few : length p.slots ≤ p.budget.buffers
  pub room : available + (total_bytes p.slots - s.bytes) ≤ p.budget.bytes

commit_storage-IsWithinBudget :
    (n available index : ℕ) (storage : Storage) (h : Hub) (s : Slot)
    → HasRoom h.pool available index s
    → IsWithinBudget (commit_storage n available index storage h).1.pool
unfolding commit_storage
commit_storage-IsWithinBudget n available index storage h s q =
    let size = λ (t : Slot). total_bytes-set h.pool.slots index s t q.at_index in
    let count = λ (t : Slot). length-set h.pool.slots index t in
    let inside = bytes-le-total h.pool.slots index s q.at_index in
    let few = q.few in
    let room = q.room in
    elim (Bool-cases (ltb available (allocated storage n))) [
      | inl over ↦ rw over (
          pool_drop-IsWithinBudget
            (with_slots (set h.pool.slots index (emptied_slot h)) (fresh 0 h))
            (record {
              slots_bounded = omega (arith, count (emptied_slot h));
              bytes_bounded = omega (arith, size (emptied_slot h));
            }))
      | inr fits ↦ rw fits (record {
        slots_bounded = omega (arith, count (leased_slot (allocated storage n)));
        bytes_bounded = ground (arith, size (leased_slot (allocated storage n)));
      })
    ]

fill_slot-IsWithinBudget :
    (l : FrameLayout) (rgb : Bool) (n index : ℕ) (s : Slot) (h : Hub)
    → get_elem? h.pool.slots index ≡ some s
    → IsWithinBudget h.pool
    → IsWithinBudget (fill_slot l rgb n index s h).1.pool
unfolding fill_slot
fill_slot-IsWithinBudget l rgb n index s h e w =
    let available : ℕ = h.pool.budget.bytes - (total_bytes h.pool.slots - s.bytes) in
    let inside = bytes-le-total h.pool.slots index s e in
    let shorter = pop_last_le h.pool.slots in
    let few = w.slots_bounded in
    let room = w.bytes_bounded in
    elim (Bool-cases (ltb available n)) [
      | inl over ↦ rw over (elim (Bool-cases (s.bytes == 0)) [
        | inl unused ↦ rw unused (
            pool_drop-IsWithinBudget (with_slots (pop_last h.pool.slots) h)
              (record { slots_bounded = omega arith; bytes_bounded = omega arith }))
        | inr used ↦ rw used (pool_drop-IsWithinBudget h w)
      ])
      | inr fits ↦ rw fits (
          commit_storage-IsWithinBudget n available index (storage_for l rgb n s.stored h).0
            (storage_for l rgb n s.stored h).1 s
            (subst (λ p. HasRoom p available index s) (sym (storage_for-pool l rgb n s.stored h))
              (record { at_index = e; few = few; room = omega arith })))
    ]

-- A free slot, or a new one where the buffers allow it.
choose_slot-IsWithinBudget :
    (l : FrameLayout) (rgb : Bool) (n : ℕ) (h : Hub)
    → IsWithinBudget h.pool
    → IsWithinBudget (choose_slot l rgb n h).1.pool
unfolding choose_slot
choose_slot-IsWithinBudget l rgb n h w = elim (Option-cases (position (is_free h) h.pool.slots)) [
  | inr (i, found) ↦
      rw (found, choose_slot)
        (elim (Option-cases (get_elem? h.pool.slots i)) [
          | inr (s, e) ↦ rw e (fill_slot-IsWithinBudget l rgb n i s h e w)
          | inl missing ↦ rw missing w
        ])
  | inl nothing ↦
      rw (nothing, choose_slot)
        (elim (Bool-cases (ltb (length h.pool.slots) h.pool.budget.buffers)) [
          | inl room ↦ rw room (
              fill_slot-IsWithinBudget l rgb n (length h.pool.slots) empty_slot
                (with_slots (h.pool.slots ++ (empty_slot ∷ [])) h)
                (get_elem?-append_last h.pool.slots empty_slot)
                (record {
                  slots_bounded =
                      ground (arith, length-append h.pool.slots (empty_slot ∷ []), ltb→lt _ _ room);
                  bytes_bounded =
                      omega (arith, total_bytes-append h.pool.slots empty_slot, w.bytes_bounded);
                }))
          | inr full ↦ rw full (pool_drop-IsWithinBudget h w)
        ])
]

-- Whatever a reservation meets (a stopped session, a frame of no size, an exhausted pool or budget, a
-- slot taken again or grown), the pool has no more slots than the budget's buffers and no more bytes
-- than the budget's bytes afterwards, if it had before.
pub reserve-IsWithinBudget :
    (now session : ℕ) (l : FrameLayout) (rgb : Bool) (h : Hub)
    → IsWithinBudget h.pool
    → IsWithinBudget (reserve now session l rgb h).1.pool
unfolding reserve
reserve-IsWithinBudget now session l rgb h w = elim (Bool-cases (accepts h session)) [
  | inr refused ↦ rw refused w
  | inl taken ↦ rw taken (after (frame_length l rgb))
]
  where
    after :
        (r : CameraResult ℕ)
        → IsWithinBudget
            (elim r as (λ x. CameraResult (Option Lease) × Hub) [
              | err e ↦ (err e, h)
              | ok n ↦ let (lease, h') = choose_slot l rgb n (note_received now h) in (ok lease, h')
            ]).1.pool
    after (err e) = w
    after (ok n) =
        choose_slot-IsWithinBudget l rgb n (note_received now h)
          (record { slots_bounded = w.slots_bounded; bytes_bounded = w.bytes_bounded })
