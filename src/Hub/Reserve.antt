-- ===== src/Hub/Reserve.antt =====
-- `frame_length`, `reserve` and the drop of a lease in src/frame.rs. `reserve` hands out the storage of
-- a slot that no frame shares, or grows the pool within its budget.
pub mod Budget
pub mod Quiet
pub mod Exclusive
use camera_rs.Base.{
  ℕ, zero, suc, ◌+◌, ◌*◌, ◌-◌, Bool, true, false, not, ◌&&◌, List, [], ◌∷◌, ◌++◌, Option, none,
  some, length, get_elem?, set, take, replicate, position, max, ltb, leb, ◌==◌, if◌then◌else◌,
  is_some_and, add_u64, checked_add,
}
use camera_rs.Error.{CameraErrorKind, CameraResult, ok, err, new as error}
use camera_rs.Format.Layout.{rgb_bytes}
use camera_rs.Format.Pixel.{FrameLayout, PlaneLayout}
use camera_rs.Hub.State.{
  Hub, Pool, Slot, Storage, FrameMetrics, total_bytes, is_unique, accepts, update,
}

pub record Lease : Type 0 where
  pub index : ℕ
  pub storage : Storage

abbrev pub max_frame_bytes : ℕ
max_frame_bytes = 134217728

-- `filter_map(checked_add).max()`: plane ends that overflow are skipped.
unfoldable pub planes_end : List PlaneLayout → Option ℕ
planes_end [] = none
planes_end (p ∷ ps) = elim (checked_add p.offset p.length) [
  | none ↦ planes_end ps
  | some n ↦ elim (planes_end ps) [ none ↦ some n | some m ↦ some (max n m) ]
]

unfoldable pub frame_length : FrameLayout → Bool → CameraResult ℕ
unfolding error planes_end
frame_length layout rgb =
    elim (if rgb then rgb_bytes layout.width layout.height else planes_end layout.planes) [
      | none ↦ err (error CameraErrorKind.invalid_frame)
      | some n ↦
          if ltb 0 n && leb n max_frame_bytes
          then ok n
          else err (error CameraErrorKind.invalid_frame)
    ]

-- `report_resource_pressure`: sent if a session has set the channel.
unfoldable pub report_resource_pressure : ℕ → Hub → Hub
report_resource_pressure n h = elim h.pressure [
  | none ↦ h
  | some sent ↦ record h { pressure = some (sent ++ (n ∷ [])) }
]

-- A drop for want of storage: the counter and its report.
unfoldable pub pool_drop : Hub → Hub
unfolding report_resource_pressure
pool_drop h =
    let dropped = add_u64 h.pool.metrics.pool_drops 1 in
    let metrics = record h.pool.metrics { pool_drops = dropped } in
    report_resource_pressure dropped (record h { pool = record h.pool { metrics = metrics } })

-- `metrics.received += 1` with the time of the activity.
unfoldable pub note_received : ℕ → Hub → Hub
note_received now h =
    let metrics = record h.pool.metrics { received = add_u64 h.pool.metrics.received 1 } in
    record h { pool = record h.pool { metrics = metrics; last_source_activity = some now } }

-- `slot.data.as_mut().is_some_and(Storage::unique)`.
abbrev pub is_free : Hub → Slot → Bool
is_free h s = is_some_and s.stored (is_unique h)

abbrev pub pop_last : List Slot → List Slot
pop_last [] = []
pop_last (s ∷ []) = []
pop_last (s ∷ t ∷ ss) = s ∷ pop_last (t ∷ ss)

abbrev pub with_slots : List Slot → Hub → Hub
with_slots slots h = record h { pool = record h.pool { slots = slots } }

-- `buffer.resize(length, 0)`.
abbrev pub resize : List ℕ → ℕ → List ℕ
resize xs n = take n xs ++ replicate (n - length xs) 0

-- A new buffer of zeros.
abbrev pub fresh : ℕ → Hub → Hub
fresh n h = record h {
  heap = update h.heap h.next_buffer (replicate n 0);
  next_buffer = suc h.next_buffer;
}

abbrev new_rgb : FrameLayout → ℕ → Hub → Storage × Hub
new_rgb layout n h = (Storage.rgb h.next_buffer layout.height layout.width, fresh n h)

abbrev new_bytes : ℕ → Hub → Storage × Hub
new_bytes n h = (Storage.bytes h.next_buffer n, fresh n h)

-- The storage for a frame of `n` bytes, from what the slot had. (`vec![0; n]` has capacity `n`.)
unfoldable pub storage_for : FrameLayout → Bool → ℕ → Option Storage → Hub → Storage × Hub
storage_for layout true n (some (Storage.rgb b height width)) h =
    if height == layout.height && width == layout.width
    then (Storage.rgb b height width, h)
    else new_rgb layout n h
storage_for layout false n (some (Storage.bytes b cap)) h =
    if ltb cap n
    then new_bytes n h
    else (Storage.bytes b cap, record h { heap = update h.heap b (resize (h.heap b) n) })
storage_for layout true n none h = new_rgb layout n h
storage_for layout true n (some (Storage.bytes b cap)) h = new_rgb layout n h
storage_for layout false n none h = new_bytes n h
storage_for layout false n (some (Storage.rgb b height width)) h = new_bytes n h

abbrev pub allocated : Storage → ℕ → ℕ
allocated (Storage.bytes b cap) n = cap
allocated (Storage.rgb b height width) n = n

abbrev pub leased_slot : ℕ → Slot
leased_slot n = record { stored = none; bytes = n }

-- `data = Some(Storage::Bytes(Arc::new(Vec::new())))` and `bytes = 0`.
abbrev pub emptied_slot : Hub → Slot
emptied_slot h = record { stored = some (Storage.bytes h.next_buffer 0); bytes = 0 }

-- The end of `reserve`, with the storage at hand.
unfoldable pub commit_storage : ℕ → ℕ → ℕ → Storage → Hub → Option Lease × Hub
unfolding pool_drop
commit_storage n available index storage h =
    if ltb available (allocated storage n)
    then (none, pool_drop (with_slots (set h.pool.slots index (emptied_slot h)) (fresh 0 h)))
    else (
      some (record { index = index; storage = storage }),
      with_slots (set h.pool.slots index (leased_slot (allocated storage n))) h,
    )

-- The part of `reserve` from the chosen slot on.
unfoldable pub fill_slot : FrameLayout → Bool → ℕ → ℕ → Slot → Hub → Option Lease × Hub
unfolding pool_drop storage_for commit_storage
fill_slot layout rgb n index slot h =
    let available = h.pool.budget.bytes - (total_bytes h.pool.slots - slot.bytes) in
    if ltb available n
    then (none, pool_drop (if slot.bytes == 0 then with_slots (pop_last h.pool.slots) h else h))
    else (let (storage, h') = storage_for layout rgb n slot.stored h in
        commit_storage n available index storage h')

abbrev pub empty_slot : Slot
empty_slot = record { stored = none; bytes = 0 }

-- The choice of a slot: the first free one, else a new one within the budget.
unfoldable pub choose_slot : FrameLayout → Bool → ℕ → Hub → Option Lease × Hub
unfolding pool_drop fill_slot
choose_slot layout rgb n h = elim (position (is_free h) h.pool.slots) [
  | some index ↦ elim (get_elem? h.pool.slots index) [
    | none ↦ (none, h)
    | some slot ↦ fill_slot layout rgb n index slot h
  ]
  | none ↦
      if ltb (length h.pool.slots) h.pool.budget.buffers
      then fill_slot layout rgb n (length h.pool.slots) empty_slot
          (with_slots (h.pool.slots ++ (empty_slot ∷ [])) h)
      else (none, pool_drop h)
]

-- `FrameHub::reserve` at the time `now`, under the pool's lock.
unfoldable pub reserve : ℕ → ℕ → FrameLayout → Bool → Hub → CameraResult (Option Lease) × Hub
unfolding frame_length note_received choose_slot
reserve now session layout rgb h =
    if accepts h session
    then elim (frame_length layout rgb) [
      | err e ↦ (err e, h)
      | ok n ↦ let (lease, h') = choose_slot layout rgb n (note_received now h) in (ok lease, h')
    ]
    else (ok none, h)

-- `Drop for Lease`: the storage goes back into its slot. (A lease's index is one of the slots, which are
-- never fewer while a lease is open: the source would panic on another.)
unfoldable pub drop_lease : Lease → Hub → Hub
drop_lease l h = elim (get_elem? h.pool.slots l.index) [
  | none ↦ h
  | some slot ↦ with_slots (set h.pool.slots l.index (record slot { stored = some l.storage })) h
]
