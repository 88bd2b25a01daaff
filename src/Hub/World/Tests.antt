-- ===== src/Hub/World/Tests.antt =====
-- One frame that a consumer keeps over a restart of the session, at concrete values.
use camera_rs.Base.{ℕ, ◌≡◌, refl, Bool, true, false, [], ◌∷◌, none, some, get_elem?}
use camera_rs.Format.Layout.{rgb}
use camera_rs.Format.Rate.{FrameRate}
use camera_rs.Hub.State.{CapturedFrame, Storage, bytes_of, accepts, is_unique}
use camera_rs.Hub.Reserve.{
  Lease, reserve, choose_slot, fill_slot, storage_for, commit_storage, note_received, frame_length,
}
use camera_rs.Hub.Reserve.Exclusive.{granted}
use camera_rs.Hub.Publish.{Publication, finish_publish, make_frame, next_sequence}
use camera_rs.Hub.Control.{start, new}
use camera_rs.Hub.World.{World, OpenLease, Step, Reach, here, then_step, opened, with_hub, write}
use camera_rs.Hub.World.Sound.{IsSound}
use camera_rs.Hub.World.Safety.{empty_world, IsReadable, world-IsSound, frame-immutable}

abbrev no_interval : FrameRate → ℕ
no_interval r = 0

abbrev publication : Publication
publication = record {
  session = 1;
  layout = rgb 1 1;
  timestamp = none;
  source_sequence = none;
  captured_at = 5;
  elapsed = 1;
}

abbrev first : Lease
first = record { index = 0; storage = Storage.rgb 0 1 1 }

abbrev second : Lease
second = record { index = 1; storage = Storage.rgb 1 1 1 }

abbrev open_lease : Lease → Bool → OpenLease
open_lease l published = record { lease = l; published = published }

abbrev started : World
started = with_hub (empty_world 3 1) (start 7 (new 3 1)).1

abbrev reserving : World → World
reserving w =
    let (r, h) = reserve 8 1 (rgb 1 1) true w.hub in
    record { hub = h; leases = opened (granted r) w.leases }

abbrev written : World
written = with_hub (reserving started) (write first (1 ∷ 2 ∷ 3 ∷ []) (reserving started).hub)

abbrev published : World
published =
    let (done, h) = finish_publish no_interval publication 9 first written.hub in
    record { hub = h; leases = open_lease first done ∷ [] }

abbrev frame : CapturedFrame
frame = make_frame publication 9 first.storage none

abbrev kept : World
kept = with_hub published (record published.hub { held = frame ∷ published.hub.held })

reach_reserved : Reach no_interval (empty_world 3 1) (reserving started)
reach_reserved = then_step (then_step here (Step.starts 7)) (Step.reserves 8 1 (rgb 1 1) true)

reserved_leases : (reserving started).leases ≡ open_lease first false ∷ []
unfolding reserve start new choose_slot fill_slot storage_for commit_storage note_received
    frame_length accepts rgb
reserved_leases = refl

published_latest : published.hub.state.latest ≡ some frame
unfolding reserve start new choose_slot fill_slot storage_for commit_storage note_received
    frame_length accepts rgb finish_publish
published_latest = refl

reach_kept : Reach no_interval (empty_world 3 1) kept
unfolding reserve start new choose_slot fill_slot storage_for commit_storage note_received
    frame_length accepts rgb is_unique
reach_kept =
    then_step
      (then_step (then_step reach_reserved (Step.writes 0 first (1 ∷ 2 ∷ 3 ∷ []) refl))
        (Step.publishes 0 first publication 9 refl))
      (Step.keeps_latest frame published_latest)

world-IsSound_example : IsSound kept
world-IsSound_example = world-IsSound no_interval 3 1 kept reach_kept

abbrev overwritten : World
overwritten = with_hub (reserving kept) (write second (9 ∷ []) (reserving kept).hub)

kept_leases : get_elem? (reserving kept).leases 0 ≡ some (open_lease second false)
unfolding reserve start new choose_slot fill_slot storage_for commit_storage note_received
    frame_length accepts rgb is_unique finish_publish make_frame next_sequence
kept_leases = refl

abbrev later : Reach no_interval kept overwritten
later =
    then_step (then_step here (Step.reserves 8 1 (rgb 1 1) true))
      (Step.writes 0 second (9 ∷ []) kept_leases)

readable : IsReadable no_interval frame later
unfolding reserve start new choose_slot fill_slot storage_for commit_storage note_received
    frame_length accepts rgb is_unique finish_publish make_frame next_sequence IsReadable
readable = (((0, refl), (0, refl)), (0, refl))

frame-immutable_example : bytes_of overwritten.hub frame ≡ bytes_of kept.hub frame
frame-immutable_example =
    frame-immutable no_interval 3 1 frame kept overwritten reach_kept later readable

frame_bytes : bytes_of kept.hub frame ≡ 1 ∷ 2 ∷ 3 ∷ []
unfolding reserve start new choose_slot fill_slot storage_for commit_storage note_received
    frame_length accepts rgb is_unique finish_publish make_frame next_sequence
frame_bytes = refl
