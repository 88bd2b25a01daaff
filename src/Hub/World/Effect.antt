-- ===== src/Hub/World/Effect.antt =====
-- The steps of Hub/World by their effect: those that make no frame readable, and the three that a backend
-- takes with its leases.
use camera_rs.Base.{
  ℕ, ◌≤◌, ◌≡◌, refl, ◌∙◌, Bool, List, ◌∷◌, some, get_elem?, set, remove_at, get_elem?-remove_at,
  All-get_elem?, All-remove_at, arith,
}
use camera_rs.Format.Pixel.{FrameLayout}
use camera_rs.Format.Rate.{FrameRate}
use camera_rs.Hub.State.{Hub}
use camera_rs.Hub.Reserve.{Lease, reserve, note_received, report_resource_pressure}
use camera_rs.Hub.Reserve.Exclusive.{granted}
use camera_rs.Hub.Publish.{
  Publication, finish_publish, record_conversion_error, record_input_drop, wake_recovery,
}
use camera_rs.Hub.Receive.{subscribe_with, with_stop_flag, next}
use camera_rs.Hub.Control.{
  start, stop, stop_queues, stop_state, begin_recovery, end_recovery, enable_recovery,
  disable_recovery,
}
use camera_rs.Hub.World.{World, Step, with_hub, opened, write, drop_receiver}
use camera_rs.Hub.World.Frames.{with_stop_flag-IsReading, drop_receiver-IsReading, IsReading}
use camera_rs.Hub.World.Count.{lease_has, count_if-remove_at, uses}
use camera_rs.Hub.World.Sound.{
  IsCalm, kept-IsCalm, owners, writable, start-IsCalm, stop-IsCalm, stop_queues-IsCalm,
  stop_state-IsCalm, configure-IsCalm, configure-uses, record_conversion_error-IsCalm,
  record_input_drop-IsCalm,
}
use camera_rs.Hub.World.Steps.{
  drop_lease-IsCalm, drop_lease-uses, subscribe_with-IsCalm, set_subscriber-IsCalm, next-IsCalm,
  held-IsCalm,
}

module _ (interval : FrameRate → ℕ) where
  pub data Effect (w : World) : World → Type 1 where
    calm :
        {v : World}
        → IsCalm w.hub v.hub
        → ((b : ℕ) → owners b v ≤ owners b w)
        → ((k : ℕ) (l : Lease)
            → get_elem? v.leases k ≡ some (writable l)
            → (j : ℕ) × (get_elem? w.leases j ≡ some (writable l)))
        → Effect w v
    reserved :
        (now session : ℕ) (layout : FrameLayout) (rgb : Bool)
        → Effect w (
            let (r, h) = reserve now session layout rgb w.hub in
            record { hub = h; leases = opened (granted r) w.leases })
    wrote :
        (k : ℕ) (l : Lease) (v : List ℕ)
        → get_elem? w.leases k ≡ some (writable l)
        → Effect w (with_hub w (write l v w.hub))
    published :
        (k : ℕ) (l : Lease) (p : Publication) (timestamp_ns : ℕ)
        → get_elem? w.leases k ≡ some (writable l)
        → Effect w (
            let (done, h) = finish_publish interval p timestamp_ns l w.hub in
            record { hub = h; leases = set w.leases k (record { lease = l; published = done }) })

  -- A calm change of the hub alone.
  calm_hub :
      (w : World) (h : Hub)
      → IsCalm w.hub h
      → ((b : ℕ) → uses b h ≤ uses b w.hub)
      → Effect w (with_hub w h)
  calm_hub w h c fewer = Effect.calm c (λ b. omega (arith, fewer b)) (λ k l e. (k, e))

  pub Step-Effect : {w v : World} → Step interval w v → Effect w v
  unfolding start stop stop_queues stop_state wake_recovery begin_recovery end_recovery
      enable_recovery disable_recovery record_conversion_error record_input_drop note_received
      report_resource_pressure subscribe_with next
  Step-Effect (Step.reserves now session layout rgb) = Effect.reserved now session layout rgb
  Step-Effect (Step.writes k l v e) = Effect.wrote k l v e
  Step-Effect (Step.publishes k l p timestamp_ns e) = Effect.published k l p timestamp_ns e
  Step-Effect {w} (Step.releases k o e) =
      Effect.calm (drop_lease-IsCalm o.lease w.hub)
        (λ b.
          omega (
            arith,
            drop_lease-uses o.lease w.hub b,
            count_if-remove_at (lease_has b) w.leases k o e,
          ))
        (λ i l d. let (j, same) = get_elem?-remove_at w.leases k i in (j, same ∙ d))
  Step-Effect {w} (Step.configures r) =
      calm_hub w _ (configure-IsCalm r w.hub) (configure-uses r w.hub)
  Step-Effect {w} (Step.starts now) = calm_hub w _ (start-IsCalm now w.hub) (λ b. ground arith)
  Step-Effect {w} (Step.stops now) = calm_hub w _ (stop-IsCalm now w.hub) (λ b. ground arith)
  Step-Effect {w} (Step.stops_queues now) =
      calm_hub w _ (stop_queues-IsCalm now w.hub) (λ b. ground arith)
  Step-Effect {w} Step.stops_state = calm_hub w _ (stop_state-IsCalm 0 w.hub) (λ b. ground arith)
  Step-Effect {w} Step.begins_recovery =
      calm_hub w (begin_recovery w.hub)
        (kept-IsCalm w.hub (begin_recovery w.hub) (λ P k. k) refl (λ b. refl)) (λ b. omega arith)
  Step-Effect {w} Step.ends_recovery =
      calm_hub w (end_recovery w.hub)
        (kept-IsCalm w.hub (end_recovery w.hub) (λ P k. k) refl (λ b. refl)) (λ b. omega arith)
  Step-Effect {w} Step.enables_recovery =
      calm_hub w (enable_recovery w.hub)
        (kept-IsCalm w.hub (enable_recovery w.hub) (λ P k. k) refl (λ b. refl)) (λ b. omega arith)
  Step-Effect {w} Step.disables_recovery =
      calm_hub w (disable_recovery w.hub)
        (kept-IsCalm w.hub (disable_recovery w.hub) (λ P k. k) refl (λ b. refl)) (λ b. omega arith)
  Step-Effect {w} (Step.fails now session activity) =
      calm_hub w _ (record_conversion_error-IsCalm now w.hub session activity) (λ b. ground arith)
  Step-Effect {w} (Step.drops_input now session) =
      calm_hub w _ (record_input_drop-IsCalm now w.hub session) (λ b. ground arith)
  Step-Effect {w} (Step.subscribes o) =
      calm_hub w _ (subscribe_with-IsCalm o w.hub) (λ b. ground arith)
  Step-Effect {w} (Step.flags k s flag e) =
      calm_hub w _
        (set_subscriber-IsCalm k (with_stop_flag flag s) w.hub (λ P (latest, reading, held).
          with_stop_flag-IsReading P flag s
            (All-get_elem? (IsReading P) w.hub.subscribers k s reading e)))
        (λ b. omega arith)
  Step-Effect {w} (Step.leaves k s e) =
      calm_hub w _
        (set_subscriber-IsCalm k (drop_receiver s) w.hub (λ P kept. drop_receiver-IsReading P s))
        (λ b. omega arith)
  Step-Effect {w} (Step.receives r s e alive) =
      calm_hub w _ (next-IsCalm r s w.hub e alive) (λ b. ground arith)
  Step-Effect {w} (Step.keeps_latest f e) =
      calm_hub w _
        (held-IsCalm (f ∷ w.hub.held) w.hub
          (λ P (latest, reading, held). ((rw e at latest).0, held)))
        (λ b. omega arith)
  Step-Effect {w} (Step.clones k f e) =
      calm_hub w _
        (held-IsCalm (f ∷ w.hub.held) w.hub
          (λ P (latest, reading, held). (All-get_elem? P w.hub.held k f held e, held)))
        (λ b. omega arith)
  Step-Effect {w} (Step.forgets k) =
      calm_hub w _
        (held-IsCalm (remove_at w.hub.held k) w.hub
          (λ P (latest, reading, held). All-remove_at P w.hub.held k held))
        (λ b. omega arith)
