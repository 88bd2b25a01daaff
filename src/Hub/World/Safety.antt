-- ===== src/Hub/World/Safety.antt =====
-- What holds after any sequence of steps of backends, readers, consumers and the session on one hub of
-- src/frame.rs.
use camera_rs.Base.{ℕ, ◌≡◌, refl, ◌∙◌, [], some, get_elem?, arith}
use camera_rs.Format.Rate.{FrameRate}
use camera_rs.Hub.State.{CapturedFrame, bytes_of, retained_frames}
use camera_rs.Hub.Reserve.Exclusive.{IsAllocated}
use camera_rs.Hub.Control.{new}
use camera_rs.Hub.World.{World, Reach, here, then_step}
use camera_rs.Hub.World.Sound.{IsSound}
use camera_rs.Hub.World.Keeping.{Step-IsSound, Step-contents}

-- A new hub with no lease.
abbrev pub empty_world : ℕ → ℕ → World
empty_world capacity next_session = record { hub = new capacity next_session; leases = [] }

empty_world-IsSound : (capacity next_session : ℕ) → IsSound (empty_world capacity next_session)
unfolding new IsAllocated
empty_world-IsSound capacity next_session = record {
  frames_made = tt;
  apart = λ b. omega arith;
  hidden = λ k l e. absurd (cc e);
}

module _ (interval : FrameRate → ℕ) where
  -- A frame stays readable in every world that the steps pass through.
  unfoldable pub IsReadable : CapturedFrame → {w v : World} → Reach interval w v → Type 0
  IsReadable f {w} here = (i : ℕ) × (get_elem? (retained_frames w.hub) i ≡ some f)
  IsReadable f {w} {v} (then_step r s) =
      IsReadable f r × ((i : ℕ) × (get_elem? (retained_frames v.hub) i ≡ some f))

  Reach-IsSound : {w v : World} → Reach interval w v → IsSound w → IsSound v
  Reach-IsSound here s = s
  Reach-IsSound (then_step r st) s = Step-IsSound interval st (Reach-IsSound r s)

  last_readable :
      (f : CapturedFrame) {w v : World} (r : Reach interval w v)
      → IsReadable f r
      → (i : ℕ) × (get_elem? (retained_frames v.hub) i ≡ some f)
  unfolding IsReadable
  last_readable f here k = k
  last_readable f (then_step r s) k = k.1

  -- From a new hub, after any steps of any users in any order: every readable frame has a buffer that was
  -- made; a buffer is stored in one slot or held by one open lease at most, and by neither before it is
  -- made; and no readable frame has the buffer of a lease that its backend may still write.
  pub world-IsSound :
      (capacity next_session : ℕ) (w : World)
      → Reach interval (empty_world capacity next_session) w
      → IsSound w
  world-IsSound capacity next_session w r =
      Reach-IsSound r (empty_world-IsSound capacity next_session)

  -- A frame that stays readable (as the latest, in a queue or kept by a consumer) while any steps of any
  -- users are taken has the same bytes at the end, if the steps start from a world that steps from a new
  -- hub lead to.
  pub frame-immutable :
      (capacity next_session : ℕ) (f : CapturedFrame) (w v : World)
      → Reach interval (empty_world capacity next_session) w
      → (r : Reach interval w v) → IsReadable f r
      → bytes_of v.hub f ≡ bytes_of w.hub f
  unfolding IsReadable
  frame-immutable capacity next_session f w v start here k = refl
  frame-immutable capacity next_session f w v start (then_step {v = u} r st) k =
      let (i, e) = last_readable f r k.0 in
      Step-contents interval i f st (Reach-IsSound r (world-IsSound capacity next_session w start))
        e
      ∙ frame-immutable capacity next_session f w u start r k.0
