-- ===== src/Hub/Publish/Writable.antt =====
-- `writable_native` of src/frame.rs and the `NativeWriteLease` that a custom backend fills and commits.
use camera_rs.Base.{ℕ, ◌≡◌, ◌∙◌, Bool, false, List, Option, none, some, ◌==◌, arith}
use camera_rs.Error.{CameraErrorKind, CameraResult, ok, err, new as error}
use camera_rs.Format.Pixel.{FrameLayout, SourceTimestamp}
use camera_rs.Format.Layout.{validate}
use camera_rs.Format.Rate.{FrameRate}
use camera_rs.Hub.State.{Hub, update, buffer_of}
use camera_rs.Hub.Reserve.{Lease, frame_length, reserve, drop_lease}
use camera_rs.Hub.Publish.{finish_publish}
use camera_rs.Hub.Publish.Immutable.{drop_lease-heap, finish_publish-heap}

pub record NativeWriteLease : Type 0 where
  pub lease : Lease
  pub session : ℕ
  pub layout : FrameLayout
  pub timestamp : Option SourceTimestamp
  pub captured_at : ℕ

abbrev pub buffer_exhausted : CameraResult NativeWriteLease
buffer_exhausted = err (error CameraErrorKind.buffer_exhausted)

-- `now` is the instant that `reserve` reads, `captured_at` the one after it.
unfoldable pub writable_native : ℕ → ℕ → ℕ → FrameLayout → Hub → CameraResult NativeWriteLease × Hub
unfolding frame_length validate reserve
writable_native now captured_at session layout h = elim (frame_length layout false) [
  | err e ↦ (err e, h)
  | ok length ↦ elim (validate layout length) [
    | err e ↦ (err e, h)
    | ok u ↦
        let (reserved, h') = reserve now session layout false h in
        elim reserved [
          | err e ↦ (err e, h')
          | ok none ↦ (buffer_exhausted, h')
          | ok (some lease) ↦ (
            ok (record {
              lease = lease;
              session = session;
              layout = layout;
              timestamp = none;
              captured_at = captured_at;
            }),
            h',
          )
        ]
  ]
]

-- A write through `bytes_mut`.
unfoldable pub write : NativeWriteLease → (List ℕ → List ℕ) → Hub → Hub
write w f h =
    let b = buffer_of w.lease.storage in record h { heap = update h.heap b (f (h.heap b)) }

unfoldable pub set_timestamp : SourceTimestamp → NativeWriteLease → NativeWriteLease
set_timestamp t w = record w { timestamp = some t }

module _ (interval : FrameRate → ℕ) where
  -- The lease is dropped at the end of `commit`.
  unfoldable pub commit : ℕ → NativeWriteLease → Hub → CameraResult Bool × Hub
  unfolding finish_publish drop_lease
  commit timestamp_ns w h =
      let (published, h') =
        finish_publish interval
          (record {
            session = w.session;
            layout = w.layout;
            timestamp = w.timestamp;
            source_sequence = none;
            captured_at = w.captured_at;
            elapsed = 0;
          })
          timestamp_ns w.lease h in
      (ok published, drop_lease w.lease h')

  -- A write and its commit leave every buffer but the lease's as it was.
  pub commit-heap :
      (timestamp_ns : ℕ) (w : NativeWriteLease) (f : List ℕ → List ℕ) (h : Hub) (b : ℕ)
      → (b == buffer_of w.lease.storage) ≡ false
      → (commit timestamp_ns w (write w f h)).1.heap b ≡ h.heap b
  unfolding commit write
  commit-heap timestamp_ns w f h b other =
      drop_lease-heap w.lease (finish_publish interval _ timestamp_ns w.lease (write w f h)).1 b
      ∙ (finish_publish-heap interval _ timestamp_ns w.lease (write w f h) b
          ∙ ground (arith, other))
