-- ===== src/Hub/Publish/Native.antt =====
-- `publish_rgb`, `publish_native_into` and `publish_native` of src/frame.rs: the checks of a layout's
-- extent before a publication.
use camera_rs.Base.{
  ℕ, ◌+◌, Bool, true, false, List, [], ◌∷◌, ◌++◌, Option, none, some, length, max, ◌==◌,
  checked_add, if◌then◌else◌,
}
use camera_rs.Base.Int.{ℤ}
use camera_rs.Error.{CameraResult, ok, err}
use camera_rs.Format.Pixel.{FrameLayout, PlaneLayout, ClockDomain, SourceTimestamp}
use camera_rs.Format.Layout.{rgb, validate, invalid}
use camera_rs.Format.Rate.{FrameRate}
use camera_rs.Hub.State.{Hub}
use camera_rs.Hub.Publish.{Clock, Convert, publish}

-- `publish_native_into`: the greatest end of a plane, none on an overflow.
unfoldable pub extent : ℕ → List PlaneLayout → Option ℕ
extent n [] = some n
extent n (p ∷ ps) = elim (checked_add p.offset p.length) [
  | none ↦ none
  | some end ↦ extent (max n end) ps
]

-- `publish_native`: the length of the parts, none on an overflow.
unfoldable pub parts_length : ℕ → List (List ℕ) → Option ℕ
parts_length n [] = some n
parts_length n (p ∷ ps) = elim (checked_add n (length p)) [
  | none ↦ none
  | some m ↦ parts_length m ps
]

abbrev pub last_end : List PlaneLayout → ℕ
last_end [] = 0
last_end (p ∷ ps) = max (p.offset + p.length) (last_end ps)

-- The closure that copies the parts one after the other.
abbrev pub concat : List (List ℕ) → List ℕ
concat [] = []
concat (p ∷ ps) = p ++ concat ps

module _ (interval : FrameRate → ℕ) where
  -- `publish_rgb`: a bare timestamp has an unknown clock.
  unfoldable pub publish_rgb :
      Clock → ℕ → ℕ → ℕ → Option ℤ → Convert → Hub → CameraResult Bool × Hub
  unfolding publish
  publish_rgb clock session width height nanoseconds convert h =
      let timestamp : Option SourceTimestamp = elim nanoseconds [
        | none ↦ none
        | some n ↦ some (record { nanoseconds = n; clock = ClockDomain.unknown })
      ] in
      publish interval clock session (rgb width height) timestamp none true convert h

  unfoldable pub publish_native_into :
      Clock → ℕ → FrameLayout → Option SourceTimestamp → Convert → Hub → CameraResult Bool × Hub
  unfolding extent validate publish
  publish_native_into clock session layout timestamp convert h = elim (extent 0 layout.planes) [
    | none ↦ (err invalid, h)
    | some n ↦ elim (validate layout n) [
      | err e ↦ (err e, h)
      | ok u ↦ publish interval clock session layout timestamp none false convert h
    ]
  ]

  unfoldable pub publish_native :
      Clock
      → ℕ
      → FrameLayout
      → Option SourceTimestamp
      → Option ℕ
      → List (List ℕ)
      → Hub
      → CameraResult Bool × Hub
  unfolding parts_length validate publish
  publish_native clock session layout timestamp source_sequence parts h =
      elim (parts_length 0 parts) [
        | none ↦ (err invalid, h)
        | some len ↦ elim (validate layout len) [
          | err e ↦ (err e, h)
          | ok u ↦
              if last_end layout.planes == len
              then publish interval clock session layout timestamp source_sequence false
                  (λ out. (ok tt, concat parts)) h
              else (err invalid, h)
        ]
      ]
