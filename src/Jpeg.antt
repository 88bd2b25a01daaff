-- ===== src/Jpeg.antt =====
-- `complete_frame` of src/mjpeg.rs: the part of a payload from its JPEG start marker to its last end
-- marker.
pub mod Complete
mod Tests
use camera_rs.Base.{
  ℕ, zero, suc, ◌+◌, ◌-◌, Bool, true, false, not, ◌&&◌, ◌||◌, List, [], ◌∷◌, Option, none, some,
  length, take, ltb, ◌==◌, if◌then◌else◌,
}
use camera_rs.Error.{CameraErrorKind, CameraError, CameraResult, ok, err, new as error}

-- The bytes `ff d9` at an index.
unfoldable pub marker_at : List ℕ → ℕ → Bool
marker_at [] i = false
marker_at (x ∷ []) i = false
marker_at (x ∷ y ∷ ys) zero = x == 255 && y == 217
marker_at (x ∷ y ∷ ys) (suc i) = marker_at (y ∷ ys) i

-- `starts_with(&[0xff, 0xd8])`.
unfoldable pub starts_frame : List ℕ → Bool
starts_frame [] = false
starts_frame (x ∷ []) = false
starts_frame (x ∷ y ∷ ys) = x == 255 && y == 216

-- `windows(2).rposition(...)`.
unfoldable pub last_marker : List ℕ → Option ℕ
last_marker [] = none
last_marker (x ∷ []) = none
last_marker (x ∷ y ∷ ys) = elim (last_marker (y ∷ ys)) [
  | some i ↦ some (suc i)
  | none ↦ if x == 255 && y == 217 then some 0 else none
]

unfoldable pub complete_frame : List ℕ → CameraResult (List ℕ)
unfolding marker_at starts_frame last_marker
complete_frame payload =
    if ltb (length payload) 4 || not (starts_frame payload)
    then err (error CameraErrorKind.invalid_frame)
    else if marker_at payload (length payload - 2)
    then ok payload
    else elim (last_marker payload) [
      | none ↦ err (error CameraErrorKind.invalid_frame)
      | some position ↦ ok (take (position + 2) payload)
    ]

-- `validate`.
unfoldable pub validate : List ℕ → CameraResult (Unit {0})
unfolding complete_frame
validate payload = elim (complete_frame payload) [ ok frame ↦ ok tt | err e ↦ err e ]
