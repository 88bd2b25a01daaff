-- ===== src/Jpeg/Tests.antt =====
-- A payload with trailing padding.
use camera_rs.Base.{ℕ, ◌+◌, ◌-◌, ◌≤◌, ◌≡◌, refl, true, List, [], ◌∷◌, length, take}
use camera_rs.Error.{ok}
use camera_rs.Jpeg.{marker_at, starts_frame, last_marker, complete_frame}
use camera_rs.Jpeg.Complete.{complete_frame_lem}

abbrev padded : List ℕ
padded = 255 ∷ 216 ∷ 1 ∷ 255 ∷ 217 ∷ 0 ∷ 0 ∷ []

abbrev picture : List ℕ
picture = 255 ∷ 216 ∷ 1 ∷ 255 ∷ 217 ∷ []

cuts_padding : complete_frame padded ≡ ok picture
unfolding complete_frame starts_frame marker_at last_marker
cuts_padding = refl

has_marker : marker_at padded 3 ≡ true
unfolding marker_at
has_marker = refl

complete_frame_example :
    (picture ≡ take (length picture) padded)
    × (marker_at padded (length picture - 2) ≡ true)
    × (3 + 2 ≤ length picture)
complete_frame_example = complete_frame_lem padded 3 {out = picture} cuts_padding has_marker
