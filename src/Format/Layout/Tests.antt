-- ===== src/Format/Layout/Tests.antt =====
-- Layouts at concrete values.
use camera_rs.Base.{◌≡◌, refl}
use camera_rs.Error.{ok}
use camera_rs.Format.Layout.{rgb, validate, check_planes, check_plane, plane_specs}
use camera_rs.Base.{◌*◌, ◌≤◌, ◌<◌, ◌↔◌, List, some, length, get_elem?, arith}
use camera_rs.Format.Pixel.{PlaneLayout, is_encoded}
use camera_rs.Format.Layout.{PlaneSpec}
use camera_rs.Format.Layout.Bounds.{IsReadable, validate-IsReadable}
use camera_rs.Format.Layout.Build.{validate-rgb}

rgb_test : validate (rgb 4 2) 24 ≡ ok tt
unfolding rgb validate plane_specs check_planes check_plane
rgb_test = refl

abbrev plane_rgb : PlaneLayout
plane_rgb = record { offset = 0; length = 24; row_stride = 12; pixel_stride = 3 }

validate_example :
    (0 < (rgb 4 2).width)
    × (0 < (rgb 4 2).height)
    × (specs : List PlaneSpec) × (plane_specs (rgb 4 2).format (rgb 4 2).width (rgb 4 2).height
        ≡ some specs)
    × (length (rgb 4 2).planes ≡ length specs)
    × (s : PlaneSpec) × (get_elem? specs 0 ≡ some s)
    × IsReadable 24 plane_rgb s
unfolding rgb is_encoded
validate_example = validate-IsReadable (rgb 4 2) 24 0 {p = plane_rgb} refl rgb_test refl

validate-rgb_example : (validate (rgb 4 2) 30 ≡ ok tt) ↔ (4 * 2 * 3 ≤ 30)
validate-rgb_example = validate-rgb 4 2 30 (omega arith) (omega arith) (omega arith)
