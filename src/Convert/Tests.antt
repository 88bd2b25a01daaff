-- ===== src/Convert/Tests.antt =====
-- Conversions of small frames at concrete values.
use camera_rs.Base.{ℕ, ◌*◌, ◌≡◌, refl, true, false, List, [], ◌∷◌, none, some, length, arith}
use camera_rs.Error.{ok}
use camera_rs.Format.Pixel.{PixelFormat, FrameLayout}
use camera_rs.Format.Layout.{rgb, packed, validate, check_plane, check_planes, plane_specs}
use camera_rs.Convert.Map.{
  Dimensions, default_map, default_map-IsCurrent, update, IsCurrent, update-IsCurrent, columns,
  rows, tabulate, nearest,
}
use camera_rs.Convert.Row.{resize_rgb_row_nearest, map_pixels}
use camera_rs.Convert.Groups.{resize_rgb_row_nearest-eq}
use camera_rs.Convert.Colour.{bt601_full_coefficients, yuv_pixel, yuv_pixel-grey}
use camera_rs.Convert.Scale.{is_yuv, is_packed_rgb, scale_nearest, scale_yuv_scalar}
use camera_rs.Convert.Safe.{scale_yuv_scalar-some}
use camera_rs.Convert.Packed.{scale_nearest-some}
use camera_rs.Convert.Paths.{
  ConversionRequest, Strategy, Route, for_layout, convert_route, selected_conversion_path,
}

abbrev dimensions : Dimensions
dimensions = record {
  source_width = 3;
  source_height = 2;
  destination_width = 2;
  destination_height = 2;
  bottom_up = false;
}

update-IsCurrent_example :
    ((update dimensions default_map).dimensions ≡ dimensions)
    × IsCurrent (update dimensions default_map)
update-IsCurrent_example = update-IsCurrent dimensions default_map default_map-IsCurrent

abbrev row : List ℕ
row = 1 ∷ 2 ∷ 3 ∷ 4 ∷ 5 ∷ 6 ∷ 7 ∷ 8 ∷ 9 ∷ []

abbrev zeros : List ℕ
zeros = 0 ∷ 0 ∷ 0 ∷ 0 ∷ 0 ∷ 0 ∷ []

resize_rgb_row_nearest_example :
    resize_rgb_row_nearest row zeros (tabulate (nearest 3 2) 0 2)
    ≡ map_pixels row zeros (tabulate (nearest 3 2) 0 2)
resize_rgb_row_nearest_example = resize_rgb_row_nearest-eq row zeros 3 2 (omega arith) refl refl

-- A grey frame and a YUYV frame of two pixels by one.
abbrev grey_layout : FrameLayout
grey_layout = packed 2 1 PixelFormat.gray8 2 2

abbrev yuyv_layout : FrameLayout
yuyv_layout = packed 2 1 PixelFormat.yuyv 4 4

abbrev doubled : Dimensions
doubled = record {
  source_width = 2;
  source_height = 1;
  destination_width = 4;
  destination_height = 1;
  bottom_up = true;
}

grey_valid : validate grey_layout 2 ≡ ok tt
unfolding validate packed plane_specs check_planes check_plane
grey_valid = refl

yuyv_valid : validate yuyv_layout 4 ≡ ok tt
unfolding validate packed plane_specs check_planes check_plane
yuyv_valid = refl

scale_nearest_example :
    (out : List ℕ) × (scale_nearest grey_layout (7 ∷ 9 ∷ []) (columns doubled) (rows doubled)
      ≡ some out)
    × (length out ≡ doubled.destination_height * (doubled.destination_width * 3))
unfolding packed is_packed_rgb
scale_nearest_example =
    scale_nearest-some grey_layout (7 ∷ 9 ∷ []) grey_valid refl doubled (omega arith) refl refl

scale_yuv_scalar_example :
    (out : List ℕ) × (scale_yuv_scalar yuyv_layout
        (100 ∷ 128 ∷ 200 ∷ 128 ∷ [])
        bt601_full_coefficients
        (columns doubled)
        (rows doubled)
      ≡ some out)
    × (length out ≡ doubled.destination_height * (doubled.destination_width * 3))
unfolding packed is_yuv
scale_yuv_scalar_example =
    scale_yuv_scalar-some yuyv_layout (100 ∷ 128 ∷ 200 ∷ 128 ∷ []) bt601_full_coefficients
      yuyv_valid doubled refl refl refl

yuv_pixel-grey_example : yuv_pixel bt601_full_coefficients 77 128 128 ≡ 77 ∷ 77 ∷ 77 ∷ []
yuv_pixel-grey_example = yuv_pixel-grey 77 (omega arith)

-- A top-down frame in grey has no kernel for whole frames, so it takes the way by pixels, although the
-- strategy is reported as `direct-full-size`.
grey_reported :
    (selected_conversion_path grey_layout (for_layout grey_layout) ≡ Strategy.direct_full_size)
    × (convert_route grey_layout 2 (for_layout grey_layout) 6 ≡ ok Route.packed_pixels)
unfolding selected_conversion_path convert_route validate packed plane_specs check_planes
    check_plane is_yuv
grey_reported = (refl, refl)

-- An image of 6 x 6 pixels at a width of 4 and the same height: its rows are copied by groups of 2 of 3
-- pixels, although the strategy is reported as `mapped-nearest`.
abbrev narrower : ConversionRequest
narrower = record { width = 4; height = 6; color_override = none }

rows_reported : selected_conversion_path (rgb 6 6) narrower ≡ Strategy.mapped_nearest
unfolding selected_conversion_path is_yuv rgb
rows_reported = refl
