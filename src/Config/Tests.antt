-- ===== src/Config/Tests.antt =====
-- Configurations at concrete values.
use camera_rs.Base.{◌≡◌, refl, some, none}
use camera_rs.Config.{VideoFormat, frame_data_size}
use camera_rs.Base.{ℕ, ◌*◌, ◌<◌, ◌^◌, ◌⊎◌, ◌↔◌, true}
use camera_rs.Error.{ok}
use camera_rs.Config.{CameraConfig, validate, is_compressed, frame_size}
use camera_rs.Config.Size.{bits_per_pixel, FitsGrid, frame_data_size-some, validate-ok}

yuyv_size : frame_data_size VideoFormat.yuyv 640 480 ≡ some 614400
unfolding frame_data_size
yuyv_size = refl

odd_width : frame_data_size VideoFormat.yuyv 3 2 ≡ none
unfolding frame_data_size
odd_width = refl

frame_data_size_example : (frame_data_size VideoFormat.yuyv 640 480 ≡ some 614400) ↔ (
    (0 < 640)
    × (0 < 480)
    × (0 < bits_per_pixel VideoFormat.yuyv)
    × FitsGrid VideoFormat.yuyv 640 480
    × (614400 < 2 ^ 64)
    × (614400 * 8 ≡ 640 * 480 * bits_per_pixel VideoFormat.yuyv))
frame_data_size_example = frame_data_size-some VideoFormat.yuyv 640 480 614400

abbrev vga : CameraConfig
vga = record { format = VideoFormat.yuyv; width = 640; height = 480; fps = 30; fps_denominator = 1 }

validate-config_example : (validate vga ≡ ok tt) ↔ (
    (0 < 640)
    × (0 < 480)
    × (0 < 30)
    × (0 < 1)
    × ((is_compressed VideoFormat.yuyv ≡ true) ⊎ ((n : ℕ) × (frame_size vga ≡ some n))))
validate-config_example = validate-ok vga
