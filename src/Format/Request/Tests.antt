-- ===== src/Format/Request/Tests.antt =====
-- Stream requests at concrete values.
use camera_rs.Base.{◌≡◌, ◌↔◌, refl, some}
use camera_rs.Error.{ok, err}
use camera_rs.Format.Request.{StreamRequest, build, builder, invalid}
use camera_rs.Format.Request.Accept.{IsAccepted, build-IsAccepted}

builds_default : build builder ≡ ok builder
unfolding build builder
builds_default = refl

abbrev one_driver_buffer : StreamRequest
one_driver_buffer = record builder { driver_buffers = some 1 }

refuses_one_driver_buffer : build one_driver_buffer ≡ err invalid
unfolding build builder
refuses_one_driver_buffer = refl

build_example : (build builder ≡ ok builder) ↔ ((builder ≡ builder) × IsAccepted builder)
build_example = build-IsAccepted builder builder
