-- ===== src/Identity/Tests.antt =====
-- A device identity at concrete values.
use camera_rs.Base.{ℕ, ◌≡◌, refl, Bool, true, List, [], ◌∷◌, inl, arith}
use camera_rs.Error.{ok}
use camera_rs.Identity.{DeviceId, new_device_id, to_persistent_string, encode, parse}
use camera_rs.Identity.Persist.{parse-to_persistent_string}

-- `uvc` and the native identifier `a:1`.
abbrev uvc : List ℕ
uvc = 117 ∷ 118 ∷ 99 ∷ []

abbrev native_id : List ℕ
native_id = 97 ∷ 58 ∷ 49 ∷ []

abbrev device : DeviceId
device = record { backend = uvc; native = native_id }

abbrev any_bytes : List ℕ → Bool
any_bytes bytes = true

device_string :
    to_persistent_string device ≡ 117 ∷ 118 ∷ 99 ∷ 124 ∷ 54 ∷ 49 ∷ 51 ∷ 97 ∷ 51 ∷ 49 ∷ []
unfolding to_persistent_string encode
device_string = refl

parse_example : parse any_bytes (to_persistent_string device) ≡ ok device
unfolding new_device_id
parse_example =
    parse-to_persistent_string any_bytes uvc native_id device (inl refl)
      (omega arith, (omega arith, (omega arith, tt))) refl refl
