-- ===== src/Identity.antt =====
-- `BackendId` and `DeviceId` of src/contract.rs, with strings as their bytes. What makes bytes UTF-8 is the
-- standard library's, and a parameter.
pub mod Persist
mod Tests
use camera_rs.Base.{
  ℕ, ◌+◌, ◌-◌, ◌*◌, ◌/◌, ◌%◌, Bool, true, false, not, ◌&&◌, ◌||◌, List, [], ◌∷◌, ◌++◌, Option, none,
  some, length, any, all, leb, ltb, ◌==◌, if◌then◌else◌,
}
use camera_rs.Error.{
  CameraErrorKind, CameraError, CameraResult, ok, err, ◌>>=◌, ◌>>◌, fail_if, ok_or, new as error,
}

-- The code points of `/`, `|` and the hyphen.
abbrev pub slash : ℕ
slash = 47

abbrev pub bar : ℕ
bar = 124

abbrev pub bytes_eq : List ℕ → List ℕ → Bool
bytes_eq [] [] = true
bytes_eq [] (y ∷ ys) = false
bytes_eq (x ∷ xs) [] = false
bytes_eq (x ∷ xs) (y ∷ ys) = x == y && bytes_eq xs ys

-- uvc, v4l2, avfoundation, camera2, media-foundation, synthetic.
abbrev pub builtins : List (List ℕ)
builtins =
    (117 ∷ 118 ∷ 99 ∷ [])
    ∷ (118 ∷ 52 ∷ 108 ∷ 50 ∷ [])
    ∷ (97 ∷ 118 ∷ 102 ∷ 111 ∷ 117 ∷ 110 ∷ 100 ∷ 97 ∷ 116 ∷ 105 ∷ 111 ∷ 110 ∷ [])
    ∷ (99 ∷ 97 ∷ 109 ∷ 101 ∷ 114 ∷ 97 ∷ 50 ∷ [])
    ∷ (109 ∷ 101 ∷ 100 ∷ 105 ∷ 97 ∷ 45 ∷ 102 ∷ 111 ∷ 117 ∷ 110 ∷ 100 ∷ 97 ∷ 116 ∷ 105 ∷ 111 ∷ 110
        ∷ [])
    ∷ (115 ∷ 121 ∷ 110 ∷ 116 ∷ 104 ∷ 101 ∷ 116 ∷ 105 ∷ 99 ∷ [])
    ∷ []

abbrev pub between : ℕ → ℕ → ℕ → Bool
between low high b = leb low b && leb b high

-- `is_ascii_alphanumeric`, or one of `.`, `-` and `_`.
abbrev pub is_name_byte : ℕ → Bool
is_name_byte b =
    between 48 57 b || between 65 90 b || between 97 122 b || b == 46 || b == 45 || b == 95

abbrev pub is_valid_part : List ℕ → Bool
is_valid_part part = not (length part == 0) && leb (length part) 96 && all is_name_byte part

unfoldable pub invalid_config : CameraError
invalid_config = error CameraErrorKind.invalid_argument

-- `BackendId::custom`.
unfoldable pub custom : List ℕ → List ℕ → CameraResult (List ℕ)
unfolding invalid_config
custom namespace name =
    if not (is_valid_part namespace) || not (is_valid_part name)
    then err invalid_config
    else ok (namespace ++ (slash ∷ name))

abbrev pub cons_first : ℕ → Option (List ℕ × List ℕ) → Option (List ℕ × List ℕ)
cons_first x none = none
cons_first x (some (before, after)) = some (x ∷ before, after)

-- `str::split_once` at one byte.
unfoldable pub split_once : ℕ → List ℕ → Option (List ℕ × List ℕ)
split_once c [] = none
split_once c (x ∷ xs) =
    let rest = split_once c xs in if x == c then some ([], xs) else cons_first x rest

-- `BackendId::from_str`.
unfoldable pub backend_from_str : List ℕ → CameraResult (List ℕ)
unfolding split_once custom invalid_config
backend_from_str value =
    if any (bytes_eq value) builtins then ok value else elim (split_once slash value) [
      | none ↦ err invalid_config
      | some (namespace, name) ↦ custom namespace name
    ]

pub record DeviceId : Type 0 where
  pub backend : List ℕ
  pub native : List ℕ

abbrev pub contains : ℕ → List ℕ → Bool
contains c = any (λ x. x == c)

-- `DeviceId::new`.
unfoldable pub new_device_id : List ℕ → List ℕ → CameraResult DeviceId
unfolding invalid_config
new_device_id backend native =
    if length native == 0 || ltb 4096 (length native) || contains 0 native
    then err invalid_config
    else ok (record { backend = backend; native = native })

abbrev pub hex_digit : ℕ → ℕ
hex_digit n = if ltb n 10 then 48 + n else 87 + n

-- `format!("{byte:02x}")` of each byte.
unfoldable pub encode : List ℕ → List ℕ
encode [] = []
encode (b ∷ bs) = hex_digit (b / 16) ∷ hex_digit (b % 16) ∷ encode bs

unfoldable pub to_persistent_string : DeviceId → List ℕ
unfolding encode
to_persistent_string d = d.backend ++ (bar ∷ encode d.native)

abbrev pub is_hex_digit : ℕ → Bool
is_hex_digit b = between 48 57 b || between 97 102 b || between 65 70 b

-- The closure `digit`, behind the check.
abbrev pub digit : ℕ → ℕ
digit b = if between 48 57 b then b - 48 else if between 97 102 b then b - 97 + 10 else b - 65 + 10

-- `chunks_exact(2)`.
unfoldable pub decode : List ℕ → List ℕ
decode [] = []
decode (a ∷ []) = []
decode (a ∷ b ∷ rest) = (digit a * 16 + digit b) ∷ decode rest

-- `DeviceId::parse`.
unfoldable pub parse : (List ℕ → Bool) → List ℕ → CameraResult DeviceId
unfolding split_once invalid_config decode backend_from_str new_device_id
parse is_utf8 value = elim (split_once bar value) [
  | none ↦ err invalid_config
  | some (backend, encoded) ↦
      if ltb (4096 * 2) (length encoded)
        || not (length encoded % 2 == 0)
        || not (all is_hex_digit encoded)
      then err invalid_config
      else if not (is_utf8 (decode encoded))
      then err invalid_config
      else backend_from_str backend >>= λ b. new_device_id b (decode encoded)
]
