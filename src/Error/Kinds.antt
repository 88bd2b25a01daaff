-- ===== src/Error/Kinds.antt =====
-- `CameraErrorKind`, `RecoveryHint` and `OperationStage` with the codes that `as_str` and `from_str`
-- of src/error.rs and src/contract.rs exchange.
use Prim.Native.String.{String}
use text.Mathlib.Text.{◌==◌ as str_eq}
use camera_rs.Base.{Bool, true, false, List, [], ◌∷◌, Option, none, some, if◌then◌else◌}

pub data CameraErrorKind : Type 0 where
  invalid_argument backend_not_compiled unsupported_target : CameraErrorKind
  backend_option_mismatch backend_failure multiple_backends_failed : CameraErrorKind
  device_not_found device_busy device_open_failed device_disconnected : CameraErrorKind
  ambiguous_device permission_required permission_denied : CameraErrorKind
  permission_managed_externally invalid_state stream_stopped : CameraErrorKind
  stream_failure timeout buffer_exhausted invalid_frame : CameraErrorKind
  unsupported_format control_not_supported control_not_readable : CameraErrorKind
  control_failure io worker_failure internal : CameraErrorKind

pub data RecoveryHint : Type 0 where
  none_hint retry request_permission reenumerate_device : RecoveryHint
  change_configuration enable_backend drop_frame reduce_resource_usage : RecoveryHint

pub data OperationStage : Type 0 where
  enumeration open_stage capabilities startup first_frame frame_wait : OperationStage
  backend_command worker close : OperationStage

-- A `match` on string literals: the first arm that is equal.
module _ {ℓ} {A : Type ℓ} where
  unfoldable pub match_str : List (String × A) → String → Option A
  match_str [] s = none
  match_str ((k, a) ∷ arms) s = if str_eq s k then some a else match_str arms s

unfoldable pub kind_as_str : CameraErrorKind → String
kind_as_str invalid_argument = "invalid_argument"
kind_as_str backend_not_compiled = "backend_not_compiled"
kind_as_str unsupported_target = "unsupported_target"
kind_as_str backend_option_mismatch = "backend_option_mismatch"
kind_as_str backend_failure = "backend_failure"
kind_as_str multiple_backends_failed = "multiple_backends_failed"
kind_as_str device_not_found = "device_not_found"
kind_as_str device_busy = "device_busy"
kind_as_str device_open_failed = "device_open_failed"
kind_as_str device_disconnected = "device_disconnected"
kind_as_str ambiguous_device = "ambiguous_device"
kind_as_str permission_required = "permission_required"
kind_as_str permission_denied = "permission_denied"
kind_as_str permission_managed_externally = "permission_managed_externally"
kind_as_str invalid_state = "invalid_state"
kind_as_str stream_stopped = "stream_stopped"
kind_as_str stream_failure = "stream_failure"
kind_as_str timeout = "timeout"
kind_as_str buffer_exhausted = "buffer_exhausted"
kind_as_str invalid_frame = "invalid_frame"
kind_as_str unsupported_format = "unsupported_format"
kind_as_str control_not_supported = "control_not_supported"
kind_as_str control_not_readable = "control_not_readable"
kind_as_str control_failure = "control_failure"
kind_as_str io = "io"
kind_as_str worker_failure = "worker_failure"
kind_as_str internal = "internal"

-- The arms of `CameraErrorKind::from_str`; `none` is its error for an unknown code.
abbrev pub kind_arms : List (String × CameraErrorKind)
kind_arms =
    ("invalid_argument", invalid_argument)
    ∷ ("backend_not_compiled", backend_not_compiled)
    ∷ ("unsupported_target", unsupported_target)
    ∷ ("backend_option_mismatch", backend_option_mismatch)
    ∷ ("backend_failure", backend_failure)
    ∷ ("multiple_backends_failed", multiple_backends_failed)
    ∷ ("device_not_found", device_not_found)
    ∷ ("device_busy", device_busy)
    ∷ ("device_open_failed", device_open_failed)
    ∷ ("device_disconnected", device_disconnected)
    ∷ ("ambiguous_device", ambiguous_device)
    ∷ ("permission_required", permission_required)
    ∷ ("permission_denied", permission_denied)
    ∷ ("permission_managed_externally", permission_managed_externally)
    ∷ ("invalid_state", invalid_state)
    ∷ ("stream_stopped", stream_stopped)
    ∷ ("stream_failure", stream_failure)
    ∷ ("timeout", timeout)
    ∷ ("buffer_exhausted", buffer_exhausted)
    ∷ ("invalid_frame", invalid_frame)
    ∷ ("unsupported_format", unsupported_format)
    ∷ ("control_not_supported", control_not_supported)
    ∷ ("control_not_readable", control_not_readable)
    ∷ ("control_failure", control_failure)
    ∷ ("io", io)
    ∷ ("worker_failure", worker_failure)
    ∷ ("internal", internal)
    ∷ []

unfoldable pub kind_from_str : String → Option CameraErrorKind
unfolding match_str
kind_from_str = match_str kind_arms

unfoldable pub hint_as_str : RecoveryHint → String
hint_as_str none_hint = "none"
hint_as_str retry = "retry"
hint_as_str request_permission = "request_permission"
hint_as_str reenumerate_device = "reenumerate_device"
hint_as_str change_configuration = "change_configuration"
hint_as_str enable_backend = "enable_backend"
hint_as_str drop_frame = "drop_frame"
hint_as_str reduce_resource_usage = "reduce_resource_usage"

abbrev pub hint_arms : List (String × RecoveryHint)
hint_arms =
    ("none", none_hint)
    ∷ ("retry", retry)
    ∷ ("request_permission", request_permission)
    ∷ ("reenumerate_device", reenumerate_device)
    ∷ ("change_configuration", change_configuration)
    ∷ ("enable_backend", enable_backend)
    ∷ ("drop_frame", drop_frame)
    ∷ ("reduce_resource_usage", reduce_resource_usage)
    ∷ []

unfoldable pub hint_from_str : String → Option RecoveryHint
unfolding match_str
hint_from_str = match_str hint_arms

unfoldable pub stage_as_str : OperationStage → String
stage_as_str enumeration = "enumeration"
stage_as_str open_stage = "open"
stage_as_str capabilities = "capabilities"
stage_as_str startup = "startup"
stage_as_str first_frame = "first_frame"
stage_as_str frame_wait = "frame_wait"
stage_as_str backend_command = "backend_command"
stage_as_str worker = "worker"
stage_as_str close = "close"

abbrev pub stage_arms : List (String × OperationStage)
stage_arms =
    ("enumeration", enumeration)
    ∷ ("open", open_stage)
    ∷ ("capabilities", capabilities)
    ∷ ("startup", startup)
    ∷ ("first_frame", first_frame)
    ∷ ("frame_wait", frame_wait)
    ∷ ("backend_command", backend_command)
    ∷ ("worker", worker)
    ∷ ("close", close)
    ∷ []

unfoldable pub stage_from_str : String → Option OperationStage
unfolding match_str
stage_from_str = match_str stage_arms

-- `RecoveryHint::is_retryable`.
unfoldable pub is_retryable : RecoveryHint → Bool
is_retryable RecoveryHint.retry = true
is_retryable reenumerate_device = true
is_retryable _ = false
