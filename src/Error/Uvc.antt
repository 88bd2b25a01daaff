-- ===== src/Error/Uvc.antt =====
-- The status codes of the UVC library and the errors that src/error.rs makes of them.
use camera_rs.Base.{◌==◌, if◌then◌else◌}
use camera_rs.Base.Int.{ℤ, pos, negsuc}
use camera_rs.Error.Kinds.{CameraErrorKind, OperationStage}
use camera_rs.Error.Hints.{
  CameraError, CameraResult, ok, err, new, with_stage, default_recovery_hint,
}

pub data UvcErrorCode : Type 0 where
  success io invalid_param access no_device not_found busy timeout : UvcErrorCode
  overflow pipe interrupted no_mem not_supported invalid_device : UvcErrorCode
  invalid_mode callback_exists other : UvcErrorCode

-- `negsuc n` is the code -(n + 1).
unfoldable pub from_code : ℤ → UvcErrorCode
from_code (pos n) = if n == 0 then UvcErrorCode.success else UvcErrorCode.other
from_code (negsuc n) =
    if n == 0
    then UvcErrorCode.io
    else if n == 1
    then UvcErrorCode.invalid_param
    else if n == 2
    then UvcErrorCode.access
    else if n == 3
    then UvcErrorCode.no_device
    else if n == 4
    then UvcErrorCode.not_found
    else if n == 5
    then UvcErrorCode.busy
    else if n == 6
    then UvcErrorCode.timeout
    else if n == 7
    then UvcErrorCode.overflow
    else if n == 8
    then UvcErrorCode.pipe
    else if n == 9
    then UvcErrorCode.interrupted
    else if n == 10
    then UvcErrorCode.no_mem
    else if n == 11
    then UvcErrorCode.not_supported
    else if n == 49
    then UvcErrorCode.invalid_device
    else if n == 50
    then UvcErrorCode.invalid_mode
    else if n == 51
    then UvcErrorCode.callback_exists
    else UvcErrorCode.other

unfoldable pub uvc_kind : UvcErrorCode → CameraErrorKind
uvc_kind UvcErrorCode.access = CameraErrorKind.permission_denied
uvc_kind UvcErrorCode.no_device = CameraErrorKind.device_not_found
uvc_kind UvcErrorCode.not_found = CameraErrorKind.device_not_found
uvc_kind UvcErrorCode.invalid_device = CameraErrorKind.device_not_found
uvc_kind UvcErrorCode.busy = CameraErrorKind.device_busy
uvc_kind UvcErrorCode.timeout = CameraErrorKind.timeout
uvc_kind UvcErrorCode.not_supported = CameraErrorKind.unsupported_format
uvc_kind UvcErrorCode.invalid_param = CameraErrorKind.invalid_argument
uvc_kind UvcErrorCode.invalid_mode = CameraErrorKind.invalid_argument
uvc_kind _ = CameraErrorKind.backend_failure

-- `CameraError::uvc_backend`: `native` at the stage of a backend command.
unfoldable pub uvc_backend : ℤ → CameraError
unfolding uvc_kind from_code new with_stage
uvc_backend code = with_stage (new (uvc_kind (from_code code))) OperationStage.backend_command

-- The kinds that a control request has instead of those of a stream.
unfoldable pub control_kind : CameraErrorKind → CameraErrorKind
control_kind CameraErrorKind.unsupported_format = CameraErrorKind.control_not_supported
control_kind CameraErrorKind.backend_failure = CameraErrorKind.control_failure
control_kind k = k

-- `CameraError::uvc`: the error of a control request.
unfoldable pub uvc : ℤ → CameraError
unfolding uvc_backend control_kind default_recovery_hint
uvc code =
    let error = uvc_backend code in
    let kind = control_kind error.kind in
    record error { kind = kind; recovery_hint = default_recovery_hint kind }

-- `UvcErrorCode::check`.
unfoldable pub check : ℤ → OperationStage → CameraResult (Unit {0})
unfolding uvc_backend
check (pos n) s = if n == 0 then ok tt else err (with_stage (uvc_backend (pos n)) s)
check (negsuc n) s = err (with_stage (uvc_backend (negsuc n)) s)
