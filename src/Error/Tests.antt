-- ===== src/Error/Tests.antt =====
-- The error contract at concrete values.
use camera_rs.Base.{List, [], ◌∷◌, ◌≡◌, refl, ◌⊎◌, ◌↔◌, ◌≤◌, some, Memᴰ}
use camera_rs.Base.Int.{pos, negsuc}
use camera_rs.Error.{
  CameraErrorKind, RecoveryHint, OperationStage, ok, kind_from_str, kind_as_str, hint_from_str,
  hint_as_str, stage_from_str, stage_as_str, default_recovery_hint, priority,
  aggregate_recovery_hint,
}
use camera_rs.Error.Uvc.{uvc, uvc_backend, check}
use camera_rs.Error.Codes.{kind_from_str-eq-some, hint_from_str-eq-some, stage_from_str-eq-some}
use camera_rs.Error.Recovery.{aggregate_recovery_hint_lem, uvc_lem, check-ok}

kind_from_str_example :
    (kind_from_str "timeout" ≡ some CameraErrorKind.timeout)
    ↔ ("timeout" ≡ kind_as_str CameraErrorKind.timeout)
kind_from_str_example = kind_from_str-eq-some "timeout" CameraErrorKind.timeout

hint_from_str_example :
    (hint_from_str "retry" ≡ some RecoveryHint.retry) ↔ ("retry" ≡ hint_as_str RecoveryHint.retry)
hint_from_str_example = hint_from_str-eq-some "retry" RecoveryHint.retry

stage_from_str_example :
    (stage_from_str "open" ≡ some OperationStage.open_stage)
    ↔ ("open" ≡ stage_as_str OperationStage.open_stage)
stage_from_str_example = stage_from_str-eq-some "open" OperationStage.open_stage

abbrev two_hints : List RecoveryHint
two_hints = RecoveryHint.retry ∷ RecoveryHint.drop_frame ∷ []

aggregate_recovery_hint_example :
    Memᴰ (aggregate_recovery_hint two_hints) two_hints
    × (priority RecoveryHint.drop_frame ≤ priority (aggregate_recovery_hint two_hints))
aggregate_recovery_hint_example =
    aggregate_recovery_hint_lem two_hints RecoveryHint.drop_frame (Memᴰ.tail (Memᴰ.head refl))

uvc_example :
    (((uvc (negsuc 11)).kind ≡ CameraErrorKind.control_not_supported)
      ↔ ((uvc_backend (negsuc 11)).kind ≡ CameraErrorKind.unsupported_format))
    × (((uvc (negsuc 11)).kind ≡ CameraErrorKind.control_failure)
        ↔ ((uvc_backend (negsuc 11)).kind ≡ CameraErrorKind.backend_failure))
    × (((uvc (negsuc 11)).kind ≡ (uvc_backend (negsuc 11)).kind)
        ⊎ ((uvc_backend (negsuc 11)).kind ≡ CameraErrorKind.unsupported_format)
        ⊎ ((uvc_backend (negsuc 11)).kind ≡ CameraErrorKind.backend_failure))
    × ((uvc (negsuc 11)).recovery_hint ≡ default_recovery_hint (uvc (negsuc 11)).kind)
uvc_example = uvc_lem (negsuc 11)

check_example : (check (pos 0) OperationStage.open_stage ≡ ok tt) ↔ (pos 0 ≡ pos 0)
check_example = check-ok (pos 0) OperationStage.open_stage
