-- ===== src/Error/Recovery.antt =====
-- What the recovery hints and the UVC status codes promise a caller.
use camera_rs.Base.{◌≤◌, List, [], ◌∷◌, ◌≡◌, refl, ◌⊎◌, ◌↔◌, inl, inr, leb, Bool-cases, arith, Memᴰ}
use camera_rs.Base.Int.{ℤ, pos, negsuc}
use camera_rs.Error.Kinds.{CameraErrorKind, RecoveryHint, OperationStage}
use camera_rs.Error.Hints.{
  ok, default_recovery_hint, priority, max_by_priority, aggregate_recovery_hint,
}
use camera_rs.Error.Uvc.{UvcErrorCode, from_code, uvc_kind, uvc_backend, uvc, check, control_kind}

max_by_priority-ge_best :
    (best : RecoveryHint) (hs : List RecoveryHint)
    → priority best ≤ priority (max_by_priority best hs)
unfolding max_by_priority
max_by_priority-ge_best best [] = omega arith
max_by_priority-ge_best best (h ∷ hs) =
    ground (arith, max_by_priority-ge_best best hs, max_by_priority-ge_best h hs)

max_by_priority-ge :
    (best : RecoveryHint) (hs : List RecoveryHint) {h : RecoveryHint}
    → Memᴰ h hs
    → priority h ≤ priority (max_by_priority best hs)
unfolding max_by_priority
max_by_priority-ge best [] m = elim m [ ]
max_by_priority-ge best (x ∷ hs) {h} (Memᴰ.head e) =
    ground (arith, max_by_priority-ge_best best hs, max_by_priority-ge_best x hs)
max_by_priority-ge best (x ∷ hs) (Memᴰ.tail m) =
    elim (Bool-cases (leb (priority best) (priority x))) [
      | inl e ↦ rw e (max_by_priority-ge x hs m)
      | inr e ↦ rw e (max_by_priority-ge best hs m)
    ]

max_by_priority-mem :
    (best : RecoveryHint) (hs : List RecoveryHint) → Memᴰ (max_by_priority best hs) (best ∷ hs)
unfolding max_by_priority
max_by_priority-mem best [] = Memᴰ.head refl
max_by_priority-mem best (x ∷ hs) = elim (Bool-cases (leb (priority best) (priority x))) [
  | inl e ↦ rw e (Memᴰ.tail (max_by_priority-mem x hs))
  | inr e ↦ rw e (skip (max_by_priority-mem best hs))
]
  where
    skip : {a : RecoveryHint} → Memᴰ a (best ∷ hs) → Memᴰ a (best ∷ x ∷ hs)
    skip (Memᴰ.head e) = Memᴰ.head e
    skip (Memᴰ.tail m) = Memᴰ.tail (Memᴰ.tail m)

-- The hint of a failed batch is the hint of one of its errors, and no error of the batch asks for a
-- more urgent action.
pub aggregate_recovery_hint_lem :
    (hs : List RecoveryHint) (h : RecoveryHint)
    → Memᴰ h hs
    → Memᴰ (aggregate_recovery_hint hs) hs × (priority h ≤ priority (aggregate_recovery_hint hs))
unfolding aggregate_recovery_hint
aggregate_recovery_hint_lem [] h m = elim m [ ]
aggregate_recovery_hint_lem (x ∷ hs) h m = (max_by_priority-mem x hs, ge m)
  where
    ge : Memᴰ h (x ∷ hs) → priority h ≤ priority (max_by_priority x hs)
    ge (Memᴰ.head e) = ground (arith, max_by_priority-ge_best x hs)
    ge (Memᴰ.tail n) = max_by_priority-ge x hs n

code_kind_lem :
    (c : UvcErrorCode)
    → let k = control_kind (uvc_kind c) in
      ((k ≡ CameraErrorKind.control_not_supported)
        ↔ (uvc_kind c ≡ CameraErrorKind.unsupported_format))
      × ((k ≡ CameraErrorKind.control_failure) ↔ (uvc_kind c ≡ CameraErrorKind.backend_failure))
      × ((k ≡ uvc_kind c)
          ⊎ (uvc_kind c ≡ CameraErrorKind.unsupported_format)
          ⊎ (uvc_kind c ≡ CameraErrorKind.backend_failure))
unfolding control_kind uvc_kind
code_kind_lem c = ground arith

-- The error of a control request has the kind "control not supported" exactly where a stream's error has
-- "unsupported format", and "control failure" exactly where that has "backend failure"; any other kind is
-- that of the stream's error. Its hint is the default one of its final kind.
pub uvc_lem :
    (code : ℤ)
    → (((uvc code).kind ≡ CameraErrorKind.control_not_supported)
        ↔ ((uvc_backend code).kind ≡ CameraErrorKind.unsupported_format))
      × (((uvc code).kind ≡ CameraErrorKind.control_failure)
          ↔ ((uvc_backend code).kind ≡ CameraErrorKind.backend_failure))
      × (((uvc code).kind ≡ (uvc_backend code).kind)
          ⊎ ((uvc_backend code).kind ≡ CameraErrorKind.unsupported_format)
          ⊎ ((uvc_backend code).kind ≡ CameraErrorKind.backend_failure))
      × ((uvc code).recovery_hint ≡ default_recovery_hint (uvc code).kind)
unfolding uvc uvc_backend
uvc_lem code =
    let (unsupported, failed, same) = code_kind_lem (from_code code) in
    (unsupported, failed, same, refl)

-- `check` accepts the code 0 and no other.
pub check-ok : (code : ℤ) (s : OperationStage) → (check code s ≡ ok tt) ↔ (code ≡ pos 0)
unfolding check
check-ok (pos n) s = ground arith
check-ok (negsuc n) s = (λ e. cc, λ e. cc)
