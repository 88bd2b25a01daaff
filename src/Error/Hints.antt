-- ===== src/Error/Hints.antt =====
-- `CameraError` with its kind, its recovery hint and the stage that it names, and the hints that
-- `default_recovery_hint` and `aggregate_recovery_hint` of src/error.rs choose.
use camera_rs.Base.{
  ◌≡◌, refl, arith, ℕ, Bool, true, false, List, [], ◌∷◌, Option, none, some, leb, map,
  if◌then◌else◌,
}
use camera_rs.Error.Kinds.{CameraErrorKind, RecoveryHint, OperationStage}

unfoldable pub default_recovery_hint : CameraErrorKind → RecoveryHint
default_recovery_hint CameraErrorKind.permission_required = RecoveryHint.request_permission
default_recovery_hint CameraErrorKind.permission_denied = RecoveryHint.request_permission
default_recovery_hint CameraErrorKind.permission_managed_externally =
    RecoveryHint.request_permission
default_recovery_hint CameraErrorKind.device_not_found = RecoveryHint.reenumerate_device
default_recovery_hint CameraErrorKind.device_disconnected = RecoveryHint.reenumerate_device
default_recovery_hint CameraErrorKind.device_busy = RecoveryHint.retry
default_recovery_hint CameraErrorKind.device_open_failed = RecoveryHint.retry
default_recovery_hint CameraErrorKind.backend_failure = RecoveryHint.retry
default_recovery_hint CameraErrorKind.stream_failure = RecoveryHint.retry
default_recovery_hint CameraErrorKind.timeout = RecoveryHint.retry
default_recovery_hint CameraErrorKind.io = RecoveryHint.retry
default_recovery_hint CameraErrorKind.worker_failure = RecoveryHint.retry
default_recovery_hint CameraErrorKind.invalid_argument = RecoveryHint.change_configuration
default_recovery_hint CameraErrorKind.unsupported_format = RecoveryHint.change_configuration
default_recovery_hint CameraErrorKind.control_not_supported = RecoveryHint.change_configuration
default_recovery_hint CameraErrorKind.control_not_readable = RecoveryHint.change_configuration
default_recovery_hint CameraErrorKind.backend_not_compiled = RecoveryHint.enable_backend
default_recovery_hint CameraErrorKind.unsupported_target = RecoveryHint.enable_backend
default_recovery_hint CameraErrorKind.invalid_frame = RecoveryHint.drop_frame
default_recovery_hint CameraErrorKind.buffer_exhausted = RecoveryHint.reduce_resource_usage
default_recovery_hint CameraErrorKind.backend_option_mismatch = RecoveryHint.none_hint
default_recovery_hint CameraErrorKind.multiple_backends_failed = RecoveryHint.none_hint
default_recovery_hint CameraErrorKind.ambiguous_device = RecoveryHint.none_hint
default_recovery_hint CameraErrorKind.invalid_state = RecoveryHint.none_hint
default_recovery_hint CameraErrorKind.stream_stopped = RecoveryHint.none_hint
default_recovery_hint CameraErrorKind.control_failure = RecoveryHint.none_hint
default_recovery_hint CameraErrorKind.internal = RecoveryHint.none_hint

pub record CameraError : Type 0 where
  pub kind : CameraErrorKind
  pub recovery_hint : RecoveryHint
  pub stage : Option OperationStage

-- `CameraError::new`, `with_stage` and `with_recovery_hint`.
unfoldable pub new : CameraErrorKind → CameraError
new k = record { kind = k; recovery_hint = default_recovery_hint k; stage = none }

unfoldable pub with_stage : CameraError → OperationStage → CameraError
with_stage e s = record e { stage = some s }

unfoldable pub with_recovery_hint : CameraError → RecoveryHint → CameraError
with_recovery_hint e h = record e { recovery_hint = h }

pub data CameraResult {ℓ} (A : Type ℓ) : Type ℓ where
  ok : A → CameraResult A
  err : CameraError → CameraResult A

-- The operator `?`: an error leaves the caller at once.
infixl 5 ◌>>◌
infixl 5 ◌>>=◌
abbrev pub ◌>>=◌ {ℓ κ} :
    {From : Type ℓ} {To : Type κ} → CameraResult From → (From → CameraResult To) → CameraResult To
err failure >>= continue = err failure
ok value >>= continue = continue value

abbrev pub ◌>>◌ {ℓ} : {To : Type ℓ} → CameraResult (Unit {0}) → CameraResult To → CameraResult To
err failure >> rest = err failure
ok _ >> rest = rest

-- An early return of an error when a test holds.
abbrev pub fail_if : Bool → CameraError → CameraResult (Unit {0})
fail_if true e = err e
fail_if false e = ok tt

-- `Option::ok_or`.
abbrev pub ok_or {ℓ} : {A : Type ℓ} → Option A → CameraError → CameraResult A
ok_or none e = err e
ok_or (some a) e = ok a

-- The key of `max_by_key` in `aggregate_recovery_hint`.
unfoldable pub priority : RecoveryHint → ℕ
priority RecoveryHint.none_hint = 0
priority RecoveryHint.drop_frame = 1
priority RecoveryHint.enable_backend = 2
priority RecoveryHint.change_configuration = 3
priority RecoveryHint.reduce_resource_usage = 4
priority RecoveryHint.retry = 5
priority RecoveryHint.reenumerate_device = 6
priority RecoveryHint.request_permission = 7

-- `Iterator::max_by_key`: of two hints with the same key the later one.
unfoldable pub max_by_priority : RecoveryHint → List RecoveryHint → RecoveryHint
max_by_priority best [] = best
max_by_priority best (h ∷ hs) =
    max_by_priority (if leb (priority best) (priority h) then h else best) hs

unfoldable pub aggregate_recovery_hint : List RecoveryHint → RecoveryHint
unfolding max_by_priority priority
aggregate_recovery_hint [] = RecoveryHint.none_hint
aggregate_recovery_hint (h ∷ hs) = max_by_priority h hs

-- `all_backends_failed` and `control_batch`, over the errors that they gather.
unfoldable pub all_backends_failed : List CameraError → CameraError
unfolding aggregate_recovery_hint
all_backends_failed attempts =
    with_recovery_hint (new CameraErrorKind.multiple_backends_failed)
      (aggregate_recovery_hint (map (λ e. e.recovery_hint) attempts))

unfoldable pub control_batch : List CameraError → CameraError
unfolding aggregate_recovery_hint
control_batch causes =
    with_recovery_hint (new CameraErrorKind.control_failure)
      (aggregate_recovery_hint (map (λ e. e.recovery_hint) causes))

-- Inversion of a success, for proofs where the parts stay shut.
pub >>-eq-ok {ℓ} :
    {To : Type ℓ} (check : CameraResult (Unit {0})) (rest : CameraResult To) {v : To}
    → (check >> rest) ≡ ok v
    → (check ≡ ok tt) × (rest ≡ ok v)
>>-eq-ok (err failure) rest done = cc
>>-eq-ok (ok _) rest done = (refl, done)

pub >>=-eq-ok {ℓ κ} :
    {From : Type ℓ} {To : Type κ} (first : CameraResult From) (rest : From → CameraResult To)
    {v : To}
    → (first >>= rest) ≡ ok v
    → (u : From) × (first ≡ ok u) × (rest u ≡ ok v)
>>=-eq-ok (err failure) rest done = cc
>>=-eq-ok (ok u) rest done = (u, refl, done)

pub fail_if-eq-ok : (b : Bool) (e : CameraError) → fail_if b e ≡ ok tt → b ≡ false
fail_if-eq-ok b e h = ground arith

pub ok_or-eq-ok {ℓ} :
    {A : Type ℓ} (o : Option A) (e : CameraError) {a : A} → ok_or o e ≡ ok a → o ≡ some a
ok_or-eq-ok none e h = cc
ok_or-eq-ok (some b) e h = ground arith
