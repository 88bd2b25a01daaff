-- ===== src/Error/Codes.antt =====
-- The codes are a faithful text form: `from_str` reads back exactly what `as_str` writes.
use Prim.Native.String.{String}
use mathlib.Core.Option.{some-injective}
use text.Mathlib.Text.{◌==◌ as str_eq}
use text.Mathlib.TextEquality.{eq_iff}
use camera_rs.Base.{
  List, [], ◌∷◌, some, ◌≡◌, refl, ◌↔◌, ◌∙◌, sym, subst, ap, inl, inr, All, Bool-cases,
}
use camera_rs.Error.Kinds.{
  CameraErrorKind, RecoveryHint, OperationStage, match_str, kind_as_str, kind_arms, kind_from_str,
  hint_as_str, hint_arms, hint_from_str, stage_as_str, stage_arms, stage_from_str,
}

-- What a match finds has every property that holds of all its arms.
match_str-All :
    {A : Type 0} (P : String → A → Type 0) (arms : List (String × A)) (s : String) (a : A)
    → All (λ arm. P arm.0 arm.1) arms
    → match_str arms s ≡ some a
    → P s a
unfolding match_str
match_str-All P [] s a h e = cc
match_str-All P ((k, b) ∷ arms) s a h e = elim (Bool-cases (str_eq s k)) [
  | inl hit ↦
      subst (P s) (some-injective b a (rw hit at e))
        (subst (λ t. P t b) (sym ((eq_iff s k).0 hit)) h.0)
  | inr miss ↦ match_str-All P arms s a h.1 (rw miss at e)
]

kind_arms-All : All (λ arm. arm.0 ≡ kind_as_str arm.1) kind_arms
unfolding kind_as_str
kind_arms-All = (
  refl,
  (
    refl,
    (
      refl,
      (
        refl,
        (
          refl,
          (
            refl,
            (
              refl,
              (
                refl,
                (
                  refl,
                  (
                    refl,
                    (
                      refl,
                      (
                        refl,
                        (
                          refl,
                          (
                            refl,
                            (
                              refl,
                              (
                                refl,
                                (
                                  refl,
                                  (
                                    refl,
                                    (
                                      refl,
                                      (
                                        refl,
                                        (refl, (refl, (refl, (refl, (refl, (refl, (refl, tt))))))),
                                      ),
                                    ),
                                  ),
                                ),
                              ),
                            ),
                          ),
                        ),
                      ),
                    ),
                  ),
                ),
              ),
            ),
          ),
        ),
      ),
    ),
  ),
)

kind_from_str_of_as_str : (a : CameraErrorKind) → kind_from_str (kind_as_str a) ≡ some a
unfolding kind_from_str kind_as_str
kind_from_str_of_as_str CameraErrorKind.invalid_argument = refl
kind_from_str_of_as_str CameraErrorKind.backend_not_compiled = refl
kind_from_str_of_as_str CameraErrorKind.unsupported_target = refl
kind_from_str_of_as_str CameraErrorKind.backend_option_mismatch = refl
kind_from_str_of_as_str CameraErrorKind.backend_failure = refl
kind_from_str_of_as_str CameraErrorKind.multiple_backends_failed = refl
kind_from_str_of_as_str CameraErrorKind.device_not_found = refl
kind_from_str_of_as_str CameraErrorKind.device_busy = refl
kind_from_str_of_as_str CameraErrorKind.device_open_failed = refl
kind_from_str_of_as_str CameraErrorKind.device_disconnected = refl
kind_from_str_of_as_str CameraErrorKind.ambiguous_device = refl
kind_from_str_of_as_str CameraErrorKind.permission_required = refl
kind_from_str_of_as_str CameraErrorKind.permission_denied = refl
kind_from_str_of_as_str CameraErrorKind.permission_managed_externally = refl
kind_from_str_of_as_str CameraErrorKind.invalid_state = refl
kind_from_str_of_as_str CameraErrorKind.stream_stopped = refl
kind_from_str_of_as_str CameraErrorKind.stream_failure = refl
kind_from_str_of_as_str CameraErrorKind.timeout = refl
kind_from_str_of_as_str CameraErrorKind.buffer_exhausted = refl
kind_from_str_of_as_str CameraErrorKind.invalid_frame = refl
kind_from_str_of_as_str CameraErrorKind.unsupported_format = refl
kind_from_str_of_as_str CameraErrorKind.control_not_supported = refl
kind_from_str_of_as_str CameraErrorKind.control_not_readable = refl
kind_from_str_of_as_str CameraErrorKind.control_failure = refl
kind_from_str_of_as_str CameraErrorKind.io = refl
kind_from_str_of_as_str CameraErrorKind.worker_failure = refl
kind_from_str_of_as_str CameraErrorKind.internal = refl

-- Text `s` parses to the error kind `a` exactly when `s` is its code: the codes round trip both ways.
pub kind_from_str-eq-some :
    (s : String) (a : CameraErrorKind) → (kind_from_str s ≡ some a) ↔ (s ≡ kind_as_str a)
kind_from_str-eq-some s a = (
  unfold kind_from_str in match_str-All (λ t b. t ≡ kind_as_str b) kind_arms s a kind_arms-All,
  λ e. ap kind_from_str e ∙ kind_from_str_of_as_str a,
)

hint_arms-All : All (λ arm. arm.0 ≡ hint_as_str arm.1) hint_arms
unfolding hint_as_str
hint_arms-All = (refl, (refl, (refl, (refl, (refl, (refl, (refl, (refl, tt))))))))

hint_from_str_of_as_str : (a : RecoveryHint) → hint_from_str (hint_as_str a) ≡ some a
unfolding hint_from_str hint_as_str
hint_from_str_of_as_str RecoveryHint.none_hint = refl
hint_from_str_of_as_str RecoveryHint.retry = refl
hint_from_str_of_as_str RecoveryHint.request_permission = refl
hint_from_str_of_as_str RecoveryHint.reenumerate_device = refl
hint_from_str_of_as_str RecoveryHint.change_configuration = refl
hint_from_str_of_as_str RecoveryHint.enable_backend = refl
hint_from_str_of_as_str RecoveryHint.drop_frame = refl
hint_from_str_of_as_str RecoveryHint.reduce_resource_usage = refl

-- Text `s` parses to the recovery hint `a` exactly when `s` is its code: the codes round trip both ways.
pub hint_from_str-eq-some :
    (s : String) (a : RecoveryHint) → (hint_from_str s ≡ some a) ↔ (s ≡ hint_as_str a)
hint_from_str-eq-some s a = (
  unfold hint_from_str in match_str-All (λ t b. t ≡ hint_as_str b) hint_arms s a hint_arms-All,
  λ e. ap hint_from_str e ∙ hint_from_str_of_as_str a,
)

stage_arms-All : All (λ arm. arm.0 ≡ stage_as_str arm.1) stage_arms
unfolding stage_as_str
stage_arms-All = (refl, (refl, (refl, (refl, (refl, (refl, (refl, (refl, (refl, tt)))))))))

stage_from_str_of_as_str : (a : OperationStage) → stage_from_str (stage_as_str a) ≡ some a
unfolding stage_from_str stage_as_str
stage_from_str_of_as_str OperationStage.enumeration = refl
stage_from_str_of_as_str OperationStage.open_stage = refl
stage_from_str_of_as_str OperationStage.capabilities = refl
stage_from_str_of_as_str OperationStage.startup = refl
stage_from_str_of_as_str OperationStage.first_frame = refl
stage_from_str_of_as_str OperationStage.frame_wait = refl
stage_from_str_of_as_str OperationStage.backend_command = refl
stage_from_str_of_as_str OperationStage.worker = refl
stage_from_str_of_as_str OperationStage.close = refl

-- Text `s` parses to the stage `a` exactly when `s` is its code: the codes round trip both ways.
pub stage_from_str-eq-some :
    (s : String) (a : OperationStage) → (stage_from_str s ≡ some a) ↔ (s ≡ stage_as_str a)
stage_from_str-eq-some s a = (
  unfold stage_from_str in match_str-All (λ t b. t ≡ stage_as_str b) stage_arms s a stage_arms-All,
  λ e. ap stage_from_str e ∙ stage_from_str_of_as_str a,
)
