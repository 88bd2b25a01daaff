-- ===== src/Negotiation/Accept.antt =====
-- The filter on offered configurations and the check of a negotiated one agree.
use camera_rs.Base.{
  ℕ, ◌≡◌, refl, ◌↔◌, ◌⊎◌, Bool, true, false, not, ◌&&◌, ◌||◌, Option, none, some, inl, inr, arith,
  is_some_and, is_none_or, ◌==◌,
}
use camera_rs.Error.{
  CameraErrorKind, new as error, CameraError, CameraResult, ok, err, ◌>>◌, fail_if,
}
use camera_rs.Config.Size.{validate-ok}
use camera_rs.Format.Rate.Normal.{new-ok}
use camera_rs.Config.{CameraConfig, frame_rate, validate}
use camera_rs.Format.Rate.{FrameRate, cmp, rate_lt, rate_le}
use camera_rs.Format.Pixel.{FrameLayout}
use camera_rs.Negotiation.{
  CaptureRequest, is_empty, prefers, has_ratio, same_size, reaches, is_acceptable,
  validate_requested_capture,
}

-- A rate is below a minimum exactly when the minimum is not at most the rate.
rate_lt-eq-not : (x y : FrameRate) → rate_lt x y ≡ not (rate_le y x)
unfolding cmp
rate_lt-eq-not x y = ground arith

pub result-cases {ℓ} :
    {A : Type ℓ} (m : CameraResult A) → ((a : A) × (m ≡ ok a)) ⊎ ((e : CameraError) × (m ≡ err e))
result-cases (ok a) = inl (a, refl)
result-cases (err e) = inr (e, refl)

frame_rate-ok :
    (c : CameraConfig) → validate c ≡ ok tt → (rate : FrameRate) × (frame_rate c ≡ ok rate)
unfolding frame_rate
frame_rate-ok c valid =
    let (_, _, fps, denominator, _) = (validate-ok c).0 valid in
    let (rate, made, _, _, _, _) = new-ok c.fps c.fps_denominator fps denominator in (rate, made)

-- Four guards that return early, then a last one.
guards :
    (a b c d e : Bool) (x y : CameraError)
    → ((fail_if a x >> (fail_if b x >> (fail_if c x >> (fail_if d x >> fail_if e y)))) ≡ ok tt)
      ↔ ((a ≡ false) × (b ≡ false) × (c ≡ false) × (d ≡ false) × (e ≡ false))
guards a b c d e x y = ground arith

minimum_lem :
    (o : Option FrameRate) (rate : FrameRate)
    → is_some_and o (λ minimum. rate_lt rate minimum)
      ≡ not (is_none_or o (λ minimum. rate_le minimum rate))
minimum_lem none rate = refl
minimum_lem (some minimum) rate = rate_lt-eq-not rate minimum

ratio_lem :
    (o : Option (ℕ × ℕ)) (c : CameraConfig)
    → is_some_and o (λ ratio. not (has_ratio c ratio)) ≡ not (is_none_or o (has_ratio c))
ratio_lem none c = refl
ratio_lem (some ratio) c = refl

-- The driver's configuration passes `validate_requested_capture` exactly when the filter on offered
-- configurations would have kept it and the first frame has its dimensions.
pub validate_requested_capture-ok :
    (r : CaptureRequest) (c : CameraConfig) (first : FrameLayout)
    → (validate_requested_capture r c first ≡ ok tt)
      ↔ ((is_acceptable r c ≡ true) × (first.width ≡ c.width) × (first.height ≡ c.height))
unfolding validate_requested_capture is_acceptable reaches
validate_requested_capture-ok r c first = elim (result-cases (validate c)) [
  | inr (e, wrong) ↦
      rw (wrong, validate_requested_capture, is_acceptable)
        (λ h. absurd (cc h), λ h. absurd (cc h.0))
  | inl (u, valid) ↦
      let (rate, rated) = frame_rate-ok c valid in
      let slow = minimum_lem r.minimum_fps rate in
      let ratio = ratio_lem r.required_aspect_ratio c in
      let passed =
        guards (is_some_and r.minimum_fps (λ minimum. rate_lt rate minimum))
          (not (is_empty r.preferred_formats) && not (prefers r c.format))
          (r.exact_resolution && not (same_size r c))
          (is_some_and r.required_aspect_ratio (λ ratio. not (has_ratio c ratio)))
          (not (first.width == c.width) || not (first.height == c.height))
          (error CameraErrorKind.unsupported_format) (error CameraErrorKind.invalid_frame) in
      rw (valid, rated, validate_requested_capture, is_acceptable, reaches)
        (
          λ h. ground (arith, passed.0 h, slow, ratio),
          λ h. passed.1 (ground (arith, h, slow, ratio)),
        )
]
