-- ===== src/Recovery/Compatible.antt =====
-- What a recovery in src/api.rs keeps of the negotiated capture, and how long it waits.
use camera_rs.Base.{
  ℕ, zero, suc, ◌≤◌, ◌<◌, ◌≡◌, ◌≢◌, inl, inr, refl, sym, ap, subst, ◌∙◌, Bool, true, false, not,
  ◌&&◌, ◌==◌, arith, Option, none, some, is_none_or,
}
use camera_rs.Error.{CameraError, CameraResult, ok, err, fail_if, ◌>>◌}
use camera_rs.Config.{
  VideoFormat, CameraConfig, format_index, format_eq, frame_rate, frame_size, validate,
}
use camera_rs.Config.Size.{validate-ok}
use camera_rs.Format.Rate.{FrameRate, new}
use camera_rs.Format.Pixel.{FrameLayout}
use camera_rs.Negotiation.{
  CaptureRequest, is_ok, is_acceptable, reaches, validate_requested_capture,
}
use camera_rs.Negotiation.Accept.{validate_requested_capture-ok, result-cases}
use camera_rs.Negotiation.Rank.{format_at, format_at-index}
use camera_rs.Recovery.{
  fast_delay, recovery_retry_delay, rate_eq, same_mode, validate_recovered_capture,
}

-- The delay never exceeds the configured one, and one more failure never makes it shorter.
pub recovery_retry_delay-grows :
    (configured n : ℕ)
    → (recovery_retry_delay configured n ≤ recovery_retry_delay configured (suc n))
      × (recovery_retry_delay configured n ≤ configured)
unfolding recovery_retry_delay fast_delay
recovery_retry_delay-grows configured zero = (omega arith, omega arith)
recovery_retry_delay-grows configured (suc zero) = (omega arith, omega arith)
recovery_retry_delay-grows configured (suc (suc zero)) = (omega arith, omega arith)
recovery_retry_delay-grows configured (suc (suc (suc zero))) = (omega arith, omega arith)
recovery_retry_delay-grows configured (suc (suc (suc (suc n)))) = (omega arith, omega arith)

-- A configuration that has the expected dimensions, format and rate.
record IsSameCapture (expected actual : CameraConfig) (first : FrameLayout) : Type 0 where
  width : actual.width ≡ expected.width
  height : actual.height ≡ expected.height
  format : actual.format ≡ expected.format
  rate : FrameRate
  actual_rate : frame_rate actual ≡ ok rate
  expected_rate : frame_rate expected ≡ ok rate
  first_width : first.width ≡ actual.width
  first_height : first.height ≡ actual.height

rate_eq-eq : (a b : FrameRate) → rate_eq a b ≡ true → a ≡ b
rate_eq-eq a b h =
    let n : a.numerator ≡ b.numerator = ground (arith, h) in
    let d : a.denominator ≡ b.denominator = ground (arith, h) in
    λ i. record { numerator = n i; denominator = d i }

format_eq-eq : (a b : VideoFormat) → format_eq a b ≡ true → a ≡ b
format_eq-eq a b h =
    let index : format_index a ≡ format_index b = ground (arith, h) in
    sym (format_at-index a) ∙ ap format_at index ∙ format_at-index b

same_mode-eq :
    (a b : CameraConfig)
    → same_mode a b ≡ true
    → (a.width ≡ b.width) × (a.height ≡ b.height) × (a.format ≡ b.format)
same_mode-eq a b h =
    (ground (arith, h), ground (arith, h), format_eq-eq a.format b.format (ground (arith, h)))

guards :
    (a b c : Bool) (x y z : CameraError)
    → (fail_if a x >> (fail_if b y >> fail_if c z)) ≡ ok tt
    → (a ≡ false) × (b ≡ false) × (c ≡ false)
guards a b c x y z h = ground (arith, h)

guard_err : (a : Bool) (x y : CameraError) → (fail_if a x >> err y) ≢ ok (tt {0})
guard_err true x y h = cc h
guard_err false x y h = cc h

validate_recovered_capture-ok :
    (expected actual : CameraConfig) (first : FrameLayout)
    → validate_recovered_capture expected actual first ≡ ok tt
    → IsSameCapture expected actual first
unfolding validate_recovered_capture
validate_recovered_capture-ok expected actual first e = elim (result-cases (frame_rate actual)) [
  | inr (x, bad) ↦ absurd (guard_err _ _ x (rw (bad, validate_recovered_capture) at e))
  | inl (rate, actual_rate) ↦ elim (result-cases (frame_rate expected)) [
    | inr (x, bad) ↦
        absurd (guard_err _ _ x (rw (actual_rate, bad, validate_recovered_capture) at e))
    | inl (wanted, expected_rate) ↦
        let (mode, rates, dims) =
          guards (not (same_mode actual expected)) (not (rate_eq rate wanted))
            (not (first.width == actual.width && first.height == actual.height)) _ _ _
            (rw (actual_rate, expected_rate, validate_recovered_capture) at e) in
        let (width, height, format) = same_mode-eq actual expected (ground (arith, mode)) in
        record {
          width = width;
          height = height;
          format = format;
          rate = rate;
          actual_rate = actual_rate;
          expected_rate =
              expected_rate ∙ ap (λ x. ok x) (sym (rate_eq-eq rate wanted (ground (arith, rates))));
          first_width = ground (arith, dims);
          first_height = ground (arith, dims);
        }
  ]
]

-- The expected configuration with the fields of the actual rate.
abbrev moved : CameraConfig → CameraConfig → CameraConfig
moved expected actual = record expected {
  fps = actual.fps;
  fps_denominator = actual.fps_denominator;
}

validate-moved :
    (expected actual : CameraConfig) (rate : FrameRate)
    → frame_rate actual ≡ ok rate
    → validate expected ≡ ok tt
    → validate (moved expected actual) ≡ ok tt
unfolding frame_rate new frame_size
validate-moved expected actual rate rated valid =
    let (width, height, _, _, size) = (validate-ok expected).0 valid in
    let fps : 0 < actual.fps = ground (arith, rated) in
    let denominator : 0 < actual.fps_denominator = ground (arith, rated) in
    (validate-ok (moved expected actual)).1 (width, height, fps, denominator, size)

reaches-moved :
    (o : Option FrameRate) (c d : CameraConfig) (rate : FrameRate)
    → frame_rate c ≡ ok rate
    → frame_rate d ≡ ok rate
    → is_none_or o (reaches c) ≡ is_none_or o (reaches d)
unfolding reaches
reaches-moved none c d rate hc hd = refl
reaches-moved (some minimum) c d rate hc hd = rw (hc, hd, reaches) refl

is_ok-eq : (m : CameraResult (Unit {0})) → is_ok m ≡ true → m ≡ ok tt
is_ok-eq (ok _) h = refl
is_ok-eq (err e) h = cc

-- The filter reads the dimensions, the format and the rate.
is_acceptable-moved :
    (r : CaptureRequest) (expected actual : CameraConfig) (rate : FrameRate)
    → frame_rate expected ≡ ok rate
    → frame_rate actual ≡ ok rate
    → is_acceptable r expected ≡ true
    → is_acceptable r (moved expected actual) ≡ true
unfolding is_acceptable frame_rate
is_acceptable-moved r expected actual rate expected_rate actual_rate h =
    let valid : validate expected ≡ ok tt = is_ok-eq (validate expected) (ground (arith, h)) in
    let still : is_ok (validate (moved expected actual)) ≡ true =
      ap (λ m. is_ok m) (validate-moved expected actual rate actual_rate valid) in
    let fast =
      reaches-moved r.minimum_fps (moved expected actual) expected rate actual_rate expected_rate in
    ground (arith, h, still, fast)

is_acceptable-same :
    (r : CaptureRequest) (expected actual : CameraConfig) (first : FrameLayout)
    → IsSameCapture expected actual first
    → is_acceptable r expected ≡ true
    → is_acceptable r actual ≡ true
is_acceptable-same r expected actual first s h =
    subst (λ c. is_acceptable r c ≡ true) same
      (is_acceptable-moved r expected actual s.rate s.expected_rate s.actual_rate h)
  where
    same : moved expected actual ≡ actual
    same = λ i. record {
      format = sym s.format i;
      width = sym s.width i;
      height = sym s.height i;
      fps = actual.fps;
      fps_denominator = actual.fps_denominator;
    }

-- After a recovery that the check accepts, the driver's configuration and the new first frame satisfy
-- every request that the capture satisfied before it.
pub recovered-IsAcceptable :
    (r : CaptureRequest) (expected actual : CameraConfig) (first recovered : FrameLayout)
    → validate_requested_capture r expected first ≡ ok tt
    → validate_recovered_capture expected actual recovered ≡ ok tt
    → validate_requested_capture r actual recovered ≡ ok tt
recovered-IsAcceptable r expected actual first recovered before after =
    let s = validate_recovered_capture-ok expected actual recovered after in
    let (kept, _, _) = (validate_requested_capture-ok r expected first).0 before in
    (validate_requested_capture-ok r actual recovered).1
      (is_acceptable-same r expected actual recovered s kept, s.first_width, s.first_height)
