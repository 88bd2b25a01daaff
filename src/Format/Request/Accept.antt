-- ===== src/Format/Request/Accept.antt =====
-- What a request that `build` returns guarantees to the frame pool.
use native.Mathlib.Nat
use camera_rs.Base.{
  ℕ, ◌*◌, ◌/◌, ◌^◌, ◌≤◌, ◌<◌, ◌≡◌, ◌↔◌, ◌∙◌, ap, sym, refl, false, not, ◌&&◌, ◌||◌, ltb, leb, ◌==◌,
  Option, none, some, is_some_and, arith,
}
use camera_rs.Error.{ok}
use camera_rs.Format.Request.{
  StreamRequest, MemoryBudget, OutputFormat, ReconnectPolicy, wants_rgb, policy_is_invalid,
  validate_budget, build,
}
use camera_rs.Format.Layout.{rgb_bytes}

-- What every accepted request satisfies.
pub record IsAccepted (r : StreamRequest) : Type 0 where
  pub width_pos : 0 < r.width
  pub height_pos : 0 < r.height
  pub image_fits : r.width * r.height * 3 < 2 ^ 64
  pub buffers_low : 2 ≤ r.memory.buffers
  pub buffers_high : r.memory.buffers ≤ 256
  pub bytes_pos : 0 < r.memory.bytes
  pub startup_pos : 0 < r.startup_timeout
  -- every buffer of the pool can hold an RGB image at once
  pub rgb_pool_fits :
      r.output ≡ OutputFormat.rgb8 → r.width * r.height * 3 * r.memory.buffers ≤ r.memory.bytes
  pub driver_buffers_valid : (n : ℕ) → r.driver_buffers ≡ some n → (2 ≤ n) × (n ≤ 32)
  pub reconnect_valid :
      (p : ReconnectPolicy)
      → r.reconnect ≡ some p
      → (0 < p.delay) × (0 < p.stall_timeout) × ((n : ℕ) → p.max_attempts ≡ some n → 0 < n)

pool_fits : (n bytes buffers : ℕ) → 0 < buffers → n ≤ bytes / buffers → n * buffers ≤ bytes
pool_fits n bytes buffers h le = grind arith

share_fits : (n bytes buffers : ℕ) → 0 < buffers → n * buffers ≤ bytes → n ≤ bytes / buffers
share_fits n bytes buffers h le = (Nat.le-div_iff_mul-le h).1 le

build-only_IsAccepted : (r : StreamRequest) {q : StreamRequest} → build r ≡ ok q → IsAccepted r
unfolding build
build-only_IsAccepted r e = record {
  width_pos = ground arith;
  height_pos = ground arith;
  image_fits = ground arith;
  buffers_low = ground arith;
  buffers_high = ground arith;
  bytes_pos = ground arith;
  startup_pos = ground arith;
  rgb_pool_fits = λ o.
      pool_fits (r.width * r.height * 3) r.memory.bytes r.memory.buffers (ground arith)
        (ground arith);
  driver_buffers_valid = λ n h. ground arith;
  reconnect_valid = λ p h. (ground arith, ground arith, λ n k. ground arith);
}

same_request : (r q : StreamRequest) → build r ≡ ok q → q ≡ r
unfolding build
same_request r q e = ground arith

output_fits :
    (output : OutputFormat) (n : ℕ) (m : MemoryBudget)
    → 2 ≤ m.buffers
    → (output ≡ OutputFormat.rgb8 → n * m.buffers ≤ m.bytes)
    → (wants_rgb output && ltb (m.bytes / m.buffers) n) ≡ false
output_fits OutputFormat.native n m q f = refl
output_fits OutputFormat.rgb8 n m q f =
    ground (arith, share_fits n m.bytes m.buffers (omega arith) (f refl))

driver_buffers_fit :
    (o : Option ℕ)
    → ((n : ℕ) → o ≡ some n → (2 ≤ n) × (n ≤ 32))
    → is_some_and o (λ n. not (leb 2 n && leb n 32)) ≡ false
driver_buffers_fit none f = refl
driver_buffers_fit (some n) f = ground (arith, f n refl)

limit_pos : (o : Option ℕ) → ((n : ℕ) → o ≡ some n → 0 < n) → is_some_and o (λ n. n == 0) ≡ false
limit_pos none f = refl
limit_pos (some n) f = ground (arith, f n refl)

policy_fits :
    (o : Option ReconnectPolicy)
    → ((p : ReconnectPolicy)
        → o ≡ some p
        → (0 < p.delay) × (0 < p.stall_timeout) × ((n : ℕ) → p.max_attempts ≡ some n → 0 < n))
    → is_some_and o policy_is_invalid ≡ false
unfolding policy_is_invalid
policy_fits none f = refl
policy_fits (some p) f =
    let (delay, stall, limit) = f p refl in
    rw (limit_pos p.max_attempts limit) (ground (arith, delay, stall))

rgb_bytes-some : (w h : ℕ) → w * h * 3 < 2 ^ 64 → rgb_bytes w h ≡ some (w * h * 3)
rgb_bytes-some w h q = ground arith

builds_accepted : (r : StreamRequest) → IsAccepted r → build r ≡ ok r
unfolding build validate_budget
builds_accepted r a =
    let size = rgb_bytes-some r.width r.height a.image_fits in
    let output =
      output_fits r.output (r.width * r.height * 3) r.memory a.buffers_low a.rgb_pool_fits in
    let driver = driver_buffers_fit r.driver_buffers a.driver_buffers_valid in
    let policy = policy_fits r.reconnect a.reconnect_valid in
    let budget : (not (leb 2 r.memory.buffers && leb r.memory.buffers 256) || r.memory.bytes == 0)
        ≡ false =
      ground (arith, a.buffers_low, a.buffers_high, a.bytes_pos) in
    let dims : (r.width == 0 || r.height == 0 || false || r.startup_timeout == 0) ≡ false =
      ground (arith, a.width_pos, a.height_pos, a.startup_pos) in
    rw (size, budget, dims, output, driver, policy) refl

-- `build` accepts exactly the requests whose dimensions are positive and whose image fits a `usize`, whose
-- pool is within bounds and holds an RGB image in each buffer where RGB is asked for, whose driver buffers
-- are 2 to 32 where they are given, and whose deadlines and reconnect policy are positive; and it returns
-- the request unchanged.
pub build-IsAccepted : (r q : StreamRequest) → (build r ≡ ok q) ↔ ((q ≡ r) × IsAccepted r)
build-IsAccepted r q = (
  λ e. (same_request r q e, build-only_IsAccepted r e),
  λ a. builds_accepted r a.1 ∙ ap (λ x. ok x) (sym a.0),
)
