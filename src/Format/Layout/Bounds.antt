-- ===== src/Format/Layout/Bounds.antt =====
-- What `validate` guarantees to a reader of the frame.
use mathlib.Core.Option.{some-injective}
use camera_rs.Base.{
  ℕ, zero, suc, ◌+◌, ◌*◌, ◌-◌, ◌≤◌, ◌<◌, ◌≡◌, refl, subst, false, List, [], ◌∷◌, some, length,
  get_elem?, arith, inl, inr, Option-cases,
}
use camera_rs.Error.{ok, >>-eq-ok}
use camera_rs.Format.Pixel.{PixelFormat, PlaneLayout, FrameLayout, is_encoded}
use camera_rs.Format.Layout.{
  PlaneSpec, plane_specs, check_strides, check_plane, check_planes, validate,
}

-- The byte of channel `c` of the sample in column `x` and row `y`, from the start of the plane.
abbrev pub sample_at : PlaneLayout → ℕ → ℕ → ℕ → ℕ
sample_at p x y c = y * p.row_stride + x * p.pixel_stride + c

-- Every sample of the plane lies inside the plane, and the plane inside the frame's `len` bytes.
pub record IsReadable (len : ℕ) (p : PlaneLayout) (s : PlaneSpec) : Type 0 where
  pub inside : p.offset + p.length ≤ len
  pub samples :
      (x y c : ℕ) → x < s.cols → y < s.rows → c < s.channels → sample_at p x y c < p.length

sample_bound :
    (x y c cols rows channels ps rs len : ℕ)
    → x < cols
    → y < rows
    → c < channels
    → (rows - 1) * rs + ((cols - 1) * ps + channels) ≤ len
    → y * rs + x * ps + c < len
sample_bound x y c (suc cols) (suc rows) channels ps rs len hx hy hc h = grind arith
sample_bound x y c zero rows channels ps rs len hx hy hc h = absurd (omega arith)
sample_bound x y c (suc cols) zero channels ps rs len hx hy hc h = absurd (omega arith)

check_strides-ok :
    (f : PixelFormat) (p : PlaneLayout) (s : PlaneSpec)
    → check_strides f p s ≡ ok tt
    → (s.rows - 1) * p.row_stride + ((s.cols - 1) * p.pixel_stride + s.channels) ≤ p.length
unfolding check_strides
check_strides-ok f p s h = ground arith

check_plane-IsReadable :
    (f : PixelFormat) (len : ℕ) (p : PlaneLayout) (s : PlaneSpec)
    → is_encoded f ≡ false
    → check_plane f len p s ≡ ok tt
    → IsReadable len p s
unfolding check_plane
check_plane-IsReadable f len p s e h = record {
  inside = ground arith;
  samples = λ x y c hx hy hc.
      sample_bound x y c s.cols s.rows s.channels p.pixel_stride p.row_stride p.length hx hy hc
        (check_strides-ok f p s (ground arith));
}

check_planes-IsReadable :
    (f : PixelFormat) (len : ℕ) (ps : List PlaneLayout) (ss : List PlaneSpec) (i : ℕ)
    {p : PlaneLayout}
    → is_encoded f ≡ false
    → check_planes f len ps ss ≡ ok tt
    → length ps ≡ length ss
    → get_elem? ps i ≡ some p
    → (s : PlaneSpec) × (get_elem? ss i ≡ some s) × IsReadable len p s
unfolding check_planes
check_planes-IsReadable f len [] ss i e h n g = absurd (cc)
check_planes-IsReadable f len (p ∷ ps) [] i e h n g = absurd (omega arith)
check_planes-IsReadable f len (p ∷ ps) (s ∷ ss) zero {p = q} e h n g = (
  s,
  refl,
  subst (λ r. IsReadable len r s) (some-injective p q g)
      (check_plane-IsReadable f len p s e (>>-eq-ok (check_plane f len p s) _ h).0),
)
check_planes-IsReadable f len (p ∷ ps) (s ∷ ss) (suc i) e h n g =
    check_planes-IsReadable f len ps ss i e (>>-eq-ok (check_plane f len p s) _ h).1 (omega arith) g

-- A layout that `validate` accepts for a buffer of `len` bytes has one plane for each spec of its
-- format, both dimensions positive, and every sample of every plane at an offset inside the buffer:
-- no conversion kernel that follows the layout reads out of bounds. (Encoded formats have no samples.)
pub validate-IsReadable :
    (l : FrameLayout) (len i : ℕ) {p : PlaneLayout}
    → is_encoded l.format ≡ false
    → validate l len ≡ ok tt
    → get_elem? l.planes i ≡ some p
    → (0 < l.width)
      × (0 < l.height)
      × (specs : List PlaneSpec) × (plane_specs l.format l.width l.height ≡ some specs)
      × (length l.planes ≡ length specs)
      × (s : PlaneSpec) × (get_elem? specs i ≡ some s)
      × IsReadable len p s
unfolding validate
validate-IsReadable l len i e h g = elim (Option-cases (plane_specs l.format l.width l.height)) [
  | inl miss ↦ absurd (ground (arith, miss))
  | inr (specs, hit) ↦
      let parts : (0 < l.width)
          × (0 < l.height)
          × (length l.planes ≡ length specs)
          × (check_planes l.format len l.planes specs ≡ ok tt) =
        ground (arith, hit) in
      let found = check_planes-IsReadable l.format len l.planes specs i e parts.3 parts.2 g in
      (parts.0, parts.1, specs, hit, parts.2, found.0, found.1, found.2)
]
