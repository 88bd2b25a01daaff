-- ===== src/Convert/Packed422.antt =====
-- The samples of packed 4:2:2 formats that src/conversion.rs reads lie inside a frame whose layout `validate`
-- accepts.
use mathlib.Core.Option.{some-injective}
use camera_rs.Base.{
  ℕ, ◌+◌, ◌*◌, ◌/◌, ◌%◌, ◌<◌, ◌≡◌, refl, ap, subst, ◌∙◌, true, false, List, [], ◌∷◌, none, some,
  get_elem?, length, ◌==◌, ==_iff, if◌then◌else◌, Bool-cases, inl, inr, arith,
}
use camera_rs.Error.{ok, >>-eq-ok}
use camera_rs.Format.Pixel.{PixelFormat, PlaneLayout, FrameLayout, is_encoded, is_packed_422}
use camera_rs.Format.Layout.{
  PlaneSpec, plane_specs, check_strides, check_plane, check_planes, validate,
}
use camera_rs.Format.Layout.Bounds.{IsReadable}
use camera_rs.Convert.Colour.{Coefficients}
use camera_rs.Convert.Scale.{even_part, yuv_sample}
use camera_rs.Convert.Reads.{full, plane_of, sample-some, three_samples, at_start, luma}

check_plane-stride :
    (f : PixelFormat) (len : ℕ) (p : PlaneLayout) (s : PlaneSpec)
    → is_encoded f ≡ false
    → is_packed_422 f ≡ true
    → check_plane f len p s ≡ ok tt
    → p.pixel_stride ≡ 2
unfolding check_plane check_strides
check_plane-stride f len p s raw packed h = ground (arith, raw, packed, h)

check_planes-first :
    (f : PixelFormat) (len : ℕ) (ps : List PlaneLayout) (s : PlaneSpec) (p : PlaneLayout)
    → check_planes f len ps (s ∷ []) ≡ ok tt
    → get_elem? ps 0 ≡ some p
    → check_plane f len p s ≡ ok tt
unfolding check_planes
check_planes-first f len [] s p h at = absurd (cc at)
check_planes-first f len (q ∷ ps) s p h at =
    subst (λ r. check_plane f len r s ≡ ok tt) (some-injective q p at)
      (>>-eq-ok (check_plane f len q s) _ h).0

module _ (l : FrameLayout) (bytes : List ℕ) (valid : validate l (length bytes) ≡ ok tt) where
  validate-planes :
      (specs : List PlaneSpec)
      → plane_specs l.format l.width l.height ≡ some specs
      → check_planes l.format (length bytes) l.planes specs ≡ ok tt
  unfolding validate
  validate-planes specs hit = ground (arith, valid, hit)

  validate-specs : plane_specs l.format l.width l.height ≡ none → ⊥
  unfolding validate
  validate-specs miss = ground (arith, valid, miss)

  module _ (c : Coefficients) (x y : ℕ) (hx : x < l.width) (hy : y < l.height) where
    -- With the stride of two, and the pair of samples that even and odd columns share.
    pair_of :
        (p : PlaneLayout) (i : ℕ)
        → l.width % 2 ≡ 0
        → p.pixel_stride ≡ 2
        → IsReadable (length bytes) p (full l.width l.height 2)
        → i < 4
        → (v : ℕ) × (get_elem? bytes (p.offset + y * p.row_stride + even_part x * 2 + i) ≡ some v)
    pair_of p i even two r lt =
        sample-some bytes p _ (even_part x + i / 2) y (i % 2) _ r (omega (arith, hx, even, lt)) hy
          (omega arith) (grind (arith, two))

    -- What `validate` says of a packed 4:2:2 format `f`.
    packed_422-facts :
        (f : PixelFormat)
        → l.format ≡ f
        → is_packed_422 f ≡ true
        → is_encoded f ≡ false
        → plane_specs f l.width l.height
          ≡ (if l.width % 2 == 0 then some (full l.width l.height 2 ∷ []) else none)
        → (p : PlaneLayout) × (get_elem? l.planes 0 ≡ some p)
          × IsReadable (length bytes) p (full l.width l.height 2)
          × (l.width % 2 ≡ 0)
          × (p.pixel_stride ≡ 2)
    packed_422-facts f e packed raw specs = elim (Bool-cases (l.width % 2 == 0)) [
      | inr odd ↦
          absurd (validate-specs (ap (λ g. plane_specs g l.width l.height) e ∙ specs ∙ rw odd refl))
      | inl even ↦
          let hit : plane_specs f l.width l.height ≡ some (full l.width l.height 2 ∷ []) =
            specs ∙ rw even refl in
          let (p, at, r) =
            plane_of l bytes valid f (full l.width l.height 2 ∷ []) 0 _ e raw hit refl in
          let planes =
            validate-planes (full l.width l.height 2 ∷ [])
              (ap (λ g. plane_specs g l.width l.height) e ∙ hit) in
          let stride =
            check_plane-stride l.format (length bytes) p (full l.width l.height 2)
              (ap is_encoded e ∙ raw) (ap is_packed_422 e ∙ packed)
              (check_planes-first l.format (length bytes) l.planes (full l.width l.height 2) p
                planes at) in
          (p, at, r, (==_iff (l.width % 2) 0).0 even, stride)
    ]

    pub yuyv-some :
        l.format ≡ PixelFormat.yuyv
        → (p : List ℕ) × (yuv_sample l bytes c y x ≡ some p) × (length p ≡ 3)
    unfolding yuv_sample plane_specs is_encoded is_packed_422
    yuyv-some e =
        let (p, at, r, even, two) = packed_422-facts PixelFormat.yuyv e refl refl refl in
        rw (at, e, yuv_sample)
          (three_samples c _ _ _
            (at_start l bytes valid c x y hx hy _
              (luma l bytes valid c x y hx hy p 2 0 r (omega arith)))
            (pair_of p 1 even two r (omega arith)) (pair_of p 3 even two r (omega arith)))

    pub uyvy-some :
        l.format ≡ PixelFormat.uyvy
        → (p : List ℕ) × (yuv_sample l bytes c y x ≡ some p) × (length p ≡ 3)
    unfolding yuv_sample plane_specs is_encoded is_packed_422
    uyvy-some e =
        let (p, at, r, even, two) = packed_422-facts PixelFormat.uyvy e refl refl refl in
        rw (at, e, yuv_sample)
          (three_samples c _ _ _ (luma l bytes valid c x y hx hy p 2 1 r (omega arith))
            (at_start l bytes valid c x y hx hy _ (pair_of p 0 even two r (omega arith)))
            (pair_of p 2 even two r (omega arith)))
