-- ===== src/Convert/Reads.antt =====
-- The scaled conversions of src/conversion.rs read inside a frame whose layout `validate` accepts.
use camera_rs.Base.{
  ℕ, zero, suc, ◌+◌, ◌*◌, ◌/◌, ◌<◌, ◌≡◌, refl, sym, ap, subst, ◌∙◌, false, List, [], ◌∷◌, ◌++◌,
  Option, some, get_elem?, length, arith, div_ceil, get_elem?-lt,
}
use mathlib.Core.Option.{some-injective}
use camera_rs.Error.{ok}
use camera_rs.Format.Pixel.{PixelFormat, PlaneLayout, FrameLayout, is_encoded}
use camera_rs.Format.Layout.{PlaneSpec, plane_specs, validate}
use camera_rs.Format.Layout.Bounds.{IsReadable, sample_at, validate-IsReadable}
use camera_rs.Convert.Colour.{Coefficients, yuv_pixel}
use camera_rs.Convert.Map.{AllBelow}
use camera_rs.Convert.Row.{all_three}
use camera_rs.Convert.Scale.{map_row, yuv_bytes, chroma_at, yuv_sample}

-- A read below the length succeeds.
pub get_elem?-some {ℓ} :
    {A : Type ℓ} (xs : List A) (i : ℕ) → i < length xs → (v : A) × (get_elem? xs i ≡ some v)
get_elem?-some [] i h = absurd (omega (arith, h))
get_elem?-some (b ∷ bs) zero h = (b, refl)
get_elem?-some (b ∷ bs) (suc i) h = get_elem?-some bs i (omega (arith, h))

pub length-append : (xs ys : List ℕ) → length (xs ++ ys) ≡ length xs + length ys
length-append [] ys = omega arith
length-append (x ∷ xs) ys = omega (arith, length-append xs ys)

-- Pixels for every entry of a map make a row of three bytes for each.
pub map_row-length :
    (f : ℕ → Option (List ℕ)) (size b : ℕ) (xs : List ℕ)
    → ((x : ℕ) → x < b → (p : List ℕ) × (f x ≡ some p) × (length p ≡ size))
    → AllBelow b xs
    → (row : List ℕ) × (map_row f xs ≡ some row) × (length row ≡ length xs * size)
map_row-length f size b [] pixel a = ([], refl, omega arith)
map_row-length f size b (x ∷ xs) pixel a =
    let (p, is_p, long) = pixel x a.0 in
    let (row, is_row, longs) = map_row-length f size b xs pixel a.1 in
    (p ++ row, rw (is_p, is_row) refl, grind (arith, long, longs, length-append p row))

pub three :
    (a b c : Option ℕ)
    → (v : ℕ) × (a ≡ some v)
    → (v : ℕ) × (b ≡ some v)
    → (v : ℕ) × (c ≡ some v)
    → (p : List ℕ) × (all_three a b c ≡ some p) × (length p ≡ 3)
three a b c (x, ex) (y, ey) (z, ez) = (x ∷ y ∷ z ∷ [], rw (ex, ey, ez) refl, refl)

pub three_samples :
    (k : Coefficients) (a b c : Option ℕ)
    → (v : ℕ) × (a ≡ some v)
    → (v : ℕ) × (b ≡ some v)
    → (v : ℕ) × (c ≡ some v)
    → (p : List ℕ) × (yuv_bytes k a b c ≡ some p) × (length p ≡ 3)
unfolding yuv_pixel
three_samples k a b c (x, ex) (y, ey) (z, ez) = (yuv_pixel k x y z, rw (ex, ey, ez) refl, refl)

-- A sample of a plane that can be read is in the frame.
pub sample-some :
    (bytes : List ℕ) (p : PlaneLayout) (s : PlaneSpec) (x y c i : ℕ)
    → IsReadable (length bytes) p s
    → x < s.cols
    → y < s.rows
    → c < s.channels
    → i ≡ p.offset + sample_at p x y c
    → (v : ℕ) × (get_elem? bytes i ≡ some v)
sample-some bytes p s x y c i r hx hy hc e =
    get_elem?-some bytes i (omega (arith, e, r.inside, r.samples x y c hx hy hc))

-- The plane for a spec of the format, and that it can be read.
pub plane-IsReadable :
    (l : FrameLayout) (len i : ℕ) (specs : List PlaneSpec) (s : PlaneSpec)
    → is_encoded l.format ≡ false
    → validate l len ≡ ok tt
    → plane_specs l.format l.width l.height ≡ some specs
    → get_elem? specs i ≡ some s
    → (p : PlaneLayout) × (get_elem? l.planes i ≡ some p) × IsReadable len p s
unfolding validate
plane-IsReadable l len i specs s raw valid hit at =
    let count : length l.planes ≡ length specs = ground (arith, valid, hit) in
    let (p, is_p) = get_elem?-some l.planes i (omega (arith, get_elem?-lt specs i s at, count)) in
    let (w, h, specs', hit', count', s', at', readable) =
      validate-IsReadable l len i raw valid is_p in
    let same : specs' ≡ specs = some-injective specs' specs (sym hit' ∙ hit) in
    let same_spec : s' ≡ s =
      some-injective s' s (sym at' ∙ subst (λ z. get_elem? z i ≡ some s) (sym same) at) in
    (p, is_p, subst (IsReadable len p) same_spec readable)

half-lt : (x w : ℕ) → x < w → x / 2 < div_ceil w 2
half-lt x w h = omega (arith, h)

abbrev pub full : ℕ → ℕ → ℕ → PlaneSpec
full w h n = record { cols = w; rows = h; channels = n }

abbrev pub half : ℕ → ℕ → ℕ → PlaneSpec
half w h n = record { cols = div_ceil w 2; rows = div_ceil h 2; channels = n }

module _ (l : FrameLayout) (bytes : List ℕ) (valid : validate l (length bytes) ≡ ok tt) where
  -- The plane of a format with these specs.
  pub plane_of :
      (f : PixelFormat) (specs : List PlaneSpec) (i : ℕ) (s : PlaneSpec)
      → l.format ≡ f
      → is_encoded f ≡ false
      → plane_specs f l.width l.height ≡ some specs
      → get_elem? specs i ≡ some s
      → (p : PlaneLayout) × (get_elem? l.planes i ≡ some p) × IsReadable (length bytes) p s
  plane_of f specs i s e raw hit at =
      plane-IsReadable l (length bytes) i specs s (ap is_encoded e ∙ raw) valid
        (ap (λ g. plane_specs g l.width l.height) e ∙ hit) at

  module _ (c : Coefficients) (x y : ℕ) (hx : x < l.width) (hy : y < l.height) where
    chroma :
        (p : PlaneLayout) (n i : ℕ)
        → IsReadable (length bytes) p (half l.width l.height n)
        → i < n
        → (v : ℕ) × (get_elem? bytes (chroma_at p x y + i) ≡ some v)
    chroma p n i r lt =
        sample-some bytes p _ (x / 2) (y / 2) i _ r (half-lt x l.width hx) (half-lt y l.height hy)
          lt (omega arith)

    pub luma :
        (p : PlaneLayout) (n i : ℕ)
        → IsReadable (length bytes) p (full l.width l.height n)
        → i < n
        → (v : ℕ) × (get_elem? bytes (p.offset + y * p.row_stride + x * p.pixel_stride + i)
            ≡ some v)
    luma p n i r lt = sample-some bytes p _ x y i _ r hx hy lt (omega arith)

    pub at_start :
        (i : ℕ)
        → (v : ℕ) × (get_elem? bytes (i + 0) ≡ some v)
        → (v : ℕ) × (get_elem? bytes i ≡ some v)
    at_start i found = subst (λ k. (v : ℕ) × (get_elem? bytes k ≡ some v)) (plain i) found
      where
        plain : (i : ℕ) → i + 0 ≡ i
        plain i = omega arith

    pub nv12-some :
        l.format ≡ PixelFormat.nv12
        → (p : List ℕ) × (yuv_sample l bytes c y x ≡ some p) × (length p ≡ 3)
    unfolding yuv_sample plane_specs is_encoded
    nv12-some e =
        let specs : List PlaneSpec = full l.width l.height 1 ∷ half l.width l.height 2 ∷ [] in
        let (p, at0, r0) = plane_of PixelFormat.nv12 specs 0 _ e refl refl refl in
        let (q, at1, r1) = plane_of PixelFormat.nv12 specs 1 _ e refl refl refl in
        rw (at0, e, at1, yuv_sample)
          (three_samples c _ _ _ (at_start _ (luma p 1 0 r0 (omega arith)))
            (at_start _ (chroma q 2 0 r1 (omega arith))) (chroma q 2 1 r1 (omega arith)))

    pub nv21-some :
        l.format ≡ PixelFormat.nv21
        → (p : List ℕ) × (yuv_sample l bytes c y x ≡ some p) × (length p ≡ 3)
    unfolding yuv_sample plane_specs is_encoded
    nv21-some e =
        let specs : List PlaneSpec = full l.width l.height 1 ∷ half l.width l.height 2 ∷ [] in
        let (p, at0, r0) = plane_of PixelFormat.nv21 specs 0 _ e refl refl refl in
        let (q, at1, r1) = plane_of PixelFormat.nv21 specs 1 _ e refl refl refl in
        rw (at0, e, at1, yuv_sample)
          (three_samples c _ _ _ (at_start _ (luma p 1 0 r0 (omega arith)))
            (chroma q 2 1 r1 (omega arith)) (at_start _ (chroma q 2 0 r1 (omega arith))))

    pub yuv420p-some :
        l.format ≡ PixelFormat.yuv420p
        → (p : List ℕ) × (yuv_sample l bytes c y x ≡ some p) × (length p ≡ 3)
    unfolding yuv_sample plane_specs is_encoded
    yuv420p-some e =
        let specs : List PlaneSpec =
          full l.width l.height 1 ∷ half l.width l.height 1 ∷ half l.width l.height 1 ∷ [] in
        let (p, at0, r0) = plane_of PixelFormat.yuv420p specs 0 _ e refl refl refl in
        let (q, at1, r1) = plane_of PixelFormat.yuv420p specs 1 _ e refl refl refl in
        let (q', at2, r2) = plane_of PixelFormat.yuv420p specs 2 _ e refl refl refl in
        rw (at0, e, at1, at2, yuv_sample)
          (three_samples c _ _ _ (at_start _ (luma p 1 0 r0 (omega arith)))
            (at_start _ (chroma q 1 0 r1 (omega arith)))
            (at_start _ (chroma q' 1 0 r2 (omega arith))))
