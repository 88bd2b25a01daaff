-- ===== src/Convert/Packed.antt =====
-- The packed formats in `scale_nearest` of src/conversion.rs: every pixel is read inside the frame, and the
-- copy of whole RGB rows gives what the loop over the pixels would.
use camera_rs.Base.{
  ℕ, zero, suc, ◌+◌, ◌-◌, ◌*◌, ◌≤◌, ◌<◌, ◌≡◌, refl, sym, ap, ap₂, subst, ◌∙◌, true, false, ◌&&◌,
  List, [], ◌∷◌, ◌++◌, Option, none, some, get_elem?, length, take, drop, replicate, leb, ◌==◌,
  Bool-cases, inl, inr, arith,
}
use mathlib.Core.Option.{some-injective}
use camera_rs.Error.{ok}
use camera_rs.Format.Pixel.{PixelFormat, PlaneLayout, FrameLayout, is_encoded}
use camera_rs.Format.Layout.{plane_specs, validate}
use camera_rs.Format.Layout.Bounds.{IsReadable}
use camera_rs.Convert.Map.{
  Dimensions, columns, rows, length-tabulate, AllBelow, columns-AllBelow, rows-AllBelow,
}
use camera_rs.Convert.Row.{pixel_at, prepend, map_pixels, resize_rgb_row_nearest}
use camera_rs.Convert.Groups.{map_pixels-cons, length-drop, resize_rgb_row_nearest-eq}
use camera_rs.Convert.Scale.{
  is_packed_rgb, slice, map_row, packed_pixel, is_rgb8, scaled_row, scale_nearest,
}
use camera_rs.Convert.Reads.{
  get_elem?-some, map_row-length, three, full, plane_of, sample-some, length-append,
}
use camera_rs.Convert.Safe.{validate-positive}

map_pixels-some :
    (source destination : List ℕ) (w : ℕ) (xs : List ℕ)
    → length source ≡ w * 3
    → AllBelow w xs
    → length destination ≡ length xs * 3
    → (row : List ℕ) × (map_pixels source destination xs ≡ some row) × (length row ≡ length xs * 3)
unfolding map_pixels pixel_at
map_pixels-some source destination w [] long a wide = (destination, nothing destination, wide)
  where
    nothing : (d : List ℕ) → map_pixels source d [] ≡ some d
    nothing [] = refl
    nothing (b ∷ []) = refl
    nothing (b ∷ b' ∷ []) = refl
    nothing (b ∷ b' ∷ b'' ∷ bs) = refl
map_pixels-some source destination w (x ∷ xs) long a wide =
    let (p, is_p, size) =
      three _ _ _ (get_elem?-some source (x * 3) (omega (arith, a.0, long)))
        (get_elem?-some source (x * 3 + 1) (omega (arith, a.0, long)))
        (get_elem?-some source (x * 3 + 2) (omega (arith, a.0, long))) in
    let (row, is_row, sizes) =
      map_pixels-some source (drop 3 destination) w xs long a.1
        (omega (arith, wide, length-drop 3 destination)) in
    (
      p ++ row,
      map_pixels-cons source destination x xs (omega (arith, wide)) ∙ ap₂ prepend is_p is_row,
      omega (arith, size, sizes, length-append p row),
    )

length-take : (n : ℕ) (xs : List ℕ) → n ≤ length xs → length (take n xs) ≡ n
length-take zero xs h = refl
length-take (suc n) [] h = absurd (omega (arith, h))
length-take (suc n) (x ∷ xs) h = omega (arith, length-take n xs (omega (arith, h)))

length-replicate : (n : ℕ) (a : ℕ) → length (replicate n a) ≡ n
length-replicate zero a = refl
length-replicate (suc n) a = omega (arith, length-replicate n a)

abbrev channels : PixelFormat → ℕ
channels PixelFormat.rgb8 = 3
channels PixelFormat.bgr8 = 3
channels PixelFormat.gray8 = 1
channels _ = 4

-- A pixel whose bytes can be read.
packed_pixel-some :
    (f : PixelFormat) (bytes : List ℕ) (i : ℕ)
    → is_packed_rgb f ≡ true
    → ((k : ℕ) → k < channels f → (v : ℕ) × (get_elem? bytes (i + k) ≡ some v))
    → (p : List ℕ) × (packed_pixel f bytes i ≡ some p) × (length p ≡ 3)
unfolding packed_pixel pixel_at is_packed_rgb
packed_pixel-some f bytes i packed reads = of_format f packed reads
  where
    at :
        (j k : ℕ)
        → i + k ≡ j
        → (v : ℕ) × (get_elem? bytes (i + k) ≡ some v)
        → (v : ℕ) × (get_elem? bytes j ≡ some v)
    at j k e found = subst (λ n. (v : ℕ) × (get_elem? bytes n ≡ some v)) e found

    of_format :
        (f : PixelFormat)
        → is_packed_rgb f ≡ true
        → ((k : ℕ) → k < channels f → (v : ℕ) × (get_elem? bytes (i + k) ≡ some v))
        → (p : List ℕ) × (packed_pixel f bytes i ≡ some p) × (length p ≡ 3)
    of_format PixelFormat.rgb8 e r =
        three _ _ _ (at i 0 (omega arith) (r 0 (omega arith))) (r 1 (omega arith))
          (r 2 (omega arith))
    of_format PixelFormat.rgba8 e r =
        three _ _ _ (at i 0 (omega arith) (r 0 (omega arith))) (r 1 (omega arith))
          (r 2 (omega arith))
    of_format PixelFormat.bgr8 e r =
        three _ _ _ (r 2 (omega arith)) (r 1 (omega arith))
          (at i 0 (omega arith) (r 0 (omega arith)))
    of_format PixelFormat.bgra8 e r =
        three _ _ _ (r 2 (omega arith)) (r 1 (omega arith))
          (at i 0 (omega arith) (r 0 (omega arith)))
    of_format PixelFormat.argb8 e r =
        three _ _ _ (r 1 (omega arith)) (at (i + 1 + 1) 2 (omega arith) (r 2 (omega arith)))
          (at (i + 1 + 2) 3 (omega arith) (r 3 (omega arith)))
    of_format PixelFormat.gray8 e r =
        let first = at i 0 (omega arith) (r 0 (omega arith)) in three _ _ _ first first first
    of_format PixelFormat.yuyv e r = absurd (cc e)
    of_format PixelFormat.uyvy e r = absurd (cc e)
    of_format PixelFormat.nv12 e r = absurd (cc e)
    of_format PixelFormat.nv21 e r = absurd (cc e)
    of_format PixelFormat.yuv420p e r = absurd (cc e)
    of_format PixelFormat.mjpeg e r = absurd (cc e)
    of_format PixelFormat.h264 e r = absurd (cc e)

packed-specs :
    (f : PixelFormat) (w h : ℕ)
    → is_packed_rgb f ≡ true
    → (plane_specs f w h ≡ some (full w h (channels f) ∷ [])) × (is_encoded f ≡ false)
unfolding plane_specs is_packed_rgb is_encoded
packed-specs PixelFormat.rgb8 w h e = (refl, refl)
packed-specs PixelFormat.bgr8 w h e = (refl, refl)
packed-specs PixelFormat.bgra8 w h e = (refl, refl)
packed-specs PixelFormat.rgba8 w h e = (refl, refl)
packed-specs PixelFormat.argb8 w h e = (refl, refl)
packed-specs PixelFormat.gray8 w h e = (refl, refl)
packed-specs PixelFormat.yuyv w h e = absurd (cc e)
packed-specs PixelFormat.uyvy w h e = absurd (cc e)
packed-specs PixelFormat.nv12 w h e = absurd (cc e)
packed-specs PixelFormat.nv21 w h e = absurd (cc e)
packed-specs PixelFormat.yuv420p w h e = absurd (cc e)
packed-specs PixelFormat.mjpeg w h e = absurd (cc e)
packed-specs PixelFormat.h264 w h e = absurd (cc e)

is_rgb8-channels : (f : PixelFormat) → is_rgb8 f ≡ true → channels f ≡ 3
is_rgb8-channels PixelFormat.rgb8 e = refl
is_rgb8-channels PixelFormat.bgr8 e = absurd (cc e)
is_rgb8-channels PixelFormat.bgra8 e = absurd (cc e)
is_rgb8-channels PixelFormat.rgba8 e = absurd (cc e)
is_rgb8-channels PixelFormat.argb8 e = absurd (cc e)
is_rgb8-channels PixelFormat.gray8 e = absurd (cc e)
is_rgb8-channels PixelFormat.yuyv e = absurd (cc e)
is_rgb8-channels PixelFormat.uyvy e = absurd (cc e)
is_rgb8-channels PixelFormat.nv12 e = absurd (cc e)
is_rgb8-channels PixelFormat.nv21 e = absurd (cc e)
is_rgb8-channels PixelFormat.yuv420p e = absurd (cc e)
is_rgb8-channels PixelFormat.mjpeg e = absurd (cc e)
is_rgb8-channels PixelFormat.h264 e = absurd (cc e)

module _ (l : FrameLayout) (bytes : List ℕ) (valid : validate l (length bytes) ≡ ok tt)
    (packed : is_packed_rgb l.format ≡ true) (d : Dimensions)
    (some_column : 0 < d.destination_width) (w : d.source_width ≡ l.width) where
  few_columns : AllBelow l.width (columns d)
  few_columns =
      subst (λ n. AllBelow n (columns d)) w
        (columns-AllBelow d (omega (arith, w, (validate-positive l (length bytes) valid).0)))

  -- A row that is copied whole.
  rgb_row-some :
      (p : PlaneLayout) (y : ℕ)
      → IsReadable (length bytes) p (full l.width l.height 3)
      → p.pixel_stride ≡ 3
      → y < l.height
      → let row = p.offset + y * p.row_stride in
        (source : List ℕ) × (slice bytes row (row + l.width * 3) ≡ some source)
        × (out : List ℕ) × (resize_rgb_row_nearest source
              (replicate (length (columns d) * 3) 0)
              (columns d)
            ≡ some out)
        × (length out ≡ length (columns d) * 3)
  rgb_row-some p y r stride hy =
      let (out, is_out, size) =
        map_pixels-some source zeros d.source_width (columns d) long
          (subst (λ n. AllBelow n (columns d)) (sym w) few_columns)
          (length-replicate (length (columns d) * 3) 0) in
      (
        source,
        found,
        out,
        resize_rgb_row_nearest-eq source zeros d.source_width d.destination_width some_column long (
              length-replicate (length (columns d) * 3) 0
              ∙ ap (λ n. n * 3) (length-tabulate _ 0 d.destination_width))
            ∙ is_out,
        size,
      )
    where
      row : ℕ
      row = p.offset + y * p.row_stride

      positive : 0 < l.width
      positive = (validate-positive l (length bytes) valid).0

      inside : row + l.width * 3 ≤ length bytes
      inside = omega (
        arith,
        positive,
        r.inside,
        rw stride at (r.samples (l.width - 1) y 2 (omega (arith, positive)) hy (omega arith)),
      )

      zeros : List ℕ
      zeros = replicate (length (columns d) * 3) 0

      source : List ℕ
      source = take (row + l.width * 3 - row) (drop row bytes)

      found : slice bytes row (row + l.width * 3) ≡ some source
      found = rw fits refl
        where
          fits : (leb row (row + l.width * 3) && leb (row + l.width * 3) (length bytes)) ≡ true
          fits = ground (arith, inside)

      long : length source ≡ d.source_width * 3
      long =
          length-take (row + l.width * 3 - row) (drop row bytes)
            (omega (arith, inside, length-drop row bytes))
          ∙ omega (arith, w)

  scaled_row-some :
      (p : PlaneLayout) (y : ℕ)
      → IsReadable (length bytes) p (full l.width l.height (channels l.format))
      → y < l.height
      → (out : List ℕ) × (scaled_row l p bytes (columns d) y ≡ some out)
        × (length out ≡ length (columns d) * 3)
  unfolding scaled_row
  scaled_row-some p y r hy = elim (Bool-cases (is_rgb8 l.format && p.pixel_stride == 3)) [
    | inl whole ↦
        let parts : (is_rgb8 l.format ≡ true) × (p.pixel_stride ≡ 3) = ground (arith, whole) in
        let (source, found, out, is_out, size) =
          rgb_row-some p y
            (subst (λ n. IsReadable (length bytes) p (full l.width l.height n))
              (is_rgb8-channels l.format parts.0) r)
            parts.1 hy in
        rw (whole, found) (out, is_out, size)
    | inr pixels ↦ rw pixels (
        map_row-length _ 3 l.width (columns d)
          (λ x hx.
            packed_pixel-some l.format bytes _ packed
              (λ k lt. sample-some bytes p _ x y k _ r hx hy lt (omega arith)))
          few_columns)
  ]

  -- For a frame of a packed RGB format whose layout `validate` accepts for its bytes, and any destination with
  -- a column, the scaled conversion with the columns and rows of the nearest-neighbour map of these sizes,
  -- top-down or bottom-up, reads no byte outside the frame, by pixels or by whole rows, and gives three bytes
  -- for every pixel of the destination.
  pub scale_nearest-some :
      d.source_height ≡ l.height
      → (out : List ℕ) × (scale_nearest l bytes (columns d) (rows d) ≡ some out)
        × (length out ≡ d.destination_height * (d.destination_width * 3))
  unfolding scale_nearest
  scale_nearest-some h =
      let specs = packed-specs l.format l.width l.height packed in
      let (p, at, r) =
        plane_of l bytes valid l.format (full l.width l.height (channels l.format) ∷ []) 0 _ refl
          specs.1 specs.0 refl in
      let (out, is_out, long) =
        map_row-length (scaled_row l p bytes (columns d)) (length (columns d) * 3) l.height (rows d)
          (λ y hy. scaled_row-some p y r hy)
          (subst (λ n. AllBelow n (rows d)) h
            (rows-AllBelow d (omega (arith, h, (validate-positive l (length bytes) valid).1)))) in
      (
        out,
        first_plane l.planes p at (λ q. map_row (scaled_row l q bytes (columns d)) (rows d))
            ∙ is_out,
        long ∙ sizes,
      )
    where
      first_plane :
          (ps : List PlaneLayout) (p : PlaneLayout)
          → get_elem? ps 0 ≡ some p
          → (f : PlaneLayout → Option (List ℕ))
          → (elim ps as (λ x. Option (List ℕ)) [ [] ↦ none | q ∷ qs ↦ f q ]) ≡ f p
      first_plane [] p e f = absurd (cc e)
      first_plane (q ∷ qs) p e f = ap f (some-injective q p e)

      sizes :
          length (rows d) * (length (columns d) * 3)
          ≡ d.destination_height * (d.destination_width * 3)
      sizes =
          rw (length-tabulate _ 0 d.destination_height, length-tabulate _ 0 d.destination_width)
            refl
