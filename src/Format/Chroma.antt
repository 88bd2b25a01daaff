-- ===== src/Format/Chroma.antt =====
-- `interleaved_chroma_layout` of src/format.rs: when the separate U and V views of an Android image are
-- the two halves of one interleaved plane.
mod Tests
use camera_rs.Base.{
  ℕ, suc, ◌+◌, ◌*◌, ◌-◌, ◌≤◌, ◌<◌, ◌≡◌, ◌≢◌, ◌⊎◌, Bool, not, ◌||◌, Option, none, some, ltb, ◌==◌,
  if◌then◌else◌, checked_add, checked_mul, checked_sub, div_ceil, arith,
}
use camera_rs.Format.Pixel.{PixelFormat}

pub record ChromaPlaneSpan : Type 0 where
  pub start : ℕ
  pub length : ℕ
  pub row_stride : ℕ
  pub pixel_stride : ℕ

pub record InterleavedChromaLayout : Type 0 where
  pub start : ℕ
  pub length : ℕ
  pub row_stride : ℕ
  pub format : PixelFormat

infixl 5 ◌>>=◌
abbrev ◌>>=◌ : {A B : Type 0} → Option A → (A → Option B) → Option B
none >>= f = none
some a >>= f = f a

-- `checked_add(1) == Some(n)`.
abbrev follows : ℕ → ℕ → Bool
follows a n = elim (checked_add a 1) [ none ↦ Bool.false | some m ↦ m == n ]

-- The view that starts first, the other one, and the format that their order means.
order_planes :
    ChromaPlaneSpan → ChromaPlaneSpan → Option (ChromaPlaneSpan × ChromaPlaneSpan × PixelFormat)
order_planes u v =
    if follows u.start v.start
    then some (u, v, PixelFormat.nv12)
    else if follows v.start u.start
    then some (v, u, PixelFormat.nv21)
    else none

-- The range checks on the ordered views.
merge_planes :
    ℕ → ℕ → ChromaPlaneSpan × ChromaPlaneSpan × PixelFormat → Option InterleavedChromaLayout
merge_planes width height (base, other, format) = do
  base_end ← checked_add base.start base.length
  other_end ← checked_add other.start other.length
  row_bytes ← checked_mul (div_ceil width 2) 2
  rows ← checked_sub (div_ceil height 2) 1
  skipped ← checked_mul rows base.row_stride
  required ← checked_add skipped row_bytes
  if ltb base_end other_end || ltb base.row_stride row_bytes || ltb base.length required
      then none
      else some (record {
        start = base.start;
        length = base.length;
        row_stride = base.row_stride;
        format = format;
      })

unfoldable pub interleaved_chroma_layout :
    ℕ → ℕ → ChromaPlaneSpan → ChromaPlaneSpan → Option InterleavedChromaLayout
unfolding order_planes merge_planes
interleaved_chroma_layout width height u v =
    if width == 0
      || height == 0
      || not (u.pixel_stride == 2)
      || not (v.pixel_stride == 2)
      || not (u.row_stride == v.row_stride)
    then none
    else (order_planes u v >>= merge_planes width height)

-- A recognised layout starts at the lower of two views that lie one byte apart, is NV12 exactly when U is
-- the lower, spans every byte of both views, and has room for all rows of the visible chroma area.
pub interleaved_chroma_layout_lem :
    (w h : ℕ) (u v : ChromaPlaneSpan) {l : InterleavedChromaLayout}
    → interleaved_chroma_layout w h u v ≡ some l
    → (((l.format ≡ PixelFormat.nv12) × (l.start ≡ u.start) × (v.start ≡ u.start + 1))
        ⊎ ((l.format ≡ PixelFormat.nv21) × (l.start ≡ v.start) × (u.start ≡ v.start + 1)))
      × (u.start + u.length ≤ l.start + l.length)
      × (v.start + v.length ≤ l.start + l.length)
      × (l.row_stride ≡ u.row_stride)
      × (div_ceil w 2 * 2 ≤ l.row_stride)
      × ((div_ceil h 2 - 1) * l.row_stride + div_ceil w 2 * 2 ≤ l.length)
unfolding interleaved_chroma_layout
interleaved_chroma_layout_lem w h u v e = ground arith
