-- ===== src/Format/Chroma/Tests.antt =====
-- The examples of the source's own tests.
use camera_rs.Base.{◌≡◌, refl, some, none}
use camera_rs.Format.Pixel.{PixelFormat}
use camera_rs.Format.Chroma.{
  ChromaPlaneSpan, interleaved_chroma_layout, interleaved_chroma_layout_lem,
}
use camera_rs.Base.{ℕ}
use camera_rs.Base.{◌+◌, ◌-◌, ◌*◌, ◌≤◌, ◌⊎◌, div_ceil}
use camera_rs.Format.Chroma.{InterleavedChromaLayout}

abbrev plane : ℕ → ℕ → ChromaPlaneSpan
plane start length = record { start = start; length = length; row_stride = 4; pixel_stride = 2 }

detects_nv12 :
    interleaved_chroma_layout 4 4 (plane 100 8) (plane 101 7)
    ≡ some (record { start = 100; length = 8; row_stride = 4; format = PixelFormat.nv12 })
unfolding interleaved_chroma_layout
detects_nv12 = refl

rejects_missing_rows : interleaved_chroma_layout 4 6 (plane 100 8) (plane 101 7) ≡ none
unfolding interleaved_chroma_layout
rejects_missing_rows = refl

abbrev merged : InterleavedChromaLayout
merged = record { start = 100; length = 8; row_stride = 4; format = PixelFormat.nv12 }

interleaved_chroma_layout_example :
    (((merged.format ≡ PixelFormat.nv12) × (merged.start ≡ 100) × (101 ≡ 100 + 1))
      ⊎ ((merged.format ≡ PixelFormat.nv21) × (merged.start ≡ 101) × (100 ≡ 101 + 1)))
    × (100 + 8 ≤ merged.start + merged.length)
    × (101 + 7 ≤ merged.start + merged.length)
    × (merged.row_stride ≡ 4)
    × (div_ceil 4 2 * 2 ≤ merged.row_stride)
    × ((div_ceil 4 2 - 1) * merged.row_stride + div_ceil 4 2 * 2 ≤ merged.length)
interleaved_chroma_layout_example =
    interleaved_chroma_layout_lem 4 4 (plane 100 8) (plane 101 7) {l = merged} detects_nv12
