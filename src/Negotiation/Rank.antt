-- ===== src/Negotiation/Rank.antt =====
-- The order of the configurations that src/api.rs tries.
use camera_rs.Base.{
  ℕ, ◌+◌, ◌-◌, ◌<◌, ◌≤◌, ◌⊎◌, u64_max, All-map, ◌≡◌, ◌≢◌, refl, sym, ap, subst, ◌∙◌, true, false,
  List, [], ◌∷◌, retain, All, Bool-cases, inl, inr, arith, ◌==◌, if◌then◌else◌,
}
use camera_rs.Error.{CameraErrorKind, CameraResult, ok, err, new as error}
use camera_rs.Config.{frame_rate, VideoFormat, format_index, CameraConfig}
use camera_rs.Format.Rate.{FrameRate}
use camera_rs.Negotiation.{
  CaptureRequest, SortKey, preference, cost, is_empty, is_acceptable, key_le, sort_key, insert,
  sort_by_key, config_eq, dedup_after, dedup, rank_capture_configurations,
}

key_le-total : (a b : SortKey) → key_le a b ≡ false → key_le b a ≡ true
unfolding key_le
key_le-total a b h = ground (arith, h)

key_le_trans : (a b c : SortKey) → key_le a b ≡ true → key_le b c ≡ true → key_le a c ≡ true
unfolding key_le
key_le_trans a b c h k = ground (arith, h, k)

-- The variant at an index: the index is injective.
abbrev pub format_at : ℕ → VideoFormat
format_at n =
    if n == 0
    then VideoFormat.mjpeg
    else if n == 1
    then VideoFormat.yuyv
    else if n == 2
    then VideoFormat.uyvy
    else if n == 3
    then VideoFormat.nv12
    else if n == 4
    then VideoFormat.rgb
    else if n == 5
    then VideoFormat.h264
    else VideoFormat.gray

pub format_at-index : (f : VideoFormat) → format_at (format_index f) ≡ f
format_at-index VideoFormat.mjpeg = refl
format_at-index VideoFormat.yuyv = refl
format_at-index VideoFormat.uyvy = refl
format_at-index VideoFormat.nv12 = refl
format_at-index VideoFormat.rgb = refl
format_at-index VideoFormat.h264 = refl
format_at-index VideoFormat.gray = refl

pub config_eq-eq : (a b : CameraConfig) → config_eq a b ≡ true → a ≡ b
config_eq-eq a b h =
    let index : format_index a.format ≡ format_index b.format = ground (arith, h) in
    let format : a.format ≡ b.format =
      sym (format_at-index a.format) ∙ ap format_at index ∙ format_at-index b.format in
    let width : a.width ≡ b.width = ground (arith, h) in
    let height : a.height ≡ b.height = ground (arith, h) in
    let fps : a.fps ≡ b.fps = ground (arith, h) in
    let denominator : a.fps_denominator ≡ b.fps_denominator = ground (arith, h) in
    λ i. record {
      format = format i;
      width = width i;
      height = height i;
      fps = fps i;
      fps_denominator = denominator i;
    }

ok-injective : (xs ys : List CameraConfig) → CameraResult.ok xs ≡ CameraResult.ok ys → xs ≡ ys
ok-injective xs ys e = cc

module _ (delta : FrameRate → FrameRate → ℕ) (r : CaptureRequest) where
  -- The key of `c` is not after that of `d`.
  abbrev IsBefore : CameraConfig → CameraConfig → Type 0
  IsBefore c d = key_le (sort_key delta r c) (sort_key delta r d) ≡ true

  -- The distance of a configuration's frame rate from the preferred one.
  abbrev pub rate_delta : CameraConfig → ℕ
  rate_delta c = elim (frame_rate c) [ err e ↦ u64_max | ok rate ↦ delta rate r.preferred_fps ]

  abbrev pub size_delta : CameraConfig → ℕ
  size_delta c =
      (c.width - r.width) + (r.width - c.width) + ((c.height - r.height) + (r.height - c.height))

  -- `c` is tried before `d` or as one of the same rank: its format is preferred to that of `d`; or as much,
  -- and costs less; or as much of both, and its size is nearer to the one asked for; or as near, and its rate
  -- is no further from the one asked for.
  abbrev pub IsTriedFirst : CameraConfig → CameraConfig → Type 0
  IsTriedFirst c d =
      (preference r c.format < preference r d.format)
      ⊎ ((preference r c.format ≡ preference r d.format)
          × ((cost r.priority c.format < cost r.priority d.format)
              ⊎ ((cost r.priority c.format ≡ cost r.priority d.format)
                  × ((size_delta c < size_delta d)
                      ⊎ ((size_delta c ≡ size_delta d) × (rate_delta c ≤ rate_delta d))))))

  IsBefore-IsTriedFirst : (c d : CameraConfig) → IsBefore c d → IsTriedFirst c d
  unfolding key_le sort_key
  IsBefore-IsTriedFirst c d h = ground (arith, h)

  -- Each entry is before all that follow it.
  unfoldable IsRanked : List CameraConfig → Type 0
  IsRanked [] = Unit
  IsRanked (c ∷ cs) = All (IsBefore c) cs × IsRanked cs

  All-Before-trans :
      (c d : CameraConfig) (es : List CameraConfig)
      → IsBefore c d
      → All (IsBefore d) es
      → All (IsBefore c) es
  All-Before-trans c d [] h a = tt
  All-Before-trans c d (e ∷ es) h a = (
    key_le_trans (sort_key delta r c) (sort_key delta r d) (sort_key delta r e) h a.0,
    All-Before-trans c d es h a.1,
  )

  insert-All :
      (P : CameraConfig → Type 0) (c : CameraConfig) (ds : List CameraConfig)
      → P c
      → All P ds
      → All P (insert delta r c ds)
  unfolding insert
  insert-All P c [] h a = (h, tt)
  insert-All P c (d ∷ ds) h a =
      elim (Bool-cases (key_le (sort_key delta r c) (sort_key delta r d))) [
        | inl first ↦ rw (first, insert) (h, (a.0, a.1))
        | inr later ↦ rw (later, insert) (a.0, insert-All P c ds h a.1)
      ]

  insert-IsRanked :
      (c : CameraConfig) (ds : List CameraConfig) → IsRanked ds → IsRanked (insert delta r c ds)
  unfolding insert IsRanked
  insert-IsRanked c [] s = (tt, tt)
  insert-IsRanked c (d ∷ ds) s =
      elim (Bool-cases (key_le (sort_key delta r c) (sort_key delta r d))) [
        | inl first ↦ rw (first, insert) ((first, All-Before-trans c d ds first s.0), (s.0, s.1))
        | inr later ↦
            rw (later, insert)
              (
                insert-All (IsBefore d) c ds
                    (key_le-total (sort_key delta r c) (sort_key delta r d) later) s.0,
                insert-IsRanked c ds s.1,
              )
      ]

  sort-IsRanked : (cs : List CameraConfig) → IsRanked (sort_by_key delta r cs)
  unfolding sort_by_key IsRanked
  sort-IsRanked [] = tt
  sort-IsRanked (c ∷ cs) = insert-IsRanked c (sort_by_key delta r cs) (sort-IsRanked cs)

  sort-All :
      (P : CameraConfig → Type 0) (cs : List CameraConfig)
      → All P cs
      → All P (sort_by_key delta r cs)
  unfolding sort_by_key
  sort-All P [] a = tt
  sort-All P (c ∷ cs) a = insert-All P c (sort_by_key delta r cs) a.0 (sort-All P cs a.1)

  dedup_after-All :
      (P : CameraConfig → Type 0) (x : CameraConfig) (ys : List CameraConfig)
      → All P ys
      → All P (dedup_after x ys)
  unfolding dedup_after
  dedup_after-All P x [] a = tt
  dedup_after-All P x (y ∷ ys) a = elim (Bool-cases (config_eq x y)) [
    | inl same ↦ rw (same, dedup_after) (dedup_after-All P x ys a.1)
    | inr new ↦ rw (new, dedup_after) (a.0, dedup_after-All P y ys a.1)
  ]

  dedup_after-IsRanked :
      (x : CameraConfig) (ys : List CameraConfig) → IsRanked ys → IsRanked (dedup_after x ys)
  unfolding dedup_after IsRanked
  dedup_after-IsRanked x [] s = tt
  dedup_after-IsRanked x (y ∷ ys) s = elim (Bool-cases (config_eq x y)) [
    | inl same ↦ rw (same, dedup_after) (dedup_after-IsRanked x ys s.1)
    | inr new ↦
        rw (new, dedup_after) (dedup_after-All (IsBefore y) y ys s.0, dedup_after-IsRanked y ys s.1)
  ]

  head-IsRanked :
      (c : CameraConfig) (cs : List CameraConfig)
      → IsRanked (c ∷ cs)
      → IsRanked (c ∷ dedup_after c cs)
  unfolding IsRanked
  head-IsRanked c cs s = (dedup_after-All (IsBefore c) c cs s.0, dedup_after-IsRanked c cs s.1)

  retain-All :
      (cs : List CameraConfig) → All (λ c. is_acceptable r c ≡ true) (retain (is_acceptable r) cs)
  retain-All [] = tt
  retain-All (c ∷ cs) = elim (Bool-cases (is_acceptable r c)) [
    | inl yes_c ↦ rw yes_c (yes_c, retain-All cs)
    | inr no_c ↦ rw no_c (retain-All cs)
  ]

  -- Each entry is tried first among it and all that follow it.
  unfoldable pub IsInOrder : List CameraConfig → Type 0
  IsInOrder [] = Unit
  IsInOrder (c ∷ cs) = All (IsTriedFirst c) cs × IsInOrder cs

  IsRanked-IsInOrder : (cs : List CameraConfig) → IsRanked cs → IsInOrder cs
  unfolding IsInOrder IsRanked
  IsRanked-IsInOrder [] s = tt
  IsRanked-IsInOrder (c ∷ cs) s = (
    All-map (IsBefore c) (IsTriedFirst c) cs (IsBefore-IsTriedFirst c) s.0,
    IsRanked-IsInOrder cs s.1,
  )

  -- A list that the ranking returns is not empty, holds only acceptable configurations, and each of its
  -- entries is tried first among it and all that follow it: the caller's preferred formats first, then the
  -- lower cost of the format for the priority, then the lower distance of the resolution, then that of the
  -- frame rate.
  pub rank_capture_configurations_lem :
      (cs : List CameraConfig) {out : List CameraConfig}
      → rank_capture_configurations delta r cs ≡ ok out
      → (out ≢ []) × All (λ c. is_acceptable r c ≡ true) out × IsInOrder out
  unfolding rank_capture_configurations dedup
  rank_capture_configurations_lem cs {out = out} e =
      ranked (sort_by_key delta r (retain (is_acceptable r) cs))
        (sort-All (λ c. is_acceptable r c ≡ true) (retain (is_acceptable r) cs) (retain-All cs))
        (sort-IsRanked (retain (is_acceptable r) cs)) e
    where
      ranked :
          (sorted : List CameraConfig)
          → All (λ c. is_acceptable r c ≡ true) sorted
          → IsRanked sorted
          → (if is_empty (dedup sorted)
              then err (error CameraErrorKind.unsupported_format)
              else ok (dedup sorted))
            ≡ ok out
          → (out ≢ []) × All (λ c. is_acceptable r c ≡ true) out × IsInOrder out
      ranked [] a s e = absurd (cc e)
      ranked (c ∷ cs) a s e =
          subst (λ o. (o ≢ []) × All (λ c. is_acceptable r c ≡ true) o × IsInOrder o)
            (ok-injective (c ∷ dedup_after c cs) out e)
            (
              λ q. cc q,
              (a.0, dedup_after-All (λ c. is_acceptable r c ≡ true) c cs a.1),
              IsRanked-IsInOrder (c ∷ dedup_after c cs) (head-IsRanked c cs s),
            )
