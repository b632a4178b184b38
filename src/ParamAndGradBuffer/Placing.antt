-- ===== src/ParamAndGradBuffer/Placing.antt =====
-- What holds between two rounds of the loop that packs: where the parameters are, and the ranges
-- of the buckets.
use infini_train.Base.{
  ℕ, ◌+◌, ◌%◌, ◌<◌, ◌≤◌, ◌≡◌, refl, sym, arith, inl, inr, true, false, some, ◌⊎◌, ◌≢◌, List, [],
  ◌∷◌, ◌++◌, All, length, get_elem?, get_elem?-append, get_elem?-append_left, sum,
}
use infini_train.ParamAndGradBuffer.{
  BufferConfig, pads, pad_param_start_if_needed, bucket_multiple, pad_bucket_end_if_needed,
  ParamIndex, BucketRange, Packing,
}
use infini_train.ParamAndGradBuffer.Padding.{
  Multiple, bucket_multiple_lem, Multiple-trans, Multiple-mod, padded_if,
}

-- The parameters are as long as they have elements, and each ends where the ones that were placed
-- after it begin, or before; the last ends by `top`.
abbrev pub Stacked : List ℕ → ℕ → List ParamIndex → Type 0
Stacked [] top [] = Unit
Stacked [] top (e ∷ es) = ⊥
Stacked (n ∷ ns) top [] = ⊥
Stacked (n ∷ ns) top (e ∷ es) =
    (e.end_index ≤ top) × (e.end_index ≡ e.start_index + n) × Stacked ns e.start_index es

-- The ranges follow each other from `a` to `b`.
abbrev pub Tiled : ℕ → List BucketRange → ℕ → Type 0
Tiled a [] b = a ≡ b
Tiled a (r ∷ rs) b = (r.first ≡ a) × (a ≤ r.second) × Tiled r.second rs b

-- The parameter lies in its bucket.
abbrev pub Contained : List BucketRange → ParamIndex → Type 0
Contained ranges e =
    (r : BucketRange) × (get_elem? ranges e.bucket_id ≡ some r)
    × (r.first ≤ e.start_index)
    × (e.end_index ≤ r.second)

-- While a bucket is open from `start` to `limit`: the parameter is in one of the closed buckets, or
-- in the open one.
abbrev pub Placed : List BucketRange → ℕ → ℕ → ParamIndex → Type 0
Placed ranges start limit e =
    Contained ranges e
    ⊎ ((e.bucket_id ≡ length ranges) × (start ≤ e.start_index) × (e.end_index ≤ limit))

abbrev pub Aligned : BufferConfig → ParamIndex → Type 0
Aligned c e = pads c ≡ true → e.start_index % 64 ≡ 0

-- Both ends are shards' boundaries, and multiples of 128.
abbrev pub Divisible : BufferConfig → BucketRange → Type 0
Divisible c r =
    pads c ≡ true
    → Multiple c.ddp_world_size r.first × Multiple c.ddp_world_size r.second × Multiple 128 r.second

-- The buckets of the parameters are numbered from 0 on, without a gap.
abbrev pub newest : List ParamIndex → ℕ
newest [] = 0
newest (e ∷ es) = e.bucket_id

abbrev pub Numbered : List ParamIndex → Type 0
Numbered [] = Unit
Numbered (e ∷ []) = e.bucket_id ≡ 0
Numbered (e ∷ d ∷ es) =
    ((e.bucket_id ≡ d.bucket_id) ⊎ (e.bucket_id ≡ d.bucket_id + 1)) × Numbered (d ∷ es)

-- The state between two rounds; `top` is where the next parameter may start.
pub record Packs (c : BufferConfig) (numels : List ℕ) (s : Packing) (top : ℕ) : Type 0 where
  pub stacked : Stacked numels top s.param_index_map
  pub opened : s.bucket_start_index ≤ top
  pub tiled : Tiled 0 s.bucket_indices s.bucket_start_index
  pub ids : s.bucket_id ≡ length s.bucket_indices
  pub placed : All (Placed s.bucket_indices s.bucket_start_index top) s.param_index_map
  pub aligned : All (Aligned c) s.param_index_map
  pub divisible : All (Divisible c) s.bucket_indices
  pub bottom : pads c ≡ true → Multiple c.ddp_world_size s.bucket_start_index
  pub unpadded : sum s.per_bucket_numel_unpadded ≤ s.bucket_start_index
  pub exact : pads c ≡ false → sum s.per_bucket_numel_unpadded ≡ s.bucket_start_index
  pub closed :
      s.bucket_params ≡ 0
      → All (Contained s.bucket_indices) s.param_index_map
        × (s.bucket_end_index ≡ s.bucket_start_index)
        × (top ≡ s.bucket_start_index)
  pub numbered : Numbered s.param_index_map
  pub none_yet : length s.param_index_map ≡ 0 → s.bucket_id ≡ 0
  pub next_id :
      0 < length s.param_index_map
      → s.bucket_params ≡ 0
      → s.bucket_id ≡ newest s.param_index_map + 1
  pub same_id :
      s.bucket_params ≢ 0
      → (s.bucket_id ≡ newest s.param_index_map) × (0 < length s.param_index_map)
  pub open_end : s.bucket_params ≢ 0 → s.param_end_index ≡ top

pub pad_param_start_lem :
    (c : BufferConfig) (start : ℕ)
    → (start ≤ pad_param_start_if_needed c start)
      × (pads c ≡ true → pad_param_start_if_needed c start % 64 ≡ 0)
unfolding pad_param_start_if_needed
pad_param_start_lem c start =
    let (le, multiple, _) = padded_if (pads c) start 64 (omega arith) in
    (le, λ h. Multiple-mod 64 _ (multiple h))

pub pad_bucket_end_lem :
    (c : BufferConfig) (e : ℕ)
    → 0 < c.ddp_world_size
    → (e ≤ pad_bucket_end_if_needed c e)
      × (pads c ≡ true
          → Multiple c.ddp_world_size (pad_bucket_end_if_needed c e)
            × Multiple 128 (pad_bucket_end_if_needed c e))
      × (pads c ≡ false → pad_bucket_end_if_needed c e ≡ e)
unfolding pad_bucket_end_if_needed
pad_bucket_end_lem c e world =
    let (positive, of_world, of_128) = bucket_multiple_lem c world in
    let (le, multiple, same) = padded_if (pads c) e (bucket_multiple c) positive in
    (
      le,
      λ h. (
        Multiple-trans _ _ _ of_world (multiple h),
        Multiple-trans 128 (bucket_multiple c) _ of_128 (multiple h),
      ),
      same,
    )

pub Stacked-weaken :
    (ns : List ℕ) (a b : ℕ) (es : List ParamIndex) → a ≤ b → Stacked ns a es → Stacked ns b es
Stacked-weaken [] a b [] le h = tt
Stacked-weaken [] a b (e ∷ es) le h = h
Stacked-weaken (n ∷ ns) a b [] le h = h
Stacked-weaken (n ∷ ns) a b (e ∷ es) le h = (omega (arith, h.0, le), h.1, h.2)

pub Tiled-snoc :
    (a b d : ℕ) (rs : List BucketRange)
    → b ≤ d
    → Tiled a rs b
    → Tiled a (rs ++ record { first = b; second = d } ∷ []) d
Tiled-snoc a b d [] le e = (sym e, omega (arith, e, le), refl)
Tiled-snoc a b d (r ∷ rs) le (first, second, rest) =
    (first, second, Tiled-snoc r.second b d rs le rest)

-- A closed bucket stays where it is, and the open one gets its range.
pub Placed-closes :
    (rs : List BucketRange) (start limit end : ℕ) (e : ParamIndex)
    → limit ≤ end
    → Placed rs start limit e
    → Contained (rs ++ record { first = start; second = end } ∷ []) e
Placed-closes rs start limit end e le (inl (r, at, lo, hi)) =
    (r, get_elem?-append_left rs _ e.bucket_id at, lo, hi)
Placed-closes rs start limit end e le (inr (id, lo, hi)) = (
  record { first = start; second = end },
  rw id (get_elem?-append rs _),
  lo,
  omega (arith, le, hi),
)

pub Numbered-cons :
    (e : ParamIndex) (es : List ParamIndex)
    → (length es ≡ 0 → e.bucket_id ≡ 0)
    → (0 < length es → (e.bucket_id ≡ newest es) ⊎ (e.bucket_id ≡ newest es + 1))
    → Numbered es
    → Numbered (e ∷ es)
Numbered-cons e [] first step h = first refl
Numbered-cons e (d ∷ es) first step h = (step (omega arith), h)

pub Placed-widen :
    (rs : List BucketRange) (start limit end : ℕ) (e : ParamIndex)
    → limit ≤ end
    → Placed rs start limit e
    → Placed rs start end e
Placed-widen rs start limit end e le (inl here) = inl here
Placed-widen rs start limit end e le (inr (id, lo, hi)) = inr (id, lo, omega (arith, le, hi))
