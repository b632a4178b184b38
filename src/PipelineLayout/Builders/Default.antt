-- ===== src/PipelineLayout/Builders/Default.antt =====
-- `BuildDefault` deals the layers out evenly.
use native.Mathlib.Nat.{add-zero, mod-eq_of_lt, mod-lt, div-add-mod}
use infini_train.Base.{
  ℕ, zero, suc, ◌+◌, ◌*◌, ◌/◌, ◌%◌, min, ◌≤◌, ◌<◌, ◌≡◌, ◌⊎◌, refl, sym, subst, ◌∙◌, ap, inl, inr,
  false, List, ok, err, ltb, ◌==◌, All, Bool-cases, arith,
}
use infini_train.Base.Int.{pos}
use infini_train.PipelineLayout.{
  PlacedChunk, SpecialModulePlacement, PipelineLayoutPolicy, PipelineLayout, LayoutError, size,
}
use infini_train.PipelineLayout.Builders.{
  int_max, bare_layout, construct, PlacementFits, Builds, construct-Builds, construct-eq-ok,
  chunk_size, default_chunks, allow_empty_if, build_placement, build_default,
}
use infini_train.PipelineLayout.Tiles.{
  Tiles, Ascending, Ascending-weaken, Ascending-DistinctIds, Tiles-InRange, Tiles-covers,
  Tiles-Contiguous,
}
use infini_train.PipelineLayout.Valid.{IsValid, busy_chunks}

-- The layers before the chunk with the given id.
abbrev pub chunk_start : ℕ → ℕ → ℕ → ℕ
chunk_start per_chunk remainder id = id * per_chunk + min id remainder

module _ (stages q r : ℕ) where
  default_chunks-Tiles :
      (left id cursor hi : ℕ)
      → cursor ≡ chunk_start q r id
      → hi ≡ chunk_start q r (id + left)
      → Tiles cursor hi (default_chunks stages q r left id cursor)
  unfolding default_chunks
  default_chunks-Tiles zero id cursor hi h e = rw (h, e, add-zero)
  default_chunks-Tiles (suc left) id cursor hi h e =
      let step : cursor + chunk_size q r id ≡ chunk_start q r (id + 1) = ground arith in
      let rest =
        default_chunks-Tiles left (id + 1) (cursor + chunk_size q r id) hi step
          (e ∙ ap (chunk_start q r) (omega arith)) in
      elim (Bool-cases (chunk_size q r id == 0)) [
        | inl empty ↦
            let same : cursor + chunk_size q r id ≡ cursor = ground arith in
            rw empty (
              subst
                (λ c.
                  Tiles c hi (default_chunks stages q r left (id + 1) (cursor + chunk_size q r id)))
                same rest)
        | inr full ↦ rw full (refl, omega arith, rest)
      ]

  default_chunks-Ascending :
      (left id cursor : ℕ) → Ascending id (default_chunks stages q r left id cursor)
  unfolding default_chunks
  default_chunks-Ascending zero id cursor = tt
  default_chunks-Ascending (suc left) id cursor =
      let rest = default_chunks-Ascending left (id + 1) (cursor + chunk_size q r id) in
      elim (Bool-cases (chunk_size q r id == 0)) [
        | inl empty ↦ rw empty (Ascending-weaken id (id + 1) _ (omega arith) rest)
        | inr full ↦ rw full (omega arith, Ascending-weaken (suc id) (id + 1) _ (omega arith) rest)
      ]

  default_chunks-staged :
      (left id cursor : ℕ)
      → 0 < stages
      → All (λ c. c.stage_id < stages) (default_chunks stages q r left id cursor)
  unfolding default_chunks
  default_chunks-staged zero id cursor h = tt
  default_chunks-staged (suc left) id cursor h =
      let rest = default_chunks-staged left (id + 1) (cursor + chunk_size q r id) h in
      elim (Bool-cases (chunk_size q r id == 0)) [
        | inl empty ↦ rw empty rest
        | inr full ↦ rw full (omega arith, rest)
      ]

  default_chunks-busy :
      (left id cursor i : ℕ)
      → 0 < q
      → id ≤ i
      → i < id + left
      → i < stages
      → 0 < busy_chunks i (default_chunks stages q r left id cursor)
  unfolding default_chunks
  default_chunks-busy zero id cursor i hq lo hi hs = absurd (omega arith)
  default_chunks-busy (suc left) id cursor i hq lo hi hs =
      let full : (chunk_size q r id == 0) ≡ false = ground arith in
      elim (Bool-cases (id == i)) [
        | inl here ↦
            let same : id ≡ i = ground arith in
            rw full (ground (arith, mod-eq_of_lt {n = id} {m = stages}))
        | inr later ↦ rw full (
            omega (
              arith,
              default_chunks-busy left (id + 1) (cursor + chunk_size q r id) i hq (ground arith)
                  (omega arith) hs,
            ))
      ]

-- Chunk sizes differ by at most one, and chunk `id` is chunk id / stages of stage id % stages.
abbrev pub DealtEvenly : ℕ → ℕ → PlacedChunk → Type 0
DealtEvenly stages q c =
    ((size c.layers ≡ q) ⊎ (size c.layers ≡ q + 1))
    × (c.stage_id ≡ c.global_chunk_id % stages)
    × (c.local_chunk_id ≡ c.global_chunk_id / stages)

default_chunks-DealtEvenly :
    (stages q r left id cursor : ℕ)
    → All (DealtEvenly stages q) (default_chunks stages q r left id cursor)
unfolding default_chunks
default_chunks-DealtEvenly stages q r zero id cursor = tt
default_chunks-DealtEvenly stages q r (suc left) id cursor =
    let rest = default_chunks-DealtEvenly stages q r left (id + 1) (cursor + chunk_size q r id) in
    elim (Bool-cases (chunk_size q r id == 0)) [
      | inl empty ↦ rw empty rest
      | inr full ↦ rw full ((ground arith, refl, refl), rest)
    ]

pub div_pos : {n m : ℕ} → 0 < m → m ≤ n → 0 < n / m
div_pos {n} {m} hm h = grind (arith, div-add-mod n m, mod-lt n hm)

module _ (n stages vpp : ℕ) (p : SpecialModulePlacement) (policy : PipelineLayoutPolicy) where
  total : ℕ
  total = stages * vpp

  made : List PlacedChunk
  made = default_chunks stages (n / total) (n % total) total 0 0

  made-Tiles : 0 < n → 0 < stages → 0 < vpp → Tiles 0 n made
  unfolding made total
  made-Tiles hn hs hv =
      let some_chunk : 0 < stages * vpp = grind arith in
      default_chunks-Tiles stages _ _ total 0 0 n (omega arith)
        (omega (arith, div-add-mod n total, mod-lt n some_chunk))

  default-IsValid :
      0 < n
      → 0 < stages
      → 0 < vpp
      → PlacementFits p policy stages
      → IsValid (
          bare_layout n stages vpp made
            (build_placement p stages)
            (allow_empty_if (ltb n total) policy))
  unfolding made total allow_empty_if
  default-IsValid hn hs hv fits =
      let some_chunk : 0 < stages * vpp = grind arith in
      let enough : stages ≤ stages * vpp = grind arith in
      let tiles = made-Tiles hn hs hv in
      let deal : total ≤ n → 0 < n / total = λ h. div_pos some_chunk h in
      record {
        ranges = Tiles-InRange 0 n n made tiles (omega arith);
        covered = λ i h. ground (arith, Tiles-covers 0 n i made tiles);
        staged = default_chunks-staged stages _ _ _ 0 0 hs;
        distinct = Ascending-DistinctIds 0 made (default_chunks-Ascending stages _ _ _ 0 0);
        embedding_in = fits.embedding_in;
        final_norm_in = fits.final_norm_in;
        lm_head_in = fits.lm_head_in;
        boundary = elim (Bool-cases (ltb n total)) [
          | inl few ↦ rw few fits.boundary
          | inr many ↦ rw many fits.boundary
        ];
        nonempty = elim (Bool-cases (ltb n total)) [
          | inl few ↦ rw few (λ e. cc)
          | inr many ↦ λ _ i h.
              default_chunks-busy stages _ _ _ 0 0 i (deal (ground arith)) (omega arith)
                (omega arith) h
        ];
        contiguous = λ _. Tiles-Contiguous 0 n made tiles;
      }

  -- Past its tests `BuildDefault` hands these chunks to the constructor.
  build_default_runs :
      0 < n
      → 0 < stages
      → 0 < vpp
      → stages * vpp ≤ int_max
      → build_default (pos n) (pos stages) (pos vpp) p policy
        ≡ construct n stages vpp made
            (build_placement p stages)
            (allow_empty_if (ltb n total) policy)
  unfolding build_default made total
  build_default_runs hn hs hv small = ground arith

  build_default_large :
      0 < n
      → 0 < stages
      → 0 < vpp
      → int_max < stages * vpp
      → build_default (pos n) (pos stages) (pos vpp) p policy ≡ err LayoutError.too_many_chunks
  unfolding build_default
  build_default_large hn hs hv large = ground arith

  module _ (hn : 0 < n) (hs : 0 < stages) (hv : 0 < vpp) where
    -- On positive sizes whose product is an `int`, and a placement that fits, `BuildDefault`
    -- returns a valid, indexed layout of these sizes.
    pub build_default-Builds :
        stages * vpp ≤ int_max
        → PlacementFits p policy stages
        → Builds n stages vpp (build_default (pos n) (pos stages) (pos vpp) p policy)
    build_default-Builds small fits =
        rw (build_default_runs hn hs hv small)
          (construct-Builds _ _ _ _ _ _ (default-IsValid hn hs hv fits))

    pub build_default-chunks :
        (l : PipelineLayout)
        → build_default (pos n) (pos stages) (pos vpp) p policy ≡ ok l
        → l.chunks
          ≡ default_chunks stages (n / (stages * vpp)) (n % (stages * vpp)) (stages * vpp) 0 0
    unfolding made total
    build_default-chunks l e = elim (Bool-cases (ltb int_max (stages * vpp))) [
      | inl large ↦ cc (build_default_large hn hs hv (ground arith), e)
      | inr small ↦
          (construct-eq-ok _ _ _ _ _ _ l (sym (build_default_runs hn hs hv (ground arith)) ∙ e)).2
    ]

    -- In whatever layout `BuildDefault` returns for positive sizes, the chunks make up the layers of the model in
    -- order, their sizes differ by at most one, and chunk `id` is local chunk id / stages of
    -- stage id % stages.
    pub build_default-DealtEvenly :
        (l : PipelineLayout)
        → build_default (pos n) (pos stages) (pos vpp) p policy ≡ ok l
        → All (DealtEvenly stages (n / (stages * vpp))) l.chunks × Tiles 0 n l.chunks
    unfolding made total
    build_default-DealtEvenly l e =
        rw (build_default-chunks l e)
          (default_chunks-DealtEvenly stages _ _ _ 0 0, made-Tiles hn hs hv)
