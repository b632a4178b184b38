-- ===== src/PipelineLayout/Builders/Contiguous.antt =====
-- `BuildContiguous` gives each stage the number of layers that was asked for.
use infini_train.Base.{
  ℕ, suc, ◌+◌, ◌-◌, ◌≤◌, ◌<◌, ◌≡◌, ◌⊎◌, refl, sym, subst, ◌∙◌, ap, inl, inr, Bool, true, false, not,
  ◌&&◌, List, [], ◌∷◌, All-map, some, Result, ok, ◌>>=◌, ◌==◌, All, Bool-cases, arith, length,
  length-map, get_elem?, map, sum,
}
use infini_train.Base.Int.{pos, ltb_ℤ}
use infini_train.PipelineLayout.{
  PlacedChunk, SpecialModulePlacement, PipelineLayoutPolicy, PipelineLayout, LayoutError, size,
}
use infini_train.PipelineLayout.Builders.{
  construct, PlacementFits, Builds, construct-Builds, construct-eq-ok, sum_counts,
  contiguous_chunks, build_placement, build_contiguous,
}
use infini_train.PipelineLayout.Tiles.{
  Tiles, Ascending, Ascending-weaken, Ascending-DistinctIds, Tiles-InRange, Tiles-covers,
  Tiles-Contiguous,
}
use infini_train.PipelineLayout.Valid.{busy_chunks}

-- A stage may have no layer only where the policy allows it.
abbrev pub CountsFit : Bool → List ℕ → Type 0
CountsFit allow_empty = All (λ k. (0 < k) ⊎ (allow_empty ≡ true))

sum_counts_lem :
    (b : Bool) (idx : ℕ) (ks : List ℕ) (n : ℕ)
    → CountsFit b ks
    → sum_counts b idx (map pos ks) n ≡ ok (n + sum ks)
unfolding sum_counts
sum_counts_lem b idx [] n h = ap ok (omega arith)
sum_counts_lem b idx (k ∷ ks) n h =
    let fine : ((k == 0) && not b) ≡ false = ground arith in
    let nonneg : ltb_ℤ (pos k) (pos 0) ≡ false = ground arith in
    rw (nonneg, fine) (sum_counts_lem b (idx + 1) ks (n + k) h.1 ∙ ap ok (omega arith))

contiguous_chunks-Tiles :
    (id : ℕ) (ks : List ℕ) (cursor hi : ℕ)
    → hi ≡ cursor + sum ks
    → Tiles cursor hi (contiguous_chunks id (map pos ks) cursor)
unfolding contiguous_chunks
contiguous_chunks-Tiles id [] cursor hi h = omega arith
contiguous_chunks-Tiles id (k ∷ ks) cursor hi h =
    let rest = contiguous_chunks-Tiles (id + 1) ks (cursor + k) hi (omega arith) in
    elim (Bool-cases (k == 0)) [
      | inl empty ↦
          let same : cursor + k ≡ cursor = ground arith in
          rw empty (
            subst (λ c. Tiles c hi (contiguous_chunks (id + 1) (map pos ks) (cursor + k))) same
              rest)
      | inr full ↦ rw full (refl, omega arith, rest)
    ]

contiguous_chunks-Ascending :
    (id : ℕ) (ks : List ℕ) (cursor : ℕ) → Ascending id (contiguous_chunks id (map pos ks) cursor)
unfolding contiguous_chunks
contiguous_chunks-Ascending id [] cursor = tt
contiguous_chunks-Ascending id (k ∷ ks) cursor =
    let rest = contiguous_chunks-Ascending (id + 1) ks (cursor + k) in
    elim (Bool-cases (k == 0)) [
      | inl empty ↦ rw empty (Ascending-weaken id (id + 1) _ (omega arith) rest)
      | inr full ↦ rw full (omega arith, Ascending-weaken (suc id) (id + 1) _ (omega arith) rest)
    ]

-- Stage `id + i` is given the i-th count, in one chunk.
abbrev pub AsCounted : ℕ → List ℕ → PlacedChunk → Type 0
AsCounted id ks c =
    (id ≤ c.stage_id)
    × (get_elem? ks (c.stage_id - id) ≡ some (size c.layers))
    × (c.global_chunk_id ≡ c.stage_id)
    × (c.local_chunk_id ≡ 0)

AsCounted-later :
    (id k : ℕ) (ks : List ℕ) (c : PlacedChunk) → AsCounted (id + 1) ks c → AsCounted id (k ∷ ks) c
AsCounted-later id k ks c h =
    let e : c.stage_id - id ≡ suc (c.stage_id - (id + 1)) = omega (arith, h.0) in
    (omega (arith, h.0), rw e h.1, h.2, h.3)

contiguous_chunks-AsCounted :
    (id : ℕ) (ks : List ℕ) (cursor : ℕ)
    → All (AsCounted id ks) (contiguous_chunks id (map pos ks) cursor)
unfolding contiguous_chunks
contiguous_chunks-AsCounted id [] cursor = tt
contiguous_chunks-AsCounted id (k ∷ ks) cursor =
    let rest =
      All-map (AsCounted (id + 1) ks) (AsCounted id (k ∷ ks)) (AsCounted-later id k ks) _
        (contiguous_chunks-AsCounted (id + 1) ks (cursor + k)) in
    let first_count : get_elem? (k ∷ ks) (id - id) ≡ some (cursor + k - cursor) =
      let here : id - id ≡ 0 = omega arith in rw here (ap some (omega arith)) in
    elim (Bool-cases (k == 0)) [
      | inl empty ↦ rw empty rest
      | inr full ↦ rw full ((omega arith, first_count, refl, refl), rest)
    ]

contiguous_chunks-staged :
    (id : ℕ) (ks : List ℕ) (cursor n : ℕ)
    → id + length ks ≤ n
    → All (λ c. c.stage_id < n) (contiguous_chunks id (map pos ks) cursor)
unfolding contiguous_chunks
contiguous_chunks-staged id [] cursor n h = tt
contiguous_chunks-staged id (k ∷ ks) cursor n h =
    let rest = contiguous_chunks-staged (id + 1) ks (cursor + k) n (omega arith) in
    elim (Bool-cases (k == 0)) [
      | inl empty ↦ rw empty rest
      | inr full ↦ rw full (omega arith, rest)
    ]

contiguous_chunks-busy :
    (id : ℕ) (ks : List ℕ) (cursor i : ℕ)
    → CountsFit false ks
    → id ≤ i
    → i < id + length ks
    → 0 < busy_chunks i (contiguous_chunks id (map pos ks) cursor)
unfolding contiguous_chunks
contiguous_chunks-busy id [] cursor i h lo hi = absurd (omega arith)
contiguous_chunks-busy id (k ∷ ks) cursor i h lo hi =
    let full : (k == 0) ≡ false = ground (arith, h.0) in
    elim (Bool-cases (id == i)) [
      | inl here ↦ rw full (ground arith)
      | inr later ↦ rw full (
          omega (
            arith,
            contiguous_chunks-busy (id + 1) ks (cursor + k) i h.1 (ground arith) (omega arith),
          ))
    ]

module _ (k : ℕ) (ks : List ℕ) (p : SpecialModulePlacement) (policy : PipelineLayoutPolicy)
    (counts_fit : CountsFit policy.allow_empty_stages (k ∷ ks)) where
  made : List PlacedChunk
  made = contiguous_chunks 0 (map pos (k ∷ ks)) 0

  construct_same :
      {n m s t : ℕ}
      → n ≡ m
      → s ≡ t
      → construct n s 1 made (build_placement p s) policy
        ≡ construct m t 1 made (build_placement p t) policy
  construct_same e f = cc

  build_contiguous_runs :
      build_contiguous (map pos (k ∷ ks)) p policy
      ≡ construct
          (sum (k ∷ ks))
          (length (k ∷ ks))
          1
          made
          (build_placement p (length (k ∷ ks)))
          policy
  unfolding build_contiguous made
  build_contiguous_runs =
      ap
        (λ (m : Result LayoutError ℕ). m >>= λ n.
          construct n (length (map pos (k ∷ ks))) 1 made
            (build_placement p (length (map pos (k ∷ ks)))) policy)
        (sum_counts_lem policy.allow_empty_stages 0 (k ∷ ks) 0 counts_fit)
      ∙ construct_same (omega arith) (length-map (k ∷ ks) pos)

  -- For counts of layers that are positive, or zero where the policy allows it, and a placement
  -- that fits, `BuildContiguous` returns a valid, indexed layout of as many layers.
  pub build_contiguous-Builds :
      PlacementFits p policy (length (k ∷ ks))
      → Builds (sum (k ∷ ks)) (length (k ∷ ks)) 1 (build_contiguous (map pos (k ∷ ks)) p policy)
  unfolding made
  build_contiguous-Builds fits =
      let n = sum (k ∷ ks) in
      let tiles = contiguous_chunks-Tiles 0 (k ∷ ks) 0 n (omega arith) in
      rw build_contiguous_runs (
        construct-Builds _ _ _ made _ policy (record {
          ranges = Tiles-InRange 0 n n made tiles (omega arith);
          covered = λ i h. ground (arith, Tiles-covers 0 n i made tiles);
          staged = contiguous_chunks-staged 0 (k ∷ ks) 0 _ (omega arith);
          distinct = Ascending-DistinctIds 0 made (contiguous_chunks-Ascending 0 (k ∷ ks) 0);
          embedding_in = fits.embedding_in;
          final_norm_in = fits.final_norm_in;
          lm_head_in = fits.lm_head_in;
          boundary = fits.boundary;
          nonempty = λ e i h.
              contiguous_chunks-busy 0 (k ∷ ks) 0 i (subst (λ b. CountsFit b (k ∷ ks)) e counts_fit)
                (omega arith) (omega arith);
          contiguous = λ _. Tiles-Contiguous 0 n made tiles;
        }))

  -- In whatever layout `BuildContiguous` returns for counts that are positive, or zero where the
  -- policy allows it, each chunk has the id of its stage and as many layers as that stage's count;
  -- the chunks make up the layers of the model in order.
  pub build_contiguous-AsCounted :
      (l : PipelineLayout)
      → build_contiguous (map pos (k ∷ ks)) p policy ≡ ok l
      → All (AsCounted 0 (k ∷ ks)) l.chunks × Tiles 0 (sum (k ∷ ks)) l.chunks
  unfolding made
  build_contiguous-AsCounted l e =
      let same = (construct-eq-ok _ _ _ _ _ _ l (sym build_contiguous_runs ∙ e)).2 in
      rw same (
        contiguous_chunks-AsCounted 0 (k ∷ ks) 0,
        contiguous_chunks-Tiles 0 (k ∷ ks) 0 _ (omega arith),
      )
