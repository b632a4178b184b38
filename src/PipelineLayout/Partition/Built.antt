-- ===== src/PipelineLayout/Partition/Built.antt =====
-- `BuildPipelineLayout` with a partition: what it accepts, and the layout that it builds.
use infini_train.Base.{
  ℕ, ◌≡◌, ◌↔◌, refl, sym, inl, inr, arith, true, List, ◌∷◌, ok, >>=-eq-ok, Bool-cases, length, sum,
  map,
}
use infini_train.Base.Int.{ℤ, pos, eqb_ℤ, eq_of_parts}
use infini_train.PipelineLayout.{SpecialModulePlacement, PipelineLayoutPolicy, PipelineLayout}
use infini_train.PipelineLayout.Builders.{build_contiguous, PlacementFits, Builds}
use infini_train.PipelineLayout.Builders.Contiguous.{CountsFit, build_contiguous-Builds}
use infini_train.PipelineLayout.Partition.{parse_layer_partition, build_pipeline_layout}
use infini_train.PipelineLayout.Partition.Spelled.{Spelled, parse_layer_partition_iff}

eqb_ℤ→≡ : (a b : ℤ) → eqb_ℤ a b ≡ true → a ≡ b
eqb_ℤ→≡ a b h = eq_of_parts a b (ground arith)

eqb_ℤ-refl : (a : ℤ) → eqb_ℤ a a ≡ true
eqb_ℤ-refl a = ground arith

module _ (p : SpecialModulePlacement) (policy : PipelineLayoutPolicy) where
  -- The counts of a partition that agrees with the sizes, and the layout they give.
  pub record Agrees (num_layers pp_size vpp_size : ℤ) (text : List ℕ) (l : PipelineLayout)
      : Type 0 where
    pub counts : List ℕ
    pub spelled : Spelled text counts
    pub stages_agree : pos (length counts) ≡ pp_size
    pub layers_agree : pos (sum counts) ≡ num_layers
    pub one_chunk : vpp_size ≡ pos 1
    pub built : build_contiguous (map pos counts) p policy ≡ ok l

  -- With a partition that is not empty, `BuildPipelineLayout` returns a layout exactly where the
  -- text spells counts, as many as there are stages, whose sum is the number of layers, with one
  -- chunk per stage, and the layout is what `BuildContiguous` returns for these counts.
  pub build_pipeline_layout_iff :
      (num_layers pp_size vpp_size : ℤ) (c : ℕ) (s : List ℕ) (l : PipelineLayout)
      → (build_pipeline_layout num_layers pp_size vpp_size (c ∷ s) p policy ≡ ok l)
        ↔ Agrees num_layers pp_size vpp_size (c ∷ s) l
  unfolding build_pipeline_layout
  build_pipeline_layout_iff num_layers pp_size vpp_size c s l = (
    λ e.
        let (ks, parsed, rest) = >>=-eq-ok (parse_layer_partition (c ∷ s)) _ e in
        elim (Bool-cases (eqb_ℤ (pos (length ks)) pp_size)) [
          | inr other ↦ cc (rw other at rest)
          | inl stages ↦ elim (Bool-cases (eqb_ℤ (pos (sum ks)) num_layers)) [
            | inr other ↦ cc (rw (stages, other) at rest)
            | inl layers ↦ elim (Bool-cases (eqb_ℤ vpp_size (pos 1))) [
              | inr other ↦ cc (rw (stages, layers, other) at rest)
              | inl one ↦ record {
                counts = ks;
                spelled = (parse_layer_partition_iff (c ∷ s) ks).0 parsed;
                stages_agree = eqb_ℤ→≡ _ _ stages;
                layers_agree = eqb_ℤ→≡ _ _ layers;
                one_chunk = eqb_ℤ→≡ _ _ one;
                built = rw (stages, layers, one) at rest;
              }
            ]
          ]
        ],
    λ h.
        let stages : eqb_ℤ (pos (length h.counts)) pp_size ≡ true =
          rw (sym h.stages_agree) (eqb_ℤ-refl (pos (length h.counts))) in
        let layers : eqb_ℤ (pos (sum h.counts)) num_layers ≡ true =
          rw (sym h.layers_agree) (eqb_ℤ-refl (pos (sum h.counts))) in
        let one : eqb_ℤ vpp_size (pos 1) ≡ true = rw h.one_chunk (eqb_ℤ-refl (pos 1)) in
        rw ((parse_layer_partition_iff (c ∷ s) h.counts).1 h.spelled, stages, layers, one) h.built,
  )

  -- For a text that spells counts of layers which are positive, or zero where the policy allows it,
  -- their number and sum as sizes, one chunk per stage, and a placement that fits,
  -- `BuildPipelineLayout` returns a valid, indexed layout of these sizes.
  pub build_pipeline_layout-Builds :
      (c : ℕ) (s : List ℕ) (k : ℕ) (ks : List ℕ)
      → Spelled (c ∷ s) (k ∷ ks)
      → CountsFit policy.allow_empty_stages (k ∷ ks)
      → PlacementFits p policy (length (k ∷ ks))
      → Builds (sum (k ∷ ks)) (length (k ∷ ks)) 1 (
          build_pipeline_layout
            (pos (sum (k ∷ ks)))
            (pos (length (k ∷ ks)))
            (pos 1)
            (c ∷ s)
            p
            policy)
  build_pipeline_layout-Builds c s k ks spelled counts_fit fits =
      let b = build_contiguous-Builds k ks p policy counts_fit fits in
      let e = (build_pipeline_layout_iff _ _ _ c s b.layout).1 (record {
        counts = k ∷ ks;
        spelled = spelled;
        stages_agree = refl;
        layers_agree = refl;
        one_chunk = refl;
        built = b.returns;
      }) in
      record {
        layout = b.layout;
        returns = e;
        valid = b.valid;
        indexed = b.indexed;
        layers_are = b.layers_are;
        stages_are = b.stages_are;
        vpp_is = b.vpp_is;
      }
