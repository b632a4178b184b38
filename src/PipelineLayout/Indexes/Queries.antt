-- ===== src/PipelineLayout/Indexes/Queries.antt =====
-- Looking a layer up by chunk, and its number on its stage.
use infini_train.Base.{
  ℕ, zero, suc, ◌≤◌, ◌<◌, ◌≡◌, ◌≢◌, sym, ◌∙◌, ap, inl, inr, true, ◌||◌, List, [], ◌∷◌, ok, ◌==◌,
  ==-refl, ==-ne, ◌∈◌, Bool-cases, arith,
}
use infini_train.Base.Int.{pos, ltb_ℤ, leb_ℤ}
use infini_train.Base.Sort.{bit}
use infini_train.PipelineLayout.{PlacedChunk, PipelineLayout, contains}
use infini_train.PipelineLayout.Indexes.{
  build_indexes, local_layer_index, find_chunk, chunk, chunk_of_layer,
}
use infini_train.PipelineLayout.Indexes.Placed.{stage_covers}
use infini_train.PipelineLayout.Indexes.Located.{
  locate_layer-Located, stage_layers_below, All-member,
}
use infini_train.PipelineLayout.Valid.{IsValid, DistinctIds}

find_chunk_self :
    (cs : List PlacedChunk) (c : PlacedChunk)
    → DistinctIds cs
    → c ∈ cs
    → find_chunk cs c.global_chunk_id ≡ ok c
unfolding find_chunk
find_chunk_self [] c d m = absurd m
find_chunk_self (x ∷ cs) c d (inl e) = rw (← e, ==-refl)
find_chunk_self (x ∷ cs) c d (inr m) =
    let other : c.global_chunk_id ≢ x.global_chunk_id =
      All-member (λ y. y.global_chunk_id ≢ x.global_chunk_id) cs c d.0 m in
    rw (==-ne _ _ (λ e. other (sym e))) (find_chunk_self cs c d.1 m)

stage_layers_below_mono :
    (cs : List PlacedChunk) (s i j : ℕ)
    → i ≤ j
    → stage_layers_below cs s i ≤ stage_layers_below cs s j
stage_layers_below_mono cs s i zero h = let e : i ≡ 0 = omega arith in rw e (omega arith)
stage_layers_below_mono cs s i (suc j) h = elim (Bool-cases (i == suc j)) [
  | inl e ↦ (let p : i ≡ suc j = ground arith in rw p (omega arith))
  | inr e ↦ omega (arith, stage_layers_below_mono cs s i j (ground arith))
]

module _ (l : PipelineLayout) (v : IsValid l) where
  -- On a valid layout, once it is indexed, `chunk_of_layer` returns the chunk whose range holds the layer.
  pub chunk_of_layer-contains :
      (i : ℕ)
      → i < l.num_layers
      → (c : PlacedChunk) × (chunk_of_layer (build_indexes l) (pos i) ≡ ok c)
        × (c ∈ l.chunks)
        × (contains c.layers i ≡ true)
  unfolding chunk_of_layer build_indexes chunk
  chunk_of_layer-contains i h =
      let p = locate_layer-Located l v i h in
      (
        p.owner,
        rw p.found (find_chunk_self l.chunks p.owner v.distinct p.member),
        p.member,
        p.holds,
      )

  -- What `local_layer_index` returns, read backwards.
  local_layer_index_below :
      (s i a : ℕ)
      → i < l.num_layers
      → local_layer_index (build_indexes l) (pos s) (pos i) ≡ ok a
      → (a ≡ stage_layers_below l.chunks s i) × (stage_covers s i l.chunks ≡ 1)
  unfolding local_layer_index build_indexes
  local_layer_index_below s i a h e =
      let p = locate_layer-Located l v i h in
      elim (Bool-cases (ltb_ℤ (pos s) (pos 0) || leb_ℤ (pos l.num_stages) (pos s))) [
        | inl outside ↦ cc (rw outside at e)
        | inr inside ↦ elim (Bool-cases (p.owner.stage_id == s)) [
          | inl own ↦
              let here : p.owner.stage_id ≡ s = ground arith in
              let same : stage_layers_below l.chunks p.owner.stage_id i ≡ a =
                cc (rw (inside, p.found, own) at e) in
              (
                sym same ∙ ap (λ (t : ℕ). stage_layers_below l.chunks t i) here,
                p.on_own_stage s ∙ ap bit own,
              )
          | inr other ↦ cc (rw (inside, p.found, other) at e)
        ]
      ]

  -- On a valid layout, once it is indexed, `local_layer_index` numbers the layers of one stage in
  -- the order of the model.
  pub local_layer_index_increasing :
      (s i j a b : ℕ)
      → i < j
      → j < l.num_layers
      → local_layer_index (build_indexes l) (pos s) (pos i) ≡ ok a
      → local_layer_index (build_indexes l) (pos s) (pos j) ≡ ok b
      → a < b
  local_layer_index_increasing s i j a b lt h ea eb =
      let at_i = local_layer_index_below s i a (omega arith) ea in
      let at_j = local_layer_index_below s j b h eb in
      omega (arith, stage_layers_below_mono l.chunks s (suc i) j lt)
