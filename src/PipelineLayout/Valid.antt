-- ===== src/PipelineLayout/Valid.antt =====
-- What a layout must satisfy, stated without the loops of `Validate`.
use infini_train.Base.{ℕ, ◌≤◌, ◌<◌, ◌≡◌, ◌≢◌, true, false, ◌&&◌, List, [], ◌∷◌, ltb, ◌==◌, All}
use infini_train.Base.Int.{ℤ, pos, ◌≤ℤ◌}
use infini_train.Base.Sort.{count, select}
use infini_train.PipelineLayout.{
  SpecialModulePlacement, ChunkLayout, PlacedChunk, PipelineLayout, contains,
}
use infini_train.PipelineLayout.Check.{last_stage}

-- The number of chunks that hold a layer.
abbrev pub covers : ℕ → List PlacedChunk → ℕ
covers layer_id cs = count (λ c. contains c.layers layer_id) cs

-- The number of chunks of a stage that hold a layer at all.
abbrev pub busy_chunks : ℕ → List PlacedChunk → ℕ
busy_chunks i cs = count (λ c. (c.stage_id == i) && ltb c.layers.start c.layers.end) cs

abbrev pub InRange : ℕ → PlacedChunk → Type 0
InRange num_layers c = (c.layers.start ≤ c.layers.end) × (c.layers.end ≤ num_layers)

abbrev pub DistinctIds : List PlacedChunk → Type 0
DistinctIds [] = Unit
DistinctIds (c ∷ cs) = All (λ d. d.global_chunk_id ≢ c.global_chunk_id) cs × DistinctIds cs

abbrev pub IsStage : ℤ → ℕ → Type 0
IsStage z num_stages = (pos 0 ≤ℤ z) × (z ≤ℤ last_stage num_stages)

-- Each chunk of a list starts where the one before it ends.
abbrev pub Adjacent : List PlacedChunk → Type 0
Adjacent [] = Unit
Adjacent (a ∷ []) = Unit
Adjacent (a ∷ b ∷ cs) = (b.layers.start ≡ a.layers.end) × Adjacent (b ∷ cs)

-- The starts of the chunks do not go down.
abbrev pub InOrder : List PlacedChunk → Type 0
InOrder [] = Unit
InOrder (c ∷ cs) = All (λ d. c.layers.start ≤ d.layers.start) cs × InOrder cs

-- The chunks that start at layer `k`.
abbrev pub starting : ℕ → List PlacedChunk → List PlacedChunk
starting k cs = select (λ c. c.layers.start == k) cs

-- In the order of their starts, in which chunks of one start keep their order, each of the chunks
-- starts where the one before it ends.
pub record Contiguous (cs : List PlacedChunk) : Type 0 where
  pub ordered : List PlacedChunk
  pub in_order : InOrder ordered
  pub same_chunks : (k : ℕ) → starting k ordered ≡ starting k cs
  pub adjacent : Adjacent ordered

pub record AtBoundary (p : SpecialModulePlacement) (num_stages : ℕ) : Type 0 where
  pub first : p.embedding_stage ≡ pos 0
  pub norm_last : p.final_norm_stage ≡ last_stage num_stages
  pub head_last : p.lm_head_stage ≡ last_stage num_stages

pub record IsValid (l : PipelineLayout) : Type 0 where
  pub ranges : All (InRange l.num_layers) l.chunks
  pub covered : (i : ℕ) → i < l.num_layers → covers i l.chunks ≡ 1
  pub staged : All (λ c. c.stage_id < l.num_stages) l.chunks
  pub distinct : DistinctIds l.chunks
  pub embedding_in : IsStage l.placement.embedding_stage l.num_stages
  pub final_norm_in : IsStage l.placement.final_norm_stage l.num_stages
  pub lm_head_in : IsStage l.placement.lm_head_stage l.num_stages
  pub boundary :
      l.policy.require_boundary_special_modules ≡ true → AtBoundary l.placement l.num_stages
  pub nonempty :
      l.policy.allow_empty_stages ≡ false → (i : ℕ) → i < l.num_stages → 0 < busy_chunks i l.chunks
  pub contiguous : l.policy.require_contiguous_execution ≡ true → Contiguous l.chunks

-- The fields of a chunk, as `int`s, are not negative.
pub record NoneNegative (c : ChunkLayout) : Type 0 where
  pub global_chunk_id : pos 0 ≤ℤ c.global_chunk_id
  pub stage_id : pos 0 ≤ℤ c.stage_id
  pub local_chunk_id : pos 0 ≤ℤ c.local_chunk_id
  pub start : pos 0 ≤ℤ c.layers.start
  pub end : pos 0 ≤ℤ c.layers.end
