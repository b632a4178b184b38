-- ===== src/Tests/PipelineLayout.antt =====
-- Layouts of small models.
use infini_train.Base.{
  ℕ, ◌*◌, ◌/◌, ◌<◌, ◌≡◌, refl, arith, true, List, [], ◌∷◌, ◌++◌, ◌∈◌, All, inl, length, map, sum,
  ok, err,
}
use infini_train.Base.Int.{pos, negsuc}
use infini_train.PipelineLayout.{
  LayoutError, PipelineLayout, PlacedChunk, default_placement, default_policy, contains, given,
}
use infini_train.PipelineLayout.Check.{validate, validate_placed}
use infini_train.PipelineLayout.Check.Exact.{validate_placed_iff}
use infini_train.PipelineLayout.Valid.{IsValid}
use infini_train.PipelineLayout.Tiles.{Tiles}
use infini_train.PipelineLayout.Indexes.{build_indexes, local_layer_index, chunk_of_layer}
use infini_train.PipelineLayout.Indexes.Located.{Located}
use infini_train.PipelineLayout.Indexes.Queries.{
  chunk_of_layer-contains, local_layer_index_increasing,
}
use infini_train.PipelineLayout.Builders.{
  bare_layout, chunk_at, build_default, build_contiguous, Builds, default_placement-PlacementFits,
}
use infini_train.PipelineLayout.Builders.Default.{
  build_default-Builds, build_default-DealtEvenly, DealtEvenly,
}
use infini_train.PipelineLayout.Builders.Contiguous.{
  build_contiguous-Builds, build_contiguous-AsCounted, AsCounted,
}

-- Five layers on two stages of two chunks each.
abbrev five_chunks : List PlacedChunk
five_chunks = chunk_at 0 0 0 0 2 ∷ chunk_at 1 1 0 2 1 ∷ chunk_at 2 0 1 3 1 ∷ chunk_at 3 1 1 4 1 ∷ []

abbrev five : PipelineLayout
five =
    bare_layout 5 2 2 five_chunks
      (record { embedding_stage = pos 0; final_norm_stage = pos 1; lm_head_stage = pos 1 })
      default_policy

-- The last layer is missing.
abbrev uncovered : PipelineLayout
uncovered = record five { num_layers = 6 }

five_builds :
    build_default (pos 5) (pos 2) (pos 2) default_placement default_policy ≡ ok (build_indexes five)
unfolding build_default build_indexes
five_builds = refl

uncovered_fails : validate_placed uncovered ≡ err (LayoutError.layer_unassigned 5)
unfolding validate
uncovered_fails = refl

negative_count_fails :
    build_contiguous (pos 1 ∷ negsuc 0 ∷ []) default_placement default_policy
    ≡ err (LayoutError.negative_count (negsuc 0))
unfolding build_contiguous
negative_count_fails = refl

layer_3_is_on_stage_0 : local_layer_index (build_indexes five) (pos 0) (pos 3) ≡ ok 2
unfolding local_layer_index build_indexes
layer_3_is_on_stage_0 = refl

five-IsValid : IsValid five
unfolding validate
five-IsValid = (validate_placed_iff five).0 refl

-- A chunk whose id is not set.
negative_id_fails :
    validate five (
      map given five_chunks
      ++ record (given (chunk_at 4 1 2 5 0)) { global_chunk_id = negsuc 0 } ∷ [])
    ≡ err (LayoutError.negative_chunk_id (negsuc 0))
unfolding validate
negative_id_fails = refl

chunk_of_layer-contains_example :
    (c : PlacedChunk) × (chunk_of_layer (build_indexes five) (pos 3) ≡ ok c)
    × (c ∈ five_chunks)
    × (contains c.layers 3 ≡ true)
chunk_of_layer-contains_example = chunk_of_layer-contains five five-IsValid 3 (omega arith)

local_layer_index_increasing_example : 1 < 2
unfolding local_layer_index build_indexes
local_layer_index_increasing_example =
    local_layer_index_increasing five five-IsValid 0 1 3 1 2 (omega arith) (omega arith) refl refl

build_default-Builds_example :
    Builds 5 2 2 (build_default (pos 5) (pos 2) (pos 2) default_placement default_policy)
build_default-Builds_example =
    build_default-Builds 5 2 2 default_placement default_policy (omega arith) (omega arith)
      (omega arith) (omega arith) (default_placement-PlacementFits default_policy 2 (omega arith))

build_default-DealtEvenly_example :
    All (DealtEvenly 2 (5 / (2 * 2))) five_chunks × Tiles 0 5 five_chunks
unfolding build_indexes
build_default-DealtEvenly_example =
    build_default-DealtEvenly 5 2 2 default_placement default_policy (omega arith) (omega arith)
      (omega arith) (build_indexes five) five_builds

-- Three layers on the first stage and two on the second.
abbrev three_two : PipelineLayout
three_two = record five { vpp_size = 1; chunks = chunk_at 0 0 0 0 3 ∷ chunk_at 1 1 0 3 2 ∷ [] }

three_two_builds :
    build_contiguous (map pos (3 ∷ 2 ∷ [])) default_placement default_policy
    ≡ ok (build_indexes three_two)
unfolding build_contiguous build_indexes
three_two_builds = refl

build_contiguous-Builds_example :
    Builds
      (sum (3 ∷ 2 ∷ []))
      (length {A = ℕ} (3 ∷ 2 ∷ []))
      1
      (build_contiguous (map pos (3 ∷ 2 ∷ [])) default_placement default_policy)
build_contiguous-Builds_example =
    build_contiguous-Builds 3 (2 ∷ []) default_placement default_policy
      (inl (omega arith), (inl (omega arith), tt))
      (default_placement-PlacementFits default_policy 2 (omega arith))

build_contiguous-AsCounted_example :
    All (AsCounted 0 (3 ∷ 2 ∷ [])) three_two.chunks × Tiles 0 (sum (3 ∷ 2 ∷ [])) three_two.chunks
unfolding build_indexes
build_contiguous-AsCounted_example =
    build_contiguous-AsCounted 3 (2 ∷ []) default_placement default_policy
      (inl (omega arith), (inl (omega arith), tt)) (build_indexes three_two) three_two_builds
