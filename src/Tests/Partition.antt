-- ===== src/Tests/Partition.antt =====
-- The partition "3,2" of five layers on two stages.
use infini_train.Base.{ℕ, ◌≡◌, ◌↔◌, refl, arith, inl, List, [], ◌∷◌, ok, err}
use infini_train.Base.Int.{pos}
use infini_train.PipelineLayout.{LayoutError, PipelineLayout, default_placement, default_policy}
use infini_train.PipelineLayout.Builders.{
  bare_layout, build_contiguous, chunk_at, Builds, default_placement-PlacementFits,
}
use infini_train.PipelineLayout.Indexes.{build_indexes}
use infini_train.PipelineLayout.Partition.{parse_layer_partition, build_pipeline_layout}
use infini_train.PipelineLayout.Partition.Spelled.{Spelled, parse_layer_partition_iff}
use infini_train.PipelineLayout.Partition.Built.{
  Agrees, build_pipeline_layout_iff, build_pipeline_layout-Builds,
}

abbrev text : List ℕ
text = 51 ∷ 44 ∷ 50 ∷ []

text_parses : parse_layer_partition text ≡ ok (3 ∷ 2 ∷ [])
unfolding parse_layer_partition
text_parses = refl

trailing_comma_fails : parse_layer_partition (51 ∷ 44 ∷ []) ≡ err (LayoutError.empty_token 2)
unfolding parse_layer_partition
trailing_comma_fails = refl

space_fails : parse_layer_partition (51 ∷ 32 ∷ []) ≡ err (LayoutError.invalid_character 32)
unfolding parse_layer_partition
space_fails = refl

three_two : PipelineLayout
unfolding build_indexes
three_two = build_indexes (
    bare_layout 5 2 1 (chunk_at 0 0 0 0 3 ∷ chunk_at 1 1 0 3 2 ∷ [])
      (record { embedding_stage = pos 0; final_norm_stage = pos 1; lm_head_stage = pos 1 })
      default_policy)

text_builds :
    build_pipeline_layout (pos 5) (pos 2) (pos 1) text default_placement default_policy
    ≡ ok three_two
unfolding build_pipeline_layout build_contiguous three_two
text_builds = refl

text-Spelled : Spelled text (3 ∷ 2 ∷ [])
text-Spelled = (parse_layer_partition_iff text (3 ∷ 2 ∷ [])).0 text_parses

parse_layer_partition_iff_example :
    (parse_layer_partition text ≡ ok (3 ∷ 2 ∷ [])) ↔ Spelled text (3 ∷ 2 ∷ [])
parse_layer_partition_iff_example = parse_layer_partition_iff text (3 ∷ 2 ∷ [])

build_pipeline_layout_iff_example :
    (build_pipeline_layout (pos 5) (pos 2) (pos 1) text default_placement default_policy
      ≡ ok three_two)
    ↔ Agrees default_placement default_policy (pos 5) (pos 2) (pos 1) text three_two
build_pipeline_layout_iff_example =
    build_pipeline_layout_iff default_placement default_policy (pos 5) (pos 2) (pos 1) 51
      (44 ∷ 50 ∷ []) three_two

build_pipeline_layout-Builds_example :
    Builds 5 2 1
      (build_pipeline_layout (pos 5) (pos 2) (pos 1) text default_placement default_policy)
build_pipeline_layout-Builds_example =
    build_pipeline_layout-Builds default_placement default_policy 51 (44 ∷ 50 ∷ []) 3 (2 ∷ [])
      text-Spelled (inl (omega arith), (inl (omega arith), tt))
      (default_placement-PlacementFits default_policy 2 (omega arith))
