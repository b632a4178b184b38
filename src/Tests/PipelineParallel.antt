-- ===== src/Tests/PipelineParallel.antt =====
-- The layers of a stage, computed without a layout.
use infini_train.Base.{◌≡◌, refl, arith, [], ◌∷◌, ok}
use infini_train.Base.Int.{pos}
use infini_train.PipelineLayout.{default_placement, default_policy, PipelineLayout}
use infini_train.PipelineLayout.Indexes.{build_indexes}
use infini_train.PipelineLayout.Builders.{bare_layout, build_default, chunk_at}
use infini_train.PipelineParallel.{get_stage_info, chunk_ranges, chunk_start, chunk_end}
use infini_train.PipelineParallel.Ranges.{ranges_of, get_stage_info-ranges}

-- Five layers on two stages of two chunks each.
abbrev five : PipelineLayout
five =
    bare_layout 5 2 2
      (chunk_at 0 0 0 0 2 ∷ chunk_at 1 1 0 2 1 ∷ chunk_at 2 0 1 3 1 ∷ chunk_at 3 1 1 4 1 ∷ [])
      (record { embedding_stage = pos 0; final_norm_stage = pos 1; lm_head_stage = pos 1 })
      default_policy

five_builds :
    build_default (pos 5) (pos 2) (pos 2) default_placement default_policy ≡ ok (build_indexes five)
unfolding build_default build_indexes
five_builds = refl

first_stage_layers :
    (get_stage_info 5 2 0 2).layer_ranges_per_chunk
    ≡ record { start = 0; end = 2 } ∷ record { start = 3; end = 4 } ∷ []
unfolding get_stage_info chunk_ranges chunk_start chunk_end
first_stage_layers = refl

get_stage_info-ranges_example :
    (get_stage_info 5 2 1 2).layer_ranges_per_chunk ≡ ranges_of 1 (build_indexes five).chunks
get_stage_info-ranges_example =
    get_stage_info-ranges 5 2 2 1 (omega arith) (omega arith) (omega arith) default_placement
      default_policy (build_indexes five) five_builds
