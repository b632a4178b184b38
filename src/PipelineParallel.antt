-- ===== src/PipelineParallel.antt =====
-- `PipelineParallel::GetStageInfo` (infini_train/src/nn/parallel/pp/pipeline_parallel.cc): the
-- layers of a stage's chunks, computed without a layout. Ranks and sizes are ℕ.
pub mod Ranges
use infini_train.Base.{
  ℕ, zero, suc, ◌+◌, ◌-◌, ◌*◌, ◌/◌, ◌%◌, min, Bool, List, [], ◌∷◌, ◌++◌, ltb, leb, ◌==◌,
  if◌then◌else◌,
}
use infini_train.PipelineLayout.{PlacedRange}

pub record StageInfo : Type 0 where
  pub is_first_stage : Bool
  pub is_last_stage : Bool
  pub layer_ranges_per_chunk : List PlacedRange

-- The first layer of a chunk: each of the first `remainder` chunks has one layer more.
unfoldable pub chunk_start : ℕ → ℕ → ℕ → ℕ
chunk_start layers_per_chunk remainder id =
    if ltb id remainder
    then id * (layers_per_chunk + 1)
    else remainder * (layers_per_chunk + 1) + (id - remainder) * layers_per_chunk

unfoldable pub chunk_end : ℕ → ℕ → ℕ → ℕ
unfolding chunk_start
chunk_end layers_per_chunk remainder id =
    chunk_start layers_per_chunk remainder id
    + (if ltb id remainder then layers_per_chunk + 1 else layers_per_chunk)

-- What the loop's body pushes for a chunk.
unfoldable pub chunk_ranges : ℕ → ℕ → ℕ → ℕ → List PlacedRange
chunk_ranges total_layers layers_per_chunk remainder id =
    let start = chunk_start layers_per_chunk remainder id in
    let end = min (chunk_end layers_per_chunk remainder id) total_layers in
    if ltb start end then record { start = start; end = end } ∷ [] else []

module _ (total_layers pp_size rank layers_per_chunk remainder : ℕ) where
  -- The loop, at `local_chunk_idx` with `left` chunks to go. The first chunk past the layers ends
  -- it.
  unfoldable pub stage_ranges : ℕ → ℕ → List PlacedRange
  stage_ranges local_chunk_idx zero = []
  stage_ranges local_chunk_idx (suc left) =
      let global_chunk_idx = local_chunk_idx * pp_size + rank in
      let rest = stage_ranges (local_chunk_idx + 1) left in
      if leb total_layers (global_chunk_idx * layers_per_chunk)
      then []
      else chunk_ranges total_layers layers_per_chunk remainder global_chunk_idx ++ rest

unfoldable pub get_stage_info : ℕ → ℕ → ℕ → ℕ → StageInfo
unfolding stage_ranges
get_stage_info total_layers pp_size rank chunks_per_stage = record {
  is_first_stage = rank == 0;
  is_last_stage = rank + 1 == pp_size;
  layer_ranges_per_chunk =
      stage_ranges total_layers pp_size rank (total_layers / (pp_size * chunks_per_stage))
        (total_layers % (pp_size * chunks_per_stage)) 0 chunks_per_stage;
}
