-- ===== src/PipelineLayout.antt =====
-- `PipelineLayout` (infini_train/include/nn/parallel/pipeline_layout.h and
-- infini_train/src/nn/parallel/pipeline_layout.cc): how the transformer layers of a model are
-- dealt to the chunks and the pipeline stages. This file has the data; the children have the
-- members. An `int` that may be negative is in ℤ. `Validate` reads chunks whose fields are `int`s,
-- and the members that run after it have passed read the same chunks with fields in ℕ.
pub mod Check
pub mod Indexes
pub mod Builders
pub mod Partition
pub mod Balanced
pub mod Valid
pub mod Tiles
use infini_train.Base.{ℕ, ◌-◌, ◌&&◌, Bool, true, false, List, [], Option, none, leb, ltb}
use infini_train.Base.Int.{ℤ, pos, negsuc, pos_part, ◌-ℤ◌}

pub data SpecialModule : Type 0 where
  embedding final_norm lm_head : SpecialModule

pub record LayerRange : Type 0 where
  pub start : ℤ
  pub end : ℤ

-- `LayerRange::size`
abbrev pub int_size : LayerRange → ℤ
int_size r = r.end -ℤ r.start

pub record ChunkLayout : Type 0 where
  pub global_chunk_id : ℤ
  pub stage_id : ℤ
  pub local_chunk_id : ℤ
  pub layers : LayerRange

-- A range and a chunk none of whose fields is negative.
pub record PlacedRange : Type 0 where
  pub start : ℕ
  pub end : ℕ

-- `end - start`; the difference is negative in no range that has passed `validate`.
abbrev pub size : PlacedRange → ℕ
size r = r.end - r.start

abbrev pub contains : PlacedRange → ℕ → Bool
contains r layer_id = ltb layer_id r.end && leb r.start layer_id

pub record SpecialModulePlacement : Type 0 where
  pub embedding_stage : ℤ
  pub final_norm_stage : ℤ
  pub lm_head_stage : ℤ

-- The default member values, -1 in each.
abbrev pub default_placement : SpecialModulePlacement
default_placement = record {
  embedding_stage = negsuc 0;
  final_norm_stage = negsuc 0;
  lm_head_stage = negsuc 0;
}

pub record PlacedChunk : Type 0 where
  pub global_chunk_id : ℕ
  pub stage_id : ℕ
  pub local_chunk_id : ℕ
  pub layers : PlacedRange

-- A chunk as the builders give it to the constructor.
abbrev pub given : PlacedChunk → ChunkLayout
given c = record {
  global_chunk_id = pos c.global_chunk_id;
  stage_id = pos c.stage_id;
  local_chunk_id = pos c.local_chunk_id;
  layers = record { start = pos c.layers.start; end = pos c.layers.end };
}

-- The chunk that is read after `Validate`.
abbrev pub placed : ChunkLayout → PlacedChunk
placed c = record {
  global_chunk_id = pos_part c.global_chunk_id;
  stage_id = pos_part c.stage_id;
  local_chunk_id = pos_part c.local_chunk_id;
  layers = record { start = pos_part c.layers.start; end = pos_part c.layers.end };
}

pub record StageLayout : Type 0 where
  pub stage_id : ℕ
  pub global_chunk_ids : List ℕ

-- A default `LayerLocation`, with -1 in each field, is `none` in a list of locations.
pub record LayerLocation : Type 0 where
  pub stage_id : ℕ
  pub global_chunk_id : ℕ
  pub local_chunk_id : ℕ
  pub index_in_chunk : ℕ
  -- Not set yet is -1 in the source, and 0 here; the second loop of `BuildIndexes` sets it.
  pub flat_local_layer_index : ℕ

pub record PipelineLayoutPolicy : Type 0 where
  pub allow_empty_stages : Bool
  pub require_contiguous_execution : Bool
  pub require_boundary_special_modules : Bool

abbrev pub default_policy : PipelineLayoutPolicy
default_policy = record {
  allow_empty_stages = false;
  require_contiguous_execution = true;
  require_boundary_special_modules = true;
}

pub record PipelineLayout : Type 0 where
  pub num_layers : ℕ
  pub num_stages : ℕ
  pub vpp_size : ℕ
  pub chunks : List PlacedChunk
  pub stages : List StageLayout
  pub placement : SpecialModulePlacement
  pub policy : PipelineLayoutPolicy
  pub layer_locations : List (Option LayerLocation)

-- The messages of `PipelineLayoutError`, with what they print.
pub data LayoutError : Type 0 where
  stage_outside : SpecialModule → ℤ → ℕ → LayoutError
  num_layers_not_positive num_stages_not_positive vpp_size_not_positive : ℤ → LayoutError
  too_many_chunks : LayoutError
  no_stage_counts : LayoutError
  negative_count : ℤ → LayoutError
  zero_layer_stage : ℕ → LayoutError
  range_outside : ChunkLayout → LayoutError
  layer_twice : ℕ → LayoutError
  layer_unassigned : ℕ → LayoutError
  chunk_stage_outside : ChunkLayout → LayoutError
  negative_chunk_id duplicate_chunk_id : ℤ → LayoutError
  negative_local_chunk_id : ℤ → ℤ → LayoutError
  embedding_not_first final_norm_not_last lm_head_not_last : ℤ → LayoutError
  empty_stage : ℕ → LayoutError
  not_contiguous : LayerRange → LayerRange → LayoutError
  stage_without_chunk : ℕ → LayoutError
  stage_id_out_of_range layer_id_out_of_range : ℤ → ℕ → LayoutError
  chunk_not_found : ℕ → LayoutError
  layer_of_other_stage : ℕ → ℕ → ℕ → LayoutError
  -- `ParseLayerPartition` and `BuildPipelineLayout`
  partition_empty : LayoutError
  empty_token : ℕ → LayoutError
  invalid_character : ℕ → LayoutError
  token_not_int : List ℕ → LayoutError
  stage_count_mismatch : ℤ → ℕ → LayoutError
  layer_sum_mismatch : ℤ → ℕ → LayoutError
  vpp_not_supported : ℤ → LayoutError
  -- `ParseMegatronStyleLayout`
  layout_empty : LayoutError
  sizes_not_positive : ℤ → ℤ → ℤ → LayoutError
  unexpected_character : ℕ → LayoutError
  unmatched_parenthesis repetition_not_number repetition_too_large repetition_zero : LayoutError
  multiple_tokens : SpecialModule → LayoutError
  whitespace : LayoutError
  unknown_symbol : ℕ → LayoutError
  chunk_count_mismatch : ℕ → ℕ → ℕ → LayoutError
  layer_count_mismatch : ℕ → ℕ → LayoutError
  -- `SuggestBalancedPartition`
  layers_or_stages_not_positive : ℤ → ℤ → LayoutError
  layers_below_stages : ℤ → ℤ → LayoutError
  costs_length_mismatch : ℤ → ℕ → LayoutError
  cost_not_finite : ℕ → LayoutError
  -- the scheduler's own check, in pp/pipeline_schedule.cc
  scheduler_mismatch : ℤ → ℕ → LayoutError
  topology_mismatch : ℤ → ℤ → ℕ → ℕ → LayoutError
