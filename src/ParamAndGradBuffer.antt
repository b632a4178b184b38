-- ===== src/ParamAndGradBuffer.antt =====
-- The flat buffer of parameters and gradients of the data-parallel optimizer
-- (infini_train/src/nn/parallel/ddp/param_and_grad_buffer.cc, with its header
-- infini_train/include/nn/parallel/ddp/param_and_grad_buffer.h): where `BuildBuckets` places each
-- parameter, and the buckets. A parameter is its number of elements; counts of elements do not wrap
-- around. A loop from `rbegin` to `rend` handles the rest of the list before the head.
pub mod Padding
pub mod Placing
pub mod Packed
pub mod Checked
pub mod Buckets
use infini_train.Base.{
  ℕ, zero, suc, ◌+◌, ◌-◌, ◌*◌, ◌%◌, ◌^◌, Bool, List, [], ◌∷◌, ◌++◌, Result, ok, ◌>>◌, require, leb,
  ◌==◌, if◌then◌else◌, length, sum,
}

pub data BufferError : Type 0 where
  unpadded_above_padded not_divisible_by_world_size padded_without_stage : BufferError
  unknown_bucket bucket_start_mismatch bucket_count_mismatch : BufferError
  bucket_id_mismatch bucket_range_mismatch bucket_not_divisible : BufferError
  unknown_param param_in_two_buckets : BufferError

-- The buffer's part of `DistributedDataParallelConfig`, and the size of the data-parallel group.
pub record BufferConfig : Type 0 where
  pub zero_stage : ℕ
  pub bucket_size_in_elements : ℕ
  pub pad_buckets_for_high_nccl_busbw : Bool
  pub ddp_world_size : ℕ

abbrev pub param_start_align_elements : ℕ
param_start_align_elements = 64

abbrev pub bucket_end_align_elements : ℕ
bucket_end_align_elements = 128

unfoldable pub pad_to : ℕ → ℕ → ℕ
pad_to value alignment =
    let remainder = value % alignment in
    if alignment == 0
    then value
    else (if remainder == 0 then value else value + (alignment - remainder))

-- `std::lcm` for `b > 0`: the first multiple `a * k` that `b` divides; `a * b` is one.
unfoldable pub multiple_from : ℕ → ℕ → ℕ → ℕ → ℕ
multiple_from a b k zero = a * k
multiple_from a b k (suc left) =
    let later = multiple_from a b (k + 1) left in if a * k % b == 0 then a * k else later

unfoldable pub lcm : ℕ → ℕ → ℕ
unfolding multiple_from
lcm a b = multiple_from a b 1 (b - 1)

abbrev pub pads : BufferConfig → Bool
pads c = leb 1 c.zero_stage

unfoldable pub pad_param_start_if_needed : BufferConfig → ℕ → ℕ
unfolding pad_to
pad_param_start_if_needed c start =
    if pads c then pad_to start param_start_align_elements else start

unfoldable pub bucket_multiple : BufferConfig → ℕ
unfolding lcm
bucket_multiple c =
    let lcm_val = lcm c.ddp_world_size bucket_end_align_elements in
    if c.pad_buckets_for_high_nccl_busbw then lcm lcm_val (2 ^ 16) else lcm_val

unfoldable pub pad_bucket_end_if_needed : BufferConfig → ℕ → ℕ
unfolding pad_to bucket_multiple
pad_bucket_end_if_needed c bucket_end_index =
    if pads c then pad_to bucket_end_index (bucket_multiple c) else bucket_end_index

-- An entry of `param_index_map_`: start, end and bucket.
pub record ParamIndex : Type 0 where
  pub start_index : ℕ
  pub end_index : ℕ
  pub bucket_id : ℕ

-- An entry of `bucket_indices_`.
pub record BucketRange : Type 0 where
  pub first : ℕ
  pub second : ℕ

-- The variables of the loop that packs. The map has an entry for each parameter that was handled,
-- in the order of the parameters; of `bucket_params` only the number counts here.
pub record Packing : Type 0 where
  pub param_start_index : ℕ
  pub param_end_index : ℕ
  pub bucket_start_index : ℕ
  pub bucket_end_index : ℕ
  pub bucket_id : ℕ
  pub bucket_params : ℕ
  pub param_index_map : List ParamIndex
  pub bucket_indices : List BucketRange
  pub per_bucket_numel_unpadded : List ℕ

abbrev pub start_packing : Packing
start_packing = record {
  param_start_index = 0;
  param_end_index = 0;
  bucket_start_index = 0;
  bucket_end_index = 0;
  bucket_id = 0;
  bucket_params = 0;
  param_index_map = [];
  bucket_indices = [];
  per_bucket_numel_unpadded = [];
}

module _ (c : BufferConfig) where
  -- `UpdateBucketMetadata`, and the assignment of what it returns.
  unfoldable pub update_bucket_metadata : Packing → Packing
  unfolding pad_bucket_end_if_needed
  update_bucket_metadata s =
      let bucket_end = pad_bucket_end_if_needed c s.param_end_index in
      record s {
        per_bucket_numel_unpadded =
            s.per_bucket_numel_unpadded ++ (s.param_end_index - s.bucket_start_index) ∷ [];
        bucket_indices =
            s.bucket_indices ++ record { first = s.bucket_start_index; second = bucket_end } ∷ [];
        bucket_start_index = bucket_end;
        bucket_params = 0;
        bucket_id = s.bucket_id + 1;
        bucket_end_index = bucket_end;
      }

  -- The part of a round up to the test of the bucket's size.
  unfoldable pub place_param : ℕ → Packing → Packing
  unfolding pad_param_start_if_needed
  place_param numel s =
      let start = pad_param_start_if_needed c s.param_start_index in
      record s {
        param_start_index = start;
        param_end_index = start + numel;
        param_index_map =
            record { start_index = start; end_index = start + numel; bucket_id = s.bucket_id }
            ∷ s.param_index_map;
        bucket_params = s.bucket_params + 1;
      }

  unfoldable pub close_if_full : Packing → Packing
  unfolding update_bucket_metadata
  close_if_full s =
      if leb c.bucket_size_in_elements (s.param_end_index - s.bucket_start_index)
      then (let closed = update_bucket_metadata s in
          record closed { param_start_index = closed.bucket_end_index })
      else record s { param_start_index = s.param_end_index }

  unfoldable pub pack_params : List ℕ → Packing
  unfolding place_param close_if_full
  pack_params [] = start_packing
  pack_params (numel ∷ numels) = close_if_full (place_param numel (pack_params numels))

  -- The loop, and the bucket that is left.
  unfoldable pub pack : List ℕ → Packing
  unfolding pack_params update_bucket_metadata
  pack numels =
      let packed = pack_params numels in
      if packed.bucket_params == 0 then packed else update_bucket_metadata packed

  -- The CHECKs on the sizes: `numel_` is `bucket_end_index`, `numel_unpadded_` is the sum.
  unfoldable pub check_sizes : Packing → Result BufferError (Unit {0})
  check_sizes s =
      let numel = s.bucket_end_index in
      let numel_unpadded = sum s.per_bucket_numel_unpadded in
      require (leb numel_unpadded numel) BufferError.unpadded_above_padded
      >> (if pads c
          then require (numel % c.ddp_world_size == 0) BufferError.not_divisible_by_world_size
          else require (numel == numel_unpadded) BufferError.padded_without_stage)
