-- ===== src/BucketGroup.antt =====
-- `ParamAndGradBucketGroup` (infini_train/src/nn/parallel/ddp/param_and_grad_buffer.cc): buckets
-- that reduce their gradients and gather their parameters together. A parameter is a number, a
-- buffer is whether it is there; a work that is under way is the number of its bucket. What the
-- group asks of the devices and of the process group is a list of events.
pub mod Gradients
pub mod Parameters
use infini_train.Base.{
  ℕ, zero, suc, ◌+◌, Bool, true, false, List, [], ◌∷◌, ◌++◌, length, ◌==◌, if◌then◌else◌,
}

pub data GroupError : Type 0 where
  no_process_group no_param_buffer no_grad_shard : GroupError
  not_divisible stage_too_low scaling_not_supported : GroupError
  gather_under_way out_of_sync : GroupError

-- The group's part of `DistributedDataParallelConfig`.
pub record GroupConfig : Type 0 where
  pub zero_stage : ℕ
  pub overlap_grad_reduce : Bool
  pub overlap_param_gather : Bool
  pub average_in_collective : Bool

-- Of a bucket: its parameters, the buffers it has, their number of elements, and whether its
-- gradients have to be scaled.
pub record GroupBucket : Type 0 where
  pub params : List ℕ
  pub has_param_data : Bool
  pub has_grad_data : Bool
  pub num_elements : ℕ
  pub scaled : Bool

-- A gradient copied or added to the full buffer, a collective on a bucket (with whether it averages
-- and whether it is asynchronous), and the wait for it.
pub data GroupEvent : Type 0 where
  copy_grad accumulate_grad : ℕ → ℕ → GroupEvent
  reduce_scatter all_reduce : ℕ → Bool → Bool → GroupEvent
  wait_grad : ℕ → GroupEvent
  all_gather : ℕ → Bool → GroupEvent
  wait_param : ℕ → GroupEvent

pub record BucketGroup : Type 0 where
  pub buckets : List GroupBucket
  pub has_collective_pg : Bool
  pub collective_pg_size : ℕ
  pub config : GroupConfig
  pub params : List ℕ
  pub params_with_grad : List ℕ
  pub grad_reduce_work_list : List ℕ
  pub grad_reduce_bucket_indices : List ℕ
  pub param_gather_work_list : List ℕ
  pub grad_shard_buffer_list : List Bool
  pub temp_full_grad_buffer_list : List Bool
  pub is_last_microbatch : Bool
  pub grad_reduce_dispatched : Bool
  pub param_gather_dispatched : Bool
  pub events : List GroupEvent

-- Is the number in the set?
abbrev pub has_member : ℕ → List ℕ → Bool
has_member p [] = false
has_member p (x ∷ xs) = if x == p then true else has_member p xs

-- `std::unordered_set::insert`
unfoldable pub insert : ℕ → List ℕ → List ℕ
insert p xs = if has_member p xs then xs else p ∷ xs

-- The waits for the works of a list.
unfoldable pub waits_for : (ℕ → GroupEvent) → List ℕ → List GroupEvent
waits_for wait [] = []
waits_for wait (i ∷ is) = wait i ∷ waits_for wait is

abbrev pub emit_events : List GroupEvent → BucketGroup → BucketGroup
emit_events new g = record g { events = g.events ++ new }
