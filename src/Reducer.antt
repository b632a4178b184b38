-- ===== src/Reducer.antt =====
-- The gradient reducer of data-parallel training
-- (infini_train/src/nn/parallel/ddp/reducer.cc, with its header
-- infini_train/include/nn/parallel/ddp/reducer.h): the state it keeps, and what it asks of the
-- devices.
pub mod Assignment
pub mod Buckets
pub mod Backward
pub mod FirstPass
use infini_train.Base.{ℕ, ◌*◌, Bool, List, [], ◌∷◌}
use infini_train.Tensors.{DataType, Device, Tensor}

-- The CHECKs of the reducer, and the reads that throw or that are out of bounds.
pub data ReducerError : Type 0 where
  no_tensors no_limits index_out_of_range : ReducerError
  empty_bucket bucket_spans_devices bucket_spans_dtypes : ReducerError
  unknown_variable unknown_bucket bad_gradient bucket_not_pending : ReducerError
  comm_hook_not_supported : ReducerError

-- The reducer's part of `DistributedDataParallelConfig`.
pub record Config : Type 0 where
  pub first_bucket_cap_mb : ℕ
  pub normal_bucket_cap_mb : ℕ
  pub gradient_as_bucket_view : Bool

abbrev pub default_config : Config
default_config = record {
  first_bucket_cap_mb = 1;
  normal_bucket_cap_mb = 25;
  gradient_as_bucket_view = Bool.true;
}

abbrev pub bytes_per_mb : ℕ
bytes_per_mb = 1024 * 1024

abbrev pub bucket_size_limits : Config → List ℕ
bucket_size_limits c =
    c.first_bucket_cap_mb * bytes_per_mb ∷ c.normal_bucket_cap_mb * bytes_per_mb ∷ []

pub record VariableLocator : Type 0 where
  pub bucket_index : ℕ
  pub intra_bucket_index : ℕ

-- `contents` is as many elements of `dtype` on `device`; `work` tells whether a collective is
-- under way.
pub record Bucket : Type 0 where
  pub contents : ℕ
  pub dtype : DataType
  pub device : Device
  pub variables : List Tensor
  pub offsets : List ℕ
  pub lengths : List ℕ
  pub pending : ℕ
  pub variable_indices : List ℕ
  pub work : Bool

-- Where a parameter's gradient lives: nowhere, in memory of its own, or in a bucket's contents
-- (the number of the assignment of buckets, then the bucket and the place in it).
pub data Grad : Type 0 where
  null : Grad
  owned : DataType → Device → Grad
  view : ℕ → ℕ → ℕ → Grad

-- What the reducer does on the devices, in order: the gradient of a variable copied to its bucket
-- and back, a view filled from the old gradient, a view marked to be overwritten, a collective
-- launched on a bucket, and its wait.
pub data Event : Type 0 where
  copy_grad_to_bucket : ℕ → ℕ → Event
  copy_bucket_to_grad : ℕ → ℕ → Event
  copy_view_from_grad : ℕ → ℕ → Event
  mark_overwrite : ℕ → ℕ → Event
  all_reduce : ℕ → Event
  wait : ℕ → Event

-- `assignment` counts the assignments of buckets made so far, so that a view of an older one is
-- told from a view of the present one; `grads` is the store of the parameters' gradients, by
-- variable.
pub record Reducer : Type 0 where
  pub params : List Tensor
  pub buckets : List Bucket
  pub locators : List VariableLocator
  pub has_comm_hook : Bool
  pub config : Config
  pub next_bucket : ℕ
  pub grad_ready_order_indices : List ℕ
  pub ready_seen_this_iter : List Bool
  pub need_rebuild : Bool
  pub has_rebuilt_bucket : Bool
  pub all_buckets_ready_this_iter : Bool
  pub assignment : ℕ
  pub grads : List Grad
  pub events : List Event
