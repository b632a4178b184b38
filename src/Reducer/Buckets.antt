-- ===== src/Reducer/Buckets.antt =====
-- How the reducer builds its buckets (infini_train/src/nn/parallel/ddp/reducer.cc): the
-- constructor, `BuildBuckets`, `InitializeBuckets` and `RebuildBuckets`. A view into a bucket's
-- contents (`InitializeBucketViews`) is its bucket and its place in it, so that `bucket_views_in`
-- needs no field.
pub mod Located
pub mod Settled
pub mod Built
use infini_train.Base.{
  ℕ, zero, suc, ◌+◌, ◌-◌, Bool, true, false, not, Option, none, some, List, [], ◌∷◌, ◌++◌, Result,
  ok, err, ◌>>=◌, ◌>>◌, require, ltb, if◌then◌else◌, length, get_elem?, get_or, set, replicate,
}
use infini_train.Tensors.{Tensor, same_dtype, same_device}
use infini_train.Reducer.{
  ReducerError, Config, bucket_size_limits, VariableLocator, Bucket, Grad, Reducer,
}
use infini_train.Reducer.Assignment.{no_elements, compute_bucket_assignment_by_size}

-- The vectors that the loop over a bucket's parameters fills.
pub record Filling : Type 0 where
  pub variables : List Tensor
  pub offsets : List ℕ
  pub lengths : List ℕ
  pub total_elems : ℕ
  pub locators : List VariableLocator

abbrev pub start_filling : List VariableLocator → Filling
start_filling locators = record {
  variables = [];
  offsets = [];
  lengths = [];
  total_elems = 0;
  locators = locators;
}

unfoldable pub add_variable : ℕ → ℕ → Tensor → Filling → Filling
add_variable bucket_idx param_idx param f = record {
  variables = f.variables ++ param ∷ [];
  offsets = f.offsets ++ f.total_elems ∷ [];
  lengths = f.lengths ++ param.num_elements ∷ [];
  total_elems = f.total_elems + param.num_elements;
  locators =
      set f.locators param_idx
        (record { bucket_index = bucket_idx; intra_bucket_index = length f.variables });
}

module _ (params : List Tensor) where
  unfoldable pub fill_bucket : ℕ → Tensor → List ℕ → Filling → Result ReducerError Filling
  unfolding add_variable
  fill_bucket bucket_idx first_param [] f = ok f
  fill_bucket bucket_idx first_param (param_idx ∷ left) f =
      let rest : Tensor → Result ReducerError Filling = λ param.
        fill_bucket bucket_idx first_param left (add_variable bucket_idx param_idx param f) in
      elim (get_elem? params param_idx) [
        | none ↦ err ReducerError.index_out_of_range
        | some param ↦
            require (same_device param.device first_param.device) ReducerError.bucket_spans_devices
            >> (require (same_dtype param.dtype first_param.dtype) ReducerError.bucket_spans_dtypes
                >> rest param)
      ]

  unfoldable pub finish_bucket : Tensor → List ℕ → Filling → Bucket
  finish_bucket first_param indices f = record {
    contents = f.total_elems;
    dtype = first_param.dtype;
    device = first_param.device;
    variables = f.variables;
    offsets = f.offsets;
    lengths = f.lengths;
    pending = length f.variables;
    variable_indices = indices;
    work = false;
  }

  -- One round of the loop over the buckets.
  unfoldable pub build_bucket :
      ℕ → List ℕ → List VariableLocator → Result ReducerError (Bucket × List VariableLocator)
  unfolding fill_bucket finish_bucket
  build_bucket bucket_idx [] locators = err ReducerError.empty_bucket
  build_bucket bucket_idx (first ∷ left) locators = elim (get_elem? params first) [
    | none ↦ err ReducerError.index_out_of_range
    | some first_param ↦
        fill_bucket bucket_idx first_param (first ∷ left) (start_filling locators) >>= λ f.
        ok (finish_bucket first_param (first ∷ left) f, f.locators)
  ]

  unfoldable pub build_buckets_from :
      ℕ
      → List (List ℕ)
      → List VariableLocator
      → Result ReducerError (List Bucket × List VariableLocator)
  unfolding build_bucket
  build_buckets_from bucket_idx [] locators = ok ([], locators)
  build_buckets_from bucket_idx (indices ∷ left) locators =
      build_bucket bucket_idx indices locators >>= λ built.
      build_buckets_from (bucket_idx + 1) left built.1 >>= λ rest. ok (built.0 ∷ rest.0, rest.1)

abbrev pub no_locator : VariableLocator
no_locator = record { bucket_index = 0; intra_bucket_index = 0 }

-- `BuildBuckets`; its callers start with no locators.
unfoldable pub build_buckets : Reducer → List (List ℕ) → Result ReducerError Reducer
unfolding build_buckets_from
build_buckets r bucket_indices =
    build_buckets_from r.params 0 bucket_indices (replicate (length r.params) no_locator)
    >>= λ built.
        ok (record r { buckets = built.0; locators = built.1; assignment = r.assignment + 1 })

-- A reducer before its buckets are built.
abbrev pub bare_reducer : List Tensor → Config → Bool → List Grad → Reducer
bare_reducer parameters config has_comm_hook grads = record {
  params = parameters;
  buckets = [];
  locators = [];
  has_comm_hook = has_comm_hook;
  config = config;
  next_bucket = 0;
  grad_ready_order_indices = [];
  ready_seen_this_iter = replicate (length parameters) false;
  need_rebuild = false;
  has_rebuilt_bucket = false;
  all_buckets_ready_this_iter = false;
  assignment = 0;
  grads = grads;
  events = [];
}

-- The constructor, the gradients that the parameters have, and whether `RegisterCommHook` is
-- called after it.
unfoldable pub new_reducer :
    List Tensor → List (List ℕ) → Config → Bool → List Grad → Result ReducerError Reducer
unfolding build_buckets
new_reducer parameters bucket_indices config has_comm_hook grads =
    build_buckets (bare_reducer parameters config has_comm_hook grads) bucket_indices

unfoldable pub initialize_buckets : Reducer → List (List ℕ) → Result ReducerError Reducer
unfolding build_buckets
initialize_buckets r bucket_indices =
    build_buckets (record r { buckets = []; locators = []; next_bucket = 0 }) bucket_indices

unfoldable pub mark_seen : List ℕ → List Bool → List Bool
mark_seen [] seen = seen
mark_seen (idx ∷ left) seen =
    mark_seen left (if ltb idx (length seen) then set seen idx true else seen)

-- The indices from `i` on that are not seen.
unfoldable pub missing_from : ℕ → ℕ → List Bool → List ℕ
missing_from i zero seen = []
missing_from i (suc left) seen =
    let rest = missing_from (i + 1) left seen in if get_or seen i false then rest else i ∷ rest

unfoldable pub tensors_at : List Tensor → List ℕ → Result ReducerError (List Tensor)
tensors_at params [] = ok []
tensors_at params (i ∷ left) =
    let rest = tensors_at params left in
    elim (get_elem? params i) [
      | none ↦ err ReducerError.index_out_of_range
      | some t ↦ rest >>= λ ts. ok (t ∷ ts)
    ]

-- The recorded order, then the indices that it misses.
unfoldable pub full_order : Reducer → List ℕ
unfolding mark_seen missing_from
full_order r =
    let n = length r.params in
    r.grad_ready_order_indices
    ++ missing_from 0 n (mark_seen r.grad_ready_order_indices (replicate n false))

unfoldable pub rebuild_buckets : Reducer → Result ReducerError Reducer
unfolding full_order tensors_at initialize_buckets
rebuild_buckets r =
    if no_elements r.grad_ready_order_indices
    then ok r
    else (tensors_at r.params (full_order r) >>= λ tensors_in_order.
        compute_bucket_assignment_by_size tensors_in_order (bucket_size_limits r.config)
          (full_order r)
        >>= λ new_bucket_indices. initialize_buckets r new_bucket_indices)
