-- ===== src/Reducer/Assignment.antt =====
-- `ComputeBucketAssignmentBySize` (infini_train/src/nn/parallel/ddp/reducer.cc): which tensors
-- share a bucket. The map `states` and the list `key_order` are one list of groups here, in the
-- order in which the keys were met. A count of bytes is a `size_t` and wraps around.
pub mod Grouped
pub mod Shared
pub mod Ordered
use infini_train.Base.{
  ℕ, zero, suc, ◌+◌, ◌-◌, ◌*◌, ◌%◌, ◌^◌, Bool, not, ◌&&◌, Option, none, some, List, [], ◌∷◌, ◌++◌,
  Result, ok, err, ◌>>=◌, ◌>>◌, require, ltb, leb, ◌==◌, if◌then◌else◌, length, get_elem?, get_or,
}
use infini_train.Tensors.{DataType, Tensor, same_dtype, data_type_to_size}
use infini_train.Reducer.{ReducerError}

pub record Key : Type 0 where
  pub dev : ℕ
  pub dtype : DataType

abbrev pub same_key : Key → Key → Bool
same_key k o = (k.dev == o.dev) && same_dtype k.dtype o.dtype

abbrev pub key_of : Tensor → Key
key_of t = record { dev = t.device.index; dtype = t.dtype }

pub record State : Type 0 where
  pub current_tensors : List ℕ
  pub current_bytes : ℕ
  pub limit_idx : ℕ

abbrev pub new_state : State
new_state = record { current_tensors = []; current_bytes = 0; limit_idx = 0 }

pub record Group : Type 0 where
  pub key : Key
  pub state : State

-- 0, …, n - 1 in reverse.
unfoldable pub reverse_order : ℕ → List ℕ
reverse_order zero = []
reverse_order (suc n) = n ∷ reverse_order n

abbrev pub no_elements : List ℕ → Bool
no_elements xs = length xs == 0

-- What is pushed to `buckets_all`, and the state after it.
unfoldable pub flush_current_bucket : List ℕ → State → List (List ℕ) × State
flush_current_bucket limits s = if no_elements s.current_tensors then ([], s) else (
  s.current_tensors ∷ [],
  record {
    current_tensors = [];
    current_bytes = 0;
    limit_idx = if ltb (s.limit_idx + 1) (length limits) then s.limit_idx + 1 else s.limit_idx;
  },
)

unfoldable pub tensor_bytes : Tensor → ℕ
tensor_bytes t = t.num_elements * data_type_to_size t.dtype % 2 ^ 64

-- The body of the loop, once the state of the tensor's key is found.
unfoldable pub assign_to_state : List ℕ → ℕ → Tensor → State → List (List ℕ) × State
unfolding flush_current_bucket tensor_bytes
assign_to_state limits idx t s =
    let cap = get_or limits s.limit_idx 0 in
    let added : State = record s {
      current_tensors = s.current_tensors ++ idx ∷ [];
      current_bytes = (s.current_bytes + tensor_bytes t) % 2 ^ 64;
    } in
    if leb cap added.current_bytes then flush_current_bucket limits added else ([], added)

-- `states.find`, or a new state; then the body.
unfoldable pub assign_to_group : List ℕ → ℕ → Tensor → List Group → List (List ℕ) × List Group
unfolding assign_to_state
assign_to_group limits idx t [] =
    let (out, s) = assign_to_state limits idx t new_state in
    (out, record { key = key_of t; state = s } ∷ [])
assign_to_group limits idx t (g ∷ gs) =
    let (out, s) = assign_to_state limits idx t g.state in
    let (later, rest) = assign_to_group limits idx t gs in
    if same_key g.key (key_of t) then (out, record g { state = s } ∷ gs) else (later, g ∷ rest)

unfoldable pub flush_groups : List ℕ → List Group → List (List ℕ)
unfolding flush_current_bucket
flush_groups limits [] = []
flush_groups limits (g ∷ gs) = (flush_current_bucket limits g.state).0 ++ flush_groups limits gs

-- The order in which the tensors are assigned.
unfoldable pub bucket_order : List Tensor → List ℕ → List ℕ
unfolding reverse_order
bucket_order tensors tensor_indices =
    if no_elements tensor_indices then reverse_order (length tensors) else tensor_indices

module _ (tensors : List Tensor) (limits : List ℕ) where
  unfoldable pub assign_in_order : List ℕ → List Group → Result ReducerError (List (List ℕ))
  unfolding assign_to_group flush_groups
  assign_in_order [] groups = ok (flush_groups limits groups)
  assign_in_order (idx ∷ order) groups =
      let after : Tensor → Result ReducerError (List (List ℕ)) = λ t.
        let (out, next) = assign_to_group limits idx t groups in
        assign_in_order order next >>= λ later. ok (out ++ later) in
      elim (get_elem? tensors idx) [ none ↦ err ReducerError.index_out_of_range | some t ↦ after t ]

  unfoldable pub compute_bucket_assignment_by_size : List ℕ → Result ReducerError (List (List ℕ))
  unfolding assign_in_order bucket_order
  compute_bucket_assignment_by_size tensor_indices =
      require (not (length tensors == 0)) ReducerError.no_tensors
      >> (require (not (no_elements limits)) ReducerError.no_limits
          >> assign_in_order (bucket_order tensors tensor_indices) [])
