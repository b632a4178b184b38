-- ===== src/Tests/Reducer.antt =====
-- The reducer on three parameters of two data types.
use mathlib.Core.List.{Permᴰ}
use infini_train.Base.{
  ℕ, ◌≡◌, refl, arith, true, false, List, [], ◌∷◌, ◌++◌, Result, ok, err, ◌>>=◌, concat, length,
  All,
}
use infini_train.Tensors.{DataType, DeviceType, Device, Tensor}
use infini_train.Reducer.{ReducerError, default_config, bucket_size_limits, Grad, Event, Reducer}
use infini_train.Reducer.Assignment.{reverse_order, compute_bucket_assignment_by_size}
use infini_train.Reducer.Assignment.Shared.{SharesKey}
use infini_train.Reducer.Assignment.Ordered.{compute_bucket_assignment_by_size-SharesKey}
use infini_train.Reducer.Buckets.{new_reducer, bare_reducer, rebuild_buckets}
use infini_train.Reducer.Backward.{prepare_for_backward, mark_all_ready}
use infini_train.Reducer.Backward.Pass.{collectives, each_reduced_once}
use infini_train.Reducer.FirstPass.{first_pass_reduces}

abbrev gpu : Device
gpu = record { device_type = DeviceType.cuda; index = 0 }

abbrev tensor : DataType → ℕ → Tensor
tensor dtype n = record { dtype = dtype; device = gpu; num_elements = n; requires_grad = true }

abbrev three : List Tensor
three = tensor DataType.float32 10 ∷ tensor DataType.float16 20 ∷ tensor DataType.float16 30 ∷ []

abbrev no_grads : List Grad
no_grads = Grad.null ∷ Grad.null ∷ Grad.null ∷ []

-- A cap of 50 bytes: the last parameter fills a bucket, and the second one waits for the end.
assigned :
    compute_bucket_assignment_by_size three (50 ∷ 100 ∷ []) []
    ≡ ok ((2 ∷ []) ∷ (1 ∷ []) ∷ (0 ∷ []) ∷ [])
unfolding compute_bucket_assignment_by_size
assigned = refl

-- One bucket for each data type, in the order in which they are met.
assigned_by_dtype :
    compute_bucket_assignment_by_size three (bucket_size_limits default_config) []
    ≡ ok ((2 ∷ 1 ∷ []) ∷ (0 ∷ []) ∷ [])
unfolding compute_bucket_assignment_by_size
assigned_by_dtype = refl

bad_index :
    compute_bucket_assignment_by_size three (50 ∷ []) (3 ∷ []) ≡ err ReducerError.index_out_of_range
unfolding compute_bucket_assignment_by_size
bad_index = refl

mixed_bucket :
    new_reducer three ((0 ∷ 1 ∷ []) ∷ []) default_config false no_grads
    ≡ err ReducerError.bucket_spans_dtypes
unfolding new_reducer
mixed_bucket = refl

abbrev run : Result ReducerError Reducer
run = new_reducer three ((2 ∷ 1 ∷ []) ∷ (0 ∷ []) ∷ []) default_config false no_grads >>= λ r.
    prepare_for_backward r >>= λ p. mark_all_ready (0 ∷ 2 ∷ 1 ∷ []) p

abbrev events_of : Result ReducerError Reducer → List Event
events_of (ok r) = r.events
events_of (err e) = []

ran :
    events_of run
    ≡ Event.mark_overwrite 0 0
      ∷ Event.mark_overwrite 0 1
      ∷ Event.mark_overwrite 1 0
      ∷ Event.all_reduce 0
      ∷ Event.all_reduce 1
      ∷ Event.wait 0
      ∷ Event.wait 1
      ∷ []
unfolding new_reducer prepare_for_backward mark_all_ready
ran = refl

-- After a pass in the order 1, 2, 0 the rebuild puts the tensors 1 and 0 into one bucket, which
-- are of two data types.
rebuilt :
    rebuild_buckets (record (bare_reducer three default_config false no_grads) {
      grad_ready_order_indices = 1 ∷ 2 ∷ 0 ∷ [];
    })
    ≡ err ReducerError.bucket_spans_dtypes
unfolding rebuild_buckets compute_bucket_assignment_by_size
rebuilt = refl

abbrev buckets : List (List ℕ)
buckets = (2 ∷ 1 ∷ []) ∷ (0 ∷ []) ∷ []

compute_bucket_assignment_by_size-SharesKey_example :
    (bs : List (List ℕ)) × (compute_bucket_assignment_by_size three
        (bucket_size_limits default_config)
        []
      ≡ ok bs)
    × Permᴰ (concat bs) (reverse_order 3)
    × All (SharesKey three) bs
compute_bucket_assignment_by_size-SharesKey_example =
    compute_bucket_assignment_by_size-SharesKey three (bucket_size_limits default_config)
      (omega arith) (omega arith)

abbrev or_bare : Result ReducerError Reducer → Reducer
or_bare (ok r) = r
or_bare (err e) = bare_reducer three default_config false no_grads

abbrev made : Reducer
made = or_bare (new_reducer three buckets default_config false no_grads)

new_reducer-made : new_reducer three buckets default_config false no_grads ≡ ok made
unfolding new_reducer
new_reducer-made = refl

marked_in_order : Permᴰ {A = ℕ} (2 ∷ 1 ∷ 0 ∷ []) (0 ∷ 2 ∷ 1 ∷ [])
marked_in_order = Permᴰ.trans (Permᴰ.cons refl (Permᴰ.swap refl refl)) (Permᴰ.swap refl refl)

each_reduced_once_example :
    (p : Reducer) × (s : Reducer) × (prepare_for_backward made ≡ ok p)
    × (mark_all_ready (0 ∷ 2 ∷ 1 ∷ []) p ≡ ok s)
    × (s.events ≡ p.events ++ collectives 2)
each_reduced_once_example =
    each_reduced_once three buckets default_config no_grads made (0 ∷ 2 ∷ 1 ∷ []) new_reducer-made
      refl (omega arith) (λ v. ground arith) marked_in_order

first_pass_reduces_example :
    (bs : List (List ℕ)) × (r : Reducer) × (p : Reducer) × (s : Reducer)
    × (compute_bucket_assignment_by_size three (bucket_size_limits default_config) [] ≡ ok bs)
    × (new_reducer three bs default_config false no_grads ≡ ok r)
    × (prepare_for_backward r ≡ ok p)
    × (mark_all_ready (0 ∷ 2 ∷ 1 ∷ []) p ≡ ok s)
    × (s.events ≡ p.events ++ collectives (length bs))
unfolding reverse_order
first_pass_reduces_example =
    first_pass_reduces three default_config no_grads DeviceType.cuda (0 ∷ 2 ∷ 1 ∷ []) (omega arith)
      (refl, (refl, (refl, tt))) refl marked_in_order
