-- ===== src/Reducer/Backward.antt =====
-- A backward pass through the reducer (infini_train/src/nn/parallel/ddp/reducer.cc):
-- `PrepareForBackward`, then `MarkVariableReadyDense` for each parameter whose gradient is
-- accumulated, with what these call. Each runs under the reducer's mutex, so that the calls of a
-- pass are a sequence. `mark_all_ready` is such a sequence of calls.
pub mod Fields
pub mod Launching
pub mod Awaiting
pub mod Marked
pub mod Launched
pub mod Started
pub mod Pass
use infini_train.Base.{
  ℕ, zero, suc, ◌+◌, ◌-◌, Bool, true, false, not, ◌&&◌, Option, none, some, List, [], ◌∷◌, ◌++◌,
  map, Result, ok, err, ◌>>=◌, ◌>>◌, require, ltb, ◌==◌, if◌then◌else◌, length, get_elem?, get_or,
  set, modify, replicate,
}
use infini_train.Tensors.{same_dtype, same_device}
use infini_train.Reducer.{ReducerError, Bucket, Grad, Event, Reducer}
use infini_train.Reducer.Assignment.{no_elements}
use infini_train.Reducer.Buckets.{rebuild_buckets}

abbrev pub emit : List Event → Reducer → Reducer
emit new r = record r { events = r.events ++ new }

-- The gradient is not null; is it this view?
abbrev pub has_grad : Grad → Bool
has_grad Grad.null = false
has_grad (Grad.owned dtype device) = true
has_grad (Grad.view a b i) = true

abbrev pub is_view : Grad → ℕ → ℕ → ℕ → Bool
is_view Grad.null a b i = false
is_view (Grad.owned dtype device) a b i = false
is_view (Grad.view x y z) a b i = (x == a) && (y == b) && (z == i)

-- Tie the gradient of variable `v` to place `i` of bucket `b`.
unfoldable pub tie_grad : ℕ → ℕ → ℕ → Reducer → Reducer
tie_grad b i v r =
    let grad = get_or r.grads v Grad.null in
    let event = if has_grad grad then Event.copy_view_from_grad b i else Event.mark_overwrite b i in
    if is_view grad r.assignment b i
    then r
    else emit (event ∷ []) (record r { grads = set r.grads v (Grad.view r.assignment b i) })

unfoldable pub tie_grads : ℕ → ℕ → List ℕ → Reducer → Reducer
unfolding tie_grad
tie_grads b i [] r = r
tie_grads b i (v ∷ vs) r = tie_grads b (i + 1) vs (tie_grad b i v r)

unfoldable pub tie_buckets : ℕ → List Bucket → Reducer → Reducer
unfolding tie_grads
tie_buckets b [] r = r
tie_buckets b (bucket ∷ left) r = tie_buckets (b + 1) left (tie_grads b 0 bucket.variable_indices r)

unfoldable pub reset_pending : Bucket → Bucket
reset_pending b = record b { pending = length b.variables }

-- The rest of `PrepareForBackward`, after the buckets are rebuilt.
unfoldable pub start_iteration : Reducer → Reducer
unfolding reset_pending tie_buckets
start_iteration r =
    let started : Reducer = record r {
      next_bucket = 0;
      grad_ready_order_indices = [];
      ready_seen_this_iter = replicate (length r.params) false;
      buckets = map reset_pending r.buckets;
    } in
    if r.config.gradient_as_bucket_view then tie_buckets 0 started.buckets started else started

unfoldable pub prepare_for_backward : Reducer → Result ReducerError Reducer
unfolding start_iteration
prepare_for_backward r =
    if r.need_rebuild && not r.has_rebuilt_bucket
    then (rebuild_buckets r >>= λ rebuilt.
        ok (start_iteration (record rebuilt { has_rebuilt_bucket = true; need_rebuild = false })))
    else ok (start_iteration r)

abbrev pub set_work : Bucket → Bucket
set_work b = record b { work = true }

unfoldable pub finalize_bucket_dense : ℕ → Reducer → Result ReducerError Reducer
finalize_bucket_dense b r =
    require (not r.has_comm_hook) ReducerError.comm_hook_not_supported
    >> ok (emit (Event.all_reduce b ∷ []) (record r { buckets = modify r.buckets b set_work }))

-- while (next_bucket_ < buckets_.size() && buckets_[next_bucket_].pending == 0), where `left` is
-- buckets_.size() - next_bucket_.
unfoldable pub launch_ready_buckets : ℕ → Reducer → Result ReducerError Reducer
unfolding finalize_bucket_dense
launch_ready_buckets zero r = ok r
launch_ready_buckets (suc left) r =
    let launched = finalize_bucket_dense r.next_bucket r >>= λ done.
    launch_ready_buckets left (record done { next_bucket = done.next_bucket + 1 }) in
    elim (get_elem? r.buckets r.next_bucket) [
      | none ↦ ok r
      | some bucket ↦ if bucket.pending == 0 then launched else ok r
    ]

unfoldable pub note_all_ready : Reducer → Reducer
note_all_ready r =
    if r.next_bucket == length r.buckets
    then record r {
      all_buckets_ready_this_iter = true;
      need_rebuild =
          if not r.has_rebuilt_bucket && not (no_elements r.grad_ready_order_indices)
          then true
          else r.need_rebuild;
    }
    else r

unfoldable pub mark_bucket_ready : ℕ → Reducer → Result ReducerError Reducer
unfolding launch_ready_buckets note_all_ready
mark_bucket_ready b r =
    if ltb r.next_bucket b
    then ok r
    else (launch_ready_buckets (length r.buckets - r.next_bucket) r >>= λ launched.
        ok (note_all_ready launched))

-- The waits for the collectives under way.
unfoldable pub waits_from : ℕ → List Bucket → List Event
waits_from b [] = []
waits_from b (bucket ∷ left) =
    let rest = waits_from (b + 1) left in if bucket.work then Event.wait b ∷ rest else rest

-- `CopyBucketToGrad` for each variable of a bucket.
unfoldable pub write_back_bucket : List Grad → ℕ → ℕ → List ℕ → Result ReducerError (List Event)
write_back_bucket grads b i [] = ok []
write_back_bucket grads b i (v ∷ vs) =
    require (has_grad (get_or grads v Grad.null)) ReducerError.bad_gradient
    >> (write_back_bucket grads b (i + 1) vs >>= λ rest. ok (Event.copy_bucket_to_grad b i ∷ rest))

unfoldable pub write_back_from : List Grad → ℕ → List Bucket → Result ReducerError (List Event)
unfolding write_back_bucket
write_back_from grads b [] = ok []
write_back_from grads b (bucket ∷ left) =
    (if bucket.work then write_back_bucket grads b 0 bucket.variable_indices else ok []) >>= λ here.
    write_back_from grads (b + 1) left >>= λ rest. ok (here ++ rest)

unfoldable pub reset_work : Bucket → Bucket
reset_work b = record b { work = false }

unfoldable pub finalize_backward : Reducer → Result ReducerError Reducer
unfolding waits_from write_back_from reset_work
finalize_backward r =
    (if r.config.gradient_as_bucket_view then ok [] else write_back_from r.grads 0 r.buckets)
    >>= λ copies. ok (
        emit (waits_from 0 r.buckets ++ copies)
          (record r { buckets = map reset_work r.buckets; all_buckets_ready_this_iter = false }))

-- A gradient of its own has to be of the bucket's data type and device; a view of a bucket is of
-- a bucket that holds its variable.
unfoldable pub grad_fits : Bucket → Grad → Bool
grad_fits bucket Grad.null = false
grad_fits bucket (Grad.owned dtype device) =
    same_dtype dtype bucket.dtype && same_device device bucket.device
grad_fits bucket (Grad.view a b i) = true

unfoldable pub record_ready : ℕ → Reducer → Reducer
record_ready v r =
    if not r.has_rebuilt_bucket && not (get_or r.ready_seen_this_iter v false)
    then record r {
      grad_ready_order_indices = r.grad_ready_order_indices ++ v ∷ [];
      ready_seen_this_iter = set r.ready_seen_this_iter v true;
    }
    else r

unfoldable pub copy_grad : ℕ → ℕ → Bucket → Reducer → Result ReducerError Reducer
unfolding grad_fits
copy_grad b i bucket r =
    let grad = get_or r.grads (get_or bucket.variable_indices i 0) Grad.null in
    if r.config.gradient_as_bucket_view
    then ok r
    else (require (grad_fits bucket grad) ReducerError.bad_gradient
        >> ok (emit (Event.copy_grad_to_bucket b i ∷ []) r))

abbrev pub lower_pending : Bucket → Bucket
lower_pending b = record b { pending = b.pending - 1 }

unfoldable pub count_down : ℕ → Reducer → Reducer
count_down b r = record r { buckets = modify r.buckets b lower_pending }

unfoldable pub mark_variable_ready_dense : ℕ → Reducer → Result ReducerError Reducer
unfolding record_ready copy_grad count_down mark_bucket_ready finalize_backward
mark_variable_ready_dense v r = elim (get_elem? r.locators v) [
  | none ↦ err ReducerError.unknown_variable
  | some loc ↦ elim (get_elem? r.buckets loc.bucket_index) [
    | none ↦ err ReducerError.unknown_bucket
    | some bucket ↦
        copy_grad loc.bucket_index loc.intra_bucket_index bucket (record_ready v r) >>= λ copied.
        require (ltb 0 bucket.pending) ReducerError.bucket_not_pending
        >> ((if bucket.pending == 1
              then mark_bucket_ready loc.bucket_index (count_down loc.bucket_index copied)
              else ok (count_down loc.bucket_index copied))
            >>= λ marked.
                if marked.all_buckets_ready_this_iter then finalize_backward marked else ok marked)
  ]
]

unfoldable pub mark_all_ready : List ℕ → Reducer → Result ReducerError Reducer
unfolding mark_variable_ready_dense
mark_all_ready [] r = ok r
mark_all_ready (v ∷ vs) r = mark_variable_ready_dense v r >>= λ marked. mark_all_ready vs marked
