-- ===== src/Reducer/Backward/Awaiting.antt =====
-- The state of the reducer between two calls of `MarkVariableReadyDense`, told by the calls that
-- are still to come, and what one call makes of it.
use infini_train.Base.{
  ℕ, ◌+◌, ◌-◌, ◌<◌, ◌≡◌, ◌≢◌, refl, inl, inr, Bool, true, false, not, ◌&&◌, none, some, List, [],
  ◌∷◌, ◌++◌, Result, ok, ◌>>=◌, if◌then◌else◌, ltb, ◌==◌, Bool-cases, All, length, get_elem?,
  get_or, set, modify,
}
use infini_train.Base.Sort.{count}
use infini_train.Base.Loops.{gather}
use infini_train.Reducer.{ReducerError, VariableLocator, Bucket, Event, Reducer}
use infini_train.Reducer.Backward.{
  lower_pending, record_ready, copy_grad, count_down, mark_bucket_ready, finalize_backward,
  mark_variable_ready_dense,
}
use infini_train.Reducer.Backward.Fields.{pending_at, work_at}
use infini_train.Reducer.Backward.Launching.{reduces}

-- Is this variable in that bucket?
abbrev pub in_bucket : List VariableLocator → ℕ → ℕ → Bool
in_bucket locators b v = elim (get_elem? locators v) [
  | none ↦ false
  | some loc ↦ loc.bucket_index == b
]

abbrev pub marks_in : List VariableLocator → ℕ → List ℕ → ℕ
marks_in locators b marks = count (in_bucket locators b) marks

-- The variable is in one of `n` buckets.
abbrev pub HasBucket : ℕ → List VariableLocator → ℕ → Type 0
HasBucket n locators v =
    (loc : VariableLocator) × (get_elem? locators v ≡ some loc) × (loc.bucket_index < n)

pub record Awaiting (n : ℕ) (r : Reducer) (marks : List ℕ) : Type 0 where
  pub size : length r.buckets ≡ n
  pub no_hook : r.has_comm_hook ≡ false
  pub as_view : r.config.gradient_as_bucket_view ≡ true
  pub not_ready : r.all_buckets_ready_this_iter ≡ false
  pub below : r.next_bucket < n
  pub pending : (b : ℕ) → b < n → pending_at r.buckets b ≡ marks_in r.locators b marks
  pub reduced : (b : ℕ) → b < r.next_bucket → pending_at r.buckets b ≡ 0
  pub waiting : pending_at r.buckets r.next_bucket ≢ 0
  pub started : (b : ℕ) → b < r.next_bucket → work_at r.buckets b ≡ true
  pub located : All (HasBucket n r.locators) marks

-- A call after which the pass goes on, and the last one.
pub record Continues (n : ℕ) (vs : List ℕ) (r s : Reducer) (m : ℕ) : Type 0 where
  pub awaiting : Awaiting n s vs
  pub next : s.next_bucket ≡ r.next_bucket + m
  pub events : s.events ≡ r.events ++ reduces r.next_bucket m

abbrev pub waits : ℕ → ℕ → List Event
waits = gather (λ b. Event.wait b ∷ [])

pub record Finishes (n : ℕ) (r s : Reducer) : Type 0 where
  pub events : s.events ≡ r.events ++ (reduces r.next_bucket (n - r.next_bucket) ++ waits 0 n)
  pub idle : (b : ℕ) → work_at s.buckets b ≡ false
  pub not_ready : s.all_buckets_ready_this_iter ≡ false

-- What `record_ready` and `count_down` leave of a state.
abbrev pub noted : List ℕ → List Bool → Reducer → Reducer
noted order seen r = record r { grad_ready_order_indices = order; ready_seen_this_iter = seen }

abbrev pub lowered : ℕ → List ℕ → List Bool → Reducer → Reducer
lowered b order seen r = record (noted order seen r) { buckets = modify r.buckets b lower_pending }

record_ready-noted :
    (v : ℕ) (r : Reducer)
    → (order : List ℕ) × (seen : List Bool) × (record_ready v r ≡ noted order seen r)
unfolding record_ready
record_ready-noted v r =
    elim (Bool-cases (not r.has_rebuilt_bucket && not (get_or r.ready_seen_this_iter v false))) [
      | inl e ↦ (
        r.grad_ready_order_indices ++ v ∷ [],
        set r.ready_seen_this_iter v true,
        rw (e, record_ready) refl,
      )
      | inr e ↦ (r.grad_ready_order_indices, r.ready_seen_this_iter, rw (e, record_ready) refl)
    ]

-- What a call does once the variable is counted down.
abbrev pub after_count : VariableLocator → Bucket → Reducer → Result ReducerError Reducer
after_count loc x low =
    (if x.pending == 1 then mark_bucket_ready loc.bucket_index low else ok low) >>= λ marked.
    if marked.all_buckets_ready_this_iter then finalize_backward marked else ok marked

pub mark_variable_ready_dense_lem :
    (v : ℕ) (r : Reducer) (loc : VariableLocator) (x : Bucket)
    → r.config.gradient_as_bucket_view ≡ true
    → get_elem? r.locators v ≡ some loc
    → get_elem? r.buckets loc.bucket_index ≡ some x
    → ltb 0 x.pending ≡ true
    → (order : List ℕ) × (seen : List Bool) × (mark_variable_ready_dense v r
        ≡ after_count loc x (lowered loc.bucket_index order seen r))
unfolding mark_variable_ready_dense copy_grad count_down
mark_variable_ready_dense_lem v r loc x view here bucket more =
    let (order, seen, e) = record_ready-noted v r in
    (order, seen, rw (mark_variable_ready_dense, here, bucket, e, copy_grad, view, more) refl)
