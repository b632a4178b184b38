-- ===== src/Reducer/Backward/Launching.antt =====
-- The loop of `MarkBucketReady` that launches the buckets that are ready.
use infini_train.Base.{
  ℕ, zero, suc, ◌+◌, ◌<◌, ◌≤◌, ◌≡◌, ◌≢◌, refl, sym, ap, ◌∙◌, arith, inl, inr, true, false, some,
  List, [], ◌∷◌, ◌++◌, ok, ◌==◌, Bool-cases, ==→≡, ==→≢, length, get_elem?, modify, length-modify,
  append_assoc, append_nil, get_elem?-within,
}
use native.Mathlib.Nat.{add-zero}
use infini_train.Base.Loops.{gather}
use infini_train.Reducer.{Bucket, Event, Reducer}
use infini_train.Reducer.Backward.{set_work, finalize_bucket_dense, launch_ready_buckets}
use infini_train.Reducer.Backward.Fields.{
  pending_at, work_at, pending_at-some, pending_at-set_work, work_at-set_self, work_at-set_ne,
}

abbrev pub reduces : ℕ → ℕ → List Event
reduces = gather (λ b. Event.all_reduce b ∷ [])

-- The state after the next bucket is launched, and after `m` of them are.
pub launch_one : Reducer → Reducer
launch_one r = record r {
  buckets = modify r.buckets r.next_bucket set_work;
  events = r.events ++ Event.all_reduce r.next_bucket ∷ [];
  next_bucket = r.next_bucket + 1;
}

unfoldable pub launch_many : ℕ → Reducer → Reducer
unfolding launch_one
launch_many zero r = r
launch_many (suc m) r = launch_many m (launch_one r)

-- What is left as it was, and what moves on.
pub record Launches (m : ℕ) (r s : Reducer) : Type 0 where
  pub next : s.next_bucket ≡ r.next_bucket + m
  pub events : s.events ≡ r.events ++ reduces r.next_bucket m
  pub size : length s.buckets ≡ length r.buckets
  pub pending : (b : ℕ) → pending_at s.buckets b ≡ pending_at r.buckets b
  pub started :
      (b : ℕ)
      → r.next_bucket ≤ b
      → b < r.next_bucket + m
      → b < length r.buckets
      → work_at s.buckets b ≡ true
  pub earlier : (b : ℕ) → b < r.next_bucket → work_at s.buckets b ≡ work_at r.buckets b
  pub locators : s.locators ≡ r.locators
  pub config : s.config ≡ r.config
  pub hook : s.has_comm_hook ≡ r.has_comm_hook
  pub all_ready : s.all_buckets_ready_this_iter ≡ r.all_buckets_ready_this_iter

pub launch_many-Launches : (m : ℕ) (r : Reducer) → Launches m r (launch_many m r)
unfolding launch_many launch_one gather
launch_many-Launches zero r = record {
  next = omega arith;
  events = sym (append_nil r.events);
  size = refl;
  pending = λ b. refl;
  started = λ b lo hi lt. absurd (omega arith);
  earlier = λ b lt. refl;
  locators = refl;
  config = refl;
  hook = refl;
  all_ready = refl;
}
launch_many-Launches (suc m) r =
    let ih = launch_many-Launches m (launch_one r) in
    record {
      next = omega (arith, ih.next);
      events = ih.events ∙ append_assoc r.events _ _;
      size = ih.size ∙ length-modify r.buckets r.next_bucket set_work;
      pending = λ b. ih.pending b ∙ pending_at-set_work r.buckets r.next_bucket b;
      started = λ b lo hi lt. elim (Bool-cases (r.next_bucket == b)) [
        | inl here ↦
            let same : r.next_bucket ≡ b = ==→≡ _ _ here in
            ih.earlier b (omega (arith, same)) ∙ rw (same) (work_at-set_self r.buckets b lt)
        | inr other ↦
            ih.started b (omega (arith, ==→≢ _ _ other)) (omega arith)
              (omega (arith, lt, length-modify r.buckets r.next_bucket set_work))
      ];
      earlier = λ b lt.
          ih.earlier b (omega arith)
          ∙ work_at-set_ne r.buckets r.next_bucket b (λ e. omega (arith, e, lt));
      locators = ih.locators;
      config = ih.config;
      hook = ih.hook;
      all_ready = ih.all_ready;
    }

-- How far the loop runs: over buckets that wait for nothing, up to one that does, or the last.
pub record RunsTo (left m : ℕ) (r : Reducer) : Type 0 where
  pub result : launch_ready_buckets left r ≡ ok (launch_many m r)
  pub within : m ≤ left
  pub idle : (b : ℕ) → r.next_bucket ≤ b → b < r.next_bucket + m → pending_at r.buckets b ≡ 0
  pub stops : r.next_bucket + m < length r.buckets → pending_at r.buckets (r.next_bucket + m) ≢ 0

launch_round :
    (left : ℕ) (r : Reducer) (x : Bucket)
    → r.has_comm_hook ≡ false
    → get_elem? r.buckets r.next_bucket ≡ some x
    → (x.pending == 0) ≡ true
    → launch_ready_buckets (suc left) r ≡ launch_ready_buckets left (launch_one r)
unfolding launch_ready_buckets finalize_bucket_dense launch_one
launch_round left r x hook e z = rw (e, z, hook, launch_ready_buckets, finalize_bucket_dense) refl

launch_stops :
    (left : ℕ) (r : Reducer) (x : Bucket)
    → get_elem? r.buckets r.next_bucket ≡ some x
    → (x.pending == 0) ≡ false
    → launch_ready_buckets (suc left) r ≡ ok r
unfolding launch_ready_buckets
launch_stops left r x e z = rw (e, z, launch_ready_buckets) refl

stays :
    (left : ℕ) (r : Reducer) (x : Bucket)
    → get_elem? r.buckets r.next_bucket ≡ some x
    → (x.pending == 0) ≡ false
    → RunsTo (suc left) 0 r
unfolding launch_many
stays left r x e waits = record {
  result = launch_stops left r x e waits;
  within = omega arith;
  idle = λ b lo hi. absurd (omega arith);
  stops =
      let here = pending_at-some r.buckets r.next_bucket e in
      let more = ==→≢ x.pending 0 waits in
      λ lt. omega (arith, here, more, ap (pending_at r.buckets) (add-zero r.next_bucket));
}

moves_on :
    (left m : ℕ) (r : Reducer) (x : Bucket)
    → r.has_comm_hook ≡ false
    → get_elem? r.buckets r.next_bucket ≡ some x
    → (x.pending == 0) ≡ true
    → RunsTo left m (launch_one r)
    → RunsTo (suc left) (suc m) r
unfolding launch_many launch_one
moves_on left m r x hook e ready rest = record {
  result = launch_round left r x hook e ready ∙ rest.result;
  within = omega (arith, rest.within);
  idle = λ b lo hi. elim (Bool-cases (r.next_bucket == b)) [
    | inl here ↦
        let same : r.next_bucket ≡ b = ==→≡ _ _ here in
        ap (pending_at r.buckets) (sym same)
        ∙ pending_at-some r.buckets r.next_bucket e
        ∙ ==→≡ x.pending 0 ready
    | inr other ↦
        sym (pending_at-set_work r.buckets r.next_bucket b)
        ∙ rest.idle b (omega (arith, ==→≢ _ _ other)) (omega arith)
  ];
  stops = λ lt none_left.
      let place : r.next_bucket + 1 + m ≡ r.next_bucket + suc m = omega arith in
      rest.stops (omega (arith, lt, length-modify r.buckets r.next_bucket set_work)) (
        pending_at-set_work r.buckets r.next_bucket _
        ∙ ap (pending_at r.buckets) place
        ∙ none_left);
}

-- The loop launches the buckets up to the first that waits.
pub launch_ready_buckets-RunsTo :
    (left : ℕ) (r : Reducer)
    → r.has_comm_hook ≡ false
    → r.next_bucket + left ≡ length r.buckets
    → (m : ℕ) × RunsTo left m r
unfolding launch_ready_buckets launch_many launch_one
launch_ready_buckets-RunsTo zero r hook fit = (
  0,
  record {
    result = refl;
    within = omega arith;
    idle = λ b lo hi. absurd (omega arith);
    stops = λ lt. absurd (omega arith);
  },
)
launch_ready_buckets-RunsTo (suc left) r hook fit =
    let (x, e) = get_elem?-within r.buckets r.next_bucket (omega arith) in
    elim (Bool-cases (x.pending == 0)) [
      | inl ready ↦
          let (m, rest) =
            launch_ready_buckets-RunsTo left (launch_one r) hook
              (omega (arith, fit, length-modify r.buckets r.next_bucket set_work)) in
          (suc m, moves_on left m r x hook e ready rest)
      | inr waits ↦ (0, stays left r x e waits)
    ]
