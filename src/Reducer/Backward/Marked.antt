-- ===== src/Reducer/Backward/Marked.antt =====
-- One call of `MarkVariableReadyDense`: the pass goes on, or this was the last call of it.
use infini_train.Base.{
  ℕ, ◌+◌, ◌-◌, ◌<◌, ◌≤◌, ◌≡◌, ◌≢◌, refl, sym, ap, ◌∙◌, subst, arith, inl, inr, Bool, true, false,
  not, ◌&&◌, some, List, [], ◌∷◌, ◌++◌, map, ok, if◌then◌else◌, ltb, ◌==◌, Bool-cases, ==→≡, ==→≢,
  ==-refl, ==-ne, ltb→le, ltb→lt, All, length, get_elem?, length-modify, append_nil,
}
use infini_train.Reducer.Assignment.{no_elements}
use infini_train.Base.Loops.{gather}
use infini_train.Reducer.{Config, VariableLocator, Reducer}
use infini_train.Reducer.Backward.{
  emit, lower_pending, reset_work, note_all_ready, mark_bucket_ready, waits_from, finalize_backward,
}
use infini_train.Reducer.Backward.Fields.{
  pending_at, work_at, pending_at-lower_self, pending_at-lower_ne, work_at-lower_pending,
  work_at-reset_work, waits_from-all,
}
use infini_train.Reducer.Backward.Launching.{launch_many, Launches, launch_many-Launches, RunsTo}
use infini_train.Reducer.Backward.Awaiting.{
  in_bucket, marks_in, HasBucket, Awaiting, Continues, waits, lowered,
}

-- The mark of a variable counts for its own bucket alone.
marks_in_self :
    (locs : List VariableLocator) (v : ℕ) (vs : List ℕ) (loc : VariableLocator)
    → get_elem? locs v ≡ some loc
    → marks_in locs loc.bucket_index (v ∷ vs) ≡ 1 + marks_in locs loc.bucket_index vs
marks_in_self locs v vs loc e = rw (e, ==-refl loc.bucket_index, in_bucket) refl

marks_in_ne :
    (locs : List VariableLocator) (v : ℕ) (vs : List ℕ) (loc : VariableLocator) (b : ℕ)
    → get_elem? locs v ≡ some loc
    → loc.bucket_index ≢ b
    → marks_in locs b (v ∷ vs) ≡ marks_in locs b vs
marks_in_ne locs v vs loc b e ne = rw (e, ==-ne loc.bucket_index b ne, in_bucket) (omega arith)

-- No bucket waits: there is nothing left to mark.
pub none_left :
    (n : ℕ) (locs : List VariableLocator) (vs : List ℕ)
    → All (HasBucket n locs) vs
    → ((b : ℕ) → b < n → marks_in locs b vs ≡ 0)
    → vs ≡ []
none_left n locs [] located h = refl
none_left n locs (v ∷ vs) located h =
    let (loc, e, lt) = located.0 in
    absurd (omega (arith, marks_in_self locs v vs loc e, h loc.bucket_index lt))

pub finalize_backward_lem :
    (r : Reducer)
    → r.config.gradient_as_bucket_view ≡ true
    → ((b : ℕ) → b < length r.buckets → work_at r.buckets b ≡ true)
    → (s : Reducer) × (finalize_backward r ≡ ok s)
      × (s.events ≡ r.events ++ waits 0 (length r.buckets))
      × ((b : ℕ) → work_at s.buckets b ≡ false)
      × (s.all_buckets_ready_this_iter ≡ false)
unfolding finalize_backward
finalize_backward_lem r view started = (
  emit (waits_from 0 r.buckets ++ [])
      (record r { buckets = map reset_work r.buckets; all_buckets_ready_this_iter = false }),
  rw (view, finalize_backward) refl,
  ap (λ t. r.events ++ t) (append_nil _ ∙ waits_from-all 0 r.buckets started),
  λ b. work_at-reset_work r.buckets b,
  refl,
)

pub note_all_ready-some :
    (r : Reducer) → (r.next_bucket == length r.buckets) ≡ false → note_all_ready r ≡ r
unfolding note_all_ready
note_all_ready-some r e = rw (e, note_all_ready) refl

pub note_all_ready-all :
    (r : Reducer)
    → (r.next_bucket == length r.buckets) ≡ true
    → (rebuild : Bool) × (note_all_ready r
        ≡ record r { all_buckets_ready_this_iter = true; need_rebuild = rebuild })
unfolding note_all_ready
note_all_ready-all r e = (
  if not r.has_rebuilt_bucket && not (no_elements r.grad_ready_order_indices)
      then true
      else r.need_rebuild,
  rw (e, note_all_ready) refl,
)

module _ {n v : ℕ} {vs : List ℕ} {r : Reducer} (A : Awaiting n r (v ∷ vs)) (loc : VariableLocator)
    (here : get_elem? r.locators v ≡ some loc) (lt : loc.bucket_index < n) where
  pub pending_self :
      pending_at r.buckets loc.bucket_index ≡ 1 + marks_in r.locators loc.bucket_index vs
  pending_self = A.pending loc.bucket_index lt ∙ marks_in_self r.locators v vs loc here

  pub not_before : r.next_bucket ≤ loc.bucket_index
  not_before = elim (Bool-cases (ltb loc.bucket_index r.next_bucket)) [
    | inl less ↦ absurd (omega (arith, pending_self, A.reduced loc.bucket_index (ltb→lt _ _ less)))
    | inr more ↦ ltb→le _ _ more
  ]

  module _ (order : List ℕ) (seen : List Bool) where
    abbrev pub low : Reducer
    low = lowered loc.bucket_index order seen r

    pending-low : (b : ℕ) → b < n → pending_at low.buckets b ≡ marks_in r.locators b vs
    pending-low b h = elim (Bool-cases (loc.bucket_index == b)) [
      | inl same ↦
          let eq : loc.bucket_index ≡ b = ==→≡ _ _ same in
          rw (sym eq)
            (omega (arith, pending_self, pending_at-lower_self r.buckets loc.bucket_index))
      | inr other ↦
          let ne : loc.bucket_index ≢ b = ==→≢ _ _ other in
          pending_at-lower_ne r.buckets loc.bucket_index b ne
          ∙ A.pending b h
          ∙ marks_in_ne r.locators v vs loc b here ne
    ]

    reduced-low : (b : ℕ) → b < r.next_bucket → pending_at low.buckets b ≡ 0
    reduced-low b h =
        pending_at-lower_ne r.buckets loc.bucket_index b (λ e. omega (arith, not_before, e, h))
        ∙ A.reduced b h

    -- The next bucket still waits: the pass goes on with nothing launched.
    low-Awaiting : pending_at low.buckets r.next_bucket ≢ 0 → Awaiting n low vs
    low-Awaiting waiting = record {
      size = length-modify r.buckets loc.bucket_index lower_pending ∙ A.size;
      no_hook = A.no_hook;
      as_view = A.as_view;
      not_ready = A.not_ready;
      below = A.below;
      pending = pending-low;
      reduced = reduced-low;
      waiting = waiting;
      started = λ b h. work_at-lower_pending r.buckets loc.bucket_index b ∙ A.started b h;
      located = A.located.1;
    }

    pub low-Continues : pending_at low.buckets r.next_bucket ≢ 0 → Continues n vs r low 0
    unfolding gather
    low-Continues waiting = record {
      awaiting = low-Awaiting waiting;
      next = omega arith;
      events = sym (append_nil r.events);
    }

    pub low-size : length low.buckets ≡ n
    low-size = length-modify r.buckets loc.bucket_index lower_pending ∙ A.size

    -- The next bucket is ready, and `m` buckets in all.
    module _ (m : ℕ) (same : loc.bucket_index ≡ r.next_bucket)
        (run : RunsTo (n - r.next_bucket) m low) where
      abbrev pub many : Reducer
      many = launch_many m low

      pub launches : Launches m low many
      launches = launch_many-Launches m low

      many-idle : (b : ℕ) → b < r.next_bucket + m → pending_at low.buckets b ≡ 0
      many-idle b h = elim (Bool-cases (ltb b r.next_bucket)) [
        | inl less ↦ reduced-low b (ltb→lt _ _ less)
        | inr more ↦ run.idle b (ltb→le _ _ more) h
      ]

      pub many-started : (b : ℕ) → b < r.next_bucket + m → b < n → work_at many.buckets b ≡ true
      many-started b h lt = elim (Bool-cases (ltb b r.next_bucket)) [
        | inl less ↦
            launches.earlier b (ltb→lt _ _ less)
            ∙ work_at-lower_pending r.buckets loc.bucket_index b
            ∙ A.started b (ltb→lt _ _ less)
        | inr more ↦ launches.started b (ltb→le _ _ more) h (omega (arith, low-size, lt))
      ]

      pub many-Continues : r.next_bucket + m < n → Continues n vs r many m
      many-Continues more = record {
        awaiting = record {
          size = launches.size ∙ low-size;
          no_hook = launches.hook ∙ A.no_hook;
          as_view = ap (λ (c : Config). c.gradient_as_bucket_view) launches.config ∙ A.as_view;
          not_ready = launches.all_ready ∙ A.not_ready;
          below = omega (arith, launches.next, more);
          pending = λ b h.
              launches.pending b
              ∙ pending-low b h
              ∙ ap (λ l. marks_in l b vs) (sym launches.locators);
          reduced = λ b h. launches.pending b ∙ many-idle b (omega (arith, launches.next, h));
          waiting = λ e.
              run.stops (omega (arith, more, low-size))
                (sym (launches.pending _) ∙ ap (pending_at many.buckets) (sym launches.next) ∙ e);
          started = λ b h.
              many-started b (omega (arith, launches.next, h))
                (omega (arith, launches.next, h, more));
          located = subst (λ l. All (HasBucket n l) vs) (sym launches.locators) A.located.1;
        };
        next = launches.next;
        events = launches.events;
      }

      pub many-none_left : r.next_bucket + m ≡ n → vs ≡ []
      many-none_left all =
          none_left n r.locators vs A.located.1
            (λ b h. sym (pending-low b h) ∙ many-idle b (omega (arith, all, h)))

      pub many-mark :
          ltb r.next_bucket loc.bucket_index ≡ false
          → mark_bucket_ready loc.bucket_index low ≡ ok (note_all_ready many)
      unfolding mark_bucket_ready
      many-mark past =
          let left : length low.buckets - r.next_bucket ≡ n - r.next_bucket =
            ap (λ (k : ℕ). k - r.next_bucket) low-size in
          rw (past, left, run.result) refl
