-- ===== src/Reducer/Backward/Launched.antt =====
-- A whole backward pass: a call of `MarkVariableReadyDense` for each variable.
use infini_train.Base.{
  ℕ, ◌+◌, ◌-◌, ◌<◌, ◌≡◌, ◌≢◌, refl, sym, ap, ◌∙◌, arith, inl, inr, ◌⊎◌, Bool, true, false, some,
  List, [], ◌∷◌, ◌++◌, Result, ok, ◌>>=◌, if◌then◌else◌, ltb, ◌==◌, Bool-cases, ==→≡, ==→≢, ltb→le,
  ltb→lt, length, get_elem?, modify, get_elem?-within, append_assoc,
}
use infini_train.Base.Gathered.{gather-add}
use infini_train.Reducer.{ReducerError, Config, VariableLocator, Bucket, Event, Reducer}
use infini_train.Reducer.Backward.{
  lower_pending, note_all_ready, mark_bucket_ready, finalize_backward, mark_variable_ready_dense,
  mark_all_ready,
}
use infini_train.Reducer.Backward.Fields.{
  pending_at, pending_at-some, pending_at-lower_ne, pending_at-lower_self,
}
use infini_train.Reducer.Backward.Launching.{reduces, RunsTo, launch_ready_buckets-RunsTo}
use infini_train.Reducer.Backward.Awaiting.{
  Awaiting, Continues, waits, Finishes, after_count, mark_variable_ready_dense_lem,
}
use infini_train.Reducer.Backward.Marked.{
  low, low-Continues, low-size, many, launches, many-started, many-Continues, many-none_left,
  many-mark, pending_self, not_before, note_all_ready-some, note_all_ready-all,
  finalize_backward_lem,
}

-- What a call comes to: the pass goes on, or it was the last one.
abbrev Outcome : ℕ → List ℕ → Reducer → Result ReducerError Reducer → Type 0
Outcome n vs r result =
    (s : Reducer) × (result ≡ ok s)
    × (((m : ℕ) × Continues n vs r s m) ⊎ ((vs ≡ []) × Finishes n r s))

module _ {n v : ℕ} {vs : List ℕ} {r : Reducer} (A : Awaiting n r (v ∷ vs)) (loc : VariableLocator)
    (here : get_elem? r.locators v ≡ some loc) (lt : loc.bucket_index < n) (order : List ℕ)
    (seen : List Bool) where
  module _ (m : ℕ) (same : loc.bucket_index ≡ r.next_bucket)
      (run : RunsTo (n - r.next_bucket) m (low A loc here lt order seen)) where
    abbrev launched : Reducer
    launched = many A loc here lt order seen m same run

    abbrev rest : Result ReducerError Reducer
    rest = ok (note_all_ready launched) >>= λ marked.
        if marked.all_buckets_ready_this_iter then finalize_backward marked else ok marked

    all_events :
        {events : List Event}
        → r.next_bucket + m ≡ n
        → events ≡ launched.events ++ waits 0 (length launched.buckets)
        → events ≡ r.events ++ (reduces r.next_bucket (n - r.next_bucket) ++ waits 0 n)
    all_events all e =
        let L = launches A loc here lt order seen m same run in
        let left : m ≡ n - r.next_bucket = omega (arith, all) in
        e
        ∙ ap (λ (k : ℕ). launched.events ++ waits 0 k) (L.size ∙ low-size A loc here lt order seen)
        ∙ ap (λ t. t ++ waits 0 n) L.events
        ∙ append_assoc r.events _ _
        ∙ ap (λ (k : ℕ). r.events ++ (reduces r.next_bucket k ++ waits 0 n)) left

    -- All of the buckets are launched, and the pass is finalized.
    last_call : r.next_bucket + m ≡ n → Outcome n vs r rest
    last_call all =
        let L = launches A loc here lt order seen m same run in
        let size : length launched.buckets ≡ n = L.size ∙ low-size A loc here lt order seen in
        let (rebuild, e) = note_all_ready-all launched (ground (arith, size, L.next, all)) in
        let (s, result, events, idle, not_ready) =
          finalize_backward_lem
            (record launched { all_buckets_ready_this_iter = true; need_rebuild = rebuild })
            (ap (λ (c : Config). c.gradient_as_bucket_view) L.config ∙ A.as_view)
            (λ b h.
              many-started A loc here lt order seen m same run b (omega (arith, all, size, h))
                (omega (arith, size, h))) in
        (
          s,
          rw e result,
          inr (
            many-none_left A loc here lt order seen m same run all,
            record { events = all_events all events; idle = idle; not_ready = not_ready },
          ),
        )

    -- A later bucket waits: the pass goes on.
    not_last_call : r.next_bucket + m < n → Outcome n vs r rest
    not_last_call more =
        let L = launches A loc here lt order seen m same run in
        let size : length launched.buckets ≡ n = L.size ∙ low-size A loc here lt order seen in
        (
          launched,
          rw
              (
                note_all_ready-some launched (ground (arith, size, L.next, more)),
                L.all_ready ∙ A.not_ready,
              )
              refl,
          inl (m, many-Continues A loc here lt order seen m same run more),
        )

    launching_call :
        ltb r.next_bucket loc.bucket_index ≡ false
        → Outcome n vs r (
            mark_bucket_ready loc.bucket_index (low A loc here lt order seen) >>= λ marked.
            if marked.all_buckets_ready_this_iter then finalize_backward marked else ok marked)
    launching_call past =
        rw (many-mark A loc here lt order seen m same run past)
          (elim (Bool-cases (ltb (r.next_bucket + m) n)) [
            | inl less ↦ not_last_call (ltb→lt _ _ less)
            | inr all ↦
                last_call (let le = ltb→le _ _ all in omega (arith, le, run.within, A.below))
          ])

  -- The next bucket waits: nothing is launched.
  waiting_call :
      (x : Bucket)
      → pending_at (low A loc here lt order seen).buckets r.next_bucket ≢ 0
      → (x.pending == 1) ≡ false ⊎ (ltb r.next_bucket loc.bucket_index ≡ true)
      → Outcome n vs r (after_count loc x (low A loc here lt order seen))
  unfolding mark_bucket_ready
  waiting_call x waiting (inl e) = (
    low A loc here lt order seen,
    rw (e, A.not_ready) refl,
    inl (0, low-Continues A loc here lt order seen waiting),
  )
  waiting_call x waiting (inr e) = (
    low A loc here lt order seen,
    elim (Bool-cases (x.pending == 1)) [
      | inl one ↦ rw (one, e, A.not_ready) refl
      | inr more ↦ rw (more, A.not_ready) refl
    ],
    inl (0, low-Continues A loc here lt order seen waiting),
  )

-- Each call has one of the two outcomes.
call-Outcome :
    {n v : ℕ} {vs : List ℕ} {r : Reducer} (A : Awaiting n r (v ∷ vs))
    → Outcome n vs r (mark_variable_ready_dense v r)
call-Outcome {n = n} {r = r} A =
    let (loc, here, lt) = A.located.0 in
    let b = loc.bucket_index in
    let (x, bucket) = get_elem?-within r.buckets b (omega (arith, A.size, lt)) in
    let some_left = pending_self A loc here lt in
    let pending = pending_at-some r.buckets b bucket in
    let (order, seen, e) =
      mark_variable_ready_dense_lem _ r loc x A.as_view here bucket
        (ground (arith, some_left, pending)) in
    let lower_self = pending_at-lower_self r.buckets b in
    rw e (elim (Bool-cases (x.pending == 1)) [
      | inr more ↦
          waiting_call A loc here lt order seen x
            (elim (Bool-cases (b == r.next_bucket)) [
              | inl same ↦ λ none_left.
                  let next = ap (pending_at (modify r.buckets b lower_pending)) (==→≡ _ _ same) in
                  omega
                    (arith, next, none_left, lower_self, some_left, pending, ==→≢ x.pending 1 more)
              | inr other ↦ λ none_left.
                  A.waiting (sym (pending_at-lower_ne r.buckets b _ (==→≢ _ _ other)) ∙ none_left)
            ])
            (inl more)
      | inl one ↦ elim (Bool-cases (ltb r.next_bucket b)) [
        | inl later ↦
            waiting_call A loc here lt order seen x
              (λ none_left. A.waiting (
                sym (pending_at-lower_ne r.buckets b _ (λ eq. omega (arith, eq, ltb→lt _ _ later)))
                ∙ none_left))
              (inr later)
        | inr past ↦
            let same : b ≡ r.next_bucket =
              omega (arith, not_before A loc here lt, ltb→le _ _ past) in
            let (m, run) =
              launch_ready_buckets-RunsTo (n - r.next_bucket) (low A loc here lt order seen)
                A.no_hook (omega (arith, A.below, low-size A loc here lt order seen)) in
            rw one (launching_call A loc here lt order seen m same run past)
      ]
    ])

-- The launches of two runs of calls after each other.
join_events :
    (xs ys : List Event) (a m k n : ℕ)
    → a + m ≡ k
    → k < n
    → (xs ++ reduces a m) ++ (reduces k (n - k) ++ ys) ≡ xs ++ (reduces a (n - a) ++ ys)
join_events xs ys a m k n e lt =
    let all : m + (n - k) ≡ n - a = omega (arith, e, lt) in
    append_assoc xs _ _
    ∙ ap (λ t. xs ++ t)
        (sym (append_assoc (reduces a m) _ ys)
          ∙ ap (λ t. t ++ ys) (sym (gather-add _ a m (n - k) k e) ∙ ap (reduces a) all))

-- The calls that are left launch the buckets that are left, in order, and finalize the pass.
pub mark_all_ready-Finishes :
    (n : ℕ) (marks : List ℕ) (r : Reducer)
    → Awaiting n r marks
    → (s : Reducer) × (mark_all_ready marks r ≡ ok s) × Finishes n r s
unfolding mark_all_ready
mark_all_ready-Finishes n [] r A = absurd (A.waiting (A.pending r.next_bucket A.below))
mark_all_ready-Finishes n (v ∷ vs) r A =
    let (s, e, outcome) = call-Outcome A in
    elim outcome [
      | inl going ↦
          let (last, rest, fin) = mark_all_ready-Finishes n vs s going.1.awaiting in
          (
            last,
            rw e rest,
            record {
              events =
                  fin.events
                  ∙ ap (λ t. t ++ (reduces s.next_bucket (n - s.next_bucket) ++ waits 0 n))
                      going.1.events
                  ∙ join_events r.events _ r.next_bucket going.0 s.next_bucket n (sym going.1.next)
                      going.1.awaiting.below;
              idle = fin.idle;
              not_ready = fin.not_ready;
            },
          )
      | inr over ↦ (s, rw e (ap (λ ws. mark_all_ready ws s) over.0), over.1)
    ]
