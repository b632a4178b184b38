-- ===== src/BucketGroup/Gradients/Synced.antt =====
-- The gradients of a group are reduced once all of its parameters are ready, and waited for once.
use mathlib.Core.List.{Permᴰ}
use infini_train.Base.{
  ℕ, zero, suc, ◌+◌, ◌<◌, ◌≤◌, ◌≡◌, refl, sym, ap, ◌∙◌, arith, inl, inr, true, false, not, ◌||◌,
  List, [], ◌∷◌, ◌++◌, ok, ◌==◌, ==-refl, if◌then◌else◌, Bool-cases, All, length, append_assoc,
}
use infini_train.Base.Sort.{bit, count}
use infini_train.Base.Loops.{gather}
use infini_train.Base.Perm.{occurrences, count-Permᴰ}
use infini_train.BucketGroup.{GroupEvent, BucketGroup, has_member, insert, waits_for}
use infini_train.BucketGroup.Gradients.{
  start_grad_sync, register_grad_ready, register_all, finish_works, finish_grad_sync,
}
use infini_train.BucketGroup.Gradients.Reduced.{
  reduce_events, indices_from, reducing, IsCollecting, start_grad_sync_lem,
}

not_member : (p : ℕ) (xs : List ℕ) → occurrences p xs ≡ 0 → has_member p xs ≡ false
not_member p [] h = refl
not_member p (x ∷ xs) h = elim (Bool-cases (x == p)) [
  | inl e ↦ absurd (omega (arith, h, ap bit e))
  | inr e ↦ rw e (not_member p xs (omega (arith, h)))
]

insert_new : (p : ℕ) (xs : List ℕ) → occurrences p xs ≡ 0 → insert p xs ≡ p ∷ xs
unfolding insert
insert_new p xs h = rw (not_member p xs h) refl

abbrev collected : List ℕ → BucketGroup → BucketGroup
collected xs g = record g { params_with_grad = xs }

collected-IsCollecting :
    (xs : List ℕ) (g : BucketGroup) → IsCollecting g → IsCollecting (collected xs g)
collected-IsCollecting xs g C = record {
  has_pg = C.has_pg;
  overlaps = C.overlaps;
  last = C.last;
  no_works = C.no_works;
  not_dispatched = C.not_dispatched;
  stage = C.stage;
  reducible = C.reducible;
}

register_grad_ready_lem :
    (p : ℕ) (g : BucketGroup)
    → IsCollecting g
    → has_member p g.params ≡ true
    → occurrences p g.params_with_grad ≡ 0
    → register_grad_ready p g ≡ (
        if length (p ∷ g.params_with_grad) == length g.params
        then start_grad_sync (collected (p ∷ g.params_with_grad) g)
        else ok (collected (p ∷ g.params_with_grad) g))
unfolding register_grad_ready
register_grad_ready_lem p g C member new =
    rw (insert_new p g.params_with_grad new, C.overlaps, C.last, member) refl

count_true : (xs : List ℕ) → count (λ q. true) xs ≡ length xs
count_true [] = refl
count_true (x ∷ xs) = omega (arith, count_true xs)

-- The parameters that are left get ready, and the last one starts the reduction.
register_all_lem :
    (p : ℕ) (ps : List ℕ) (g : BucketGroup)
    → IsCollecting g
    → All (λ q. has_member q g.params ≡ true) (p ∷ ps)
    → ((v : ℕ) → occurrences v g.params_with_grad + occurrences v (p ∷ ps) ≤ 1)
    → length g.params_with_grad + length (p ∷ ps) ≡ length g.params
    → register_all (p ∷ ps) g ≡ ok (reducing g)
unfolding register_all
register_all_lem p [] g C members once total =
    let new : occurrences p g.params_with_grad ≡ 0 = omega (arith, once p, ap bit (==-refl p)) in
    let all : (length (p ∷ g.params_with_grad) == length g.params) ≡ true = ground (arith, total) in
    rw
      (
        register_grad_ready_lem p g C members.0 new,
        all,
        start_grad_sync_lem (collected (p ∷ g.params_with_grad) g) (collected-IsCollecting _ g C),
      )
      refl
register_all_lem p (q ∷ ps) g C members once total =
    let new : occurrences p g.params_with_grad ≡ 0 = omega (arith, once p, ap bit (==-refl p)) in
    let some_left : (length (p ∷ g.params_with_grad) == length g.params) ≡ false =
      ground (arith, total) in
    rw (register_grad_ready_lem p g C members.0 new, some_left)
      (register_all_lem q ps (collected (p ∷ g.params_with_grad) g) (collected-IsCollecting _ g C)
        members.1 (λ v. omega (arith, once v)) (omega (arith, total)))

is_member : (p : ℕ) (xs : List ℕ) → 1 ≤ occurrences p xs → has_member p xs ≡ true
is_member p [] h = absurd (omega arith)
is_member p (x ∷ xs) h = elim (Bool-cases (x == p)) [
  | inl e ↦ rw e refl
  | inr e ↦ rw e (is_member p xs (omega (arith, h, ap bit e)))
]

has_member-All :
    (xs ys : List ℕ)
    → ((v : ℕ) → occurrences v xs ≤ occurrences v ys)
    → All (λ q. has_member q ys ≡ true) xs
has_member-All [] ys h = tt
has_member-All (x ∷ xs) ys h = (
  is_member x ys (omega (arith, h x, ap bit (==-refl x))),
  has_member-All xs ys (λ v. omega (arith, h v)),
)

length-indices_from : (i n : ℕ) → length (indices_from i n) ≡ n
unfolding gather
length-indices_from i zero = refl
length-indices_from i (suc n) = omega (arith, length-indices_from (i + 1) n)

waits_for-indices :
    (wait : ℕ → GroupEvent) (i n : ℕ)
    → waits_for wait (indices_from i n) ≡ gather (λ j. wait j ∷ []) i n
unfolding waits_for gather
waits_for-indices wait i zero = refl
waits_for-indices wait i (suc n) = ap (λ t. wait i ∷ t) (waits_for-indices wait (i + 1) n)

abbrev pub wait_events : ℕ → ℕ → List GroupEvent
wait_events = gather (λ j. GroupEvent.wait_grad j ∷ [])

-- The group after it has waited for the reductions.
abbrev pub synced : BucketGroup → BucketGroup
synced g = record g {
  params_with_grad = [];
  grad_reduce_work_list = [];
  grad_reduce_bucket_indices = [];
  grad_reduce_dispatched = false;
  events = g.events ++ (reduce_events g 0 (length g.buckets) ++ wait_events 0 (length g.buckets));
}

finish_grad_sync_lem :
    (g : BucketGroup)
    → IsCollecting g
    → 0 < length g.buckets
    → finish_grad_sync (reducing g) ≡ ok (synced g)
unfolding finish_grad_sync finish_works
finish_grad_sync_lem g C some_bucket =
    let n = length g.buckets in
    let works : g.grad_reduce_work_list ++ indices_from 0 n ≡ indices_from 0 n =
      ap (λ ws. ws ++ indices_from 0 n) C.no_works in
    let waiting : (length (g.grad_reduce_work_list ++ indices_from 0 n) == 0) ≡ false =
      ground (arith, some_bucket, ap length works, length-indices_from 0 n) in
    let goes_on : (not g.config.overlap_grad_reduce
          || (length (g.grad_reduce_work_list ++ indices_from 0 n) == 0))
        ≡ false =
      rw (C.overlaps, waiting) refl in
    rw (finish_works, goes_on, C.stage)
      (ap (λ (es : List GroupEvent). ok (record (synced g) { events = es }))
        (append_assoc g.events _ _
          ∙ ap (λ t. g.events ++ (reduce_events g 0 n ++ t))
              (ap (waits_for GroupEvent.wait_grad) works
                ∙ waits_for-indices GroupEvent.wait_grad 0 n)))

-- For a group below stage 2 that collects gradients (as it does from its construction on), with at
-- least one bucket and buckets that can be reduced, at least one parameter and none in two buckets,
-- and for parameters that get ready in any order, each once: when all of them are, one collective
-- has been launched on each bucket, in order; `FinishGradSync` then waits for each once and leaves
-- the group collecting again.
pub gradients_synced :
    (g : BucketGroup) (marks : List ℕ)
    → IsCollecting g
    → g.params_with_grad ≡ []
    → 0 < length g.buckets
    → 0 < length g.params
    → ((v : ℕ) → occurrences v g.params ≤ 1)
    → Permᴰ g.params marks
    → (s : BucketGroup) × (register_all marks g ≡ ok s)
      × (s.events ≡ g.events ++ reduce_events g 0 (length g.buckets))
      × (finish_grad_sync s ≡ ok (synced g))
      × IsCollecting (synced g)
gradients_synced g [] C none_yet some_bucket some_param once order =
    absurd (omega (arith, some_param, count-Permᴰ (λ q. true) order, count_true g.params))
gradients_synced g (p ∷ ps) C none_yet some_bucket some_param once order =
    let same = λ (v : ℕ). count-Permᴰ (λ w. w == v) order in
    let total : length g.params ≡ length (p ∷ ps) =
      sym (count_true g.params) ∙ count-Permᴰ (λ q. true) order ∙ count_true (p ∷ ps) in
    (
      reducing g,
      register_all_lem p ps g C (has_member-All (p ∷ ps) g.params (λ v. omega (arith, same v)))
          (λ v. omega (arith, ap (occurrences v) none_yet, once v, same v))
          (omega (arith, ap length none_yet, total)),
      refl,
      finish_grad_sync_lem g C some_bucket,
      record {
        has_pg = C.has_pg;
        overlaps = C.overlaps;
        last = C.last;
        no_works = refl;
        not_dispatched = refl;
        stage = C.stage;
        reducible = C.reducible;
      },
    )
