-- ===== src/Reducer/Backward/Pass.antt =====
-- Backward passes of a reducer that was just built.
use mathlib.Core.List.{Permᴰ}
use infini_train.Base.{
  ℕ, ◌-◌, ◌<◌, ◌≤◌, ◌≡◌, refl, sym, ap, ◌∙◌, subst, arith, true, false, List, [], ◌∷◌, ◌++◌, map,
  ok, >>=-eq-ok, ok-injective, All, concat, length, length-map, get_or, replicate, length-replicate,
}
use infini_train.Tensors.{Tensor}
use infini_train.Reducer.{Config, VariableLocator, Bucket, Event, Grad, Reducer}
use infini_train.Reducer.Buckets.{
  build_buckets_from, build_buckets, bare_reducer, new_reducer, no_locator,
}
use infini_train.Base.Perm.{occurrences, count-Permᴰ, All-Permᴰ}
use infini_train.Reducer.Buckets.Settled.{build_buckets_from-Settles, build_buckets_from-AllLocated}
use infini_train.Reducer.Backward.{reset_pending, prepare_for_backward, mark_all_ready}
use infini_train.Reducer.Backward.Fields.{pending_at-reset}
use infini_train.Reducer.Backward.Launching.{reduces}
use infini_train.Reducer.Backward.Awaiting.{in_bucket, HasBucket, Awaiting, waits}
use infini_train.Reducer.Backward.Launched.{mark_all_ready-Finishes}
use infini_train.Reducer.Backward.Started.{
  started, start_iteration-started, marks_in-concat, concat-HasBucket,
}

-- The collectives of a pass over `n` buckets: each is reduced once, in order, and then each is
-- waited for.
abbrev pub collectives : ℕ → List Event
collectives n = reduces 0 n ++ waits 0 n

first_filled :
    (xss : List (List ℕ))
    → 0 < length xss
    → All (λ xs. 0 < length xs) xss
    → 0 < length (get_or xss 0 [])
first_filled [] lt h = absurd (omega arith)
first_filled (xs ∷ xss) lt h = h.0

module _ (params : List Tensor) (indices : List (List ℕ)) (config : Config) (grads : List Grad)
    {r : Reducer} (built : new_reducer params indices config false grads ≡ ok r) where
  abbrev fresh : List Bucket → List VariableLocator → Reducer
  fresh bs locators = record (bare_reducer params config false grads) {
    buckets = bs;
    locators = locators;
    assignment = 1;
  }

  -- What the constructor leaves.
  new_reducer-made :
      (bs : List Bucket) × (locators : List VariableLocator) × (build_buckets_from params 0 indices
          (replicate (length params) no_locator)
        ≡ ok (bs, locators))
      × (r ≡ fresh bs locators)
  unfolding new_reducer build_buckets
  new_reducer-made =
      let (b, e, same) = >>=-eq-ok _ _ built in (b.0, b.1, e, sym (ok-injective same))

  module _ (as_view : config.gradient_as_bucket_view ≡ true) (some_bucket : 0 < length indices)
      (once : (v : ℕ) → occurrences v (concat indices) ≤ 1) (marks : List ℕ)
      (order : Permᴰ (concat indices) marks) where
    pass-Awaiting :
        (bs : List Bucket) (locators : List VariableLocator) (g : List Grad) (events : List Event)
        → build_buckets_from params 0 indices (replicate (length params) no_locator)
          ≡ ok (bs, locators)
        → Awaiting (length indices) (started g events (fresh bs locators)) marks
    pass-Awaiting bs locators g events e =
        let S = build_buckets_from-Settles params 0 indices _ bs locators e in
        let L =
          build_buckets_from-AllLocated params 0 indices _ bs locators e
            (length-replicate (length params) no_locator) once in
        let size : length (map reset_pending bs) ≡ length indices =
          length-map bs reset_pending ∙ S.count in
        record {
          size = size;
          no_hook = refl;
          as_view = as_view;
          not_ready = refl;
          below = some_bucket;
          pending = λ b lt.
              pending_at-reset bs b
              ∙ S.variables b
              ∙ sym (marks_in-concat locators 0 indices b b (omega arith) L)
              ∙ count-Permᴰ (in_bucket locators b) order;
          reduced = λ b lt. absurd (omega arith);
          waiting = λ none_left. omega (
            arith,
            none_left,
            pending_at-reset bs 0,
            S.variables 0,
            first_filled indices some_bucket S.filled,
          );
          started = λ b lt. absurd (omega arith);
          located =
              All-Permᴰ (HasBucket (length indices) locators) order
                (concat-HasBucket locators 0 (length indices) indices (omega arith) L);
        }

    abbrev Passes : Reducer → Type 0
    Passes r =
        (p : Reducer) × (s : Reducer) × (prepare_for_backward r ≡ ok p)
        × (mark_all_ready marks p ≡ ok s)
        × (s.events ≡ p.events ++ collectives (length indices))

    fresh-Passes :
        (bs : List Bucket) (locators : List VariableLocator)
        → build_buckets_from params 0 indices (replicate (length params) no_locator)
          ≡ ok (bs, locators)
        → Passes (fresh bs locators)
    unfolding prepare_for_backward
    fresh-Passes bs locators e =
        let (g, events, start) = start_iteration-started (fresh bs locators) in
        let (s, run, fin) =
          mark_all_ready-Finishes (length indices) marks (started g events (fresh bs locators))
            (pass-Awaiting bs locators g events e) in
        let all : length indices - 0 ≡ length indices = omega arith in
        (
          started g events (fresh bs locators),
          s,
          ap ok start,
          run,
          fin.events ∙ ap (λ (k : ℕ). events ++ (reduces 0 k ++ waits 0 (length indices))) all,
        )

-- A pass right after the constructor: buckets by index lists that hold no variable twice, gradients
-- that are views of the buckets, no communication hook, at least one bucket, and marks that are the
-- buckets' variables in any order. No CHECK fails; the pass launches the all-reduce of each bucket
-- once, in the order of the buckets, and then waits for each of them once.
pub each_reduced_once :
    (params : List Tensor) (indices : List (List ℕ)) (config : Config) (grads : List Grad)
    (r : Reducer) (marks : List ℕ)
    → new_reducer params indices config false grads ≡ ok r
    → config.gradient_as_bucket_view ≡ true
    → 0 < length indices
    → ((v : ℕ) → occurrences v (concat indices) ≤ 1)
    → Permᴰ (concat indices) marks
    → (p : Reducer) × (s : Reducer) × (prepare_for_backward r ≡ ok p)
      × (mark_all_ready marks p ≡ ok s)
      × (s.events ≡ p.events ++ collectives (length indices))
each_reduced_once params indices config grads r marks built as_view some_bucket once order =
    let (bs, locators, e, made) = new_reducer-made params indices config grads built in
    let passes =
      fresh-Passes params indices config grads built as_view some_bucket once marks order bs
        locators e in
    subst
      (λ r.
        (p : Reducer) × (s : Reducer) × (prepare_for_backward r ≡ ok p)
        × (mark_all_ready marks p ≡ ok s)
        × (s.events ≡ p.events ++ collectives (length indices)))
      (sym made) passes
