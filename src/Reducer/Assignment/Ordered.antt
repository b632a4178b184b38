-- ===== src/Reducer/Assignment/Ordered.antt =====
-- The loop of `ComputeBucketAssignmentBySize` over the order.
use mathlib.Core.List.{Permᴰ}
use infini_train.Base.{
  ℕ, zero, suc, ◌+◌, ◌<◌, ◌≤◌, ◌≡◌, refl, ap, subst, arith, inl, inr, Bool, true, false, some, List,
  [], ◌∷◌, ◌++◌, ok, >>-eq-ok, >>=-eq-ok, ok-injective, ◌==◌, Option-cases, All, All-append, concat,
  length, get_elem?, get_elem?-within,
}
use infini_train.Base.Sort.{count}
use infini_train.Base.Loops.{count-append}
use infini_train.Base.Perm.{same_occurrences}
use infini_train.Tensors.{Tensor}
use infini_train.Reducer.Assignment.{
  Group, reverse_order, bucket_order, assign_to_group, flush_groups, assign_in_order,
  compute_bucket_assignment_by_size,
}
use infini_train.Reducer.Assignment.Grouped.{held, flush_groups-held}
use infini_train.Reducer.Assignment.Shared.{
  SharesKey, Keyed, assign_to_group-Joins, flush_groups-SharesKey,
}

count-concat :
    (p : ℕ → Bool) (xss yss : List (List ℕ))
    → count p (concat (xss ++ yss)) ≡ count p (concat xss) + count p (concat yss)
count-concat p [] yss = omega arith
count-concat p (xs ∷ xss) yss = omega (
  arith,
  count-append p xs (concat (xss ++ yss)),
  count-append p xs (concat xss),
  count-concat p xss yss,
)

module _ (tensors : List Tensor) (limits : List ℕ) where
  assign_in_order-eq-ok :
      (idx : ℕ) (order : List ℕ) (gs : List Group) {out : List (List ℕ)}
      → assign_in_order tensors limits (idx ∷ order) gs ≡ ok out
      → (t : Tensor) × (later : List (List ℕ)) × (get_elem? tensors idx ≡ some t)
        × (assign_in_order tensors limits order (assign_to_group limits idx t gs).1 ≡ ok later)
        × ((assign_to_group limits idx t gs).0 ++ later ≡ out)
  unfolding assign_in_order
  assign_in_order-eq-ok idx order gs h = elim (Option-cases (get_elem? tensors idx)) [
    | inl e ↦ cc (rw (assign_in_order, e) at h)
    | inr found ↦
        let (later, rest, e) = >>=-eq-ok _ _ (rw (assign_in_order, found.1) at h) in
        (found.0, later, found.1, rest, ok-injective e)
  ]

  assign_in_order-counts :
      (p : ℕ → Bool) (order : List ℕ) (gs : List Group) (out : List (List ℕ))
      → All (Keyed tensors) gs
      → assign_in_order tensors limits order gs ≡ ok out
      → (count p (concat out) ≡ count p (held gs) + count p order) × All (SharesKey tensors) out
  unfolding assign_in_order
  assign_in_order-counts p [] gs out keyed h =
      subst (λ k. (count p (concat k) ≡ count p (held gs) + 0) × All (SharesKey tensors) k)
        (ok-injective h)
        (
          omega (arith, ap (count p) (flush_groups-held limits gs)),
          flush_groups-SharesKey tensors limits gs keyed,
        )
  assign_in_order-counts p (idx ∷ order) gs out keyed h =
      let (t, later, found, rest, e) = assign_in_order-eq-ok idx order gs h in
      let r = assign_to_group limits idx t gs in
      let J = assign_to_group-Joins tensors p limits idx t gs found keyed in
      let (counts, share) = assign_in_order-counts p order r.1 later J.keyed rest in
      subst
        (λ k.
          (count p (concat k) ≡ count p (held gs) + count p (idx ∷ order))
          × All (SharesKey tensors) k)
        e
        (
          omega (arith, count-concat p r.0 later, J.counts, counts),
          All-append (SharesKey tensors) r.0 later J.share share,
        )

  -- Over indices of tensors the loop does not fail.
  pub assign_in_order_ok :
      (order : List ℕ) (gs : List Group)
      → All (λ i. i < length tensors) order
      → (out : List (List ℕ)) × (assign_in_order tensors limits order gs ≡ ok out)
  unfolding assign_in_order
  assign_in_order_ok [] gs h = (flush_groups limits gs, refl)
  assign_in_order_ok (idx ∷ order) gs h =
      let (t, found) = get_elem?-within tensors idx h.0 in
      let r = assign_to_group limits idx t gs in
      let (later, rest) = assign_in_order_ok order r.1 h.1 in
      (r.0 ++ later, rw (assign_in_order, found, rest) refl)

assigned_in_order :
    (tensors : List Tensor) (limits tensor_indices : List ℕ) (buckets : List (List ℕ))
    → compute_bucket_assignment_by_size tensors limits tensor_indices ≡ ok buckets
    → assign_in_order tensors limits (bucket_order tensors tensor_indices) [] ≡ ok buckets
unfolding compute_bucket_assignment_by_size
assigned_in_order tensors limits tensor_indices buckets h = (>>-eq-ok _ _ (>>-eq-ok _ _ h).1).1

-- The buckets share their keys, with the default order.
default_order-SharesKey :
    (tensors : List Tensor) (limits : List ℕ) (buckets : List (List ℕ))
    → compute_bucket_assignment_by_size tensors limits [] ≡ ok buckets
    → Permᴰ (concat buckets) (bucket_order tensors []) × All (SharesKey tensors) buckets
unfolding compute_bucket_assignment_by_size
default_order-SharesKey tensors limits buckets h =
    let order = bucket_order tensors [] in
    let run = assigned_in_order tensors limits [] buckets h in
    (
      same_occurrences (concat buckets) order (λ v.
          omega (
            arith,
            (assign_in_order-counts tensors limits (λ w. w == v) order [] buckets tt run).0,
          )),
      (assign_in_order-counts tensors limits (λ w. true) order [] buckets tt run).1,
    )

reverse_order-below : (n m : ℕ) → n ≤ m → All (λ i. i < m) (reverse_order n)
unfolding reverse_order
reverse_order-below zero m h = tt
reverse_order-below (suc n) m h = (omega arith, reverse_order-below n m (omega arith))

compute_bucket_assignment_by_size_ok :
    (tensors : List Tensor) (limits : List ℕ)
    → 0 < length tensors
    → 0 < length limits
    → (buckets : List (List ℕ)) × (compute_bucket_assignment_by_size tensors limits [] ≡ ok buckets)
unfolding compute_bucket_assignment_by_size bucket_order
compute_bucket_assignment_by_size_ok tensors limits some_tensor some_limit =
    let (out, run) =
      assign_in_order_ok tensors limits (reverse_order (length tensors)) []
        (reverse_order-below (length tensors) (length tensors) (omega arith)) in
    let e : (length tensors == 0) ≡ false = ground arith in
    let e' : (length limits == 0) ≡ false = ground arith in
    (out, rw (compute_bucket_assignment_by_size, e, e') run)

-- With at least one tensor and one limit, and no `tensor_indices`, `ComputeBucketAssignmentBySize`
-- returns. Its buckets hold the index of each tensor once; no bucket is empty, and the tensors of a
-- bucket are on devices of one index and of one data type.
pub compute_bucket_assignment_by_size-SharesKey :
    (tensors : List Tensor) (limits : List ℕ)
    → 0 < length tensors
    → 0 < length limits
    → (buckets : List (List ℕ)) × (compute_bucket_assignment_by_size tensors limits [] ≡ ok buckets)
      × Permᴰ (concat buckets) (reverse_order (length tensors))
      × All (SharesKey tensors) buckets
unfolding bucket_order
compute_bucket_assignment_by_size-SharesKey tensors limits some_tensor some_limit =
    let (buckets, run) =
      compute_bucket_assignment_by_size_ok tensors limits some_tensor some_limit in
    let (order, share) = default_order-SharesKey tensors limits buckets run in
    (buckets, run, order, share)
