-- ===== src/Reducer/FirstPass.antt =====
-- The reducer from its construction on, as `DistributedDataParallel` calls it: the assignment of
-- buckets by size (infini_train/src/nn/parallel/ddp/distributed_data_parallel.cc), the constructor,
-- and the first backward pass.
use mathlib.Core.List.{Permᴰ}
use infini_train.Base.{
  ℕ, zero, suc, ◌<◌, ◌≡◌, refl, ◌∙◌, arith, true, false, List, [], ◌∷◌, ◌++◌, ok, ltb, ◌==◌, All,
  concat, length, replicate,
}
use infini_train.Base.Sort.{bit}
use infini_train.Base.Perm.{occurrences, count-Permᴰ}
use infini_train.Tensors.{DeviceType, Tensor}
use infini_train.Reducer.{Config, bucket_size_limits, Grad, Reducer}
use infini_train.Reducer.Assignment.{reverse_order, bucket_order, compute_bucket_assignment_by_size}
use infini_train.Reducer.Assignment.Ordered.{compute_bucket_assignment_by_size-SharesKey}
use infini_train.Reducer.Buckets.{no_locator, bare_reducer, build_buckets, new_reducer}
use infini_train.Reducer.Buckets.Built.{build_buckets_from_ok}
use infini_train.Reducer.Backward.{prepare_for_backward, mark_all_ready}
use infini_train.Reducer.Backward.Pass.{collectives, each_reduced_once}

occurrences-reverse_order : (v n : ℕ) → occurrences v (reverse_order n) ≡ bit (ltb v n)
unfolding reverse_order
occurrences-reverse_order v zero = ground arith
occurrences-reverse_order v (suc n) = ground (arith, occurrences-reverse_order v n)

not_empty : (xss : List (List ℕ)) → 0 < occurrences 0 (concat xss) → 0 < length xss
not_empty [] h = absurd (omega arith)
not_empty (xs ∷ xss) h = omega arith

-- For at least one parameter, all on devices of one type, with gradients that are views of the
-- buckets and no communication hook, and for marks that are all of the parameters in any order: the
-- buckets are assigned and built and the pass ends with no CHECK that fails; it launches the
-- all-reduce of each bucket once, in the order of the buckets, and then waits for each of them once.
pub first_pass_reduces :
    (params : List Tensor) (config : Config) (grads : List Grad) (kind : DeviceType)
    (marks : List ℕ)
    → 0 < length params
    → All (λ t. t.device.device_type ≡ kind) params
    → config.gradient_as_bucket_view ≡ true
    → Permᴰ (reverse_order (length params)) marks
    → (buckets : List (List ℕ)) × (r : Reducer) × (p : Reducer) × (s : Reducer)
      × (compute_bucket_assignment_by_size params (bucket_size_limits config) [] ≡ ok buckets)
      × (new_reducer params buckets config false grads ≡ ok r)
      × (prepare_for_backward r ≡ ok p)
      × (mark_all_ready marks p ≡ ok s)
      × (s.events ≡ p.events ++ collectives (length buckets))
unfolding new_reducer build_buckets bucket_order
first_pass_reduces params config grads kind marks some_param one_kind as_view order =
    let limits = bucket_size_limits config in
    let (buckets, assigned, same, share) =
      compute_bucket_assignment_by_size-SharesKey params limits some_param (omega arith) in
    let (bs, locators, built) =
      build_buckets_from_ok params kind one_kind 0 buckets (replicate (length params) no_locator)
        share in
    let once =
      λ (v : ℕ). count-Permᴰ (λ w. w == v) same ∙ occurrences-reverse_order v (length params) in
    let r : Reducer = record (bare_reducer params config false grads) {
      buckets = bs;
      locators = locators;
      assignment = 1;
    } in
    let made : new_reducer params buckets config false grads ≡ ok r = rw built refl in
    let (p, s, prepared, run, events) =
      each_reduced_once params buckets config grads r marks made as_view
        (not_empty buckets (ground (arith, once 0))) (λ v. ground (arith, once v))
        (Permᴰ.trans same order) in
    (buckets, r, p, s, assigned, made, prepared, run, events)
