-- ===== src/BucketGroup/Gradients/Reduced.antt =====
-- What `StartGradSync` launches on a group that collects gradients, below stage 2.
use infini_train.Base.{
  ℕ, ◌+◌, ◌%◌, ◌≡◌, refl, sym, ap, ◌∙◌, arith, inl, inr, true, false, List, [], ◌∷◌, ◌++◌, Result,
  ok, leb, ◌==◌, if◌then◌else◌, Bool-cases, All, length, append_assoc, append_nil,
}
use infini_train.Base.Loops.{gather}
use infini_train.BucketGroup.{GroupError, GroupBucket, GroupEvent, BucketGroup}
use infini_train.BucketGroup.Gradients.{push_work, reduce_bucket, reduce_buckets, start_grad_sync}

-- Below stage 2, a bucket that can be reduced: it has gradients, needs no scaling, and with a ZeRO
-- stage its elements can be shared out.
abbrev pub IsReducible : BucketGroup → GroupBucket → Type 0
IsReducible g b =
    (b.has_grad_data ≡ true) × (b.scaled ≡ false) × (b.num_elements % g.collective_pg_size ≡ 0)

-- The collective that `StartGradSync` launches on a bucket.
abbrev pub reduce_event : BucketGroup → ℕ → GroupEvent
reduce_event g i =
    if leb 1 g.config.zero_stage
    then GroupEvent.reduce_scatter i g.config.average_in_collective g.config.overlap_grad_reduce
    else GroupEvent.all_reduce i g.config.average_in_collective g.config.overlap_grad_reduce

abbrev pub reduce_events : BucketGroup → ℕ → ℕ → List GroupEvent
reduce_events g = gather (λ i. reduce_event g i ∷ [])

abbrev pub indices_from : ℕ → ℕ → List ℕ
indices_from = gather (λ i. i ∷ [])

abbrev pub reduced_from : ℕ → ℕ → BucketGroup → BucketGroup
reduced_from i n g = record g {
  grad_reduce_work_list = g.grad_reduce_work_list ++ indices_from i n;
  events = g.events ++ reduce_events g i n;
}

abbrev with_lists : List ℕ → List GroupEvent → BucketGroup → BucketGroup
with_lists works events g = record g { grad_reduce_work_list = works; events = events }

same_lists :
    (g : BucketGroup) {ws ws' : List ℕ} {es es' : List GroupEvent}
    → ws ≡ ws'
    → es ≡ es'
    → ◌≡◌ {A = Result GroupError BucketGroup} (ok (with_lists ws es g)) (ok (with_lists ws' es' g))
same_lists g {ws' = ws'} {es = es} p q =
    ap (λ w. ok (with_lists w es g)) p ∙ ap (λ e. ok (with_lists ws' e g)) q

reduce_bucket_lem :
    (i : ℕ) (b : GroupBucket) (g : BucketGroup)
    → IsReducible g b
    → reduce_bucket i b g ≡ ok (push_work i (reduce_event g i) g)
unfolding reduce_bucket
reduce_bucket_lem i b g (grad, unscaled, divides) =
    let divides' : (b.num_elements % g.collective_pg_size == 0) ≡ true = ground (arith, divides) in
    elim (Bool-cases (leb 1 g.config.zero_stage)) [
      | inl on ↦ rw (grad, unscaled, on, divides') refl
      | inr off ↦ rw (grad, unscaled, off) refl
    ]

reduce_buckets_lem :
    (i : ℕ) (bs : List GroupBucket) (g : BucketGroup)
    → leb 2 g.config.zero_stage ≡ false
    → All (IsReducible g) bs
    → reduce_buckets i bs g ≡ ok (reduced_from i (length bs) g)
unfolding reduce_buckets gather
reduce_buckets_lem i [] g stage h =
    same_lists g (sym (append_nil g.grad_reduce_work_list)) (sym (append_nil g.events))
reduce_buckets_lem i (b ∷ bs) g stage h =
    rw (stage, reduce_bucket_lem i b g h.0)
      (reduce_buckets_lem (i + 1) bs (push_work i (reduce_event g i) g) stage h.1
        ∙ same_lists g (append_assoc g.grad_reduce_work_list _ _) (append_assoc g.events _ _))

-- The group once its gradients are being reduced.
abbrev pub reducing : BucketGroup → BucketGroup
reducing g = record (reduced_from 0 (length g.buckets) g) {
  grad_reduce_dispatched = true;
  params_with_grad = [];
}

-- No reduction is under way, and there is a process group; gradients are reduced as they get ready.
pub record IsCollecting (g : BucketGroup) : Type 0 where
  pub has_pg : g.has_collective_pg ≡ true
  pub overlaps : g.config.overlap_grad_reduce ≡ true
  pub last : g.is_last_microbatch ≡ true
  pub no_works : g.grad_reduce_work_list ≡ []
  pub not_dispatched : g.grad_reduce_dispatched ≡ false
  pub stage : leb 2 g.config.zero_stage ≡ false
  pub reducible : All (IsReducible g) g.buckets

pub start_grad_sync_lem : (g : BucketGroup) → IsCollecting g → start_grad_sync g ≡ ok (reducing g)
unfolding start_grad_sync
start_grad_sync_lem g C =
    let empty : (length g.grad_reduce_work_list == 0) ≡ true =
      ground (arith, ap length C.no_works) in
    rw
      (
        start_grad_sync,
        reduce_buckets_lem 0 g.buckets g C.stage C.reducible,
        C.has_pg,
        C.not_dispatched,
        empty,
      )
      refl
