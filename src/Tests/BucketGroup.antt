-- ===== src/Tests/BucketGroup.antt =====
-- A group of two buckets with three parameters, for two ranks.
use mathlib.Core.List.{Permᴰ}
use infini_train.Base.{
  ℕ, ◌≡◌, refl, arith, Bool, true, false, none, List, [], ◌∷◌, ◌++◌, Result, ok, err, ◌>>=◌,
}
use infini_train.BucketGroup.{GroupError, GroupConfig, GroupBucket, GroupEvent, BucketGroup}
use infini_train.BucketGroup.Gradients.{
  new_group, register_all, accumulate_param_grad, finish_grad_sync,
}
use infini_train.BucketGroup.Gradients.Reduced.{IsCollecting, reduce_events}
use infini_train.BucketGroup.Gradients.Synced.{synced, gradients_synced}
use infini_train.BucketGroup.Parameters.{start_param_sync, finish_param_sync}

abbrev config : ℕ → GroupConfig
config stage = record {
  zero_stage = stage;
  overlap_grad_reduce = true;
  overlap_param_gather = true;
  average_in_collective = true;
}

abbrev bucket : List ℕ → Bool → GroupBucket
bucket params grads = record {
  params = params;
  has_param_data = true;
  has_grad_data = grads;
  num_elements = 128;
  scaled = false;
}

abbrev two : Bool → List GroupBucket
two grads = bucket (0 ∷ 1 ∷ []) grads ∷ bucket (2 ∷ []) grads ∷ []

abbrev events_of : Result GroupError BucketGroup → List GroupEvent
events_of (ok g) = g.events
events_of (err e) = []

-- With stage 2 the gradients are copied into the group's buffers first.
stage_two_events :
    events_of (
      new_group (config 2) true 2 (two false) >>= λ g. accumulate_param_grad 2 true g >>= λ a.
      accumulate_param_grad 0 false a >>= λ b.
      register_all (2 ∷ 0 ∷ 1 ∷ []) b >>= λ s. finish_grad_sync s)
    ≡ GroupEvent.copy_grad 1 2
      ∷ GroupEvent.accumulate_grad 0 0
      ∷ GroupEvent.reduce_scatter 0 true true
      ∷ GroupEvent.reduce_scatter 1 true true
      ∷ GroupEvent.wait_grad 0
      ∷ GroupEvent.wait_grad 1
      ∷ []
unfolding new_group accumulate_param_grad register_all finish_grad_sync
stage_two_events = refl

-- A parameter that gets ready twice counts once.
ready_twice :
    events_of (new_group (config 1) true 2 (two true) >>= λ g. register_all (0 ∷ 0 ∷ 1 ∷ []) g) ≡ []
unfolding new_group register_all
ready_twice = refl

gathers :
    events_of (
      new_group (config 1) true 2 (two true) >>= λ g.
      start_param_sync false g >>= λ s. finish_param_sync false none s >>= λ t. ok t.0)
    ≡ GroupEvent.all_gather 0 true
      ∷ GroupEvent.all_gather 1 true
      ∷ GroupEvent.wait_param 0
      ∷ GroupEvent.wait_param 1
      ∷ []
unfolding new_group start_param_sync finish_param_sync
gathers = refl

abbrev fresh : BucketGroup
fresh = record {
  buckets = two true;
  has_collective_pg = true;
  collective_pg_size = 2;
  config = config 1;
  params = 0 ∷ 1 ∷ 2 ∷ [];
  params_with_grad = [];
  grad_reduce_work_list = [];
  grad_reduce_bucket_indices = [];
  param_gather_work_list = [];
  grad_shard_buffer_list = false ∷ false ∷ [];
  temp_full_grad_buffer_list = false ∷ false ∷ [];
  is_last_microbatch = true;
  grad_reduce_dispatched = false;
  param_gather_dispatched = false;
  events = [];
}

new_group-fresh : new_group (config 1) true 2 (two true) ≡ ok fresh
unfolding new_group
new_group-fresh = refl

fresh-IsCollecting : IsCollecting fresh
fresh-IsCollecting = record {
  has_pg = refl;
  overlaps = refl;
  last = refl;
  no_works = refl;
  not_dispatched = refl;
  stage = refl;
  reducible = ((refl, refl, refl), ((refl, refl, refl), tt));
}

gradients_synced_example :
    (s : BucketGroup) × (register_all (1 ∷ 0 ∷ 2 ∷ []) fresh ≡ ok s)
    × (s.events ≡ [] ++ reduce_events fresh 0 2)
    × (finish_grad_sync s ≡ ok (synced fresh))
    × IsCollecting (synced fresh)
gradients_synced_example =
    gradients_synced fresh (1 ∷ 0 ∷ 2 ∷ []) fresh-IsCollecting refl (omega arith) (omega arith)
      (λ v. ground arith) (Permᴰ.swap refl refl)
