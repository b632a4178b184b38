-- ===== src/BucketGroup/Gradients.antt =====
-- How a bucket group collects and reduces gradients
-- (infini_train/src/nn/parallel/ddp/param_and_grad_buffer.cc): the constructor, `Reset`,
-- `RegisterGradReady`, `AccumulateParamGrad`, `StartGradSync` and `FinishGradSync`.
pub mod Reduced
pub mod Synced
use infini_train.Base.{
  ℕ, zero, suc, ◌+◌, ◌%◌, Bool, true, false, not, ◌&&◌, ◌||◌, Option, none, some, List, [], ◌∷◌,
  ◌++◌, map, Result, ok, err, ◌>>=◌, ◌>>◌, require, ltb, leb, ◌==◌, if◌then◌else◌, length, concat,
  get_elem?, get_or, set, replicate,
}
use infini_train.BucketGroup.{
  GroupError, GroupConfig, GroupBucket, GroupEvent, BucketGroup, has_member, insert, waits_for,
  emit_events,
}

-- The shards of the gradients that stage 2 allocates: whether each bucket has one.
unfoldable pub allocate_shards : ℕ → List GroupBucket → Result GroupError (List Bool)
allocate_shards size [] = ok []
allocate_shards size (b ∷ bs) =
    let rest = allocate_shards size bs in
    require b.has_param_data GroupError.no_param_buffer
    >> (if b.num_elements == 0
        then (rest >>= λ shards. ok (false ∷ shards))
        else (require (b.num_elements % size == 0) GroupError.not_divisible
            >> (rest >>= λ shards. ok (true ∷ shards))))

-- The constructor. Its check on the number of optimizer instances holds by default.
unfoldable pub new_group : GroupConfig → Bool → ℕ → List GroupBucket → Result GroupError BucketGroup
unfolding allocate_shards
new_group config has_pg size buckets =
    let none_made = replicate (length buckets) false in
    (if leb 2 config.zero_stage then allocate_shards size buckets else ok none_made) >>= λ shards.
    ok (record {
      buckets = buckets;
      has_collective_pg = has_pg;
      collective_pg_size = size;
      config = config;
      params = concat (map (λ b. b.params) buckets);
      params_with_grad = [];
      grad_reduce_work_list = [];
      grad_reduce_bucket_indices = [];
      param_gather_work_list = [];
      grad_shard_buffer_list = shards;
      temp_full_grad_buffer_list = none_made;
      is_last_microbatch = true;
      grad_reduce_dispatched = false;
      param_gather_dispatched = false;
      events = [];
    })

unfoldable pub reset : BucketGroup → BucketGroup
reset g = record g {
  params_with_grad = [];
  grad_reduce_work_list = [];
  grad_reduce_bucket_indices = [];
  param_gather_work_list = [];
  is_last_microbatch = true;
  grad_reduce_dispatched = false;
  param_gather_dispatched = false;
  temp_full_grad_buffer_list =
      if leb 2 g.config.zero_stage
      then replicate (length g.temp_full_grad_buffer_list) false
      else g.temp_full_grad_buffer_list;
}

abbrev pub async_op : BucketGroup → Bool
async_op g = g.config.overlap_grad_reduce

-- A work for bucket `i`, and its collective.
abbrev pub push_work : ℕ → GroupEvent → BucketGroup → BucketGroup
push_work i event g =
    emit_events (event ∷ [])
      (record g { grad_reduce_work_list = g.grad_reduce_work_list ++ i ∷ [] })

-- A round of the loop of `StartGradSync` below stage 2. `ShardBuffer` needs the size of the group to
-- divide the buffer.
unfoldable pub reduce_bucket : ℕ → GroupBucket → BucketGroup → Result GroupError BucketGroup
reduce_bucket i b g =
    require (not (b.scaled && b.has_grad_data)) GroupError.scaling_not_supported
    >> (if not b.has_grad_data
        then ok g
        else (if leb 1 g.config.zero_stage
            then (require (b.num_elements % g.collective_pg_size == 0) GroupError.not_divisible
                >> ok (
                    push_work i
                      (GroupEvent.reduce_scatter i g.config.average_in_collective (async_op g)) g))
            else ok (
                push_work i (GroupEvent.all_reduce i g.config.average_in_collective (async_op g))
                  g)))

-- The round with stage 2, where the full gradients are in a buffer of the group.
unfoldable pub reduce_full_bucket : ℕ → GroupBucket → BucketGroup → Result GroupError BucketGroup
reduce_full_bucket i b g =
    if not (get_or g.temp_full_grad_buffer_list i false)
    then ok g
    else (require (not b.scaled) GroupError.scaling_not_supported
        >> (require (get_or g.grad_shard_buffer_list i false) GroupError.no_grad_shard
            >> ok
                (record (push_work i
                  (GroupEvent.reduce_scatter i g.config.average_in_collective (async_op g)) g) {
                    grad_reduce_bucket_indices = g.grad_reduce_bucket_indices ++ i ∷ [];
                  })))

unfoldable pub reduce_buckets : ℕ → List GroupBucket → BucketGroup → Result GroupError BucketGroup
unfolding reduce_bucket reduce_full_bucket
reduce_buckets i [] g = ok g
reduce_buckets i (b ∷ bs) g =
    (if leb 2 g.config.zero_stage then reduce_full_bucket i b g else reduce_bucket i b g)
    >>= λ next. reduce_buckets (i + 1) bs next

unfoldable pub start_grad_sync : BucketGroup → Result GroupError BucketGroup
unfolding reduce_buckets
start_grad_sync g =
    require g.has_collective_pg GroupError.no_process_group
    >> (if g.grad_reduce_dispatched
        then ok g
        else (if not (length g.grad_reduce_work_list == 0)
            then ok (record g { grad_reduce_dispatched = true })
            else (reduce_buckets 0 g.buckets g >>= λ started.
                ok (record started { grad_reduce_dispatched = true; params_with_grad = [] }))))

-- A parameter that is not of the group is passed over.
unfoldable pub register_grad_ready : ℕ → BucketGroup → Result GroupError BucketGroup
unfolding insert start_grad_sync
register_grad_ready p g =
    let with_grad = insert p g.params_with_grad in
    let registered : BucketGroup = record g { params_with_grad = with_grad } in
    if g.config.overlap_grad_reduce && (g.is_last_microbatch && has_member p g.params)
    then (if length with_grad == length g.params then start_grad_sync registered else ok registered)
    else ok g

unfoldable pub register_all : List ℕ → BucketGroup → Result GroupError BucketGroup
unfolding register_grad_ready
register_all [] g = ok g
register_all (p ∷ ps) g = register_grad_ready p g >>= λ next. register_all ps next

-- `it->second` of the map from parameters to buckets: the last bucket that holds the parameter.
unfoldable pub bucket_of : ℕ → ℕ → List GroupBucket → Option ℕ
bucket_of p i [] = none
bucket_of p i (b ∷ bs) = elim (bucket_of p (i + 1) bs) [
  | some j ↦ some j
  | none ↦ if has_member p b.params then some i else none
]

unfoldable pub accumulate_param_grad : ℕ → Bool → BucketGroup → Result GroupError BucketGroup
unfolding bucket_of
accumulate_param_grad p overwrite g =
    require (leb 2 g.config.zero_stage) GroupError.stage_too_low >> elim (bucket_of p 0 g.buckets) [
      | none ↦ ok g
      | some i ↦ elim (get_elem? g.buckets i) [
        | none ↦ ok g
        | some b ↦
            let event =
              if overwrite then GroupEvent.copy_grad i p else GroupEvent.accumulate_grad i p in
            if get_or g.temp_full_grad_buffer_list i false
            then ok (emit_events (event ∷ []) g)
            else (require b.has_param_data GroupError.no_param_buffer
                >> (if b.num_elements == 0
                    then ok g
                    else ok (
                        emit_events (event ∷ []) (record g {
                          temp_full_grad_buffer_list = set g.temp_full_grad_buffer_list i true;
                        }))))
      ]
    ]

-- No work is left, and none is under way.
abbrev pub no_grad_works : BucketGroup → BucketGroup
no_grad_works g = record g {
  grad_reduce_work_list = [];
  grad_reduce_bucket_indices = [];
  grad_reduce_dispatched = false;
}

-- The full buffers of stage 2 that are given up.
unfoldable pub drop_buffers : List ℕ → List Bool → List Bool
drop_buffers [] buffers = buffers
drop_buffers (i ∷ is) buffers = drop_buffers is (set buffers i false)

unfoldable pub finish_works : BucketGroup → Result GroupError BucketGroup
unfolding waits_for drop_buffers
finish_works g =
    let waited = emit_events (waits_for GroupEvent.wait_grad g.grad_reduce_work_list) g in
    if not g.config.overlap_grad_reduce || (length g.grad_reduce_work_list == 0)
    then ok (no_grad_works g)
    else (if leb 2 g.config.zero_stage
        then (require (length g.grad_reduce_work_list == length g.grad_reduce_bucket_indices)
              GroupError.out_of_sync
            >> ok (
                no_grad_works (record waited {
                  temp_full_grad_buffer_list =
                      drop_buffers g.grad_reduce_bucket_indices g.temp_full_grad_buffer_list;
                })))
        else ok (no_grad_works waited))

unfoldable pub finish_grad_sync : BucketGroup → Result GroupError BucketGroup
unfolding start_grad_sync finish_works
finish_grad_sync g = (if g.grad_reduce_dispatched then ok g else start_grad_sync g) >>= λ started.
    finish_works started
