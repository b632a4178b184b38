-- ===== src/BucketGroup/Parameters.antt =====
-- How a bucket group gathers parameters
-- (infini_train/src/nn/parallel/ddp/param_and_grad_buffer.cc): `StartParamSync` and
-- `FinishParamSync`. A buffer is cut into shards at its first gather, and has to be divisible then;
-- here each gather tests it.
use infini_train.Base.{
  ℕ, ◌+◌, ◌%◌, Bool, true, false, not, ◌||◌, Option, none, some, List, [], ◌∷◌, ◌++◌, Result, ok,
  ◌>>=◌, ◌>>◌, require, leb, ◌==◌, if◌then◌else◌, length,
}
use infini_train.BucketGroup.{
  GroupError, GroupBucket, GroupEvent, BucketGroup, waits_for, emit_events,
}

unfoldable pub gather_buckets : ℕ → List GroupBucket → BucketGroup → Result GroupError BucketGroup
gather_buckets i [] g = ok g
gather_buckets i (b ∷ bs) g =
    let event = GroupEvent.all_gather i g.config.overlap_param_gather in
    let gathered =
      emit_events (event ∷ [])
        (record g { param_gather_work_list = g.param_gather_work_list ++ i ∷ [] }) in
    if b.has_param_data
    then (require (b.num_elements % g.collective_pg_size == 0) GroupError.not_divisible
        >> gather_buckets (i + 1) bs gathered)
    else gather_buckets (i + 1) bs g

abbrev pub wait_for_gathers : BucketGroup → BucketGroup
wait_for_gathers g =
    emit_events (waits_for GroupEvent.wait_param g.param_gather_work_list)
      (record g { param_gather_work_list = [] })

-- Without a process group it only logs.
unfoldable pub start_param_sync : Bool → BucketGroup → Result GroupError BucketGroup
unfolding gather_buckets waits_for
start_param_sync force_sync g =
    require (leb 1 g.config.zero_stage) GroupError.stage_too_low
    >> (if not g.has_collective_pg
        then ok g
        else (if force_sync
            then ok (wait_for_gathers g)
            else (require (length g.param_gather_work_list == 0) GroupError.gather_under_way
                >> (gather_buckets 0 g.buckets g >>= λ gathered.
                    ok (record gathered { param_gather_dispatched = true })))))

-- The next group starts to gather, unless it has, or is to be left out.
unfoldable pub dispatch_next : Bool → Option BucketGroup → Result GroupError (Option BucketGroup)
unfolding start_param_sync
dispatch_next skip none = ok none
dispatch_next skip (some next) =
    if skip || next.param_gather_dispatched
    then ok (some next)
    else (start_param_sync false next >>= λ started. ok (some started))

unfoldable pub finish_param_sync :
    Bool → Option BucketGroup → BucketGroup → Result GroupError (BucketGroup × Option BucketGroup)
unfolding start_param_sync dispatch_next waits_for
finish_param_sync skip next g =
    if not (leb 1 g.config.zero_stage) || not g.config.overlap_param_gather
    then ok (g, next)
    else ((if g.param_gather_dispatched then ok g else start_param_sync false g) >>= λ started.
        if length started.param_gather_work_list == 0
        then ok (started, next)
        else (dispatch_next skip next >>= λ after.
            ok (record (wait_for_gathers started) { param_gather_dispatched = false }, after)))
