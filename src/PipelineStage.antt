-- ===== src/PipelineStage.antt =====
-- `PipelineStage` (infini_train/src/nn/parallel/pp/pipeline_stage.cc), and the peers that
-- `PipelineSchedule::StepMicroBatches` sends to and receives from
-- (infini_train/src/nn/parallel/pp/pipeline_schedule.cc). The modules are of any type; `none` is a
-- null pointer.
pub mod Peers
use infini_train.Base.{
  ℕ, ◌+◌, ◌-◌, Bool, true, false, ◌||◌, List, [], ◌∷◌, Option, none, some, Result, ok, err, ◌>>◌,
  require, not, ◌==◌, if◌then◌else◌, length,
}
use infini_train.Base.Int.{ℤ, pos, negsuc, sub_ℕ, ltb_ℤ, leb_ℤ, eqb_ℤ, ◌-ℤ◌, ◌+ℤ◌}

pub data StageError : Type 0 where
  num_stages_not_positive stage_index_outside no_local_chunk : StageError
  chunk_is_null : ℕ → StageError

pub record PipelineStage (M : Type 0) : Type 0 where
  pub stage_index : ℤ
  pub num_stages : ℤ
  pub prev_rank : ℤ
  pub next_rank : ℤ
  pub chunks : List (Option M)

module _ {M : Type 0} where
  unfoldable pub check_chunks : ℕ → List (Option M) → Result StageError (Unit {0})
  check_chunks idx [] = ok tt
  check_chunks idx (none ∷ cs) = err (StageError.chunk_is_null idx)
  check_chunks idx (some m ∷ cs) = check_chunks (idx + 1) cs

  -- The members that the constructor sets.
  unfoldable pub stage_members : ℤ → ℤ → List (Option M) → PipelineStage M
  unfolding ◌-ℤ◌ ◌+ℤ◌
  stage_members stage_index num_stages chunks = record {
    stage_index = stage_index;
    num_stages = num_stages;
    prev_rank = if ltb_ℤ (pos 0) stage_index then stage_index -ℤ pos 1 else negsuc 0;
    next_rank = if ltb_ℤ stage_index (num_stages -ℤ pos 1) then stage_index +ℤ pos 1 else negsuc 0;
    chunks = chunks;
  }

  unfoldable pub new_stage : ℤ → ℤ → List (Option M) → Result StageError (PipelineStage M)
  unfolding check_chunks stage_members
  new_stage stage_index num_stages chunks =
      require (ltb_ℤ (pos 0) num_stages) StageError.num_stages_not_positive
      >> (require (leb_ℤ (pos 0) stage_index) StageError.stage_index_outside
          >> (require (ltb_ℤ stage_index num_stages) StageError.stage_index_outside
              >> (require (not (length chunks == 0)) StageError.no_local_chunk
                  >> (check_chunks 0 chunks >> ok (stage_members stage_index num_stages chunks)))))

  abbrev pub is_first_stage : PipelineStage M → Bool
  is_first_stage s = eqb_ℤ s.stage_index (pos 0)

  unfoldable pub is_last_stage : PipelineStage M → Bool
  unfolding ◌-ℤ◌
  is_last_stage s = eqb_ℤ s.stage_index (s.num_stages -ℤ pos 1)

  -- The peer of a forward task that is not on the first chunk.
  unfoldable pub receive_peer : PipelineStage M → ℤ
  unfolding ◌-ℤ◌
  receive_peer s = if is_first_stage s then s.num_stages -ℤ pos 1 else s.prev_rank

  -- The peer of a forward task that is not on the last chunk.
  unfoldable pub send_peer : PipelineStage M → ℤ
  unfolding is_last_stage
  send_peer s = if is_last_stage s then pos 0 else s.next_rank
