-- ===== src/PipelineSchedule.antt =====
-- `PipelineParallelScheduler` (infini_train/include/nn/parallel/pp/pipeline_schedule.h and
-- infini_train/src/nn/parallel/pp/pipeline_schedule.cc): the order in which the micro-batches go
-- forward and backward through the chunks of all stages. Counts are ℕ; where the source tests
-- that a difference of counts is not negative, the model compares the two counts.
pub mod Slots
pub mod GPipe
pub mod Order
pub mod Needs
pub mod Default
pub mod OneForwardOneBackward
use infini_train.Base.{
  ℕ, zero, suc, ◌+◌, ◌-◌, ◌*◌, Bool, true, false, not, ◌&&◌, ◌||◌, List, [], ◌∷◌, ◌++◌, Result, ok,
  err, ◌>>=◌, ltb, leb, ◌==◌, if◌then◌else◌,
}
use infini_train.Base.Int.{pos}
use infini_train.Base.Loops.{for_each}
use infini_train.Base.Sort.{sort}
use infini_train.PipelineLayout.{PipelineLayout, LayoutError}
use infini_train.PipelineLayout.Indexes.{chunk}

pub record Task : Type 0 where
  pub step : ℕ
  pub microbatch_id : ℕ
  pub global_chunk_id : ℕ
  pub local_chunk_idx : ℕ
  pub is_forward : Bool
  pub stage_id : ℕ
  pub is_first_chunk : Bool
  pub is_last_chunk : Bool

abbrev pub Scheduled : Type 0
Scheduled = Result LayoutError (List Task)

unfoldable pub create_task : ℕ → ℕ → ℕ → ℕ → ℕ → Bool → PipelineLayout → Result LayoutError Task
unfolding chunk
create_task step mb global_chunk num_stages total_chunks is_forward layout =
    if not (num_stages == layout.num_stages)
    then err (LayoutError.scheduler_mismatch (pos num_stages) layout.num_stages)
    else (chunk layout global_chunk >>= λ c. ok (record {
      step = step;
      microbatch_id = mb;
      global_chunk_id = global_chunk;
      local_chunk_idx = c.local_chunk_id;
      is_forward = is_forward;
      stage_id = c.stage_id;
      is_first_chunk = global_chunk == 0;
      is_last_chunk = global_chunk == total_chunks - 1;
    }))

-- The body of each of the loops below: the chunk id is tested, and its task is pushed.
unfoldable pub push_task : ℕ → ℕ → ℕ → ℕ → ℕ → Bool → PipelineLayout → Bool → Scheduled
unfolding create_task
push_task step mb global_chunk num_stages total_chunks is_forward layout in_range =
    if in_range
    then (create_task step mb global_chunk num_stages total_chunks is_forward layout >>= λ task.
        ok (task ∷ []))
    else ok []

-- `a.step != b.step ? a.step < b.step : a.local_chunk_idx < b.local_chunk_idx`
abbrev pub task_before : Task → Task → Bool
task_before a b =
    if not (a.step == b.step) then ltb a.step b.step else ltb a.local_chunk_idx b.local_chunk_idx

module _ (n num_stages vpp_size : ℕ) (layout : PipelineLayout) where
  abbrev pub total_global_chunks : ℕ
  total_global_chunks = num_stages * vpp_size

  -- global_chunk_id = step - mb
  unfoldable pub forward_at : ℕ → ℕ → Scheduled
  unfolding push_task
  forward_at step mb =
      push_task step mb (step - mb) num_stages total_global_chunks true layout
        (leb mb step && ltb (step - mb) total_global_chunks)

  abbrev pub topology_mismatch : Bool
  topology_mismatch = not (layout.num_stages == num_stages) || not (layout.vpp_size == vpp_size)

  abbrev pub mismatch : LayoutError
  mismatch =
      LayoutError.topology_mismatch (pos num_stages) (pos vpp_size) layout.num_stages
        layout.vpp_size

  -- total_steps of the GPipe schedule
  abbrev pub gpipe_steps : ℕ
  gpipe_steps = n + total_global_chunks - 1

  -- global_chunk_id = (total_steps - 1 - step) - mb; `step` is below `total_steps` here.
  unfoldable pub gpipe_backward_at : ℕ → ℕ → Scheduled
  unfolding push_task
  gpipe_backward_at step mb =
      let back = gpipe_steps - 1 - step in
      push_task (step + gpipe_steps) mb (back - mb) num_stages total_global_chunks false layout
        (leb mb back && ltb (back - mb) total_global_chunks)

  unfoldable pub generate_gpipe_schedule : Scheduled
  unfolding forward_at gpipe_backward_at for_each sort
  generate_gpipe_schedule =
      if topology_mismatch
      then err mismatch
      else (for_each (λ step. for_each (forward_at step) 0 n) 0 gpipe_steps >>= λ forward.
          for_each (λ step. for_each (gpipe_backward_at step) 0 n) 0 gpipe_steps >>= λ backward.
          ok (sort task_before (forward ++ backward)))

  abbrev pub warmup_steps : ℕ
  warmup_steps = total_global_chunks - 1

  -- global_chunk_id = (total_global_chunks - 1) - (stable_step - mb), where stable_step counts
  -- from the end of the warm-up. It is out of range where stable_step is below mb.
  unfoldable pub backward_at : ℕ → ℕ → Scheduled
  unfolding push_task
  backward_at step mb =
      let stable_step = step - warmup_steps in
      let distance = stable_step - mb in
      push_task step mb (total_global_chunks - 1 - distance) num_stages total_global_chunks false
        layout (leb mb stable_step && leb distance (total_global_chunks - 1))

  unfoldable pub steady_at : ℕ → ℕ → Scheduled
  unfolding forward_at backward_at
  steady_at step mb =
      forward_at step mb >>= λ forward. backward_at step mb >>= λ backward. ok (forward ++ backward)

  unfoldable pub generate_interleaved_1f1b_schedule : Scheduled
  unfolding forward_at steady_at backward_at for_each
  generate_interleaved_1f1b_schedule =
      if (n == 0) || (num_stages == 0) || (vpp_size == 0)
      then ok []
      else if topology_mismatch
      then err mismatch
      else (for_each (λ step. for_each (forward_at step) 0 n) 0 warmup_steps >>= λ warmup.
          for_each (λ step. for_each (steady_at step) 0 n) warmup_steps n >>= λ steady.
          for_each (λ step. for_each (backward_at step) 0 n) (warmup_steps + n) warmup_steps
          >>= λ cooldown. ok (warmup ++ (steady ++ cooldown)))
