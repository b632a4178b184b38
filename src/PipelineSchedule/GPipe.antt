-- ===== src/PipelineSchedule/GPipe.antt =====
-- The GPipe schedule: complete, without repetition, and in an order that respects dependencies.
use infini_train.Base.{
  ℕ, ◌+◌, ◌-◌, ◌*◌, ◌<◌, ◌≡◌, refl, ◌∙◌, Bool, true, false, not, ◌&&◌, ◌||◌, List, ◌++◌, ok, ltb,
  leb, ◌==◌, if◌then◌else◌, All, All-append, arith,
}
use infini_train.Base.Sort.{bit, count, sort, count-sort, All-sort, IsSorted, sort-IsSorted}
use infini_train.Base.Loops.{
  count-append, for_each, for_each-gather, gather, count-gather, All-gather, sum_range-eq,
  sum_range_single, sum_range_zero,
}
use infini_train.PipelineLayout.{PipelineLayout}
use infini_train.PipelineSchedule.{
  Task, Scheduled, task_before, forward_at, gpipe_backward_at, gpipe_steps, generate_gpipe_schedule,
}
use infini_train.PipelineSchedule.Slots.{
  HasChunks, owner, is_for, pushed, push_task_runs, count_round, count_other,
}

module _ (n vpp : ℕ) (layout : PipelineLayout) where
  abbrev pub total : ℕ
  total = layout.num_stages * vpp

  abbrev steps : ℕ
  steps = gpipe_steps n layout.num_stages vpp layout

  abbrev forward_list : ℕ → ℕ → List Task
  forward_list step mb =
      pushed layout total step mb (step - mb) true (leb mb step && ltb (step - mb) total)

  abbrev backward_list : ℕ → ℕ → List Task
  backward_list step mb =
      let back = steps - 1 - step in
      pushed layout total (step + steps) mb (back - mb) false (leb mb back && ltb (back - mb) total)

  forward_tasks : List Task
  forward_tasks = gather (λ step. gather (forward_list step) 0 n) 0 steps

  backward_tasks : List Task
  backward_tasks = gather (λ step. gather (backward_list step) 0 n) 0 steps

  tasks : List Task
  tasks = sort task_before (forward_tasks ++ backward_tasks)

  module _ (same_vpp : layout.vpp_size ≡ vpp) (has : HasChunks layout total) where
    forward_sweep :
        for_each (λ step. for_each (forward_at n layout.num_stages vpp layout step) 0 n) 0 steps
        ≡ ok forward_tasks
    unfolding forward_tasks forward_at
    forward_sweep =
        for_each-gather _ (λ step. gather (forward_list step) 0 n) 0 steps
          (λ step lo hi. for_each-gather _ (forward_list step) 0 n (λ mb _ _.
            push_task_runs layout total step mb (step - mb) true _ has (λ e. ground arith)))

    backward_sweep :
        for_each
          (λ step. for_each (gpipe_backward_at n layout.num_stages vpp layout step) 0 n)
          0
          steps
        ≡ ok backward_tasks
    unfolding backward_tasks gpipe_backward_at
    backward_sweep =
        for_each-gather _ (λ step. gather (backward_list step) 0 n) 0 steps
          (λ step lo hi. for_each-gather _ (backward_list step) 0 n (λ mb _ _.
            push_task_runs layout total (step + steps) mb (steps - 1 - step - mb) false _ has
              (λ e. ground arith)))

    gpipe_runs : generate_gpipe_schedule n layout.num_stages vpp layout ≡ ok tasks
    unfolding generate_gpipe_schedule tasks
    gpipe_runs =
        let agree : (not (layout.num_stages == layout.num_stages) || not (layout.vpp_size == vpp))
            ≡ false =
          ground arith in
        rw (agree, forward_sweep, backward_sweep)

  count-forward : (mb g : ℕ) → mb < n → g < total → count (is_for mb g true) forward_tasks ≡ 1
  unfolding forward_tasks
  count-forward mb g hm hg =
      count-gather (is_for mb g true) (λ step. gather (forward_list step) 0 n) 0 steps
      ∙ sum_range-eq _ (λ step. bit (step == mb + g)) 0 steps
          (λ step lo hi.
            count-gather (is_for mb g true) (forward_list step) 0 n
            ∙ count_round layout total step n mb g true (λ m. step - m) _ hm
            ∙ ground arith)
      ∙ sum_range_single (λ step. bit (step == mb + g)) 0 steps (mb + g) (omega arith) (omega arith)
          (λ step ne. ground arith)
      ∙ ground arith

  count-backward : (mb g : ℕ) → mb < n → g < total → count (is_for mb g false) backward_tasks ≡ 1
  unfolding backward_tasks
  count-backward mb g hm hg =
      let at = steps - 1 - (mb + g) in
      count-gather (is_for mb g false) (λ step. gather (backward_list step) 0 n) 0 steps
      ∙ sum_range-eq _ (λ step. bit (step == at)) 0 steps
          (λ step lo hi.
            count-gather (is_for mb g false) (backward_list step) 0 n
            ∙ count_round layout total (step + steps) n mb g false (λ m. steps - 1 - step - m) _ hm
            ∙ ground arith)
      ∙ sum_range_single (λ step. bit (step == at)) 0 steps at (omega arith) (omega arith)
          (λ step ne. ground arith)
      ∙ ground arith

  count-crossed :
      (mb g : ℕ)
      → (count (is_for mb g false) forward_tasks ≡ 0)
        × (count (is_for mb g true) backward_tasks ≡ 0)
  unfolding forward_tasks backward_tasks
  count-crossed mb g = (
    count-gather (is_for mb g false) _ 0 steps
        ∙ sum_range_zero _ 0 steps (λ step lo hi.
          count-gather (is_for mb g false) (forward_list step) 0 n
          ∙ count_other layout total step n mb g false (λ m. step - m) _),
    count-gather (is_for mb g true) _ 0 steps
        ∙ sum_range_zero _ 0 steps (λ step lo hi.
          count-gather (is_for mb g true) (backward_list step) 0 n
          ∙ count_other layout total (step + steps) n mb g true (λ m. steps - 1 - step - m) _),
  )

  -- The step in which a task is planned: forward passes in one wave, backward passes in a wave
  -- that runs the other way, after the last forward pass.
  abbrev pub planned_step : ℕ → ℕ → Bool → ℕ
  planned_step mb g forward = if forward then mb + g else 2 * steps - 1 - (mb + g)

  -- A task of the schedule has its planned step, is on the stage of its chunk, and is marked first
  -- or last by its chunk id.
  pub record Planned (t : Task) : Type 0 where
    pub microbatch_in : t.microbatch_id < n
    pub chunk_in : t.global_chunk_id < total
    pub step_is : t.step ≡ planned_step t.microbatch_id t.global_chunk_id t.is_forward
    pub stage_is : t.stage_id ≡ (owner layout t.global_chunk_id).stage_id
    pub local_is : t.local_chunk_idx ≡ (owner layout t.global_chunk_id).local_chunk_id
    pub first_is : t.is_first_chunk ≡ (t.global_chunk_id == 0)
    pub last_is : t.is_last_chunk ≡ (t.global_chunk_id == total - 1)

  pushed-Planned :
      (step mb g : ℕ) (forward test : Bool)
      → (test ≡ true → (mb < n) × (g < total) × (step ≡ planned_step mb g forward))
      → All Planned (pushed layout total step mb g forward test)
  pushed-Planned step mb g forward false h = tt
  pushed-Planned step mb g forward true h =
      let r = h refl in
      (
        record {
          microbatch_in = r.0;
          chunk_in = r.1;
          step_is = r.2;
          stage_is = refl;
          local_is = refl;
          first_is = refl;
          last_is = refl;
        },
        tt,
      )

  forward-Planned : All Planned forward_tasks
  unfolding forward_tasks
  forward-Planned = All-gather Planned _ 0 steps (λ step _ hs.
      All-gather Planned (forward_list step) 0 n (λ mb _ hm.
        pushed-Planned step mb (step - mb) true _ (λ e. (omega arith, ground arith, ground arith))))

  backward-Planned : All Planned backward_tasks
  unfolding backward_tasks
  backward-Planned = All-gather Planned _ 0 steps (λ step _ hs.
      All-gather Planned (backward_list step) 0 n (λ mb _ hm.
        pushed-Planned (step + steps) mb (steps - 1 - step - mb) false _
          (λ e. (omega arith, ground arith, ground arith))))

  -- A schedule of every forward and backward pass.
  pub record IsSchedule (r : Scheduled) : Type 0 where
    pub list : List Task
    pub returns : r ≡ ok list
    pub once :
        (mb g : ℕ) (forward : Bool) → mb < n → g < total → count (is_for mb g forward) list ≡ 1
    pub planned : All Planned list
    pub ordered : IsSorted task_before list

  count-tasks :
      (mb g : ℕ) (forward : Bool) → mb < n → g < total → count (is_for mb g forward) tasks ≡ 1
  unfolding tasks
  count-tasks mb g true hm hg =
      count-sort task_before (is_for mb g true) _
      ∙ count-append (is_for mb g true) forward_tasks backward_tasks
      ∙ omega (arith, count-forward mb g hm hg, count-crossed mb g)
  count-tasks mb g false hm hg =
      count-sort task_before (is_for mb g false) _
      ∙ count-append (is_for mb g false) forward_tasks backward_tasks
      ∙ omega (arith, count-backward mb g hm hg, count-crossed mb g)

  -- On a layout of as many chunks per stage that has every chunk, the GPipe schedule is generated;
  -- it holds each micro-batch's forward pass and its backward pass through each chunk exactly once,
  -- each in its planned step, on the stage that owns the chunk, sorted by step.
  pub generate_gpipe_schedule-IsSchedule :
      layout.vpp_size ≡ vpp
      → HasChunks layout total
      → IsSchedule (generate_gpipe_schedule n layout.num_stages vpp layout)
  unfolding tasks
  generate_gpipe_schedule-IsSchedule same_vpp has = record {
    list = tasks;
    returns = gpipe_runs same_vpp has;
    once = count-tasks;
    planned =
        All-sort task_before Planned _
          (All-append Planned forward_tasks backward_tasks forward-Planned backward-Planned);
    ordered = sort-IsSorted task_before (λ a b e. ground arith) (forward_tasks ++ backward_tasks);
  }
