-- ===== src/PipelineSchedule/OneForwardOneBackward/Complete.antt =====
-- The interleaved 1F1B schedule is generated, holds every pass once, and each in its planned step.
use infini_train.Base.{
  ℕ, ◌+◌, ◌-◌, ◌≤◌, ◌<◌, ◌≡◌, refl, Bool, true, false, not, ◌||◌, List, ok, ◌==◌, All, All-append,
  arith,
}
use infini_train.Base.Sort.{count}
use infini_train.Base.Loops.{for_each, for_each-gather, gather, All-gather}
use infini_train.PipelineLayout.{PipelineLayout}
use infini_train.PipelineSchedule.{
  Task, Scheduled, forward_at, backward_at, steady_at, generate_interleaved_1f1b_schedule,
}
use infini_train.PipelineSchedule.Slots.{HasChunks, owner, is_for, pushed, push_task_runs}
use infini_train.PipelineSchedule.OneForwardOneBackward.{
  total, warmup, forward_list, backward_list, both_list, warmup_tasks, steady_tasks, cooldown_tasks,
  tasks, planned_step, count-tasks,
}

module _ (n vpp : ℕ) (layout : PipelineLayout) where
  abbrev T : ℕ
  T = total n vpp layout

  abbrev W : ℕ
  W = warmup n vpp layout

  module _ (same_vpp : layout.vpp_size ≡ vpp) (has : HasChunks layout T) where
    forward_runs :
        (step mb : ℕ)
        → forward_at n layout.num_stages vpp layout step mb ≡ ok (forward_list n vpp layout step mb)
    unfolding forward_at
    forward_runs step mb =
        push_task_runs layout T step mb (step - mb) true _ has (λ e. ground arith)

    backward_runs :
        (step mb : ℕ)
        → 0 < T
        → backward_at n layout.num_stages vpp layout step mb
          ≡ ok (backward_list n vpp layout step mb)
    unfolding backward_at
    backward_runs step mb hT =
        push_task_runs layout T step mb (T - 1 - (step - W - mb)) false _ has (λ e. ground arith)

    steady_runs :
        (step mb : ℕ)
        → 0 < T
        → steady_at n layout.num_stages vpp layout step mb ≡ ok (both_list n vpp layout step mb)
    unfolding steady_at
    steady_runs step mb hT = rw (forward_runs step mb, backward_runs step mb hT)

    pub interleaved_runs :
        0 < n
        → 0 < layout.num_stages
        → 0 < vpp
        → generate_interleaved_1f1b_schedule n layout.num_stages vpp layout
          ≡ ok (tasks n vpp layout)
    unfolding generate_interleaved_1f1b_schedule tasks warmup_tasks steady_tasks cooldown_tasks
    interleaved_runs hn hs hv =
        let some_chunk : 0 < T = grind arith in
        let some : ((n == 0) || (layout.num_stages == 0) || (vpp == 0)) ≡ false = ground arith in
        let agree : (not (layout.num_stages == layout.num_stages) || not (layout.vpp_size == vpp))
            ≡ false =
          ground arith in
        let first =
          for_each-gather (λ step. for_each (forward_at n layout.num_stages vpp layout step) 0 n)
            (λ step. gather (forward_list n vpp layout step) 0 n) 0 W
            (λ step _ _. for_each-gather _ _ 0 n (λ mb _ _. forward_runs step mb)) in
        let second =
          for_each-gather (λ step. for_each (steady_at n layout.num_stages vpp layout step) 0 n)
            (λ step. gather (both_list n vpp layout step) 0 n) W n
            (λ step _ _. for_each-gather _ _ 0 n (λ mb _ _. steady_runs step mb some_chunk)) in
        let third =
          for_each-gather (λ step. for_each (backward_at n layout.num_stages vpp layout step) 0 n)
            (λ step. gather (backward_list n vpp layout step) 0 n) (W + n) W
            (λ step _ _. for_each-gather _ _ 0 n (λ mb _ _. backward_runs step mb some_chunk)) in
        rw (some, agree, first, second, third)

  -- A task of the schedule has its planned step, is on the stage of its chunk, and is marked first
  -- or last by its chunk id.
  pub record Planned (t : Task) : Type 0 where
    pub microbatch_in : t.microbatch_id < n
    pub chunk_in : t.global_chunk_id < T
    pub step_is : t.step ≡ planned_step n vpp layout t.microbatch_id t.global_chunk_id t.is_forward
    pub stage_is : t.stage_id ≡ (owner layout t.global_chunk_id).stage_id
    pub local_is : t.local_chunk_idx ≡ (owner layout t.global_chunk_id).local_chunk_id
    pub first_is : t.is_first_chunk ≡ (t.global_chunk_id == 0)
    pub last_is : t.is_last_chunk ≡ (t.global_chunk_id == T - 1)

  pushed-Planned :
      (step mb g : ℕ) (forward test : Bool)
      → (test ≡ true → (mb < n) × (g < T) × (step ≡ planned_step n vpp layout mb g forward))
      → All Planned (pushed layout T step mb g forward test)
  pushed-Planned step mb g forward false h = tt
  pushed-Planned step mb g forward true h =
      let r = h refl in
      (
        record {
          microbatch_in = r.0;
          chunk_in = r.1;
          step_is = r.2;
          stage_is = refl;
          local_is = refl;
          first_is = refl;
          last_is = refl;
        },
        tt,
      )

  forward-Planned : (step mb : ℕ) → mb < n → All Planned (forward_list n vpp layout step mb)
  forward-Planned step mb hm =
      pushed-Planned step mb (step - mb) true _ (λ e. (hm, ground arith, ground arith))

  backward-Planned :
      (step mb : ℕ) → mb < n → W ≤ step → 0 < T → All Planned (backward_list n vpp layout step mb)
  backward-Planned step mb hm hs hT =
      pushed-Planned step mb (T - 1 - (step - W - mb)) false _
        (λ e. (hm, ground arith, ground arith))

  pub tasks-Planned : 0 < T → All Planned (tasks n vpp layout)
  unfolding tasks warmup_tasks steady_tasks cooldown_tasks
  tasks-Planned hT =
      All-append Planned _ _
        (All-gather Planned _ 0 W
          (λ step _ _. All-gather Planned _ 0 n (λ mb _ hm. forward-Planned step mb (omega arith))))
        (All-append Planned _ _
          (All-gather Planned _ W n (λ step lo _. All-gather Planned _ 0 n (λ mb _ hm.
            All-append Planned (forward_list n vpp layout step mb) _
              (forward-Planned step mb (omega arith))
              (backward-Planned step mb (omega arith) lo hT))))
          (All-gather Planned _ (W + n) W (λ step lo _.
            All-gather Planned _ 0 n
              (λ mb _ hm. backward-Planned step mb (omega arith) (omega arith) hT))))

  -- A schedule of every forward and backward pass, each once and in its planned step.
  pub record IsSchedule (r : Scheduled) : Type 0 where
    pub list : List Task
    pub returns : r ≡ ok list
    pub once : (mb g : ℕ) (forward : Bool) → mb < n → g < T → count (is_for mb g forward) list ≡ 1
    pub planned : All Planned list

  -- On a layout of as many chunks per stage that has every chunk, the interleaved 1F1B schedule of
  -- at least one micro-batch, stage and chunk per stage is generated; it holds each micro-batch's forward pass and its
  -- backward pass through each chunk exactly once, each in its planned step, on the stage that
  -- owns the chunk.
  pub generate_interleaved_1f1b_schedule-IsSchedule :
      0 < n
      → 0 < layout.num_stages
      → 0 < vpp
      → layout.vpp_size ≡ vpp
      → HasChunks layout T
      → IsSchedule (generate_interleaved_1f1b_schedule n layout.num_stages vpp layout)
  generate_interleaved_1f1b_schedule-IsSchedule hn hs hv same_vpp has = record {
    list = tasks n vpp layout;
    returns = interleaved_runs same_vpp has hn hs hv;
    once = λ mb g forward hm hg. count-tasks n vpp layout mb g hm hg forward;
    planned = tasks-Planned (grind arith);
  }
