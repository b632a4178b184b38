-- ===== src/PipelineSchedule/OneForwardOneBackward.antt =====
-- The interleaved 1F1B schedule: complete, without repetition, in an order that respects
-- dependencies, for the layouts that the GPipe schedule is generated for.
pub mod Complete
pub mod Rising
pub mod Order
use infini_train.Base.{
  ℕ, zero, suc, ◌+◌, ◌-◌, ◌*◌, ◌≤◌, ◌<◌, ◌≡◌, ◌≢◌, refl, sym, ◌∙◌, ap, inl, inr, Bool, true, false,
  not, ◌&&◌, ◌||◌, List, [], ◌∷◌, ◌++◌, Result, ok, err, ◌>>=◌, ltb, leb, ◌==◌, if◌then◌else◌, All,
  All-append, arith,
}
use infini_train.Base.Sort.{bit, count}
use infini_train.Base.Loops.{
  count-append, for_each, for_each-gather, gather, count-gather, All-gather, sum_range,
  sum_range-eq, sum_range_at, sum_range_zero,
}
use infini_train.PipelineLayout.{PipelineLayout}
use infini_train.PipelineSchedule.{
  Task, Scheduled, forward_at, backward_at, steady_at, warmup_steps,
  generate_interleaved_1f1b_schedule,
}
use infini_train.PipelineSchedule.Slots.{
  HasChunks, owner, is_for, task_of, pushed, push_task_runs, count_round, count_other,
}

module _ (n vpp : ℕ) (layout : PipelineLayout) where
  abbrev pub total : ℕ
  total = layout.num_stages * vpp

  abbrev pub warmup : ℕ
  warmup = warmup_steps n layout.num_stages vpp layout

  abbrev pub forward_list : ℕ → ℕ → List Task
  forward_list step mb =
      pushed layout total step mb (step - mb) true (leb mb step && ltb (step - mb) total)

  abbrev pub backward_list : ℕ → ℕ → List Task
  backward_list step mb =
      let stable_step = step - warmup in
      let distance = stable_step - mb in
      pushed layout total step mb (total - 1 - distance) false
        (leb mb stable_step && leb distance (total - 1))

  abbrev pub both_list : ℕ → ℕ → List Task
  both_list step mb = forward_list step mb ++ backward_list step mb

  pub warmup_tasks : List Task
  warmup_tasks = gather (λ step. gather (forward_list step) 0 n) 0 warmup

  pub steady_tasks : List Task
  steady_tasks = gather (λ step. gather (both_list step) 0 n) warmup n

  pub cooldown_tasks : List Task
  cooldown_tasks = gather (λ step. gather (backward_list step) 0 n) (warmup + n) warmup

  pub tasks : List Task
  unfolding warmup_tasks steady_tasks cooldown_tasks
  tasks = warmup_tasks ++ (steady_tasks ++ cooldown_tasks)

  -- The step in which a task is planned: the backward passes of a micro-batch run from the last
  -- chunk to the first, and start in the step of its last forward pass.
  abbrev pub planned_step : ℕ → ℕ → Bool → ℕ
  planned_step mb g forward = if forward then mb + g else mb + (2 * (total - 1) - g)

  -- One round of each loop, for the forward pass and for the backward pass of a micro-batch.
  module _ (mb g : ℕ) (hm : mb < n) (hg : g < total) where
    abbrev back_step : ℕ
    back_step = mb + (2 * (total - 1) - g)

    forward_round :
        (step : ℕ)
        → (count (is_for mb g true) (gather (forward_list step) 0 n) ≡ bit (step == mb + g))
          × (count (is_for mb g false) (gather (forward_list step) 0 n) ≡ 0)
    forward_round step = (
      count-gather (is_for mb g true) (forward_list step) 0 n
          ∙ count_round layout total step n mb g true (λ m. step - m) _ hm
          ∙ ground arith,
      count-gather (is_for mb g false) (forward_list step) 0 n
          ∙ count_other layout total step n mb g false (λ m. step - m) _,
    )

    backward_round :
        (step : ℕ)
        → warmup ≤ step
        → (count (is_for mb g false) (gather (backward_list step) 0 n) ≡ bit (step == back_step))
          × (count (is_for mb g true) (gather (backward_list step) 0 n) ≡ 0)
    backward_round step h = (
      count-gather (is_for mb g false) (backward_list step) 0 n
          ∙ count_round layout total step n mb g false (λ m. total - 1 - (step - warmup - m)) _ hm
          ∙ ground arith,
      count-gather (is_for mb g true) (backward_list step) 0 n
          ∙ count_other layout total step n mb g true (λ m. total - 1 - (step - warmup - m)) _,
    )

    both_round :
        (step : ℕ)
        → warmup ≤ step
        → (count (is_for mb g true) (gather (both_list step) 0 n) ≡ bit (step == mb + g))
          × (count (is_for mb g false) (gather (both_list step) 0 n) ≡ bit (step == back_step))
    both_round step h = (
      count-gather (is_for mb g true) (both_list step) 0 n
          ∙ sum_range-eq _ (λ m. count (is_for mb g true) (forward_list step m)) 0 n
              (λ m _ _.
                count-append (is_for mb g true) (forward_list step m) (backward_list step m)
                ∙ ground arith)
          ∙ sym (count-gather (is_for mb g true) (forward_list step) 0 n)
          ∙ (forward_round step).0,
      count-gather (is_for mb g false) (both_list step) 0 n
          ∙ sum_range-eq _ (λ m. count (is_for mb g false) (backward_list step m)) 0 n
              (λ m _ _.
                count-append (is_for mb g false) (forward_list step m) (backward_list step m)
                ∙ ground arith)
          ∙ sym (count-gather (is_for mb g false) (backward_list step) 0 n)
          ∙ (backward_round step h).0,
    )

    -- The rounds of a loop push a pass once, in its planned step, if that is one of the loop's.
    count_loop :
        (p : Task → Bool) (body : ℕ → List Task) (k a left : ℕ)
        → ((step : ℕ) → a ≤ step → count p (body step) ≡ bit (step == k))
        → count p (gather body a left) ≡ bit (leb a k && ltb k (a + left))
    count_loop p body k a left h =
        count-gather p body a left
        ∙ sum_range-eq _ (λ step. bit (step == k)) a left (λ step lo hi. h step lo)
        ∙ sum_range_at k a left

    count_no_loop :
        (p : Task → Bool) (body : ℕ → List Task) (a left : ℕ)
        → ((step : ℕ) → a ≤ step → count p (body step) ≡ 0)
        → count p (gather body a left) ≡ 0
    count_no_loop p body a left h =
        count-gather p body a left ∙ sum_range_zero _ a left (λ step lo hi. h step lo)

    count-parts :
        (p : Task → Bool)
        → count p tasks ≡ count p warmup_tasks + (count p steady_tasks + count p cooldown_tasks)
    unfolding tasks
    count-parts p =
        count-append p warmup_tasks _
        ∙ ap (λ (c : ℕ). count p warmup_tasks + c) (count-append p steady_tasks cooldown_tasks)

    pub count-tasks : (forward : Bool) → count (is_for mb g forward) tasks ≡ 1
    unfolding warmup_tasks steady_tasks cooldown_tasks
    count-tasks true =
        let first =
          count_loop (is_for mb g true) (λ step. gather (forward_list step) 0 n) (mb + g) 0 warmup
            (λ step _. (forward_round step).0) in
        let second =
          count_loop (is_for mb g true) (λ step. gather (both_list step) 0 n) (mb + g) warmup n
            (λ step h. (both_round step h).0) in
        let third =
          count_no_loop (is_for mb g true) (λ step. gather (backward_list step) 0 n) (warmup + n)
            warmup (λ step h. (backward_round step (omega arith)).1) in
        count-parts (is_for mb g true) ∙ rw (first, second, third) (ground arith)
    count-tasks false =
        let first =
          count_no_loop (is_for mb g false) (λ step. gather (forward_list step) 0 n) 0 warmup
            (λ step _. (forward_round step).1) in
        let second =
          count_loop (is_for mb g false) (λ step. gather (both_list step) 0 n) back_step warmup n
            (λ step h. (both_round step h).1) in
        let third =
          count_loop (is_for mb g false) (λ step. gather (backward_list step) 0 n) back_step
            (warmup + n) warmup (λ step h. (backward_round step (omega arith)).0) in
        count-parts (is_for mb g false) ∙ rw (first, second, third) (ground arith)
