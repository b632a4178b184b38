-- ===== src/PipelineSchedule/OneForwardOneBackward/Order.antt =====
-- The interleaved 1F1B schedule runs a task only after the tasks whose results it reads. The tasks
-- rise in a key of the step, the micro-batch, and the direction.
use infini_train.Base.{
  ℕ, ◌+◌, ◌-◌, ◌*◌, ◌≤◌, ◌<◌, ◌≡◌, refl, sym, subst, ◌∙◌, ap, inl, inr, Bool, true, false, List, [],
  ◌∷◌, ◌++◌, ok, ◌==◌, if◌then◌else◌, All, arith, ok-injective, Bool-cases, ==→≡,
}
use infini_train.Base.Sort.{bit, count}
use infini_train.Base.Loops.{gather, count-append}
use infini_train.PipelineLayout.{PipelineLayout}
use infini_train.PipelineSchedule.{Task, generate_interleaved_1f1b_schedule}
use infini_train.PipelineSchedule.Slots.{HasChunks, is_for, pushed}
use infini_train.PipelineSchedule.Order.{Dependency, activation, saved, gradient, All-split}
use infini_train.PipelineSchedule.OneForwardOneBackward.{
  total, warmup, forward_list, backward_list, both_list, warmup_tasks, steady_tasks, cooldown_tasks,
  tasks, planned_step, count-tasks,
}
use infini_train.PipelineSchedule.OneForwardOneBackward.Complete.{
  Planned, interleaved_runs, tasks-Planned,
}
use infini_train.PipelineSchedule.OneForwardOneBackward.Rising.{
  Rising, Rising-from, Rising-append, Rising-gather, Rising-split,
}

module _ (n vpp : ℕ) (layout : PipelineLayout) where
  -- In one step, the micro-batches come in turn, each with its forward pass first.
  abbrev key_of : ℕ → ℕ → Bool → ℕ
  key_of step mb forward = step * (2 * n) + (2 * mb + (if forward then 0 else 1))

  abbrev key : Task → ℕ
  key t = key_of t.step t.microbatch_id t.is_forward

  key_below : (s s' mb mb' : ℕ) (f f' : Bool) → s < s' → mb < n → key_of s mb f < key_of s' mb' f'
  key_below s s' mb mb' f f' h hm =
      let (k, is) : (k : ℕ) × (s' ≡ s + 1 + k) = (s' - s - 1, omega arith) in rw is (ground arith)

  pushed-Rising :
      (step mb g lo hi : ℕ) (forward test : Bool)
      → lo ≤ key_of step mb forward
      → key_of step mb forward < hi
      → Rising key (pushed layout (total n vpp layout) step mb g forward test) lo hi
  pushed-Rising step mb g lo hi forward true h k = (h, omega arith)
  pushed-Rising step mb g lo hi forward false h k = omega arith

  forward-Rising :
      (step mb : ℕ)
      → Rising key
          (forward_list n vpp layout step mb)
          (step * (2 * n) + 2 * mb)
          (step * (2 * n) + 2 * mb + 1)
  forward-Rising step mb = pushed-Rising step mb (step - mb) _ _ true _ (omega arith) (omega arith)

  backward-Rising :
      (step mb : ℕ)
      → Rising key
          (backward_list n vpp layout step mb)
          (step * (2 * n) + 2 * mb + 1)
          (step * (2 * n) + 2 * mb + 2)
  backward-Rising step mb =
      pushed-Rising step mb (total n vpp layout - 1 - (step - warmup n vpp layout - mb)) _ _ false _
        (omega arith) (omega arith)

  -- The rounds of one step fill the keys of that step.
  step-Rising :
      (round : ℕ → ℕ → List Task)
      → ((step mb : ℕ)
          → Rising key (round step mb) (step * (2 * n) + 2 * mb) (step * (2 * n) + 2 * (mb + 1)))
      → (step : ℕ) → Rising key (gather (round step) 0 n) (step * (2 * n)) ((step + 1) * (2 * n))
  step-Rising round h step =
      let all =
        Rising-gather key (round step) (λ mb. step * (2 * n) + 2 * mb) 0 n n (omega arith)
          (λ mb _ _. h step mb) in
      let first : step * (2 * n) + 2 * 0 ≡ step * (2 * n) = omega arith in
      let last : step * (2 * n) + 2 * n ≡ (step + 1) * (2 * n) = grind arith in
      rw (first, last) at all

  loop-Rising :
      (round : ℕ → ℕ → List Task) (a left end : ℕ)
      → a + left ≡ end
      → ((step mb : ℕ)
          → Rising key (round step mb) (step * (2 * n) + 2 * mb) (step * (2 * n) + 2 * (mb + 1)))
      → Rising key (gather (λ step. gather (round step) 0 n) a left) (a * (2 * n)) (end * (2 * n))
  loop-Rising round a left end e h =
      Rising-gather key (λ step. gather (round step) 0 n) (λ step. step * (2 * n)) a left end e
        (λ step _ _. step-Rising round h step)

  Rising-to :
      (ts : List Task) (lo hi hi' : ℕ) → hi ≤ hi' → Rising key ts lo hi → Rising key ts lo hi'
  Rising-to [] lo hi hi' h r = omega arith
  Rising-to (t ∷ ts) lo hi hi' h r = (r.0, Rising-to ts (key t + 1) hi hi' h r.1)

  tasks-Rising : (hi : ℕ) × Rising key (tasks n vpp layout) 0 hi
  unfolding tasks warmup_tasks steady_tasks cooldown_tasks
  tasks-Rising =
      let w = warmup n vpp layout in
      let first =
        loop-Rising (forward_list n vpp layout) 0 w w (omega arith)
          (λ step mb. Rising-to _ _ _ _ (omega arith) (forward-Rising step mb)) in
      let second = loop-Rising (both_list n vpp layout) w n (w + n) refl (λ step mb.
        Rising-to _ _ _ _ (omega arith)
          (Rising-append key _ _ _ _ _ (forward-Rising step mb) (backward-Rising step mb))) in
      let third = loop-Rising (backward_list n vpp layout) (w + n) w (w + n + w) refl (λ step mb.
        Rising-to _ _ _ _ (omega arith)
          (Rising-from key _ _ _ _ (omega arith) (backward-Rising step mb))) in
      (
        (w + n + w) * (2 * n),
        Rising-from key _ _ _ _ (omega arith)
            (Rising-append key _ _ _ _ _ first (Rising-append key _ _ _ _ _ second third)),
      )

  -- A task has a larger key than what it reads.
  Dependency-earlier :
      (t : Task) (mb g : ℕ) (forward : Bool)
      → Planned n vpp layout t
      → Dependency (total n vpp layout) t mb g forward
      → (key_of (planned_step n vpp layout mb g forward) mb forward < key t)
        × (mb < n)
        × (g < total n vpp layout)
        × (is_for mb g forward t ≡ false)
  Dependency-earlier t mb g _ p (activation e m c) =
      let step : t.step ≡ t.microbatch_id + t.global_chunk_id = ground (arith, p.step_is) in
      let in_range : (mb < n) × (g < total n vpp layout) =
        (omega (arith, p.microbatch_in), omega (arith, p.chunk_in)) in
      (
        key_below (mb + g) t.step mb t.microbatch_id true t.is_forward (omega arith) in_range.0,
        in_range.0,
        in_range.1,
        ground arith,
      )
  Dependency-earlier t mb g _ p (saved e m c) =
      let last = total n vpp layout - 1 in
      let step : t.step ≡ t.microbatch_id + (2 * last - t.global_chunk_id) =
        ground (arith, p.step_is) in
      let in_range : (mb < n) × (g < total n vpp layout) =
        (omega (arith, p.microbatch_in), omega (arith, p.chunk_in)) in
      let earlier : key_of (mb + g) mb true < key t = elim (Bool-cases (mb + g == t.step)) [
        | inl same ↦ let at : mb + g ≡ t.step = ==→≡ _ _ same in rw (sym at, sym m, e) (omega arith)
        | inr other ↦
            key_below (mb + g) t.step mb t.microbatch_id true t.is_forward
              (ground (arith, in_range.1)) in_range.0
      ] in
      (earlier, in_range.0, in_range.1, ground arith)
  Dependency-earlier t mb g _ p (gradient e m c h) =
      let last = total n vpp layout - 1 in
      let step : t.step ≡ t.microbatch_id + (2 * last - t.global_chunk_id) =
        ground (arith, p.step_is) in
      let mb_in : mb < n = omega (arith, p.microbatch_in) in
      (
        key_below (mb + (2 * last - g)) t.step mb t.microbatch_id false t.is_forward (omega arith)
            mb_in,
        mb_in,
        h,
        ground arith,
      )

  -- The task of a pass has the key that the pass is planned with.
  is_for-key :
      (mb g : ℕ) (forward : Bool) (u : Task)
      → Planned n vpp layout u
      → is_for mb g forward u ≡ true
      → key u ≡ key_of (planned_step n vpp layout mb g forward) mb forward
  is_for-key mb g true u p h =
      let parts : (u.microbatch_id ≡ mb) × (u.global_chunk_id ≡ g) × (u.is_forward ≡ true) =
        ground arith in
      rw (p.step_is, parts.0, parts.1, parts.2)
  is_for-key mb g false u p h =
      let parts : (u.microbatch_id ≡ mb) × (u.global_chunk_id ≡ g) × (u.is_forward ≡ false) =
        ground arith in
      rw (p.step_is, parts.0, parts.1, parts.2)

  count-Planned_later :
      (mb g k : ℕ) (forward : Bool) (ts : List Task)
      → All (Planned n vpp layout) ts
      → All (λ u. k < key u) ts
      → key_of (planned_step n vpp layout mb g forward) mb forward < k
      → count (is_for mb g forward) ts ≡ 0
  count-Planned_later mb g k forward [] p h lt = refl
  count-Planned_later mb g k forward (u ∷ ts) p h lt =
      let rest = count-Planned_later mb g k forward ts p.1 h.1 lt in
      elim (Bool-cases (is_for mb g forward u)) [
        | inl here ↦ absurd (omega (arith, h.0, is_for-key mb g forward u p.0 here))
        | inr other ↦ omega (arith, ap bit other)
      ]

  -- On a layout of as many chunks per stage that has every chunk, with at least one micro-batch,
  -- stage and chunk per stage: in the list that the interleaved 1F1B schedule returns, the pass
  -- that produces what a task reads stands before that task: a forward pass reads the chunk before it, a backward pass its own forward
  -- pass and the backward pass of the chunk after it, all of the same micro-batch.
  pub interleaved_1f1b_reads_done :
      (hn : 0 < n) (hs : 0 < layout.num_stages) (hv : 0 < vpp) (same_vpp : layout.vpp_size ≡ vpp)
      (has : HasChunks layout (total n vpp layout)) (before after : List Task) (t : Task) (mb g : ℕ)
      (forward : Bool)
      → generate_interleaved_1f1b_schedule n layout.num_stages vpp layout ≡ ok (before ++ t ∷ after)
      → Dependency (total n vpp layout) t mb g forward
      → count (is_for mb g forward) before ≡ 1
  interleaved_1f1b_reads_done hn hs hv same_vpp has before after t mb g forward e reads =
      let split : tasks n vpp layout ≡ before ++ t ∷ after =
        ok-injective (sym (interleaved_runs n vpp layout same_vpp has hn hs hv) ∙ e) in
      let (hi, rising) = tasks-Rising in
      let planned =
        All-split (Planned n vpp layout) before t after
          (subst (All (Planned n vpp layout)) split (tasks-Planned n vpp layout (grind arith))) in
      let late =
        Rising-split key before t after 0 hi (subst (λ ts. Rising key ts 0 hi) split rising) in
      let read = Dependency-earlier t mb g forward planned.0 reads in
      omega (
        arith,
        count-tasks n vpp layout mb g read.1 read.2 forward,
        ap (count (is_for mb g forward)) split,
        count-append (is_for mb g forward) before (t ∷ after),
        ap bit read.3,
        count-Planned_later mb g (key t) forward after planned.1 late read.0,
      )
