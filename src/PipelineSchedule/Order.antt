-- ===== src/PipelineSchedule/Order.antt =====
-- The GPipe schedule runs a task only after the tasks whose results it reads.
use infini_train.Base.{
  ℕ, ◌+◌, ◌≤◌, ◌<◌, ◌≡◌, refl, sym, subst, ◌∙◌, ap, Bool, true, false, List, [], ◌∷◌, ◌++◌, Result,
  ok, All, arith, ok-injective,
}
use infini_train.Base.Sort.{bit, count, IsSorted}
use infini_train.Base.Loops.{count-append}
use infini_train.PipelineLayout.{PipelineLayout}
use infini_train.PipelineSchedule.{Task, task_before, generate_gpipe_schedule}
use infini_train.PipelineSchedule.Slots.{HasChunks, is_for}
use infini_train.PipelineSchedule.GPipe.{
  Planned, planned_step, IsSchedule, total, generate_gpipe_schedule-IsSchedule,
}

-- What a task reads: the activation of the chunk before it, its own saved activation, and the
-- gradient of the chunk after it.
pub data Dependency (chunks : ℕ) (t : Task) (mb g : ℕ) : Bool → Type 0 where
  activation :
      t.is_forward ≡ true
      → mb ≡ t.microbatch_id
      → g + 1 ≡ t.global_chunk_id
      → Dependency chunks t mb g true
  saved :
      t.is_forward ≡ false
      → mb ≡ t.microbatch_id
      → g ≡ t.global_chunk_id
      → Dependency chunks t mb g true
  gradient :
      t.is_forward ≡ false
      → mb ≡ t.microbatch_id
      → g ≡ t.global_chunk_id + 1
      → g < chunks
      → Dependency chunks t mb g false

pub All-split {ℓ κ} :
    {A : Type ℓ} (P : A → Type κ) (xs : List A) (a : A) (ys : List A)
    → All P (xs ++ a ∷ ys)
    → P a × All P ys
All-split P [] a ys h = h
All-split P (x ∷ xs) a ys h = All-split P xs a ys h.1

IsSorted-split : (xs ys : List Task) → IsSorted task_before (xs ++ ys) → IsSorted task_before ys
IsSorted-split [] ys h = h
IsSorted-split (x ∷ []) [] h = tt
IsSorted-split (x ∷ []) (y ∷ ys) h = h.1
IsSorted-split (x ∷ z ∷ xs) ys h = IsSorted-split (z ∷ xs) ys h.1

later_steps :
    (t : Task) (k : ℕ) (ts : List Task)
    → k ≤ t.step
    → IsSorted task_before (t ∷ ts)
    → All (λ u. k ≤ u.step) ts
later_steps t k [] h s = tt
later_steps t k (u ∷ ts) h s =
    let le : k ≤ u.step = ground (arith, s.0) in (le, later_steps u k ts le s.1)

module _ (n vpp : ℕ) (layout : PipelineLayout) where
  count-Planned_before :
      (mb g k : ℕ) (forward : Bool) (ts : List Task)
      → All (Planned n vpp layout) ts
      → All (λ u. k ≤ u.step) ts
      → planned_step n vpp layout mb g forward < k
      → count (is_for mb g forward) ts ≡ 0
  count-Planned_before mb g k forward [] p h lt = refl
  count-Planned_before mb g k true (u ∷ ts) p h lt =
      ground (arith, p.0.step_is, h.0, count-Planned_before mb g k true ts p.1 h.1 lt)
  count-Planned_before mb g k false (u ∷ ts) p h lt =
      ground (arith, p.0.step_is, h.0, count-Planned_before mb g k false ts p.1 h.1 lt)

  -- A task is planned later than what it reads.
  Dependency-Planned :
      (t : Task) (mb g : ℕ) (forward : Bool)
      → Planned n vpp layout t
      → Dependency (total n vpp layout) t mb g forward
      → (planned_step n vpp layout mb g forward < t.step)
        × (mb < n)
        × (g < total n vpp layout)
        × (is_for mb g forward t ≡ false)
  Dependency-Planned t mb g _ p (activation e m c) =
      ground (arith, p.step_is, p.microbatch_in, p.chunk_in)
  Dependency-Planned t mb g _ p (saved e m c) =
      ground (arith, p.step_is, p.microbatch_in, p.chunk_in)
  Dependency-Planned t mb g _ p (gradient e m c h) =
      ground (arith, p.step_is, p.microbatch_in, p.chunk_in)

  IsSchedule-reads_done :
      (r : Result _ (List Task)) (s : IsSchedule n vpp layout r) (before after : List Task)
      (t : Task) (mb g : ℕ) (forward : Bool)
      → s.list ≡ before ++ t ∷ after
      → Dependency (total n vpp layout) t mb g forward
      → count (is_for mb g forward) before ≡ 1
  IsSchedule-reads_done r s before after t mb g forward e reads =
      let all = subst (All (Planned n vpp layout)) e s.planned in
      let parts = All-split (Planned n vpp layout) before t after all in
      let sorted = IsSorted-split before (t ∷ after) (subst (IsSorted task_before) e s.ordered) in
      let late = later_steps t t.step after (omega arith) sorted in
      let read = Dependency-Planned t mb g forward parts.0 reads in
      omega (
        arith,
        s.once mb g forward read.1 read.2,
        ap (count (is_for mb g forward)) e,
        count-append (is_for mb g forward) before (t ∷ after),
        ap bit read.3,
        count-Planned_before mb g t.step forward after parts.1 late read.0,
      )

  -- In the list that the GPipe schedule returns on a layout of as many chunks per stage that has
  -- every chunk, the pass that produces what a task reads stands before that task: a forward pass
  -- reads the chunk before it, a backward pass its own forward pass and the backward pass of the
  -- chunk after it, all of the same micro-batch.
  pub gpipe_reads_done :
      (same_vpp : layout.vpp_size ≡ vpp) (has : HasChunks layout (total n vpp layout))
      (before after : List Task) (t : Task) (mb g : ℕ) (forward : Bool)
      → generate_gpipe_schedule n layout.num_stages vpp layout ≡ ok (before ++ t ∷ after)
      → Dependency (total n vpp layout) t mb g forward
      → count (is_for mb g forward) before ≡ 1
  gpipe_reads_done same_vpp has before after t mb g forward e reads =
      let s = generate_gpipe_schedule-IsSchedule n vpp layout same_vpp has in
      IsSchedule-reads_done _ s before after t mb g forward (ok-injective (sym s.returns ∙ e)) reads
