-- ===== src/PipelineSchedule/Slots.antt =====
-- What one round of a scheduling loop pushes, on a layout that has every chunk.
use infini_train.Base.{
  ℕ, ◌-◌, ◌<◌, ◌≡◌, refl, ◌∙◌, inl, inr, Bool, true, false, not, ◌&&◌, List, [], ◌∷◌, Result, ok,
  err, ◌==◌, if◌then◌else◌, Bool-cases, arith, >>=-eq-ok,
}
use infini_train.Base.Sort.{bit, count}
use infini_train.Base.Loops.{sum_range, sum_range_single, sum_range_zero}
use infini_train.PipelineLayout.{PipelineLayout, PlacedChunk, LayoutError}
use infini_train.PipelineLayout.Indexes.{chunk}
use infini_train.PipelineSchedule.{Task, create_task, push_task}

-- Each chunk id below `total` is the id of a chunk of the layout.
abbrev pub HasChunks : PipelineLayout → ℕ → Type 0
HasChunks layout total = (g : ℕ) → g < total → (c : PlacedChunk) × (chunk layout g ≡ ok c)

abbrev no_chunk : PlacedChunk
no_chunk = record {
  global_chunk_id = 0;
  stage_id = 0;
  local_chunk_id = 0;
  layers = record { start = 0; end = 0 };
}

abbrev or_no_chunk : Result LayoutError PlacedChunk → PlacedChunk
or_no_chunk (ok c) = c
or_no_chunk (err e) = no_chunk

-- The chunk with a given id.
abbrev pub owner : PipelineLayout → ℕ → PlacedChunk
owner layout g = or_no_chunk (chunk layout g)

-- Forward and backward tasks are told apart.
abbrev same : Bool → Bool → Bool
same true b = b
same false b = not b

-- The task takes micro-batch `mb` through chunk `g` in the given direction.
abbrev pub is_for : ℕ → ℕ → Bool → Task → Bool
is_for mb g forward t =
    (t.microbatch_id == mb) && (t.global_chunk_id == g) && same t.is_forward forward

module _ (layout : PipelineLayout) (total : ℕ) where
  abbrev pub task_of : ℕ → ℕ → ℕ → Bool → Task
  task_of step mb g is_forward = record {
    step = step;
    microbatch_id = mb;
    global_chunk_id = g;
    local_chunk_idx = (owner layout g).local_chunk_id;
    is_forward = is_forward;
    stage_id = (owner layout g).stage_id;
    is_first_chunk = g == 0;
    is_last_chunk = g == total - 1;
  }

  abbrev pub pushed : ℕ → ℕ → ℕ → Bool → Bool → List Task
  pushed step mb g is_forward in_range = if in_range then task_of step mb g is_forward ∷ [] else []

  pub push_task_runs :
      (step mb g : ℕ) (is_forward in_range : Bool)
      → HasChunks layout total
      → (in_range ≡ true → g < total)
      → push_task step mb g layout.num_stages total is_forward layout in_range
        ≡ ok (pushed step mb g is_forward in_range)
  unfolding push_task create_task
  push_task_runs step mb g is_forward false has lt = refl
  push_task_runs step mb g is_forward true has lt =
      let (c, found) = has g (lt refl) in
      let agree : not (layout.num_stages == layout.num_stages) ≡ false = ground arith in
      rw (agree, found)

  -- Of the rounds over the micro-batches in one step, one at most pushes a given task.
  pub count_round :
      (step n mb g : ℕ) (forward : Bool) (chunk_id : ℕ → ℕ) (test : ℕ → Bool)
      → mb < n
      → sum_range
          (λ m. count (is_for mb g forward) (pushed step m (chunk_id m) forward (test m)))
          0
          n
        ≡ bit (test mb && (chunk_id mb == g))
  count_round step n mb g forward chunk_id test h =
      sum_range_single
        (λ m. count (is_for mb g forward) (pushed step m (chunk_id m) forward (test m))) 0 n mb
        (omega arith) (omega arith) (λ m ne. ground arith)
      ∙ ground arith

  pub count_other :
      (step n mb g : ℕ) (forward : Bool) (chunk_id : ℕ → ℕ) (test : ℕ → Bool)
      → sum_range
          (λ m. count (is_for mb g forward) (pushed step m (chunk_id m) (not forward) (test m)))
          0
          n
        ≡ 0
  count_other step n mb g forward chunk_id test = sum_range_zero _ 0 n (λ m lo hi. ground arith)

-- A task is created only for a chunk of the layout.
create_task-eq-ok :
    (step mb g s total : ℕ) (is_forward : Bool) (layout : PipelineLayout) (t : Task)
    → create_task step mb g s total is_forward layout ≡ ok t
    → (c : PlacedChunk) × (chunk layout g ≡ ok c)
unfolding create_task
create_task-eq-ok step mb g s total is_forward layout t e =
    elim (Bool-cases (s == layout.num_stages)) [
      | inl agree ↦ (let (c, found, _) = >>=-eq-ok _ _ (rw agree at e) in (c, found))
      | inr differ ↦ cc (rw differ at e)
    ]

pub push_task-eq-ok :
    (step mb g s total : ℕ) (is_forward : Bool) (layout : PipelineLayout) {ts : List Task}
    → push_task step mb g s total is_forward layout true ≡ ok ts
    → (c : PlacedChunk) × (chunk layout g ≡ ok c)
unfolding push_task
push_task-eq-ok step mb g s total is_forward layout e =
    let (t, made, _) =
      >>=-eq-ok (create_task step mb g s total is_forward layout) (λ task. ok (task ∷ [])) e in
    create_task-eq-ok step mb g s total is_forward layout t made
