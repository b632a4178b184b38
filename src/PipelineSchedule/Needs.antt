-- ===== src/PipelineSchedule/Needs.antt =====
-- Scheduling needs every chunk id, also where a chunk was left out for want of layers.
use infini_train.Base.{
  ℕ, ◌-◌, ◌*◌, ◌<◌, ◌≡◌, subst, inl, inr, true, ◌&&◌, List, ok, >>=-eq-ok, ltb, leb, Bool-cases,
  arith,
}
use infini_train.Base.Loops.{for_each, for_each_ran}
use infini_train.PipelineLayout.{PipelineLayout, PlacedChunk}
use infini_train.PipelineLayout.Indexes.{chunk}
use infini_train.PipelineSchedule.{
  Task, topology_mismatch, forward_at, gpipe_steps, generate_gpipe_schedule,
}
use infini_train.PipelineSchedule.Slots.{HasChunks, push_task-eq-ok}

forward_at-chunk :
    (n stages vpp : ℕ) (layout : PipelineLayout) (g : ℕ) (ts : List Task)
    → g < stages * vpp
    → forward_at n stages vpp layout g 0 ≡ ok ts
    → (c : PlacedChunk) × (chunk layout g ≡ ok c)
unfolding forward_at
forward_at-chunk n stages vpp layout g ts h e =
    let whole : g - 0 ≡ g = omega arith in
    let in_range : (leb 0 g && ltb (g - 0) (stages * vpp)) ≡ true = ground arith in
    subst (λ k. (c : PlacedChunk) × (chunk layout k ≡ ok c)) whole
      (push_task-eq-ok g 0 (g - 0) stages (stages * vpp) true layout (rw in_range at e))

-- A GPipe schedule of at least one micro-batch is generated only for a layout that has
-- every chunk.
pub generate_gpipe_schedule-HasChunks :
    (n stages vpp : ℕ) (layout : PipelineLayout) (ts : List Task)
    → 0 < n
    → generate_gpipe_schedule n stages vpp layout ≡ ok ts
    → HasChunks layout (stages * vpp)
unfolding generate_gpipe_schedule
generate_gpipe_schedule-HasChunks n stages vpp layout ts hn e g hg =
    elim (Bool-cases (topology_mismatch n stages vpp layout)) [
      | inl bad ↦ cc (rw bad at e)
      | inr fine ↦
          let (forward, run, _) = >>=-eq-ok _ _ (rw fine at e) in
          let steps = gpipe_steps n stages vpp layout in
          let (ys, round) =
            for_each_ran (λ step. for_each (forward_at n stages vpp layout step) 0 n) 0 steps g run
              (omega arith) (omega arith) in
          let (zs, push) =
            for_each_ran (forward_at n stages vpp layout g) 0 n 0 round (omega arith)
              (omega arith) in
          forward_at-chunk n stages vpp layout g zs hg push
    ]
