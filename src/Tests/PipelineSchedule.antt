-- ===== src/Tests/PipelineSchedule.antt =====
-- Schedules of one micro-batch on two stages of one chunk.
use infini_train.Base.{
  if◌then◌else◌, ℕ, zero, suc, ◌*◌, ◌≡◌, ◌≢◌, refl, arith, Bool, true, false, List, [], ◌∷◌, ◌++◌,
  ok,
}
use infini_train.Base.Int.{pos}
use infini_train.Base.Sort.{count}
use infini_train.PipelineLayout.{PipelineLayout, default_placement, default_policy}
use infini_train.PipelineLayout.Indexes.{build_indexes, chunk}
use infini_train.PipelineLayout.Builders.{
  bare_layout, chunk_at, build_default, default_placement-PlacementFits,
}
use infini_train.PipelineSchedule.{
  Task, generate_gpipe_schedule, generate_interleaved_1f1b_schedule,
}
use infini_train.PipelineSchedule.Slots.{HasChunks, is_for}
use infini_train.PipelineSchedule.GPipe.{IsSchedule, generate_gpipe_schedule-IsSchedule}
use infini_train.PipelineSchedule.Order.{saved, gpipe_reads_done}
use infini_train.PipelineSchedule.Needs.{generate_gpipe_schedule-HasChunks}
use infini_train.PipelineSchedule.Default.{default_layout_scheduled, few_layers_unscheduled}
use infini_train.PipelineSchedule.OneForwardOneBackward.Complete.{
  generate_interleaved_1f1b_schedule-IsSchedule,
}
use infini_train.PipelineSchedule.OneForwardOneBackward.Order.{interleaved_1f1b_reads_done}
use infini_train.PipelineSchedule.OneForwardOneBackward.Complete

abbrev two_stages : PipelineLayout
two_stages =
    bare_layout 4 2 1 (chunk_at 0 0 0 0 2 ∷ chunk_at 1 1 0 2 2 ∷ [])
      (record { embedding_stage = pos 0; final_norm_stage = pos 1; lm_head_stage = pos 1 })
      default_policy

two_stages-HasChunks : HasChunks two_stages 2
unfolding chunk
two_stages-HasChunks zero h = (_, refl)
two_stages-HasChunks (suc zero) h = (_, refl)
two_stages-HasChunks (suc (suc g)) h = absurd (omega arith)

abbrev task : ℕ → ℕ → Bool → Bool → Task
task step stage_id is_forward is_last_chunk = record {
  step = step;
  microbatch_id = 0;
  global_chunk_id = stage_id;
  local_chunk_idx = 0;
  is_forward = is_forward;
  stage_id = stage_id;
  is_first_chunk = if is_last_chunk then false else true;
  is_last_chunk = is_last_chunk;
}

abbrev first_two : List Task
first_two = task 0 0 true false ∷ task 1 1 true true ∷ []

gpipe_runs :
    generate_gpipe_schedule 1 2 1 two_stages
    ≡ ok (first_two ++ task 2 1 false true ∷ task 3 0 false false ∷ [])
unfolding generate_gpipe_schedule
gpipe_runs = refl

interleaved_runs :
    generate_interleaved_1f1b_schedule 1 2 1 two_stages
    ≡ ok (first_two ++ task 1 1 false true ∷ task 2 0 false false ∷ [])
unfolding generate_interleaved_1f1b_schedule
interleaved_runs = refl

generate_gpipe_schedule-IsSchedule_example :
    IsSchedule 3 1 two_stages (generate_gpipe_schedule 3 2 1 two_stages)
generate_gpipe_schedule-IsSchedule_example =
    generate_gpipe_schedule-IsSchedule 3 1 two_stages refl two_stages-HasChunks

gpipe_reads_done_example : count (is_for 0 1 true) first_two ≡ 1
gpipe_reads_done_example =
    gpipe_reads_done 1 1 two_stages refl two_stages-HasChunks first_two (task 3 0 false false ∷ [])
      (task 2 1 false true) 0 1 true gpipe_runs (saved refl refl refl)

generate_gpipe_schedule-HasChunks_example : HasChunks two_stages (2 * 1)
generate_gpipe_schedule-HasChunks_example =
    generate_gpipe_schedule-HasChunks 1 2 1 two_stages
      (first_two ++ task 2 1 false true ∷ task 3 0 false false ∷ []) (omega arith) gpipe_runs

generate_interleaved_1f1b_schedule-IsSchedule_example :
    Complete.IsSchedule 3 1 two_stages (generate_interleaved_1f1b_schedule 3 2 1 two_stages)
generate_interleaved_1f1b_schedule-IsSchedule_example =
    generate_interleaved_1f1b_schedule-IsSchedule 3 1 two_stages (omega arith) (omega arith)
      (omega arith) refl two_stages-HasChunks

interleaved_1f1b_reads_done_example : count (is_for 0 1 true) first_two ≡ 1
interleaved_1f1b_reads_done_example =
    interleaved_1f1b_reads_done 1 1 two_stages (omega arith) (omega arith) (omega arith) refl
      two_stages-HasChunks first_two (task 2 0 false false ∷ []) (task 1 1 false true) 0 1 true
      interleaved_runs (saved refl refl refl)

default_layout_scheduled_example :
    (l : PipelineLayout) × (build_default (pos 5) (pos 2) (pos 2) default_placement default_policy
      ≡ ok l)
    × IsSchedule 3 2 l (generate_gpipe_schedule 3 2 2 l)
default_layout_scheduled_example =
    default_layout_scheduled 5 2 2 3 default_placement default_policy (omega arith) (omega arith)
      (omega arith) (omega arith) (default_placement-PlacementFits default_policy 2 (omega arith))
      (omega arith)

-- One layer on two stages: the second stage has no chunk.
abbrev one_layer : PipelineLayout
one_layer = build_indexes (
    bare_layout 1 2 1 (chunk_at 0 0 0 0 1 ∷ [])
      (record { embedding_stage = pos 0; final_norm_stage = pos 1; lm_head_stage = pos 1 })
      (record default_policy { allow_empty_stages = true }))

one_layer_builds :
    build_default (pos 1) (pos 2) (pos 1) default_placement default_policy ≡ ok one_layer
unfolding build_default build_indexes
one_layer_builds = refl

few_layers_unscheduled_example : generate_gpipe_schedule 3 2 1 one_layer ≢ ok []
few_layers_unscheduled_example =
    few_layers_unscheduled 1 2 1 3 default_placement default_policy (omega arith) (omega arith)
      (omega arith) one_layer [] (omega arith) (omega arith) one_layer_builds
