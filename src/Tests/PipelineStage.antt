-- ===== src/Tests/PipelineStage.antt =====
-- Two stages of one module each: the second one's chunk is followed by a chunk of the first.
use infini_train.Base.{ℕ, ◌≡◌, refl, arith, Option, some, List, [], ◌∷◌}
use infini_train.Base.Int.{pos, negsuc}
use infini_train.PipelineStage.{PipelineStage, new_stage, send_peer, receive_peer}
use infini_train.PipelineStage.Peers.{peers_match}

abbrev modules : List (Option ℕ)
modules = some 0 ∷ []

abbrev last_stage : PipelineStage ℕ
last_stage = record {
  stage_index = pos 1;
  num_stages = pos 2;
  prev_rank = pos 0;
  next_rank = negsuc 0;
  chunks = modules;
}

abbrev first_stage : PipelineStage ℕ
first_stage = record {
  stage_index = pos 0;
  num_stages = pos 2;
  prev_rank = negsuc 0;
  next_rank = pos 1;
  chunks = modules;
}

peers_match_example :
    (send_peer last_stage ≡ first_stage.stage_index)
    × (receive_peer first_stage ≡ last_stage.stage_index)
unfolding new_stage
peers_match_example = peers_match 1 2 modules modules last_stage first_stage (omega arith) refl refl
