-- ===== src/Tests/Global.antt =====
-- A world of eight ranks: two replicas of two by two.
use infini_train.Base.{ℕ, ◌*◌, ◌%◌, ◌<◌, ◌≡◌, ◌↔◌, refl, arith, false, none, [], ◌∷◌, ◌∈◌, ok, err}
use infini_train.Global.{
  Axis, rank_of, coord_of, group_id_of_rank, group_ranks, group_ranks_of_rank,
}
use infini_train.Global.Coordinates.{default_layout, coord_of-rank_of, rank_of-coord_of}
use infini_train.Global.Groups.{group_ranks_iff}
use infini_train.Global.Env.{Environment, EnvError, Sizes, GlobalEnv, fresh, init, set_sizes}
use infini_train.Global.Env.Ready.{init_once, init_ranks_iff}

group_of_5 : group_ranks_of_rank (default_layout 2 2 2) Axis.dp 5 ≡ 5 ∷ 7 ∷ []
unfolding group_ranks_of_rank group_ranks coord_of default_layout
group_of_5 = refl

coord_of-rank_of_example :
    coord_of (default_layout 2 2 2) (rank_of (default_layout 2 2 2) 1 0 1) ≡ (1, 0, 1)
coord_of-rank_of_example = coord_of-rank_of 2 2 2 1 0 1 (omega arith) (omega arith) (omega arith)

rank_of-coord_of_example :
    (rank_of
        (default_layout 2 2 2)
        (coord_of (default_layout 2 2 2) 5).0
        (coord_of (default_layout 2 2 2) 5).1
        (coord_of (default_layout 2 2 2) 5).2
      ≡ 5)
    × ((coord_of (default_layout 2 2 2) 5).0 < 2)
    × ((coord_of (default_layout 2 2 2) 5).1 < 2)
    × ((coord_of (default_layout 2 2 2) 5).2 < 2)
rank_of-coord_of_example = rank_of-coord_of 2 2 2 5 (omega arith)

group_ranks_iff_example : (7 ∈ group_ranks_of_rank (default_layout 2 2 2) Axis.dp 5) ↔ (
    group_id_of_rank (default_layout 2 2 2) Axis.dp 7
    ≡ group_id_of_rank (default_layout 2 2 2) Axis.dp 5)
group_ranks_iff_example = group_ranks_iff 2 2 2 5 (omega arith) Axis.dp 7 (omega arith)

-- One process of eight threads, and one of nine.
abbrev alone : Environment
alone name = none

abbrev threads : ℕ → Sizes
threads n = record {
  nthread_per_process = n;
  tensor_parallel_size = 2;
  sequence_parallel_enabled = false;
  pipeline_parallel_size = 2;
  virtual_pipeline_parallel_size = 1;
}

abbrev with_threads : ℕ → GlobalEnv
with_threads n = set_sizes fresh (threads n) 1 1 0 0

eight_threads : init alone (threads 8) fresh ≡ ok (with_threads 8)
unfolding init
eight_threads = refl

nine_threads : init alone (threads 9) fresh ≡ ok (with_threads 9)
unfolding init
nine_threads = refl

init_once_example : init alone (threads 8) (with_threads 8) ≡ err EnvError.repeated_initialization
init_once_example = init_once alone alone (threads 8) (threads 8) (with_threads 8) eight_threads

init_ranks_iff_example :
    ((r : ℕ)
      → r < (with_threads 9).world_size
      → rank_of
          (with_threads 9).layout
          (coord_of (with_threads 9).layout r).0
          (coord_of (with_threads 9).layout r).1
          (coord_of (with_threads 9).layout r).2
        ≡ r)
    ↔ ((with_threads 9).world_size % (2 * 2) ≡ 0)
unfolding set_sizes
init_ranks_iff_example =
    init_ranks_iff alone (threads 9) (with_threads 9) nine_threads (omega arith)
