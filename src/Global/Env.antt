-- ===== src/Global/Env.antt =====
-- `GlobalEnv` (infini_train/include/nn/parallel/global.h and
-- infini_train/src/nn/parallel/global.cc): the process-wide sizes, set up once by `Init`. A CHECK
-- that fails is an error value. The sizes come from unsigned flags; `Init` does not test the
-- pipeline size, and the division by it traps where it is 0: `division_by_zero`.
pub mod Ready
use infini_train.Base.{
  ℕ, ◌+◌, ◌*◌, ◌/◌, ◌%◌, ◌≡◌, Bool, true, false, not, Option, none, some, Result, ok, err, ◌>>=◌,
  ◌>>◌, require, ltb, leb, ◌==◌, if◌then◌else◌,
}
use infini_train.Base.Int.{ℤ, pos, pos_part, ltb_ℤ, leb_ℤ}
use infini_train.PipelineLayout.{PipelineLayout}
use infini_train.PipelineLayout.Builders.{empty_layout}
use infini_train.Global.{Axis, Layout, default_order, per_axis, init_strides}

-- The environment variables that `Init` reads.
pub data EnvVar : Type 0 where
  world_size local_world_size rank local_rank : EnvVar

pub data EnvError : Type 0 where
  repeated_initialization not_initialized : EnvError
  local_world_size_not_positive world_size_not_positive world_size_not_divisible : EnvError
  rank_negative rank_too_large local_rank_negative local_rank_too_large : EnvError
  tensor_parallel_size_too_small division_by_zero : EnvError

pub record GlobalEnv : Type 0 where
  pub nnodes : ℕ
  pub nproc_per_node : ℕ
  pub nthread_per_process : ℕ
  pub world_size : ℕ
  pub global_proc_rank : ℕ
  pub local_proc_rank : ℕ
  pub tensor_parallel_size : ℕ
  pub sequence_parallel_enabled : Bool
  pub data_parallel_size : ℕ
  pub pipeline_parallel_size : ℕ
  pub virtual_pipeline_parallel_size : ℕ
  pub initialized : Bool
  pub layout : Layout
  pub pipeline_layout : PipelineLayout

-- The members' default values.
abbrev pub fresh : GlobalEnv
fresh = record {
  nnodes = 1;
  nproc_per_node = 1;
  nthread_per_process = 1;
  world_size = 1;
  global_proc_rank = 0;
  local_proc_rank = 0;
  tensor_parallel_size = 1;
  sequence_parallel_enabled = false;
  data_parallel_size = 1;
  pipeline_parallel_size = 1;
  virtual_pipeline_parallel_size = 1;
  initialized = false;
  layout = record { sizes = per_axis 1 1 1; order = default_order; strides = per_axis 1 1 1 };
  pipeline_layout = empty_layout;
}

-- What `std::getenv` and `std::atoi` make of a variable: nothing where it is not set.
abbrev pub Environment : Type 0
Environment = EnvVar → Option ℤ

abbrev pub get_env_as_int : Environment → EnvVar → ℤ → ℤ
get_env_as_int env name default_value = or_default (env name)
  where
    or_default : Option ℤ → ℤ
    or_default (some value) = value
    or_default none = default_value

-- The parallel sizes that are passed to `Init`.
pub record Sizes : Type 0 where
  pub nthread_per_process : ℕ
  pub tensor_parallel_size : ℕ
  pub sequence_parallel_enabled : Bool
  pub pipeline_parallel_size : ℕ
  pub virtual_pipeline_parallel_size : ℕ

-- The CHECKs on the environment's values, in the source's order.
unfoldable pub check_processes : ℤ → ℤ → ℤ → ℤ → Result EnvError (Unit {0})
check_processes proc_world_size nproc_per_node global_proc_rank local_proc_rank =
    require (ltb_ℤ (pos 0) nproc_per_node) EnvError.local_world_size_not_positive
    >> (require (ltb_ℤ (pos 0) proc_world_size) EnvError.world_size_not_positive
        >> (require (pos_part proc_world_size % pos_part nproc_per_node == 0)
              EnvError.world_size_not_divisible
            >> (require (leb_ℤ (pos 0) global_proc_rank) EnvError.rank_negative
                >> (require (ltb_ℤ global_proc_rank proc_world_size) EnvError.rank_too_large
                    >> (require (leb_ℤ (pos 0) local_proc_rank) EnvError.local_rank_negative
                        >> require (ltb_ℤ local_proc_rank nproc_per_node)
                            EnvError.local_rank_too_large)))))

-- The rest of `Init`: the sizes and the layout, from values that are not negative any more.
unfoldable pub set_sizes : GlobalEnv → Sizes → ℕ → ℕ → ℕ → ℕ → GlobalEnv
unfolding init_strides
set_sizes g s proc_world_size nproc_per_node global_proc_rank local_proc_rank =
    let world = proc_world_size * s.nthread_per_process in
    let dp = world / s.tensor_parallel_size / s.pipeline_parallel_size in
    record {
      nnodes = proc_world_size / nproc_per_node;
      nproc_per_node = nproc_per_node;
      nthread_per_process = s.nthread_per_process;
      world_size = world;
      global_proc_rank = global_proc_rank;
      local_proc_rank = local_proc_rank;
      tensor_parallel_size = s.tensor_parallel_size;
      sequence_parallel_enabled = s.sequence_parallel_enabled;
      data_parallel_size = dp;
      pipeline_parallel_size = s.pipeline_parallel_size;
      virtual_pipeline_parallel_size = s.virtual_pipeline_parallel_size;
      initialized = true;
      layout =
          init_strides (record g.layout {
            sizes = per_axis dp s.tensor_parallel_size s.pipeline_parallel_size;
          });
      pipeline_layout = empty_layout;
    }

unfoldable pub init : Environment → Sizes → GlobalEnv → Result EnvError GlobalEnv
unfolding check_processes set_sizes
init env s g =
    let proc_world_size = get_env_as_int env EnvVar.world_size (pos 1) in
    let nproc_per_node = get_env_as_int env EnvVar.local_world_size (pos 1) in
    let global_proc_rank = get_env_as_int env EnvVar.rank (pos 0) in
    let local_proc_rank = get_env_as_int env EnvVar.local_rank (pos 0) in
    require (not g.initialized) EnvError.repeated_initialization
    >> (check_processes proc_world_size nproc_per_node global_proc_rank local_proc_rank
        >> (require (leb 1 s.tensor_parallel_size) EnvError.tensor_parallel_size_too_small
            >> (require (not (s.pipeline_parallel_size == 0)) EnvError.division_by_zero
                >> ok (
                    set_sizes g s (pos_part proc_world_size) (pos_part nproc_per_node)
                      (pos_part global_proc_rank) (pos_part local_proc_rank)))))

-- The getters, each behind its CHECK.
abbrev get {ℓ} : {A : Type ℓ} → GlobalEnv → A → Result EnvError A
get g value = require g.initialized EnvError.not_initialized >> ok value

unfoldable pub sequence_parallel_size : GlobalEnv → Result EnvError ℕ
sequence_parallel_size g = get g (if g.sequence_parallel_enabled then g.tensor_parallel_size else 1)

unfoldable pub get_layout : GlobalEnv → Result EnvError Layout
get_layout g = get g g.layout

-- `GetDeviceIndex`
unfoldable pub device_index : GlobalEnv → ℕ → ℕ
device_index g thread_rank = g.local_proc_rank * g.nthread_per_process + thread_rank

unfoldable pub set_pipeline_layout : GlobalEnv → PipelineLayout → GlobalEnv
set_pipeline_layout g layout = record g { pipeline_layout = layout }
