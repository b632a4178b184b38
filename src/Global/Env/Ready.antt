-- ===== src/Global/Env/Ready.antt =====
-- What holds once `GlobalEnv::Init` has returned.
use native.Mathlib.Nat.{div-div-eq-div-mul, div-add-mod}
use infini_train.Base.{
  ℕ, ◌+◌, ◌*◌, ◌/◌, ◌%◌, ◌<◌, ◌≡◌, ◌↔◌, refl, sym, ◌∙◌, ap, arith, inl, inr, true, false, not, ok,
  err, >>-eq-ok, require-eq-ok, ok-injective, leb, ◌==◌, Bool-cases,
}
use infini_train.Base.Int.{ℤ, pos, pos_part}
use infini_train.Global.{Layout, rank_of, coord_of}
use infini_train.Global.Coordinates.{default_layout, rank_of-coord_of, coord_of_wraps}
use infini_train.Global.Env.{
  EnvError, GlobalEnv, fresh, Environment, Sizes, check_processes, set_sizes, init, get_env_as_int,
  EnvVar,
}

-- The sizes and ranks of an environment that is set up.
pub record IsReady (g : GlobalEnv) (s : Sizes) : Type 0 where
  pub initialized : g.initialized ≡ true
  pub world_is : g.world_size ≡ g.nnodes * g.nproc_per_node * g.nthread_per_process
  pub local_in : g.local_proc_rank < g.nproc_per_node
  pub global_in : g.global_proc_rank < g.nnodes * g.nproc_per_node
  pub tensor_some : 0 < g.tensor_parallel_size
  pub pipeline_some : 0 < g.pipeline_parallel_size
  pub data_is :
      g.data_parallel_size ≡ g.world_size / (g.tensor_parallel_size * g.pipeline_parallel_size)
  pub tensor_is : g.tensor_parallel_size ≡ s.tensor_parallel_size
  pub pipeline_is : g.pipeline_parallel_size ≡ s.pipeline_parallel_size
  pub layout_is :
      g.layout ≡ default_layout g.data_parallel_size g.tensor_parallel_size g.pipeline_parallel_size

-- What the CHECKs on the environment's values establish.
check_processes-eq-ok :
    (world nproc rank local_rank : ℤ)
    → check_processes world nproc rank local_rank ≡ ok tt
    → (0 < pos_part nproc)
      × (pos_part world % pos_part nproc ≡ 0)
      × (pos_part rank < pos_part world)
      × (pos_part local_rank < pos_part nproc)
unfolding check_processes
check_processes-eq-ok world nproc rank local_rank e = ground arith

init-eq-ok :
    (env : Environment) (s : Sizes) (g g' : GlobalEnv)
    → init env s g ≡ ok g'
    → (world nproc rank local_rank : ℕ) × (0 < nproc)
      × (world % nproc ≡ 0)
      × (rank < world)
      × (local_rank < nproc)
      × (g.initialized ≡ false)
      × (0 < s.tensor_parallel_size)
      × (0 < s.pipeline_parallel_size)
      × (g' ≡ set_sizes g s world nproc rank local_rank)
unfolding init
init-eq-ok env s g g' e =
    let (a, e1) = >>-eq-ok _ _ e in
    let (b, e2) = >>-eq-ok _ _ e1 in
    let (c, e3) = >>-eq-ok _ _ e2 in
    let (d, e4) = >>-eq-ok _ _ e3 in
    let processes =
      check_processes-eq-ok (get_env_as_int env EnvVar.world_size (pos 1))
        (get_env_as_int env EnvVar.local_world_size (pos 1))
        (get_env_as_int env EnvVar.rank (pos 0)) (get_env_as_int env EnvVar.local_rank (pos 0)) b in
    let first_call : not g.initialized ≡ true =
      require-eq-ok _ EnvError.repeated_initialization a in
    let tensor_some : leb 1 s.tensor_parallel_size ≡ true =
      require-eq-ok _ EnvError.tensor_parallel_size_too_small c in
    let pipeline_some : not (s.pipeline_parallel_size == 0) ≡ true =
      require-eq-ok _ EnvError.division_by_zero d in
    (
      pos_part (get_env_as_int env EnvVar.world_size (pos 1)),
      pos_part (get_env_as_int env EnvVar.local_world_size (pos 1)),
      pos_part (get_env_as_int env EnvVar.rank (pos 0)),
      pos_part (get_env_as_int env EnvVar.local_rank (pos 0)),
      processes.0,
      processes.1,
      processes.2,
      processes.3,
      ground (arith, first_call),
      ground (arith, tensor_some),
      ground (arith, pipeline_some),
      sym (ok-injective e4),
    )

pub init-IsReady :
    (env : Environment) (s : Sizes) (g : GlobalEnv) → init env s fresh ≡ ok g → IsReady g s
unfolding set_sizes default_layout
init-IsReady env s g e =
    let (world, nproc, rank, local_rank, proc_some, exact, rank_in, local_in, _, ht, hp, is) =
      init-eq-ok env s fresh g e in
    let all : world ≡ world / nproc * nproc = omega (arith, div-add-mod world nproc, exact) in
    rw is (record {
      initialized = refl;
      world_is = ap (λ (w : ℕ). w * s.nthread_per_process) all;
      local_in = local_in;
      global_in = omega (arith, all);
      tensor_some = ht;
      pipeline_some = hp;
      data_is =
          div-div-eq-div-mul (world * s.nthread_per_process) s.tensor_parallel_size
            s.pipeline_parallel_size;
      tensor_is = refl;
      pipeline_is = refl;
      layout_is = refl;
    })

-- `Init` runs once: a second call fails, whatever its arguments.
pub init_once :
    (env env' : Environment) (s s' : Sizes) (g : GlobalEnv)
    → init env s fresh ≡ ok g
    → init env' s' g ≡ err EnvError.repeated_initialization
unfolding init
init_once env env' s s' g e = let done = (init-IsReady env s g e).initialized in rw done

abbrev rank_back : Layout → ℕ → ℕ
rank_back l r = rank_of l (coord_of l r).0 (coord_of l r).1 (coord_of l r).2

module _ (d t p w : ℕ) (hd : 0 < d) (ht : 0 < t) (hp : 0 < p) (d_is : d ≡ w / (t * p)) where
  world_split : d * t * p + w % (t * p) ≡ w
  world_split = omega (arith, div-add-mod w (t * p), ap (λ (x : ℕ). x * t * p) d_is)

  default_ranks_iff : ((r : ℕ) → r < w → rank_back (default_layout d t p) r ≡ r) ↔ (w % (t * p) ≡ 0)
  default_ranks_iff = (
    λ back. elim (Bool-cases (w % (t * p) == 0)) [
      | inl exact ↦ ground arith
      | inr over ↦
          let more : 0 < w % (t * p) = ground arith in
          let product_some : 0 < d * t * p = grind arith in
          let wraps = coord_of_wraps d t p 0 hd ht in
          let here = back (0 + d * t * p) (omega (arith, world_split)) in
          let zero_back = (rank_of-coord_of d t p 0 product_some).0 in
          let clash =
            sym here
            ∙ ap (λ (c : ℕ × ℕ × ℕ). rank_of (default_layout d t p) c.0 c.1 c.2) wraps
            ∙ zero_back in
          omega (arith, clash)
    ],
    λ exact r lt. (rank_of-coord_of d t p r (omega (arith, world_split))).0,
  )

-- After `Init` has returned, in a world that holds at least one data-parallel replica, every rank
-- is given back by its coordinates exactly where the product of the tensor- and pipeline-parallel
-- sizes divides the world. `Init` does not check that it does.
pub init_ranks_iff :
    (env : Environment) (s : Sizes) (g : GlobalEnv)
    → init env s fresh ≡ ok g
    → 0 < g.data_parallel_size
    → ((r : ℕ)
        → r < g.world_size
        → rank_of g.layout (coord_of g.layout r).0 (coord_of g.layout r).1 (coord_of g.layout r).2
          ≡ r)
      ↔ (g.world_size % (s.tensor_parallel_size * s.pipeline_parallel_size) ≡ 0)
init_ranks_iff env s g e hd =
    let ready = init-IsReady env s g e in
    rw (sym ready.tensor_is, sym ready.pipeline_is, ready.layout_is)
      (default_ranks_iff g.data_parallel_size g.tensor_parallel_size g.pipeline_parallel_size
        g.world_size hd ready.tensor_some ready.pipeline_some ready.data_is)
