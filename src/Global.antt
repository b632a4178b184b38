-- ===== src/Global.antt =====
-- The parallel topology (infini_train/include/nn/parallel/global.h and
-- infini_train/src/nn/parallel/global.cc): `Layout` gives each rank its data-, tensor- and
-- pipeline-parallel coordinates and its groups; `GlobalEnv` is set up from them once. The arrays
-- that an `Axis` indexes are functions of the axis.
pub mod Coordinates
pub mod Groups
pub mod Env
use infini_train.Base.{
  ℕ, zero, suc, ◌+◌, ◌*◌, ◌/◌, ◌%◌, Bool, true, false, List, [], ◌∷◌, if◌then◌else◌,
}
use mathlib.Core.List.{reverse}

pub data Axis : Type 0 where
  dp tp pp : Axis

abbrev pub same_axis : Axis → Axis → Bool
same_axis Axis.dp Axis.dp = true
same_axis Axis.tp Axis.tp = true
same_axis Axis.pp Axis.pp = true
same_axis _ _ = false

pub record Layout : Type 0 where
  pub sizes : Axis → ℕ
  pub order : List Axis
  pub strides : Axis → ℕ

abbrev pub default_order : List Axis
default_order = Axis.tp ∷ Axis.dp ∷ Axis.pp ∷ []

-- A value for each axis.
abbrev pub per_axis : ℕ → ℕ → ℕ → Axis → ℕ
per_axis d t p Axis.dp = d
per_axis d t p Axis.tp = t
per_axis d t p Axis.pp = p

abbrev update : (Axis → ℕ) → Axis → ℕ → Axis → ℕ
update f ax v other = if same_axis ax other then v else f other

-- The loop of `InitStrides`, over the rest of the order.
stride_loop : (Axis → ℕ) → List Axis → ℕ → (Axis → ℕ) → Axis → ℕ
stride_loop sizes [] stride strides = strides
stride_loop sizes (ax ∷ order) stride strides =
    stride_loop sizes order (stride * sizes ax) (update strides ax stride)

unfoldable pub init_strides : Layout → Layout
unfolding stride_loop
init_strides l = record l { strides = stride_loop l.sizes l.order 1 l.strides }

-- `coord[ax] * strides[ax]`, summed over the axes in the order of the enumeration.
unfoldable pub rank_of : Layout → ℕ → ℕ → ℕ → ℕ
rank_of l d t p = d * l.strides Axis.dp + t * l.strides Axis.tp + p * l.strides Axis.pp

unfoldable pub coord_of : Layout → ℕ → ℕ × ℕ × ℕ
coord_of l rank = (
  (rank / l.strides Axis.dp) % l.sizes Axis.dp,
  (rank / l.strides Axis.tp) % l.sizes Axis.tp,
  (rank / l.strides Axis.pp) % l.sizes Axis.pp,
)

-- The loop of `GroupId`, which runs through the order from its end.
group_loop : (Axis → ℕ) → Axis → (Axis → ℕ) → List Axis → ℕ → ℕ → ℕ
group_loop sizes target coord [] id mult = id
group_loop sizes target coord (ax ∷ order) id mult =
    group_loop sizes target coord order (if same_axis ax target then id else id + coord ax * mult)
      (if same_axis ax target then mult else mult * sizes ax)

unfoldable pub group_id : Layout → Axis → ℕ → ℕ → ℕ → ℕ
unfolding group_loop
group_id l target d t p = group_loop l.sizes target (per_axis d t p) (reverse l.order) 0 1

-- The loop of `GroupRanks`, at `v` with `left` values to go.
unfoldable pub group_ranks_loop : Layout → Axis → ℕ → ℕ → ℕ → ℕ → ℕ → List ℕ
unfolding rank_of
group_ranks_loop l target d t p v zero = []
group_ranks_loop l target d t p v (suc left) =
    let coord = update (per_axis d t p) target v in
    rank_of l (coord Axis.dp) (coord Axis.tp) (coord Axis.pp)
    ∷ group_ranks_loop l target d t p (v + 1) left

unfoldable pub group_ranks : Layout → Axis → ℕ → ℕ → ℕ → List ℕ
unfolding group_ranks_loop
group_ranks l target d t p = group_ranks_loop l target d t p 0 (l.sizes target)

-- The overloads of `GetGroupId` and `GetGroupRanks` that take a rank.
unfoldable pub group_id_of_rank : Layout → Axis → ℕ → ℕ
group_id_of_rank l target rank = let (d, t, p) = coord_of l rank in group_id l target d t p

unfoldable pub group_ranks_of_rank : Layout → Axis → ℕ → List ℕ
group_ranks_of_rank l target rank = let (d, t, p) = coord_of l rank in group_ranks l target d t p
