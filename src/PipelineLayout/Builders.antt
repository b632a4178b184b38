-- ===== src/PipelineLayout/Builders.antt =====
-- `BuildDefault`, `BuildContiguous`, `BuildPlacement` and the constructor they share.
pub mod Default
pub mod Contiguous
use infini_train.Base.{
  ℕ, zero, suc, ◌+◌, ◌-◌, ◌*◌, ◌/◌, ◌%◌, ◌^◌, Bool, true, false, not, ◌&&◌, List, [], ◌∷◌, Result,
  ok, err, ◌>>=◌, ◌>>◌, ltb, ◌==◌, if◌then◌else◌, length, ◌≡◌, refl, sym, ap, ◌∙◌, ◌<◌, arith,
  >>=-eq-ok, ok-injective,
}
use infini_train.Base.Int.{ℤ, pos, pos_part, ltb_ℤ, leb_ℤ}
use infini_train.PipelineLayout.{
  SpecialModulePlacement, PlacedRange, PlacedChunk, PipelineLayoutPolicy, PipelineLayout,
  LayoutError, default_placement, default_policy,
}
use infini_train.PipelineLayout.Check.{validate, validate_placed, last_stage}
use infini_train.PipelineLayout.Check.Exact.{validate_placed_iff}
use infini_train.PipelineLayout.Indexes.{build_indexes}
use infini_train.PipelineLayout.Valid.{IsValid, IsStage, AtBoundary}

abbrev pub int_max : ℕ
int_max = 2 ^ 31 - 1

abbrev default_stage : ℤ → ℤ → ℤ
default_stage given default = if ltb_ℤ given (pos 0) then default else given

unfoldable pub build_placement : SpecialModulePlacement → ℕ → SpecialModulePlacement
build_placement p num_stages = record {
  embedding_stage = default_stage p.embedding_stage (pos 0);
  final_norm_stage = default_stage p.final_norm_stage (last_stage num_stages);
  lm_head_stage = default_stage p.lm_head_stage (last_stage num_stages);
}

abbrev pub bare_layout :
    ℕ → ℕ → ℕ → List PlacedChunk → SpecialModulePlacement → PipelineLayoutPolicy → PipelineLayout
bare_layout num_layers num_stages vpp_size chunks placement policy = record {
  num_layers = num_layers;
  num_stages = num_stages;
  vpp_size = vpp_size;
  chunks = chunks;
  stages = [];
  placement = placement;
  policy = policy;
  layer_locations = [];
}

-- The private constructor: `Validate`, then `BuildIndexes`.
unfoldable pub construct :
    ℕ
    → ℕ
    → ℕ
    → List PlacedChunk
    → SpecialModulePlacement
    → PipelineLayoutPolicy
    → Result LayoutError PipelineLayout
unfolding validate build_indexes
construct num_layers num_stages vpp_size chunks placement policy =
    let l = bare_layout num_layers num_stages vpp_size chunks placement policy in
    validate_placed l >>= λ _. ok (build_indexes l)

-- The default constructor `PipelineLayout()`.
unfoldable pub empty_layout : PipelineLayout
unfolding build_indexes
empty_layout = build_indexes (bare_layout 0 1 1 [] default_placement default_policy)

abbrev pub chunk_at : ℕ → ℕ → ℕ → ℕ → ℕ → PlacedChunk
chunk_at id stage_id local_chunk_id cursor count = record {
  global_chunk_id = id;
  stage_id = stage_id;
  local_chunk_id = local_chunk_id;
  layers = record { start = cursor; end = cursor + count };
}

-- `chunk_size`: each of the first `remainder` chunks takes one layer more.
abbrev pub chunk_size : ℕ → ℕ → ℕ → ℕ
chunk_size per_chunk remainder id = per_chunk + (if ltb id remainder then 1 else 0)

-- The loop of `BuildDefault`, at `global_chunk_id` with `left` chunks to go. A chunk with no
-- layer is passed over; the cursor then stays, as 0 is added.
unfoldable pub default_chunks : ℕ → ℕ → ℕ → ℕ → ℕ → ℕ → List PlacedChunk
default_chunks num_stages per_chunk remainder zero id cursor = []
default_chunks num_stages per_chunk remainder (suc left) id cursor =
    let size = chunk_size per_chunk remainder id in
    let rest = default_chunks num_stages per_chunk remainder left (id + 1) (cursor + size) in
    if size == 0 then rest else chunk_at id (id % num_stages) (id / num_stages) cursor size ∷ rest

unfoldable pub allow_empty_if : Bool → PipelineLayoutPolicy → PipelineLayoutPolicy
allow_empty_if true policy = record policy { allow_empty_stages = true }
allow_empty_if false policy = policy

unfoldable pub build_default :
    ℤ → ℤ → ℤ → SpecialModulePlacement → PipelineLayoutPolicy → Result LayoutError PipelineLayout
unfolding default_chunks allow_empty_if build_placement construct
build_default num_layers num_stages vpp_size placement policy =
    let layers = pos_part num_layers in
    let stages = pos_part num_stages in
    let vpp = pos_part vpp_size in
    let total_chunks = stages * vpp in
    if leb_ℤ num_layers (pos 0)
    then err (LayoutError.num_layers_not_positive num_layers)
    else if leb_ℤ num_stages (pos 0)
    then err (LayoutError.num_stages_not_positive num_stages)
    else if leb_ℤ vpp_size (pos 0)
    then err (LayoutError.vpp_size_not_positive vpp_size)
    else if ltb int_max total_chunks
    then err LayoutError.too_many_chunks
    else construct layers stages vpp
        (default_chunks stages (layers / total_chunks) (layers % total_chunks) total_chunks 0 0)
        (build_placement placement stages) (allow_empty_if (ltb layers total_chunks) policy)

-- The first loop of `BuildContiguous`: it checks the counts and adds them up. The sum is an
-- `int` in the source; here it is not bounded.
unfoldable pub sum_counts : Bool → ℕ → List ℤ → ℕ → Result LayoutError ℕ
sum_counts allow_empty idx [] num_layers = ok num_layers
sum_counts allow_empty idx (count ∷ counts) num_layers =
    if ltb_ℤ count (pos 0)
    then err (LayoutError.negative_count count)
    else if (pos_part count == 0) && not allow_empty
    then err (LayoutError.zero_layer_stage idx)
    else sum_counts allow_empty (idx + 1) counts (num_layers + pos_part count)

-- The second loop. The counts are not negative any more.
unfoldable pub contiguous_chunks : ℕ → List ℤ → ℕ → List PlacedChunk
contiguous_chunks stage_id [] cursor = []
contiguous_chunks stage_id (count ∷ counts) cursor =
    let n = pos_part count in
    let rest = contiguous_chunks (stage_id + 1) counts (cursor + n) in
    if n == 0 then rest else chunk_at stage_id stage_id 0 cursor n ∷ rest

unfoldable pub build_contiguous :
    List ℤ → SpecialModulePlacement → PipelineLayoutPolicy → Result LayoutError PipelineLayout
unfolding sum_counts contiguous_chunks build_placement construct
build_contiguous [] placement policy = err LayoutError.no_stage_counts
build_contiguous (count ∷ counts) placement policy = do
  let num_stages = length (count ∷ counts)
  num_layers ← sum_counts policy.allow_empty_stages 0 (count ∷ counts) 0
  construct num_layers num_stages 1 (contiguous_chunks 0 (count ∷ counts) 0)
      (build_placement placement num_stages) policy

-- A placement that is within the stages once the defaults are put in, and at their ends where the
-- policy asks for that.
pub record PlacementFits (p : SpecialModulePlacement) (policy : PipelineLayoutPolicy) (n : ℕ)
    : Type 0 where
  pub embedding_in : IsStage (build_placement p n).embedding_stage n
  pub final_norm_in : IsStage (build_placement p n).final_norm_stage n
  pub lm_head_in : IsStage (build_placement p n).lm_head_stage n
  pub boundary : policy.require_boundary_special_modules ≡ true → AtBoundary (build_placement p n) n

-- With nothing asked for, the modules stand at the ends, under every policy.
pub default_placement-PlacementFits :
    (policy : PipelineLayoutPolicy) (n : ℕ) → 0 < n → PlacementFits default_placement policy n
unfolding build_placement
default_placement-PlacementFits policy n h = record {
  embedding_in = ground arith;
  final_norm_in = ground arith;
  lm_head_in = ground arith;
  boundary = λ _. record { first = refl; norm_last = refl; head_last = refl };
}

-- A builder has returned a valid layout, with its indexes.
pub record Builds (num_layers num_stages vpp_size : ℕ) (r : Result LayoutError PipelineLayout)
    : Type 0 where
  pub layout : PipelineLayout
  pub returns : r ≡ ok layout
  pub valid : IsValid layout
  pub indexed : build_indexes layout ≡ layout
  pub layers_are : layout.num_layers ≡ num_layers
  pub stages_are : layout.num_stages ≡ num_stages
  pub vpp_is : layout.vpp_size ≡ vpp_size

pub construct-Builds :
    (n s vpp : ℕ) (cs : List PlacedChunk) (p : SpecialModulePlacement)
    (policy : PipelineLayoutPolicy)
    → IsValid (bare_layout n s vpp cs p policy)
    → Builds n s vpp (construct n s vpp cs p policy)
unfolding construct build_indexes
construct-Builds n s vpp cs p policy v = record {
  layout = build_indexes (bare_layout n s vpp cs p policy);
  returns = rw ((validate_placed_iff (bare_layout n s vpp cs p policy)).1 v);
  valid = record {
    ranges = v.ranges;
    covered = v.covered;
    staged = v.staged;
    distinct = v.distinct;
    embedding_in = v.embedding_in;
    final_norm_in = v.final_norm_in;
    lm_head_in = v.lm_head_in;
    boundary = v.boundary;
    nonempty = v.nonempty;
    contiguous = v.contiguous;
  };
  indexed = refl;
  layers_are = refl;
  stages_are = refl;
  vpp_is = refl;
}

-- What a builder returns has passed `Validate`, and holds the chunks that it was given.
pub construct-eq-ok :
    (n s vpp : ℕ) (cs : List PlacedChunk) (p : SpecialModulePlacement)
    (policy : PipelineLayoutPolicy) (l : PipelineLayout)
    → construct n s vpp cs p policy ≡ ok l
    → IsValid (bare_layout n s vpp cs p policy)
      × (l ≡ build_indexes (bare_layout n s vpp cs p policy))
      × (l.chunks ≡ cs)
unfolding construct build_indexes
construct-eq-ok n s vpp cs p policy l e =
    let (done, passed, same) = >>=-eq-ok _ _ e in
    let known : build_indexes (bare_layout n s vpp cs p policy) ≡ l = ok-injective same in
    (
      (validate_placed_iff (bare_layout n s vpp cs p policy)).0 passed,
      sym known,
      sym (ap (λ (m : PipelineLayout). m.chunks) known),
    )
