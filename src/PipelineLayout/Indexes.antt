-- ===== src/PipelineLayout/Indexes.antt =====
-- `PipelineLayout::BuildIndexes`, `ValidateForCurrentPipelineTransport` and the queries.
pub mod Placed
pub mod Numbered
pub mod Located
pub mod Queries
use infini_train.Base.{
  ℕ, zero, suc, ◌+◌, ◌-◌, Bool, true, not, ◌||◌, List, [], ◌∷◌, ◌++◌, Option, none, some, Result,
  ok, err, ◌>>=◌, ◌>>◌, ltb, ◌==◌, if◌then◌else◌, get_elem?, get_or, set, replicate,
}
use infini_train.Base.Int.{ℤ, pos, pos_part, ltb_ℤ, leb_ℤ, eqb_ℤ}
use infini_train.PipelineLayout.{
  SpecialModule, PlacedChunk, StageLayout, LayerLocation, PipelineLayout, LayoutError, size,
}
use infini_train.PipelineLayout.Check.{Checked, validate, validate_placed}

abbrev pub Locations : Type 0
Locations = List (Option LayerLocation)

abbrev pub location_in : PlacedChunk → ℕ → LayerLocation
location_in c layer_id = record {
  stage_id = c.stage_id;
  global_chunk_id = c.global_chunk_id;
  local_chunk_id = c.local_chunk_id;
  index_in_chunk = layer_id - c.layers.start;
  flat_local_layer_index = 0;
}

unfoldable pub place_layers : PlacedChunk → ℕ → ℕ → Locations → Locations
place_layers c layer_id zero locs = locs
place_layers c layer_id (suc left) locs =
    place_layers c (layer_id + 1) left (set locs layer_id (some (location_in c layer_id)))

unfoldable pub place_chunks : List PlacedChunk → Locations → Locations
unfolding place_layers
place_chunks [] locs = locs
place_chunks (c ∷ cs) locs = place_chunks cs (place_layers c c.layers.start (size c.layers) locs)

-- The second loop, over the locations from the first layer on; a `none` is `stage_id < 0`.
unfoldable pub number_layers : Locations → List ℕ → Locations
number_layers [] stage_counter = []
number_layers (none ∷ locs) stage_counter = none ∷ number_layers locs stage_counter
number_layers (some loc ∷ locs) stage_counter =
    let n = get_or stage_counter loc.stage_id 0 in
    some (record loc { flat_local_layer_index = n })
    ∷ number_layers locs (set stage_counter loc.stage_id (n + 1))

unfoldable pub empty_stages : ℕ → ℕ → List StageLayout
empty_stages i zero = []
empty_stages i (suc left) =
    record { stage_id = i; global_chunk_ids = [] } ∷ empty_stages (i + 1) left

unfoldable pub add_chunk : List StageLayout → ℕ → ℕ → List StageLayout
add_chunk [] i id = []
add_chunk (s ∷ ss) zero id = record s { global_chunk_ids = s.global_chunk_ids ++ id ∷ [] } ∷ ss
add_chunk (s ∷ ss) (suc i) id = s ∷ add_chunk ss i id

unfoldable pub group_chunks : List PlacedChunk → List StageLayout → List StageLayout
unfolding add_chunk
group_chunks [] stages = stages
group_chunks (c ∷ cs) stages = group_chunks cs (add_chunk stages c.stage_id c.global_chunk_id)

unfoldable pub build_indexes : PipelineLayout → PipelineLayout
unfolding place_chunks number_layers empty_stages group_chunks
build_indexes l = record l {
  layer_locations =
      number_layers (place_chunks l.chunks (replicate l.num_layers none))
        (replicate l.num_stages 0);
  stages = group_chunks l.chunks (empty_stages 0 l.num_stages);
}

unfoldable pub check_transport : ℕ → List StageLayout → Checked
check_transport i [] = ok tt
check_transport i (s ∷ ss) = elim s.global_chunk_ids [
  | [] ↦ err (LayoutError.stage_without_chunk i)
  | id ∷ ids ↦ check_transport (i + 1) ss
]

unfoldable pub validate_for_transport : PipelineLayout → Checked
unfolding validate check_transport
validate_for_transport l = do validate_placed l; check_transport 0 l.stages

or_out_of_range {ℓ} : {A : Type ℓ} → Option A → LayoutError → Result LayoutError A
or_out_of_range (some a) e = ok a
or_out_of_range none e = err e

-- Past its test an index is in range, so the read of the vector finds an element.
unfoldable pub stage : PipelineLayout → ℤ → Result LayoutError StageLayout
unfolding or_out_of_range
stage l stage_id =
    let e = LayoutError.stage_id_out_of_range stage_id l.num_stages in
    if ltb_ℤ stage_id (pos 0) || leb_ℤ (pos l.num_stages) stage_id
    then err e
    else or_out_of_range (get_elem? l.stages (pos_part stage_id)) e

unfoldable pub find_chunk : List PlacedChunk → ℕ → Result LayoutError PlacedChunk
find_chunk [] id = err (LayoutError.chunk_not_found id)
find_chunk (c ∷ cs) id = if c.global_chunk_id == id then ok c else find_chunk cs id

unfoldable pub chunk : PipelineLayout → ℕ → Result LayoutError PlacedChunk
unfolding find_chunk
chunk l global_chunk_id = find_chunk l.chunks global_chunk_id

-- A location that was never set is an error here; on a valid layout each one is set.
unfoldable pub set_location :
    Option (Option LayerLocation) → LayoutError → Result LayoutError LayerLocation
set_location (some (some loc)) e = ok loc
set_location (some none) e = err e
set_location none e = err e

unfoldable pub locate_layer : PipelineLayout → ℤ → Result LayoutError LayerLocation
unfolding set_location
locate_layer l layer_id =
    let e = LayoutError.layer_id_out_of_range layer_id l.num_layers in
    if ltb_ℤ layer_id (pos 0) || leb_ℤ (pos l.num_layers) layer_id
    then err e
    else set_location (get_elem? l.layer_locations (pos_part layer_id)) e

unfoldable pub stage_of_layer : PipelineLayout → ℤ → Result LayoutError ℕ
unfolding locate_layer
stage_of_layer l layer_id = do loc ← locate_layer l layer_id; ok loc.stage_id

unfoldable pub local_layer_index : PipelineLayout → ℤ → ℤ → Result LayoutError ℕ
unfolding locate_layer
local_layer_index l stage_id layer_id =
    if ltb_ℤ stage_id (pos 0) || leb_ℤ (pos l.num_stages) stage_id
    then err (LayoutError.stage_id_out_of_range stage_id l.num_stages)
    else (locate_layer l layer_id >>= λ loc.
        if not (loc.stage_id == pos_part stage_id)
        then err
            (LayoutError.layer_of_other_stage (pos_part layer_id) loc.stage_id (pos_part stage_id))
        else ok loc.flat_local_layer_index)

unfoldable pub chunk_of_layer : PipelineLayout → ℤ → Result LayoutError PlacedChunk
unfolding locate_layer chunk
chunk_of_layer l layer_id = do loc ← locate_layer l layer_id; chunk l loc.global_chunk_id

unfoldable pub owns : PipelineLayout → SpecialModule → ℤ → Bool
owns l SpecialModule.embedding stage_id = eqb_ℤ l.placement.embedding_stage stage_id
owns l SpecialModule.final_norm stage_id = eqb_ℤ l.placement.final_norm_stage stage_id
owns l SpecialModule.lm_head stage_id = eqb_ℤ l.placement.lm_head_stage stage_id
