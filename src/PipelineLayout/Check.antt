-- ===== src/PipelineLayout/Check.antt =====
-- `PipelineLayout::Validate`, part by part in the order of the source.
pub mod Coverage
pub mod Parts
pub mod Sorted
pub mod Exact
use infini_train.Base.{
  ℕ, zero, suc, ◌+◌, ◌-◌, ◌≡◌, Bool, true, false, not, ◌||◌, List, [], ◌∷◌, Result, ok, err, ◌>>=◌,
  ◌>>◌, require, if◌then◌else◌, map, get_or, set, replicate,
}
use infini_train.Base.Int.{ℤ, pos, sub_ℕ, ltb_ℤ, leb_ℤ, eqb_ℤ, ◌-ℤ◌}
use infini_train.Base.Sort.{sort}
use infini_train.PipelineLayout.{
  SpecialModule, SpecialModulePlacement, LayerRange, ChunkLayout, PipelineLayout, LayoutError, size,
  int_size, given, placed,
}

abbrev pub Checked : Type 0
Checked = Result LayoutError (Unit {0})

abbrev pub is_outside : ℕ → LayerRange → Bool
is_outside num_layers r =
    ltb_ℤ r.start (pos 0) || (ltb_ℤ r.end r.start || ltb_ℤ (pos num_layers) r.end)

-- The loop over the layers of one chunk, at layer `l` with `left` layers to go.
unfoldable pub mark_layers : ℕ → ℕ → List Bool → Result LayoutError (List Bool)
mark_layers l zero seen = ok seen
mark_layers l (suc left) seen =
    if get_or seen l false
    then err (LayoutError.layer_twice l)
    else mark_layers (l + 1) left (set seen l true)

unfoldable pub mark_chunks : ℕ → List ChunkLayout → List Bool → Result LayoutError (List Bool)
unfolding mark_layers
mark_chunks num_layers [] seen = ok seen
mark_chunks num_layers (c ∷ cs) seen =
    if is_outside num_layers c.layers
    then err (LayoutError.range_outside c)
    else (mark_layers (placed c).layers.start (size (placed c).layers) seen
        >>= mark_chunks num_layers cs)

unfoldable pub check_seen : ℕ → ℕ → List Bool → Checked
check_seen l zero seen = ok tt
check_seen l (suc left) seen =
    if not (get_or seen l false)
    then err (LayoutError.layer_unassigned l)
    else check_seen (l + 1) left seen

unfoldable pub check_coverage : ℕ → List ChunkLayout → Checked
unfolding mark_chunks check_seen
check_coverage num_layers chunks =
    mark_chunks num_layers chunks (replicate num_layers false) >>= check_seen 0 num_layers

unfoldable pub check_stage_ids : ℕ → List ChunkLayout → Checked
check_stage_ids num_stages [] = ok tt
check_stage_ids num_stages (c ∷ cs) =
    if ltb_ℤ c.stage_id (pos 0) || leb_ℤ (pos num_stages) c.stage_id
    then err (LayoutError.chunk_stage_outside c)
    else if ltb_ℤ c.global_chunk_id (pos 0)
    then err (LayoutError.negative_chunk_id c.global_chunk_id)
    else check_stage_ids num_stages cs

unfoldable pub has_id : ℤ → List ℤ → Bool
has_id a [] = false
has_id a (x ∷ xs) = eqb_ℤ a x || has_id a xs

-- The set `chunk_ids` is the list of the ids that it holds.
unfoldable pub check_unique_ids : List ℤ → List ChunkLayout → Checked
unfolding has_id
check_unique_ids chunk_ids [] = ok tt
check_unique_ids chunk_ids (c ∷ cs) =
    if has_id c.global_chunk_id chunk_ids
    then err (LayoutError.duplicate_chunk_id c.global_chunk_id)
    else if ltb_ℤ c.local_chunk_id (pos 0)
    then err (LayoutError.negative_local_chunk_id c.global_chunk_id c.local_chunk_id)
    else check_unique_ids (c.global_chunk_id ∷ chunk_ids) cs

-- `CheckStageId`, which names the field in its message.
unfoldable pub check_stage_id : ℤ → ℕ → SpecialModule → Checked
check_stage_id stage_id num_stages field =
    if ltb_ℤ stage_id (pos 0) || leb_ℤ (pos num_stages) stage_id
    then err (LayoutError.stage_outside field stage_id num_stages)
    else ok tt

abbrev pub last_stage : ℕ → ℤ
last_stage num_stages = sub_ℕ num_stages 1

unfoldable pub check_boundary : SpecialModulePlacement → ℕ → Checked
check_boundary p num_stages = do
  require (eqb_ℤ p.embedding_stage (pos 0)) (LayoutError.embedding_not_first p.embedding_stage)
  require (eqb_ℤ p.final_norm_stage (last_stage num_stages))
      (LayoutError.final_norm_not_last p.final_norm_stage)
  require (eqb_ℤ p.lm_head_stage (last_stage num_stages))
      (LayoutError.lm_head_not_last p.lm_head_stage)

unfoldable pub check_placement : SpecialModulePlacement → ℕ → Bool → Checked
unfolding check_stage_id check_boundary
check_placement p num_stages boundary = do
  check_stage_id p.embedding_stage num_stages SpecialModule.embedding
  check_stage_id p.final_norm_stage num_stages SpecialModule.final_norm
  check_stage_id p.lm_head_stage num_stages SpecialModule.lm_head
  if boundary then check_boundary p num_stages else ok tt

unfoldable pub mark_stages : List ChunkLayout → List Bool → List Bool
unfolding ◌-ℤ◌
mark_stages [] has = has
mark_stages (c ∷ cs) has =
    mark_stages cs
      (if ltb_ℤ (pos 0) (int_size c.layers) then set has (placed c).stage_id true else has)

unfoldable pub check_stages : ℕ → ℕ → List Bool → Checked
check_stages i zero has = ok tt
check_stages i (suc left) has =
    if not (get_or has i false)
    then err (LayoutError.empty_stage i)
    else check_stages (i + 1) left has

unfoldable pub check_nonempty : ℕ → List ChunkLayout → Checked
unfolding mark_stages check_stages
check_nonempty num_stages chunks =
    check_stages 0 num_stages (mark_stages chunks (replicate num_stages false))

abbrev pub starts_before : ChunkLayout → ChunkLayout → Bool
starts_before a b = ltb_ℤ a.layers.start b.layers.start

unfoldable pub check_adjacent : List ChunkLayout → Checked
check_adjacent [] = ok tt
check_adjacent (a ∷ []) = ok tt
check_adjacent (a ∷ b ∷ cs) =
    if not (eqb_ℤ b.layers.start a.layers.end)
    then err (LayoutError.not_contiguous a.layers b.layers)
    else check_adjacent (b ∷ cs)

-- `std::sort` leaves the order of chunks with one start open; here they keep theirs.
unfoldable pub check_contiguous : List ChunkLayout → Checked
unfolding sort check_adjacent
check_contiguous chunks = check_adjacent (sort starts_before chunks)

-- `Validate` of the layout `l` with the chunks `chunks`, the member `chunks_`.
unfoldable pub validate : PipelineLayout → List ChunkLayout → Checked
unfolding check_coverage check_stage_ids check_unique_ids check_placement check_nonempty
    check_contiguous
validate l chunks = do
  check_coverage l.num_layers chunks
  check_stage_ids l.num_stages chunks
  check_unique_ids [] chunks
  check_placement l.placement l.num_stages l.policy.require_boundary_special_modules
  if l.policy.allow_empty_stages then ok tt else check_nonempty l.num_stages chunks
  if l.policy.require_contiguous_execution then check_contiguous chunks else ok tt

-- `Validate` of a layout whose chunks have no negative field.
abbrev pub validate_placed : PipelineLayout → Checked
validate_placed l = validate l (map given l.chunks)
