-- ===== src/PipelineLayout/Indexes/Located.antt =====
-- The queries on a valid layout: `locate_layer`, `chunk_of_layer` and the numbering on a stage.
use infini_train.Base.{
  ℕ, zero, suc, ◌+◌, ◌≤◌, ◌<◌, ◌≡◌, sym, subst, ◌∙◌, ap, inl, inr, true, false, ◌||◌, List, [], ◌∷◌,
  none, some, ok, ◌==◌, All, ◌∈◌, length, get_elem?, get_or, replicate, length-replicate,
  get_or-replicate, arith,
}
use infini_train.Base.Int.{pos, ltb_ℤ, leb_ℤ}
use infini_train.Base.Sort.{bit}
use infini_train.PipelineLayout.{LayerLocation, PlacedChunk, PipelineLayout, contains}
use infini_train.PipelineLayout.Indexes.{
  Locations, location_in, place_chunks, build_indexes, locate_layer, set_location,
}
use infini_train.PipelineLayout.Indexes.Placed.{
  Placed, place_chunks-Placed, stage_covers, length-place_chunks,
}
use infini_train.PipelineLayout.Indexes.Numbered.{
  earlier, earlier-zero, earlier-suc, numbered, StageBelow, get_elem?-number_layers,
}
use infini_train.PipelineLayout.Valid.{IsValid}

-- The layers before the i-th that stage `s` holds.
abbrev pub stage_layers_below : List PlacedChunk → ℕ → ℕ → ℕ
stage_layers_below cs s zero = 0
stage_layers_below cs s (suc i) = stage_layers_below cs s i + stage_covers s i cs

pub All-member {κ} :
    (P : PlacedChunk → Type κ) (cs : List PlacedChunk) (c : PlacedChunk) → All P cs → c ∈ cs → P c
All-member P [] c h m = absurd m
All-member P (x ∷ cs) c h m = elim m [
  | inl e ↦ subst P (sym e) h.0
  | inr t ↦ All-member P cs c h.1 t
]

All-of_entries :
    (k : ℕ) (locs : Locations)
    → ((i : ℕ)
        → i < length locs
        → (loc : LayerLocation) × (get_elem? locs i ≡ some (some loc)) × (loc.stage_id < k))
    → All (StageBelow k) locs
All-of_entries k [] h = tt
All-of_entries k (x ∷ xs) h =
    let (loc, e, lt) = h 0 (omega arith) in
    let known : x ≡ some loc = cc in
    (rw known lt, All-of_entries k xs (λ i hi. h (suc i) (omega arith)))

-- What an indexed layout says of layer `i`.
pub record Located (l : PipelineLayout) (i : ℕ) : Type 0 where
  pub owner : PlacedChunk
  pub member : owner ∈ l.chunks
  pub holds : contains owner.layers i ≡ true
  pub on_own_stage : (s : ℕ) → stage_covers s i l.chunks ≡ bit (owner.stage_id == s)
  pub found :
      locate_layer (build_indexes l) (pos i)
      ≡ ok (record (location_in owner i) {
        flat_local_layer_index = stage_layers_below l.chunks owner.stage_id i;
      })

module _ (l : PipelineLayout) (v : IsValid l) where
  locs : Locations
  locs = place_chunks l.chunks (replicate l.num_layers none)

  placed : (i : ℕ) → i < l.num_layers → Placed l.chunks (replicate l.num_layers none) i
  placed i h =
      place_chunks-Placed l.num_layers l.chunks (replicate l.num_layers none) i
        (length-replicate l.num_layers none) v.ranges (v.covered i h)

  length-locs : length locs ≡ l.num_layers
  unfolding locs
  length-locs =
      length-place_chunks l.chunks (replicate l.num_layers none)
      ∙ length-replicate l.num_layers none

  All-locs : All (StageBelow l.num_stages) locs
  unfolding locs
  All-locs = All-of_entries l.num_stages locs (λ i h.
      let p = placed i (omega (arith, length-locs)) in
      (
        location_in p.owner i,
        p.entry,
        All-member (λ c. c.stage_id < l.num_stages) l.chunks p.owner v.staged p.member,
      ))

  earlier-locs : (s i : ℕ) → i ≤ l.num_layers → earlier locs s i ≡ stage_layers_below l.chunks s i
  unfolding locs
  earlier-locs s zero h = earlier-zero locs s
  earlier-locs s (suc i) h =
      let p = placed i h in
      earlier-suc locs s i _ p.entry ∙ omega (arith, earlier-locs s i (omega arith), p.on_stage s)

  pub locate_layer-Located : (i : ℕ) → i < l.num_layers → Located l i
  unfolding locate_layer set_location build_indexes locs
  locate_layer-Located i h =
      let p = placed i h in
      let number =
        get_elem?-number_layers l.num_stages locs (replicate l.num_stages 0) i
          (location_in p.owner i) (omega (arith, length-replicate {A = ℕ} l.num_stages 0)) All-locs
          p.entry in
      let same : get_or (replicate {A = ℕ} l.num_stages 0) p.owner.stage_id 0
            + earlier locs p.owner.stage_id i
          ≡ stage_layers_below l.chunks p.owner.stage_id i =
        omega (
          arith,
          earlier-locs p.owner.stage_id i (omega arith),
          get_or-replicate {A = ℕ} l.num_stages p.owner.stage_id 0,
        ) in
      let inside : (ltb_ℤ (pos i) (pos 0) || leb_ℤ (pos l.num_layers) (pos i)) ≡ false =
        ground arith in
      record {
        owner = p.owner;
        member = p.member;
        holds = p.holds;
        on_own_stage = p.on_stage;
        found = rw (inside, number ∙ ap (numbered (location_in p.owner i)) same);
      }
