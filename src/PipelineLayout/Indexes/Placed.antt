-- ===== src/PipelineLayout/Indexes/Placed.antt =====
-- The first loop of `BuildIndexes`: each layer is given the location that its chunk says.
use infini_train.Base.{
  ℕ, zero, suc, ◌+◌, ◌≤◌, ◌<◌, ◌≡◌, ◌≢◌, refl, ◌∙◌, ap, inl, inr, true, false, ◌&&◌, List, [], ◌∷◌,
  Option, some, ◌==◌, All, ◌∈◌, length, get_elem?, set, length-set, get_elem?-set_self,
  get_elem?-set_ne, Bool-cases, arith, if◌then◌else◌,
}
use infini_train.Base.Sort.{bit, count}
use infini_train.PipelineLayout.{PlacedChunk, LayerLocation, size, contains}
use infini_train.PipelineLayout.Indexes.{Locations, location_in, place_layers, place_chunks}
use infini_train.PipelineLayout.Valid.{covers, InRange}
use infini_train.PipelineLayout.Check.Coverage.{between, between-contains}

-- The number of chunks of stage `s` that hold layer `i`.
abbrev pub stage_covers : ℕ → ℕ → List PlacedChunk → ℕ
stage_covers s i cs = count (λ c. (c.stage_id == s) && contains c.layers i) cs

get_elem?-set :
    (locs : Locations) (l i : ℕ) (v : Option LayerLocation)
    → l < length locs
    → get_elem? (set locs l v) i ≡ (if i == l then some v else get_elem? locs i)
get_elem?-set locs l i v h = elim (Bool-cases (i == l)) [
  | inl e ↦ (let p : i ≡ l = ground arith in rw (e, p) (get_elem?-set_self locs l v h))
  | inr e ↦ (let p : l ≢ i = ground arith in rw e (get_elem?-set_ne locs l i v p))
]

pub length-place_layers :
    (c : PlacedChunk) (l left : ℕ) (locs : Locations)
    → length (place_layers c l left locs) ≡ length locs
unfolding place_layers
length-place_layers c l zero locs = refl
length-place_layers c l (suc left) locs =
    length-place_layers c (l + 1) left _ ∙ length-set locs l (some (location_in c l))

get_elem?-place_layers :
    (c : PlacedChunk) (l left : ℕ) (locs : Locations) (i : ℕ)
    → l + left ≤ length locs
    → get_elem? (place_layers c l left locs) i
      ≡ (if between l left i then some (some (location_in c i)) else get_elem? locs i)
unfolding place_layers
get_elem?-place_layers c l zero locs i h = ground arith
get_elem?-place_layers c l (suc left) locs i h =
    let v = some (location_in c l) in
    let rest =
      get_elem?-place_layers c (l + 1) left (set locs l v) i (omega (arith, length-set locs l v)) in
    let now = get_elem?-set locs l i v (omega arith) in ground (arith, rest, now)

pub length-place_chunks :
    (cs : List PlacedChunk) (locs : Locations) → length (place_chunks cs locs) ≡ length locs
unfolding place_chunks
length-place_chunks [] locs = refl
length-place_chunks (c ∷ cs) locs =
    length-place_chunks cs _ ∙ length-place_layers c c.layers.start (size c.layers) locs

-- Where one chunk has been placed.
get_elem?-place_chunk :
    (c : PlacedChunk) (locs : Locations) (n i : ℕ)
    → length locs ≡ n
    → InRange n c
    → get_elem? (place_layers c c.layers.start (size c.layers) locs) i
      ≡ (if contains c.layers i then some (some (location_in c i)) else get_elem? locs i)
get_elem?-place_chunk c locs n i h range =
    rw (← between-contains c i range.0)
      (get_elem?-place_layers c c.layers.start (size c.layers) locs i (omega arith))

-- A layer that no chunk holds keeps its entry.
get_elem?-place_none :
    (n : ℕ) (cs : List PlacedChunk) (locs : Locations) (i : ℕ)
    → length locs ≡ n
    → All (InRange n) cs
    → covers i cs ≡ 0
    → get_elem? (place_chunks cs locs) i ≡ get_elem? locs i
unfolding place_chunks
get_elem?-place_none n [] locs i h ranges e = refl
get_elem?-place_none n (c ∷ cs) locs i h ranges e =
    let out : contains c.layers i ≡ false = ground arith in
    get_elem?-place_none n cs _ i (length-place_layers c c.layers.start (size c.layers) locs ∙ h)
      ranges.1 (omega arith)
    ∙ get_elem?-place_chunk c locs n i h ranges.0
    ∙ rw out

stage_covers_none : (s i : ℕ) (cs : List PlacedChunk) → covers i cs ≡ 0 → stage_covers s i cs ≡ 0
stage_covers_none s i [] e = refl
stage_covers_none s i (c ∷ cs) e = ground (arith, stage_covers_none s i cs)

-- The chunk that holds a layer, and what the loop wrote for it.
pub record Placed (cs : List PlacedChunk) (locs : Locations) (i : ℕ) : Type 0 where
  pub owner : PlacedChunk
  pub member : owner ∈ cs
  pub holds : contains owner.layers i ≡ true
  pub entry : get_elem? (place_chunks cs locs) i ≡ some (some (location_in owner i))
  pub on_stage : (s : ℕ) → stage_covers s i cs ≡ bit (owner.stage_id == s)

pub place_chunks-Placed :
    (n : ℕ) (cs : List PlacedChunk) (locs : Locations) (i : ℕ)
    → length locs ≡ n
    → All (InRange n) cs
    → covers i cs ≡ 1
    → Placed cs locs i
unfolding place_chunks
place_chunks-Placed n [] locs i h ranges e = absurd (omega arith)
place_chunks-Placed n (c ∷ cs) locs i h ranges e =
    let long = length-place_layers c c.layers.start (size c.layers) locs ∙ h in
    elim (Bool-cases (contains c.layers i)) [
      | inl inside ↦
          let none_left : covers i cs ≡ 0 = omega (arith, ap bit inside) in
          record {
            owner = c;
            member = inl refl;
            holds = inside;
            entry =
                get_elem?-place_none n cs _ i long ranges.1 none_left
                ∙ get_elem?-place_chunk c locs n i h ranges.0
                ∙ rw inside;
            on_stage = λ s. ground (arith, stage_covers_none s i cs none_left);
          }
      | inr outside ↦
          let p = place_chunks-Placed n cs _ i long ranges.1 (omega (arith, ap bit outside)) in
          record {
            owner = p.owner;
            member = inr p.member;
            holds = p.holds;
            entry = p.entry;
            on_stage = λ s. ground (arith, p.on_stage s);
          }
    ]
