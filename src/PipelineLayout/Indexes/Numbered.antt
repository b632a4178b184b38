-- ===== src/PipelineLayout/Indexes/Numbered.antt =====
-- The second loop of `BuildIndexes`: the layers of a stage are numbered from 0 in order.
use infini_train.Base.{
  ℕ, zero, suc, ◌+◌, ◌≤◌, ◌<◌, ◌≡◌, ◌≢◌, refl, ◌∙◌, ap, inl, inr, Bool, false, List, [], ◌∷◌,
  Option, none, some, ◌==◌, All, length, get_elem?, get_or, set, length-set, get_or-set_self,
  get_or-set_ne, Bool-cases, arith, if◌then◌else◌,
}
use infini_train.Base.Sort.{bit}
use infini_train.PipelineLayout.{LayerLocation}
use infini_train.PipelineLayout.Indexes.{Locations, number_layers}

abbrev pub on_stage : ℕ → Option LayerLocation → Bool
on_stage s none = false
on_stage s (some loc) = loc.stage_id == s

-- The entries before the i-th that are on stage `s`.
abbrev pub earlier : Locations → ℕ → ℕ → ℕ
earlier [] s i = 0
earlier (x ∷ xs) s zero = 0
earlier (x ∷ xs) s (suc i) = bit (on_stage s x) + earlier xs s i

-- An entry with its number on the stage.
abbrev pub numbered : LayerLocation → ℕ → Option (Option LayerLocation)
numbered loc n = some (some (record loc { flat_local_layer_index = n }))

abbrev pub StageBelow : ℕ → Option LayerLocation → Type 0
StageBelow k none = Unit
StageBelow k (some loc) = loc.stage_id < k

get_or-set :
    (counter : List ℕ) (s t v : ℕ)
    → t < length counter
    → get_or (set counter t v) s 0 ≡ (if s == t then v else get_or counter s 0)
get_or-set counter s t v h = elim (Bool-cases (s == t)) [
  | inl e ↦ (let p : s ≡ t = ground arith in rw (e, p) (get_or-set_self counter t v 0 h))
  | inr e ↦ (let p : t ≢ s = ground arith in rw e (get_or-set_ne counter t s v 0 p))
]

pub get_elem?-number_layers :
    (k : ℕ) (locs : Locations) (counter : List ℕ) (i : ℕ) (loc : LayerLocation)
    → k ≤ length counter
    → All (StageBelow k) locs
    → get_elem? locs i ≡ some (some loc)
    → get_elem? (number_layers locs counter) i
      ≡ numbered loc (get_or counter loc.stage_id 0 + earlier locs loc.stage_id i)
unfolding number_layers
get_elem?-number_layers k [] counter i loc h below e = cc
get_elem?-number_layers k (none ∷ xs) counter zero loc h below e = cc
get_elem?-number_layers k (none ∷ xs) counter (suc i) loc h below e =
    get_elem?-number_layers k xs counter i loc h below.1 e ∙ ap (numbered loc) (omega arith)
get_elem?-number_layers k (some x ∷ xs) counter zero loc h below e =
    let same : x ≡ loc = cc in rw same (ap (numbered loc) (omega arith))
get_elem?-number_layers k (some x ∷ xs) counter (suc i) loc h below e =
    let n = get_or counter x.stage_id 0 in
    let rest =
      get_elem?-number_layers k xs (set counter x.stage_id (n + 1)) i loc
        (omega (arith, length-set counter x.stage_id (n + 1))) below.1 e in
    let now = get_or-set counter loc.stage_id x.stage_id (n + 1) (omega (arith, below.0)) in
    rest ∙ ap (numbered loc) (ground (arith, now))

pub earlier-zero : (locs : Locations) (s : ℕ) → earlier locs s 0 ≡ 0
earlier-zero [] s = refl
earlier-zero (x ∷ xs) s = refl

pub earlier-suc :
    (locs : Locations) (s i : ℕ) (x : Option LayerLocation)
    → get_elem? locs i ≡ some x
    → earlier locs s (suc i) ≡ earlier locs s i + bit (on_stage s x)
earlier-suc [] s i x e = cc
earlier-suc (y ∷ ys) s zero x e =
    let same : y ≡ x = cc in rw same (omega (arith, earlier-zero ys s))
earlier-suc (y ∷ ys) s (suc i) x e = omega (arith, earlier-suc ys s i x e)
