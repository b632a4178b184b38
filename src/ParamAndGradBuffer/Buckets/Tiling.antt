-- ===== src/ParamAndGradBuffer/Buckets/Tiling.antt =====
-- The order of the parameters in the buckets, and neighbours in a tiling.
use infini_train.Base.{
  ℕ, zero, suc, ◌+◌, ◌<◌, ◌≡◌, refl, sym, ap, ◌∙◌, subst, arith, some, List, [], ◌∷◌, ◌++◌, map,
  concat, length, get_elem?, append_assoc, append_nil,
}
use infini_train.ParamAndGradBuffer.{ParamIndex, BucketRange}
use infini_train.ParamAndGradBuffer.Placing.{Stacked, Tiled}
use infini_train.ParamAndGradBuffer.Buckets.{ParamAndGradBucket}

-- Parameters `i` to `i + n - 1`, the last one first.
unfoldable pub backprop_order : ℕ → ℕ → List ℕ
backprop_order i zero = []
backprop_order i (suc n) = backprop_order (i + 1) n ++ i ∷ []

abbrev pub params_of : List ParamAndGradBucket → List (List ℕ)
params_of bs = map (λ b. b.params) bs

pub concat-params_of :
    (bs : List ParamAndGradBucket) (b : ParamAndGradBucket)
    → concat (params_of (bs ++ b ∷ [])) ≡ concat (params_of bs) ++ b.params
concat-params_of [] b = append_nil b.params
concat-params_of (x ∷ xs) b =
    ap (λ t. x.params ++ t) (concat-params_of xs b) ∙ sym (append_assoc x.params _ b.params)

pub Stacked-length :
    (ns : List ℕ) (top : ℕ) (es : List ParamIndex) → Stacked ns top es → length es ≡ length ns
Stacked-length [] top [] h = refl
Stacked-length [] top (e ∷ es) h = absurd h
Stacked-length (n ∷ ns) top [] h = absurd h
Stacked-length (n ∷ ns) top (e ∷ es) h = ap suc (Stacked-length ns e.start_index es h.2)

pub not_empty : {A : Type 0} (xs : List A) → 0 < length xs → (y : A) × (ys : List A) × (xs ≡ y ∷ ys)
not_empty [] h = absurd (omega arith)
not_empty (x ∷ xs) h = (x, xs, refl)

-- The first range of a tiling starts where the tiling does.
pub Tiled-first :
    (a b : ℕ) (rs : List BucketRange) (r : BucketRange)
    → Tiled a rs b
    → get_elem? rs 0 ≡ some r
    → r.first ≡ a
Tiled-first a b [] r h e = cc
Tiled-first a b (x ∷ xs) r h e =
    let same : x ≡ r = cc in subst (λ (k : BucketRange). k.first ≡ a) same h.0

-- A range of a tiling starts where the one before it ends.
pub Tiled-next :
    (a b k : ℕ) (rs : List BucketRange) (r q : BucketRange)
    → Tiled a rs b
    → get_elem? rs k ≡ some r
    → get_elem? rs (k + 1) ≡ some q
    → q.first ≡ r.second
Tiled-next a b k [] r q h e f = cc
Tiled-next a b zero (x ∷ xs) r q h e f =
    let same : x ≡ r = cc in
    subst (λ (p : BucketRange). q.first ≡ p.second) same (Tiled-first x.second b xs q h.2 f)
Tiled-next a b (suc k) (x ∷ xs) r q h e f =
    Tiled-next x.second b k xs r q h.2 e (
      ap (λ (i : ℕ). get_elem? (x ∷ xs) i) (let i : suc (k + 1) ≡ suc k + 1 = omega arith in i) ∙ f)
