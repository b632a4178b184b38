-- ===== src/PipelineLayout/Tiles.antt =====
-- Chunks in the order of their layers, with no gap: what every builder makes.
use infini_train.Base.{ℕ, suc, ◌≤◌, ◌<◌, ◌≡◌, ◌≢◌, refl, ◌&&◌, List, [], ◌∷◌, ltb, leb, All, arith}
use infini_train.Base.Sort.{bit}
use infini_train.PipelineLayout.{PlacedChunk}
use infini_train.PipelineLayout.Valid.{covers, InRange, DistinctIds, Adjacent, InOrder, Contiguous}

-- The ranges of the chunks, one after the other, make up `lo` to `hi`.
abbrev pub Tiles : ℕ → ℕ → List PlacedChunk → Type 0
Tiles lo hi [] = lo ≡ hi
Tiles lo hi (c ∷ cs) = (c.layers.start ≡ lo) × (lo ≤ c.layers.end) × Tiles c.layers.end hi cs

-- The ids go up, from `id` on.
abbrev pub Ascending : ℕ → List PlacedChunk → Type 0
Ascending id [] = Unit
Ascending id (c ∷ cs) = (id ≤ c.global_chunk_id) × Ascending (suc c.global_chunk_id) cs

pub Tiles-le : (lo hi : ℕ) (cs : List PlacedChunk) → Tiles lo hi cs → lo ≤ hi
Tiles-le lo hi [] t = omega arith
Tiles-le lo hi (c ∷ cs) t = omega (arith, Tiles-le c.layers.end hi cs t.2)

pub Tiles-InRange :
    (lo hi n : ℕ) (cs : List PlacedChunk) → Tiles lo hi cs → hi ≤ n → All (InRange n) cs
Tiles-InRange lo hi n [] t h = tt
Tiles-InRange lo hi n (c ∷ cs) t h =
    (omega (arith, Tiles-le c.layers.end hi cs t.2), Tiles-InRange c.layers.end hi n cs t.2 h)

-- A layer between `lo` and `hi` lies in one of the chunks, any other in none.
pub Tiles-covers :
    (lo hi i : ℕ) (cs : List PlacedChunk)
    → Tiles lo hi cs
    → covers i cs ≡ bit (leb lo i && ltb i hi)
Tiles-covers lo hi i [] t = ground arith
Tiles-covers lo hi i (c ∷ cs) t =
    ground (arith, Tiles-covers c.layers.end hi i cs t.2, Tiles-le c.layers.end hi cs t.2)

Tiles-Adjacent : (lo hi : ℕ) (cs : List PlacedChunk) → Tiles lo hi cs → Adjacent cs
Tiles-Adjacent lo hi [] t = tt
Tiles-Adjacent lo hi (c ∷ []) t = tt
Tiles-Adjacent lo hi (c ∷ d ∷ cs) t = (t.2.0, Tiles-Adjacent c.layers.end hi (d ∷ cs) t.2)

Tiles-above :
    (lo hi k : ℕ) (cs : List PlacedChunk)
    → Tiles lo hi cs
    → k ≤ lo
    → All (λ d. k ≤ d.layers.start) cs
Tiles-above lo hi k [] t h = tt
Tiles-above lo hi k (c ∷ cs) t h =
    (omega (arith, t.0), Tiles-above c.layers.end hi k cs t.2 (omega (arith, t.1)))

Tiles-InOrder : (lo hi : ℕ) (cs : List PlacedChunk) → Tiles lo hi cs → InOrder cs
Tiles-InOrder lo hi [] t = tt
Tiles-InOrder lo hi (c ∷ cs) t = (
  Tiles-above c.layers.end hi c.layers.start cs t.2 (omega (arith, t.0, t.1)),
  Tiles-InOrder c.layers.end hi cs t.2,
)

-- Such chunks pass the last check.
pub Tiles-Contiguous : (lo hi : ℕ) (cs : List PlacedChunk) → Tiles lo hi cs → Contiguous cs
Tiles-Contiguous lo hi cs t = record {
  ordered = cs;
  in_order = Tiles-InOrder lo hi cs t;
  same_chunks = λ k. refl;
  adjacent = Tiles-Adjacent lo hi cs t;
}

Ascending-above :
    (a id : ℕ) (cs : List PlacedChunk)
    → a < id
    → Ascending id cs
    → All (λ d. d.global_chunk_id ≢ a) cs
Ascending-above a id [] h up = tt
Ascending-above a id (c ∷ cs) h up =
    (omega (arith, up.0), Ascending-above a (suc c.global_chunk_id) cs (omega (arith, up.0)) up.1)

pub Ascending-DistinctIds : (id : ℕ) (cs : List PlacedChunk) → Ascending id cs → DistinctIds cs
Ascending-DistinctIds id [] up = tt
Ascending-DistinctIds id (c ∷ cs) up = (
  Ascending-above c.global_chunk_id (suc c.global_chunk_id) cs (omega arith) up.1,
  Ascending-DistinctIds (suc c.global_chunk_id) cs up.1,
)

pub Ascending-weaken : (a b : ℕ) (cs : List PlacedChunk) → a ≤ b → Ascending b cs → Ascending a cs
Ascending-weaken a b [] h up = tt
Ascending-weaken a b (c ∷ cs) h up = (omega (arith, up.0), up.1)
