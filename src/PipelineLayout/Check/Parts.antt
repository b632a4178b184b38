-- ===== src/PipelineLayout/Check/Parts.antt =====
-- The other parts of `Validate`, each with the property that it decides.
use infini_train.Base.{
  ℕ, zero, suc, ◌+◌, ◌≤◌, ◌<◌, ◌≡◌, ◌≢◌, refl, ◌∙◌, ap, ◌↔◌, inl, inr, Bool, true, false, ◌||◌, map,
  List, [], ◌∷◌, ok, ltb, ◌==◌, All, length, get_or, set, replicate, length-set, length-replicate,
  get_or-replicate, Bool-cases, arith,
}
use infini_train.Base.Int.{ℤ, pos, negsuc, pos_part, neg_part, ltb_ℤ, leb_ℤ, ◌-ℤ◌, -ℤ_parts}
use infini_train.Base.Sort.{bit}
use infini_train.PipelineLayout.{SpecialModule, SpecialModulePlacement, ChunkLayout, placed}
use infini_train.PipelineLayout.Check.{
  check_stage_ids, has_id, check_unique_ids, check_stage_id, check_boundary, mark_stages,
  check_stages, check_nonempty,
}
use infini_train.PipelineLayout.Check.Coverage.{mark-set}
use infini_train.PipelineLayout.Valid.{busy_chunks, DistinctIds, IsStage, AtBoundary}

-- The `int` tests of a value, on the parts of it.
negative_cases : (z : ℤ) → (ltb_ℤ z (pos 0) ≡ false) ↔ (neg_part z ≡ 0)
negative_cases (pos n) = (λ e. refl, λ h. ground arith)
negative_cases (negsuc n) = (ground arith, λ h. absurd (omega (arith, h)))

abbrev pub Staged : ℕ → ChunkLayout → Type 0
Staged n c =
    (neg_part c.stage_id ≡ 0) × (neg_part c.global_chunk_id ≡ 0) × ((placed c).stage_id < n)

outside_cases :
    (n : ℕ) (z : ℤ)
    → ((ltb_ℤ z (pos 0) || leb_ℤ (pos n) z) ≡ false) ↔ ((neg_part z ≡ 0) × (pos_part z < n))
outside_cases n (pos k) = (λ e. (refl, ground arith), λ h. ground (arith, h.1))
outside_cases n (negsuc k) = (ground arith, λ h. absurd (omega (arith, h.0)))

pub check_stage_ids_iff :
    (n : ℕ) (cs : List ChunkLayout) → (check_stage_ids n cs ≡ ok tt) ↔ All (Staged n) cs
unfolding check_stage_ids
check_stage_ids_iff n [] = (λ e. tt, λ h. refl)
check_stage_ids_iff n (c ∷ cs) =
    let stage = outside_cases n c.stage_id in
    let id = negative_cases c.global_chunk_id in
    let rest = check_stage_ids_iff n cs in
    elim (Bool-cases (ltb_ℤ c.stage_id (pos 0) || leb_ℤ (pos n) c.stage_id)) [
      | inl bad ↦ rw bad (λ e. cc, λ h. cc (bad, stage.1 (h.0.0, h.0.2)))
      | inr fine ↦ elim (Bool-cases (ltb_ℤ c.global_chunk_id (pos 0))) [
        | inl bad ↦ rw (fine, bad) (λ e. cc, λ h. cc (bad, id.1 h.0.1))
        | inr good ↦
            rw (fine, good)
              (λ e. (((stage.0 fine).0, id.0 good, (stage.0 fine).1), rest.0 e), λ h. rest.1 h.1)
      ]
    ]

-- None of the ids so far is the id of a chunk of the list.
abbrev Fresh : List ℤ → List ChunkLayout → Type 0
Fresh ids cs = All (λ c. has_id c.global_chunk_id ids ≡ false) cs

abbrev pub Counted : ChunkLayout → Type 0
Counted c = neg_part c.global_chunk_id ≡ 0

abbrev pub Local : ChunkLayout → Type 0
Local c = neg_part c.local_chunk_id ≡ 0

Fresh-cons :
    (a : ℤ) (ids : List ℤ) (cs : List ChunkLayout)
    → neg_part a ≡ 0
    → All Counted cs
    → Fresh (a ∷ ids) cs
      ↔ (All (λ d. d.global_chunk_id ≢ pos_part a) (map placed cs) × Fresh ids cs)
unfolding has_id
Fresh-cons a ids [] ha hs = (λ h. (tt, tt), λ h. tt)
Fresh-cons a ids (c ∷ cs) ha hs =
    let rest = Fresh-cons a ids cs ha hs.1 in
    (
      λ h. let r = rest.0 h.1 in ((ground (arith, hs.0), r.0), (ground arith, r.1)),
      λ h. (ground (arith, hs.0), rest.1 (h.0.1, h.1.1)),
    )

check_unique_ids_lem :
    (ids : List ℤ) (cs : List ChunkLayout)
    → All Counted cs
    → (check_unique_ids ids cs ≡ ok tt)
      ↔ (Fresh ids cs × DistinctIds (map placed cs) × All Local cs)
unfolding check_unique_ids
check_unique_ids_lem ids [] hs = (λ e. (tt, tt, tt), λ h. refl)
check_unique_ids_lem ids (c ∷ cs) hs =
    let local = negative_cases c.local_chunk_id in
    elim (Bool-cases (has_id c.global_chunk_id ids)) [
      | inl old ↦ rw old (λ e. cc, λ h. cc)
      | inr new ↦ elim (Bool-cases (ltb_ℤ c.local_chunk_id (pos 0))) [
        | inl bad ↦ rw (new, bad) (λ e. cc, λ h. cc (bad, local.1 h.2.0))
        | inr good ↦
            let rest = check_unique_ids_lem (c.global_chunk_id ∷ ids) cs hs.1 in
            let fresh = Fresh-cons c.global_chunk_id ids cs hs.0 hs.1 in
            rw (new, good)
              (
                λ e.
                    let r = rest.0 e in
                    let f = fresh.0 r.0 in ((refl, f.1), (f.0, r.1), (local.0 good, r.2)),
                λ h. rest.1 (fresh.1 (h.1.0, h.0.1), h.1.1, h.2.1),
              )
      ]
    ]

All-no_ids : (cs : List ChunkLayout) → Fresh [] cs
unfolding has_id
All-no_ids [] = tt
All-no_ids (c ∷ cs) = (refl, All-no_ids cs)

pub check_unique_ids_iff :
    (cs : List ChunkLayout)
    → All Counted cs
    → (check_unique_ids [] cs ≡ ok tt) ↔ (DistinctIds (map placed cs) × All Local cs)
check_unique_ids_iff cs hs =
    let both = check_unique_ids_lem [] cs hs in
    (λ e. let b = both.0 e in (b.1, b.2), λ h. both.1 (All-no_ids cs, h.0, h.1))

pub check_stage_id_iff :
    (z : ℤ) (n : ℕ) (field : SpecialModule) → (check_stage_id z n field ≡ ok tt) ↔ IsStage z n
unfolding check_stage_id
check_stage_id_iff z n field = (ground arith, ground arith)

pub check_boundary_iff :
    (p : SpecialModulePlacement) (n : ℕ) → (check_boundary p n ≡ ok tt) ↔ AtBoundary p n
unfolding check_boundary
check_boundary_iff p n = (ground arith, ground arith)

-- What the marks of the stages read: ranges, and stages that are there.
abbrev pub Readable : ℕ → ChunkLayout → Type 0
Readable n c =
    (neg_part c.layers.start ≡ 0) × (neg_part c.layers.end ≡ 0) × ((placed c).stage_id < n)

size_test :
    (s e : ℤ)
    → neg_part s ≡ 0
    → neg_part e ≡ 0
    → ltb_ℤ (pos 0) (e -ℤ s) ≡ ltb (pos_part s) (pos_part e)
size_test s e hs he = ground (arith, -ℤ_parts e s)

mark_stages-busy :
    (cs : List ChunkLayout) (has : List Bool) (n i : ℕ)
    → length has ≡ n
    → All (Readable n) cs
    → i < n
    → (get_or (mark_stages cs has) i false ≡ true)
      ↔ (0 < bit (get_or has i false) + busy_chunks i (map placed cs))
unfolding mark_stages
mark_stages-busy [] has n i h staged lt = (λ e. ground arith, λ p. ground arith)
mark_stages-busy (c ∷ cs) has n i h staged lt =
    let test = size_test c.layers.start c.layers.end staged.0.0 staged.0.1 in
    elim (Bool-cases (ltb (placed c).layers.start (placed c).layers.end)) [
      | inl busy ↦
          let rest =
            mark_stages-busy cs (set has (placed c).stage_id true) n i
              (length-set has (placed c).stage_id true ∙ h) staged.1 lt in
          let now = mark-set has (placed c).stage_id i (omega (arith, h, staged.0.2)) in
          rw (test, busy) (λ e. ground (arith, rest.0 e, now), λ p. rest.1 (ground (arith, now)))
      | inr idle ↦
          let rest = mark_stages-busy cs has n i h staged.1 lt in
          rw (test, idle) (λ e. ground (arith, rest.0 e), λ p. rest.1 (ground arith))
    ]

check_stages_lem :
    (l left : ℕ) (has : List Bool)
    → (check_stages l left has ≡ ok tt)
      ↔ ((i : ℕ) → l ≤ i → i < l + left → get_or has i false ≡ true)
unfolding check_stages
check_stages_lem l zero has = (λ e i lo hi. absurd (omega arith), λ h. refl)
check_stages_lem l (suc left) has = elim (Bool-cases (get_or has l false)) [
  | inl marked ↦
      let rest = check_stages_lem (l + 1) left has in
      rw marked (
        λ e i lo hi. elim (Bool-cases (i == l)) [
          | inl same ↦ (let p : i ≡ l = ground arith in rw p marked)
          | inr other ↦ rest.0 e i (ground arith) (omega arith)
        ],
        λ h. rest.1 (λ i lo hi. h i (omega arith) (omega arith)),
      )
  | inr missed ↦ rw missed (λ e. cc, λ h. cc (h l (omega arith) (omega arith), missed))
]

pub check_nonempty_iff :
    (n : ℕ) (cs : List ChunkLayout)
    → All (Readable n) cs
    → (check_nonempty n cs ≡ ok tt) ↔ ((i : ℕ) → i < n → 0 < busy_chunks i (map placed cs))
unfolding check_nonempty
check_nonempty_iff n cs staged =
    let loop = check_stages_lem 0 n (mark_stages cs (replicate n false)) in
    let busy = λ (i : ℕ) (lt : i < n).
      mark_stages-busy cs (replicate n false) n i (length-replicate n false) staged lt in
    let blank = λ (i : ℕ). ap bit (get_or-replicate n i false) in
    (
      λ e i lt. omega (arith, (busy i lt).0 (loop.0 e i (omega arith) (omega arith)), blank i),
      λ h. loop.1 (λ i lo hi. (busy i (omega arith)).1 (omega (arith, h i (omega arith), blank i))),
    )
