-- ===== src/PipelineParallel/Ranges.antt =====
-- `GetStageInfo` gives a stage the layers of its chunks in the layout that `BuildDefault` makes.
use native.Mathlib.Nat.{div-add-mod, add-mul-mod_self_left, mod-eq_of_lt}
use infini_train.Base.{
  ℕ, zero, suc, ◌+◌, ◌-◌, ◌*◌, ◌/◌, ◌%◌, ◌<◌, ◌≤◌, ◌≡◌, refl, sym, ◌∙◌, ap, arith, min, inl, inr,
  true, false, List, [], ◌∷◌, map, ltb, leb, ◌==◌, if◌then◌else◌, Bool-cases, ok,
}
use infini_train.Base.Int.{pos}
use infini_train.Base.Loops.{gather}
use infini_train.PipelineLayout.{
  PlacedRange, PlacedChunk, SpecialModulePlacement, PipelineLayoutPolicy, PipelineLayout,
}
use infini_train.PipelineLayout.Builders.{chunk_size, default_chunks, build_default}
use infini_train.PipelineLayout.Builders.Default.{build_default-chunks}
use infini_train.PipelineParallel.{
  chunk_start, chunk_end, chunk_ranges, stage_ranges, get_stage_info,
}
use infini_train.Base.Gathered.{gather_single, gather-add}

-- The chunks of a stage, in order.
abbrev pub chunks_of : ℕ → List PlacedChunk → List PlacedChunk
chunks_of rank [] = []
chunks_of rank (c ∷ cs) = if c.stage_id == rank then c ∷ chunks_of rank cs else chunks_of rank cs

-- The layer ranges of the chunks of a stage.
abbrev pub ranges_of : ℕ → List PlacedChunk → List PlacedRange
ranges_of rank cs = map (λ (c : PlacedChunk). c.layers) (chunks_of rank cs)

module _ (stages q r : ℕ) where
  -- The range of a chunk, if the chunk has layers.
  abbrev entry : ℕ → List PlacedRange
  entry id =
      if chunk_size q r id == 0
      then []
      else record { start = chunk_start q r id; end = chunk_start q r id + chunk_size q r id } ∷ []

  abbrev entry_on : ℕ → ℕ → List PlacedRange
  entry_on rank id = if id % stages == rank then entry id else []

  next_start : (id : ℕ) → chunk_start q r (id + 1) ≡ chunk_start q r id + chunk_size q r id
  unfolding chunk_start
  next_start id = elim (Bool-cases (leb r id)) [
    | inl past ↦
        let more : id + 1 - r ≡ id - r + 1 = ground arith in
        grind (arith, ap (λ (x : ℕ). x * q) more)
    | inr before ↦ grind arith
  ]

  ranges_of-default_chunks :
      (rank left id cursor : ℕ)
      → cursor ≡ chunk_start q r id
      → ranges_of rank (default_chunks stages q r left id cursor) ≡ gather (entry_on rank) id left
  unfolding default_chunks gather
  ranges_of-default_chunks rank zero id cursor e = refl
  ranges_of-default_chunks rank (suc left) id cursor e =
      let rest =
        ranges_of-default_chunks rank left (id + 1) (cursor + chunk_size q r id)
          (omega (arith, e, next_start id)) in
      elim (Bool-cases (chunk_size q r id == 0)) [
        | inl empty ↦ elim (Bool-cases (id % stages == rank)) [
          | inl own ↦ rw (empty, own) rest
          | inr other ↦ rw (empty, other) rest
        ]
        | inr full ↦ elim (Bool-cases (id % stages == rank)) [
          | inl own ↦ rw (full, own, e) (cc (rw e at rest))
          | inr other ↦ rw (full, other) rest
        ]
      ]

  round_stage : (k j : ℕ) → j < stages → (k * stages + j) % stages ≡ j
  round_stage k j h =
      let swapped : k * stages + j ≡ j + stages * k = grind arith in
      rw swapped (add-mul-mod_self_left j stages k ∙ mod-eq_of_lt h)

  -- Of the chunk ids of one round over the stages, one is on a given stage.
  entry_on-round :
      (rank k a : ℕ)
      → rank < stages
      → a ≡ k * stages
      → gather (entry_on rank) a stages ≡ entry (k * stages + rank)
  entry_on-round rank k a h e =
      let own : ((k * stages + rank) % stages == rank) ≡ true =
        ground (arith, round_stage k rank h) in
      gather_single (entry_on rank) a stages (k * stages + rank) (omega (arith, e))
        (omega (arith, e))
        (λ i lo hi ne.
          let at : i ≡ k * stages + (i - a) = omega (arith, e) in
          let on : i % stages ≡ i - a =
            ap (λ (x : ℕ). x % stages) at ∙ round_stage k (i - a) (omega arith) in
          let other : (i % stages == rank) ≡ false = ground (arith, on, at, e) in rw other)
      ∙ rw own

  entry_on-rounds :
      (rank k a left : ℕ)
      → rank < stages
      → a ≡ k * stages
      → gather (entry_on rank) a (stages * left) ≡ gather (λ j. entry (j * stages + rank)) k left
  unfolding gather
  entry_on-rounds rank k a zero h e =
      let none : stages * 0 ≡ 0 = omega arith in ap (λ (x : ℕ). gather (entry_on rank) a x) none
  entry_on-rounds rank k a (suc left) h e =
      let round : stages * suc left ≡ stages + stages * left = grind arith in
      ap (λ (x : ℕ). gather (entry_on rank) a x) round
      ∙ gather-add (entry_on rank) a stages (stages * left) (a + stages) refl
      ∙ rw (
        entry_on-round rank k a h e,
        entry_on-rounds rank (k + 1) (a + stages) left h (grind (arith, e)),
      )

chunk_start-zero : (q r : ℕ) → chunk_start q r 0 ≡ 0
unfolding chunk_start
chunk_start-zero q r = ground arith

module _ (n q r t id : ℕ) (split : t * q + r ≡ n) (hn : 0 < n) (h : id < t) where
  -- The chunks end within the layers, and each starts before their end.
  start-fits : chunk_start q r id + chunk_size q r id ≤ n
  unfolding chunk_start
  start-fits =
      let later : t ≡ id + 1 + (t - id - 1) = omega arith in
      let parts = ap (λ (x : ℕ). x * q) later in
      elim (Bool-cases (leb r id)) [
        | inl past ↦
            let offset : id ≡ r + (id - r) = ground arith in
            grind (arith, split, parts, ap (λ (x : ℕ). x * q) offset)
        | inr before ↦ grind (arith, split, parts)
      ]

  not_past : leb n (id * q) ≡ false
  not_past =
      let later : t ≡ id + 1 + (t - id - 1) = omega arith in
      let parts = ap (λ (x : ℕ). x * q) later in
      let room : 0 < q + r = grind (arith, split) in
      let below : id * q < n = grind (arith, split, parts) in ground (arith, below)

  end-sum : chunk_end q r id ≡ chunk_start q r id + chunk_size q r id
  unfolding chunk_end
  end-sum = ground arith

module _ (n stages vpp rank : ℕ) (hn : 0 < n) (hv : 0 < vpp) (hr : rank < stages) where
  abbrev total : ℕ
  total = stages * vpp

  abbrev q : ℕ
  q = n / total

  abbrev r : ℕ
  r = n % total

  split : total * q + r ≡ n
  split = div-add-mod n total

  chunk_ranges-entry : (id : ℕ) → id < total → chunk_ranges n q r id ≡ entry stages q r id
  unfolding chunk_ranges
  chunk_ranges-entry id h =
      let end : min (chunk_end q r id) n ≡ chunk_start q r id + chunk_size q r id =
        omega (arith, start-fits n q r total id split hn h, end-sum n q r total id split hn h) in
      elim (Bool-cases (chunk_size q r id == 0)) [
        | inl empty ↦
            let none : ltb (chunk_start q r id) (chunk_start q r id + chunk_size q r id) ≡ false =
              ground arith in
            rw (end, none, empty)
        | inr full ↦
            let some : ltb (chunk_start q r id) (chunk_start q r id + chunk_size q r id) ≡ true =
              ground arith in
            rw (end, some, full)
      ]

  stage_ranges-gather :
      (k left : ℕ)
      → k + left ≤ vpp
      → stage_ranges n stages rank q r k left
        ≡ gather (λ j. entry stages q r (j * stages + rank)) k left
  unfolding stage_ranges gather
  stage_ranges-gather k zero h = refl
  stage_ranges-gather k (suc left) h =
      let later : vpp ≡ k + 1 + (vpp - k - 1) = omega arith in
      let inside : k * stages + rank < total = grind (arith, ap (λ (x : ℕ). stages * x) later) in
      rw (
        not_past n q r total (k * stages + rank) split hn inside,
        chunk_ranges-entry (k * stages + rank) inside,
        stage_ranges-gather (k + 1) left (omega arith),
      )

  -- For a rank below the number of stages, and a positive number of layers and of chunks per
  -- stage: the layer ranges that `GetStageInfo` returns are those of the chunks of that stage, in
  -- order, in whatever layout `BuildDefault` returns for the same sizes.
  pub get_stage_info-ranges :
      (p : SpecialModulePlacement) (policy : PipelineLayoutPolicy) (l : PipelineLayout)
      → build_default (pos n) (pos stages) (pos vpp) p policy ≡ ok l
      → (get_stage_info n stages rank vpp).layer_ranges_per_chunk ≡ ranges_of rank l.chunks
  unfolding get_stage_info
  get_stage_info-ranges p policy l e =
      let made = build_default-chunks n stages vpp p policy hn (omega arith) hv l e in
      stage_ranges-gather 0 vpp (omega arith)
      ∙ sym (entry_on-rounds stages q r rank 0 0 vpp hr (omega arith))
      ∙ sym (ranges_of-default_chunks stages q r rank total 0 0 (sym (chunk_start-zero q r)))
      ∙ ap (ranges_of rank) (sym made)
