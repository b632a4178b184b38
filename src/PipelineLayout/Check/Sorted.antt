-- ===== src/PipelineLayout/Check/Sorted.antt =====
-- The last part of `Validate`: it sorts the chunks, and passes just when they are contiguous.
use infini_train.Base.{
  ℕ, ◌≤◌, ◌<◌, ◌≡◌, refl, sym, ap, ◌∙◌, subst, ◌↔◌, inl, inr, Bool, false, List, [], ◌∷◌, ok, ltb,
  ◌==◌, ==-refl, All, All-map, Bool-cases, map, arith,
}
use infini_train.Base.Int.{pos, neg_part, eqb_ℤ}
use infini_train.Base.Sort.{sort, select, select-sort, sort-IsSorted, All-sort, IsSorted}
use infini_train.PipelineLayout.{ChunkLayout, PlacedChunk, placed}
use infini_train.PipelineLayout.Check.{starts_before, check_adjacent, check_contiguous}
use infini_train.PipelineLayout.Valid.{Adjacent, InOrder, starting, Contiguous}

-- Chunks whose starts are above `k` do not start at `k`.
starting_above :
    (k : ℕ) (cs : List PlacedChunk) → All (λ d. k < d.layers.start) cs → starting k cs ≡ []
starting_above k [] h = refl
starting_above k (c ∷ cs) h =
    let other : (c.layers.start == k) ≡ false = ground (arith, h.0) in
    rw other (starting_above k cs h.1)

starting_first :
    (c : PlacedChunk) (cs : List PlacedChunk)
    → starting c.layers.start (c ∷ cs) ≡ c ∷ starting c.layers.start cs
starting_first c cs = rw (==-refl c.layers.start) refl

cons-injective : {A : Type 0} {x y : A} {xs ys : List A} → x ∷ xs ≡ y ∷ ys → (x ≡ y) × (xs ≡ ys)
cons-injective e = (cc, cc)

-- A chunk that starts before all of the chunks of a list cannot be one of the same chunks.
no_match :
    (c d : PlacedChunk) (cs ds : List PlacedChunk)
    → InOrder (d ∷ ds)
    → starting c.layers.start (c ∷ cs) ≡ starting c.layers.start (d ∷ ds)
    → ltb c.layers.start d.layers.start ≡ false
no_match c d cs ds order same = elim (Bool-cases (ltb c.layers.start d.layers.start)) [
  | inr later ↦ later
  | inl before ↦
      let lt : c.layers.start < d.layers.start = ground arith in
      let above =
        All-map (λ (e : PlacedChunk). d.layers.start ≤ e.layers.start)
          (λ e. c.layers.start < e.layers.start) (λ e le. omega (arith, lt, le)) ds order.0 in
      cc (sym (starting_first c cs) ∙ same ∙ starting_above c.layers.start (d ∷ ds) (lt, above))
]

-- Two lists in order with the same chunks at each start are the same.
InOrder-unique :
    (cs ds : List PlacedChunk)
    → InOrder cs
    → InOrder ds
    → ((k : ℕ) → starting k cs ≡ starting k ds)
    → cs ≡ ds
InOrder-unique [] [] oc od same = refl
InOrder-unique [] (d ∷ ds) oc od same = cc (same d.layers.start ∙ starting_first d ds)
InOrder-unique (c ∷ cs) [] oc od same = cc (sym (starting_first c cs) ∙ same c.layers.start)
InOrder-unique (c ∷ cs) (d ∷ ds) oc od same =
    let lo = no_match c d cs ds od (same c.layers.start) in
    let hi = no_match d c ds cs oc (sym (same d.layers.start)) in
    let level : c.layers.start ≡ d.layers.start = ground arith in
    let at_d =
      subst (λ k. starting d.layers.start (c ∷ cs) ≡ d ∷ starting k ds) refl
        (same d.layers.start ∙ starting_first d ds) in
    let at_c = subst (λ k. starting k (c ∷ cs) ≡ c ∷ starting k cs) level (starting_first c cs) in
    let (head, tail) = cons-injective (sym at_c ∙ at_d) in
    let rest : (k : ℕ) → starting k cs ≡ starting k ds = λ k.
      elim (Bool-cases (d.layers.start == k)) [
        | inl here ↦
            let e : d.layers.start ≡ k = ground arith in
            subst (λ j. starting j cs ≡ starting j ds) e tail
        | inr other ↦
            let miss : (c.layers.start == k) ≡ false = ground (arith, level) in
            let now = same k in rw (miss, other) at now
      ] in
    ap (λ h. h ∷ cs) head ∙ ap (λ t. d ∷ t) (InOrder-unique cs ds oc.1 od.1 rest)

abbrev pub Ends : ChunkLayout → Type 0
Ends c = (neg_part c.layers.start ≡ 0) × (neg_part c.layers.end ≡ 0)

check_adjacent_iff :
    (cs : List ChunkLayout) → All Ends cs → (check_adjacent cs ≡ ok tt) ↔ Adjacent (map placed cs)
unfolding check_adjacent
check_adjacent_iff [] h = (λ e. tt, λ a. refl)
check_adjacent_iff (a ∷ []) h = (λ e. tt, λ a. refl)
check_adjacent_iff (a ∷ b ∷ cs) h =
    let rest = check_adjacent_iff (b ∷ cs) h.1 in
    let ends = h.0.1 in
    let starts = h.1.0.0 in
    elim (Bool-cases (eqb_ℤ b.layers.start a.layers.end)) [
      | inl fine ↦ rw fine (λ e. (ground (arith, ends, starts), rest.0 e), λ k. rest.1 k.1)
      | inr gap ↦ rw gap (λ e. cc, λ k. absurd (ground (arith, k.0, ends, starts)))
    ]

IsSorted-InOrder :
    (cs : List ChunkLayout) → All Ends cs → IsSorted starts_before cs → InOrder (map placed cs)
IsSorted-InOrder [] h sorted = tt
IsSorted-InOrder (a ∷ []) h sorted = (tt, tt)
IsSorted-InOrder (a ∷ b ∷ cs) h sorted =
    let rest = IsSorted-InOrder (b ∷ cs) h.1 sorted.1 in
    let first : (placed a).layers.start ≤ (placed b).layers.start =
      ground (arith, sorted.0, h.0.0, h.1.0.0) in
    let later =
      All-map (λ (e : PlacedChunk). (placed b).layers.start ≤ e.layers.start)
        (λ e. (placed a).layers.start ≤ e.layers.start) (λ e le. omega (arith, first, le))
        (map placed cs) rest.0 in
    ((first, later), rest)

abbrev starts_at : ℕ → ChunkLayout → Bool
starts_at k c = eqb_ℤ c.layers.start (pos k)

starting-placed :
    (k : ℕ) (cs : List ChunkLayout)
    → All Ends cs
    → starting k (map placed cs) ≡ map placed (select (starts_at k) cs)
starting-placed k [] h = refl
starting-placed k (c ∷ cs) h =
    let test : starts_at k c ≡ ((placed c).layers.start == k) = ground (arith, h.0.0) in
    elim (Bool-cases ((placed c).layers.start == k)) [
      | inl here ↦ rw (test, here) (ap (λ t. placed c ∷ t) (starting-placed k cs h.1))
      | inr other ↦ rw (test, other) (starting-placed k cs h.1)
    ]

module _ (cs : List ChunkLayout) (ends : All Ends cs) where
  sorted : List ChunkLayout
  sorted = sort starts_before cs

  sorted-Ends : All Ends sorted
  unfolding sorted
  sorted-Ends = All-sort starts_before Ends cs ends

  sorted-InOrder : InOrder (map placed sorted)
  unfolding sorted
  sorted-InOrder =
      IsSorted-InOrder (sort starts_before cs) sorted-Ends
        (sort-IsSorted starts_before (λ x y e. ground arith) cs)

  starting-sorted : (k : ℕ) → starting k (map placed sorted) ≡ starting k (map placed cs)
  unfolding sorted
  starting-sorted k =
      starting-placed k (sort starts_before cs) sorted-Ends
      ∙ ap (map placed) (select-sort starts_before (starts_at k) (λ x y a b. ground arith) cs)
      ∙ sym (starting-placed k cs ends)

  pub check_contiguous_iff : (check_contiguous cs ≡ ok tt) ↔ Contiguous (map placed cs)
  unfolding check_contiguous sorted
  check_contiguous_iff =
      let adjacent = check_adjacent_iff sorted sorted-Ends in
      (
        λ e. record {
          ordered = map placed sorted;
          in_order = sorted-InOrder;
          same_chunks = starting-sorted;
          adjacent = adjacent.0 e;
        },
        λ h.
            let same =
              InOrder-unique h.ordered (map placed sorted) h.in_order sorted-InOrder
                (λ k. h.same_chunks k ∙ sym (starting-sorted k)) in
            adjacent.1 (subst Adjacent same h.adjacent),
      )
