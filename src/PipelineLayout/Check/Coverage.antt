-- ===== src/PipelineLayout/Check/Coverage.antt =====
-- The marks of `Validate`: it passes its first part just when each layer lies in one chunk.
use infini_train.Base.{
  ℕ, zero, suc, ◌+◌, ◌≤◌, ◌<◌, ◌≡◌, ◌≢◌, refl, ◌∙◌, ap, ◌↔◌, inl, inr, Bool, true, false, ◌&&◌,
  List, [], ◌∷◌, ok, ltb, leb, ◌==◌, All, map, length, get_or, set, replicate, length-set,
  get_or-set_self, get_or-set_ne, length-replicate, get_or-replicate, Bool-cases, arith, >>=-eq-ok,
  if◌then◌else◌,
}
use infini_train.Base.Int.{ℤ, pos, negsuc, pos_part, neg_part}
use infini_train.Base.Sort.{bit}
use infini_train.PipelineLayout.{ChunkLayout, PlacedChunk, size, contains, placed}
use infini_train.PipelineLayout.Check.{
  is_outside, mark_layers, mark_chunks, check_seen, check_coverage,
}
use infini_train.PipelineLayout.Valid.{covers, InRange}

abbrev pub mark : List Bool → ℕ → ℕ
mark seen i = bit (get_or seen i false)

abbrev pub between : ℕ → ℕ → ℕ → Bool
between lo left i = ltb i (lo + left) && leb lo i

pub mark-set :
    (seen : List Bool) (l i : ℕ)
    → l < length seen
    → mark (set seen l true) i ≡ (if i == l then 1 else mark seen i)
mark-set seen l i h = elim (Bool-cases (i == l)) [
  | inl e ↦ let p : i ≡ l = ground arith in rw (e, p) (ap bit (get_or-set_self seen l true false h))
  | inr e ↦ let p : l ≢ i = ground arith in rw e (ap bit (get_or-set_ne seen l i true false p))
]

-- What a list of marks has become: the range is marked, and nothing else has changed.
record Marked (extra : ℕ → ℕ) (seen seen' : List Bool) : Type 0 where
  same_length : length seen' ≡ length seen
  marks : (i : ℕ) → mark seen' i ≡ mark seen i + extra i

mark_layers-Marked :
    (l left : ℕ) (seen seen' : List Bool)
    → l + left ≤ length seen
    → mark_layers l left seen ≡ ok seen'
    → Marked (λ i. bit (between l left i)) seen seen'
unfolding mark_layers
mark_layers-Marked l zero seen seen' h e =
    let same : seen ≡ seen' = cc in
    rw (← same) (record { same_length = refl; marks = λ i. ground arith })
mark_layers-Marked l (suc left) seen seen' h e = elim (Bool-cases (get_or seen l false)) [
  | inl old ↦ cc (rw old at e)
  | inr new ↦
      let rest =
        mark_layers-Marked (l + 1) left (set seen l true) seen'
          (omega (arith, length-set seen l true)) (rw new at e) in
      record {
        same_length = rest.same_length ∙ length-set seen l true;
        marks = λ i. ground (arith, rest.marks i, mark-set seen l i (omega arith), ap bit new);
      }
]

mark_layers_total :
    (l left : ℕ) (seen : List Bool)
    → l + left ≤ length seen
    → ((i : ℕ) → mark seen i + bit (between l left i) ≤ 1)
    → (seen' : List Bool) × (mark_layers l left seen ≡ ok seen')
unfolding mark_layers
mark_layers_total l zero seen h free = (seen, refl)
mark_layers_total l (suc left) seen h free =
    let new : get_or seen l false ≡ false = ground (arith, free l) in
    rw new (
      mark_layers_total (l + 1) left (set seen l true) (omega (arith, length-set seen l true))
        (λ i. ground (arith, free i, mark-set seen l i (omega arith), ap bit new)))

-- The layers of a chunk are a range of marks.
pub between-contains :
    (c : PlacedChunk) (i : ℕ)
    → c.layers.start ≤ c.layers.end
    → between c.layers.start (size c.layers) i ≡ contains c.layers i
between-contains c i h = ground arith

-- The range of a chunk, as `int`s, is one of numbers.
abbrev pub Ranged : ℕ → ChunkLayout → Type 0
Ranged n c = (neg_part c.layers.start ≡ 0) × (neg_part c.layers.end ≡ 0) × InRange n (placed c)

not_outside :
    (n : ℕ) (s e : ℤ)
    → (is_outside n (record { start = s; end = e }) ≡ false)
      ↔ ((neg_part s ≡ 0) × (neg_part e ≡ 0) × ((pos_part s ≤ pos_part e) × (pos_part e ≤ n)))
not_outside n (pos s) (pos e) = (ground arith, ground arith)
not_outside n (pos s) (negsuc e) = (ground arith, λ h. absurd (omega (arith, h.1)))
not_outside n (negsuc s) e = (ground arith, λ h. absurd (omega (arith, h.0)))

mark_chunks-Marked :
    (n : ℕ) (cs : List ChunkLayout) (seen seen' : List Bool)
    → length seen ≡ n
    → mark_chunks n cs seen ≡ ok seen'
    → All (Ranged n) cs × Marked (λ i. covers i (map placed cs)) seen seen'
unfolding mark_chunks
mark_chunks-Marked n [] seen seen' h e =
    let same : seen ≡ seen' = cc in
    (tt, rw (← same) (record { same_length = refl; marks = λ i. omega arith }))
mark_chunks-Marked n (c ∷ cs) seen seen' h e = elim (Bool-cases (is_outside n c.layers)) [
  | inl bad ↦ cc (rw bad at e)
  | inr fine ↦
      let range = (not_outside n c.layers.start c.layers.end).0 fine in
      let (seen₁, marked, later) = >>=-eq-ok _ _ (rw fine at e) in
      let here =
        mark_layers-Marked (placed c).layers.start (size (placed c).layers) seen seen₁
          (omega (arith, range.2.0, range.2.1)) marked in
      let rest = mark_chunks-Marked n cs seen₁ seen' (here.same_length ∙ h) later in
      (
        (range, rest.0),
        record {
          same_length = rest.1.same_length ∙ here.same_length;
          marks = λ i. omega (
            arith,
            rest.1.marks i,
            here.marks i,
            ap bit (between-contains (placed c) i range.2.0),
          );
        },
      )
]

mark_chunks_total :
    (n : ℕ) (cs : List ChunkLayout) (seen : List Bool)
    → length seen ≡ n
    → All (Ranged n) cs
    → ((i : ℕ) → mark seen i + covers i (map placed cs) ≤ 1)
    → (seen' : List Bool) × (mark_chunks n cs seen ≡ ok seen')
unfolding mark_chunks
mark_chunks_total n [] seen h ranges free = (seen, refl)
mark_chunks_total n (c ∷ cs) seen h ranges free =
    let fine = (not_outside n c.layers.start c.layers.end).1 ranges.0 in
    let is = λ (i : ℕ). ap bit (between-contains (placed c) i ranges.0.2.0) in
    let (seen₁, marked) =
      mark_layers_total (placed c).layers.start (size (placed c).layers) seen
        (omega (arith, ranges.0.2.0, ranges.0.2.1)) (λ i. omega (arith, free i, is i)) in
    let here =
      mark_layers-Marked (placed c).layers.start (size (placed c).layers) seen seen₁
        (omega (arith, ranges.0.2.0, ranges.0.2.1)) marked in
    let rest =
      mark_chunks_total n cs seen₁ (here.same_length ∙ h) ranges.1
        (λ i. omega (arith, free i, here.marks i, is i)) in
    (rest.0, rw (fine, marked) rest.1)

check_seen_lem :
    (l left : ℕ) (seen : List Bool)
    → (check_seen l left seen ≡ ok tt)
      ↔ ((i : ℕ) → l ≤ i → i < l + left → get_or seen i false ≡ true)
unfolding check_seen
check_seen_lem l zero seen = (λ e i lo hi. absurd (omega arith), λ h. refl)
check_seen_lem l (suc left) seen = elim (Bool-cases (get_or seen l false)) [
  | inl marked ↦
      let rest = check_seen_lem (l + 1) left seen in
      rw marked (
        λ e i lo hi. elim (Bool-cases (i == l)) [
          | inl same ↦ (let p : i ≡ l = ground arith in rw p marked)
          | inr other ↦ rest.0 e i (ground arith) (omega arith)
        ],
        λ h. rest.1 (λ i lo hi. h i (omega arith) (omega arith)),
      )
  | inr missed ↦ rw missed (λ e. cc, λ h. cc (h l (omega arith) (omega arith), missed))
]

-- No chunk holds a layer beyond the last.
covers_beyond :
    (n i : ℕ) (cs : List ChunkLayout) → All (Ranged n) cs → n ≤ i → covers i (map placed cs) ≡ 0
covers_beyond n i [] h le = refl
covers_beyond n i (c ∷ cs) h le = ground (arith, covers_beyond n i cs h.1 le, h.0.2.0, h.0.2.1)

-- `Validate` passes its first part just when the ranges of the chunks lie within the model and
-- each layer of the model lies in exactly one of them.
pub check_coverage_iff :
    (n : ℕ) (cs : List ChunkLayout)
    → (check_coverage n cs ≡ ok tt)
      ↔ (All (Ranged n) cs × ((i : ℕ) → i < n → covers i (map placed cs) ≡ 1))
unfolding check_coverage
check_coverage_iff n cs = (sound, complete)
  where
    blank : (i : ℕ) → mark (replicate n false) i ≡ 0
    blank i = ap bit (get_or-replicate n i false)

    sound :
        check_coverage n cs ≡ ok tt
        → All (Ranged n) cs × ((i : ℕ) → i < n → covers i (map placed cs) ≡ 1)
    sound e =
        let (seen, marked, all) = >>=-eq-ok _ _ e in
        let m = mark_chunks-Marked n cs _ seen (length-replicate n false) marked in
        (
          m.0,
          λ i h. omega (
            arith,
            m.1.marks i,
            blank i,
            ap bit ((check_seen_lem 0 n seen).0 all i (omega arith) (omega arith)),
          ),
        )

    complete :
        All (Ranged n) cs × ((i : ℕ) → i < n → covers i (map placed cs) ≡ 1)
        → check_coverage n cs ≡ ok tt
    complete (ranges, once) =
        let (seen, marked) =
          mark_chunks_total n cs _ (length-replicate n false) ranges
            (λ i. ground (arith, blank i, once i, covers_beyond n i cs ranges)) in
        let m = mark_chunks-Marked n cs _ seen (length-replicate n false) marked in
        rw marked
          ((check_seen_lem 0 n seen).1 (λ i lo hi. ground (arith, m.1.marks i, blank i, once i)))
