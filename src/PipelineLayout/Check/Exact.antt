-- ===== src/PipelineLayout/Check/Exact.antt =====
-- `Validate` as a whole: it returns normally just on the valid layouts.
use infini_train.Base.{
  ℕ, ◌<◌, ◌≡◌, refl, sym, ap, subst, arith, All, List, [], ◌∷◌, map, ◌↔◌, true, false, Bool, ok,
  err, ◌>>◌, >>-eq-ok, if◌then◌else◌,
}
use infini_train.Base.Int.{ℤ, pos, negsuc, neg_part, ◌≤ℤ◌}
use infini_train.PipelineLayout.{
  SpecialModule, SpecialModulePlacement, ChunkLayout, PlacedChunk, PipelineLayout, given, placed,
}
use infini_train.PipelineLayout.Check.{
  Checked, validate, validate_placed, check_placement, check_boundary,
}
use infini_train.PipelineLayout.Check.Coverage.{Ranged, check_coverage_iff}
use infini_train.PipelineLayout.Check.Sorted.{Ends, check_contiguous_iff}
use infini_train.PipelineLayout.Check.Parts.{
  Staged, Counted, Local, Readable, check_stage_ids_iff, check_unique_ids_iff, check_stage_id_iff,
  check_boundary_iff, check_nonempty_iff,
}
use infini_train.PipelineLayout.Valid.{IsValid, NoneNegative, InRange, IsStage, AtBoundary}

-- A check that runs only where a flag of the policy asks for it.
checked_if : (b : Bool) (m : Checked) → ((if b then m else ok tt) ≡ ok tt) ↔ (b ≡ true → m ≡ ok tt)
checked_if true m = (λ e _. e, λ h. h refl)
checked_if false m = (λ e h. cc, λ h. refl)

checked_unless :
    (b : Bool) (m : Checked) → ((if b then ok tt else m) ≡ ok tt) ↔ (b ≡ false → m ≡ ok tt)
checked_unless true m = (λ e h. cc, λ h. refl)
checked_unless false m = (λ e _. e, λ h. h refl)

both_ok : (m k : Checked) → ((m >> k) ≡ ok tt) ↔ ((m ≡ ok tt) × (k ≡ ok tt))
both_ok (ok tt) k = (λ e. (refl, e), λ h. h.1)
both_ok (err e) k = (λ e. cc, λ h. cc)

check_placement_iff :
    (p : SpecialModulePlacement) (n : ℕ) (b : Bool)
    → (check_placement p n b ≡ ok tt) ↔ (
        IsStage p.embedding_stage n
        × IsStage p.final_norm_stage n
        × IsStage p.lm_head_stage n
        × (b ≡ true → AtBoundary p n))
unfolding check_placement
check_placement_iff p n b =
    let embedding = check_stage_id_iff p.embedding_stage n SpecialModule.embedding in
    let norm = check_stage_id_iff p.final_norm_stage n SpecialModule.final_norm in
    let head = check_stage_id_iff p.lm_head_stage n SpecialModule.lm_head in
    let at_boundary = checked_if b (check_boundary p n) in
    let bounds = check_boundary_iff p n in
    (
      λ e.
          let (e₁, r₁) = >>-eq-ok _ _ e in
          let (e₂, r₂) = >>-eq-ok _ _ r₁ in
          let (e₃, e₄) = >>-eq-ok _ _ r₂ in
          (embedding.0 e₁, norm.0 e₂, head.0 e₃, λ t. bounds.0 (at_boundary.0 e₄ t)),
      λ h. rw (embedding.1 h.0, norm.1 h.1, head.1 h.2) (at_boundary.1 (λ t. bounds.1 (h.3 t))),
    )

nonneg_iff : (z : ℤ) → (pos 0 ≤ℤ z) ↔ (neg_part z ≡ 0)
nonneg_iff (pos n) = (λ h. refl, λ h. omega arith)
nonneg_iff (negsuc n) = (λ h. absurd (omega (arith, h)), λ h. absurd (omega (arith, h)))

-- What the loops over the chunks test of the fields of each.
tested_iff :
    (n m : ℕ) (cs : List ChunkLayout)
    → (All (Ranged n) cs × All (Staged m) cs × All Local cs) ↔ (
        All NoneNegative cs
        × All (InRange n) (map placed cs)
        × All (λ c. c.stage_id < m) (map placed cs))
tested_iff n m [] = (λ h. (tt, tt, tt), λ h. (tt, tt, tt))
tested_iff n m (c ∷ cs) =
    let rest = tested_iff n m cs in
    (
      λ h.
          let r = rest.0 (h.0.1, h.1.1, h.2.1) in
          let here : NoneNegative c = record {
            global_chunk_id = (nonneg_iff c.global_chunk_id).1 h.1.0.1;
            stage_id = (nonneg_iff c.stage_id).1 h.1.0.0;
            local_chunk_id = (nonneg_iff c.local_chunk_id).1 h.2.0;
            start = (nonneg_iff c.layers.start).1 h.0.0.0;
            end = (nonneg_iff c.layers.end).1 h.0.0.1;
          } in
          ((here, r.0), (h.0.0.2, r.1), (h.1.0.2, r.2)),
      λ h.
          let r = rest.1 (h.0.1, h.1.1, h.2.1) in
          let none : NoneNegative c = h.0.0 in
          (
            (
              (
                (nonneg_iff c.layers.start).0 none.start,
                (nonneg_iff c.layers.end).0 none.end,
                h.1.0,
              ),
              r.0,
            ),
            (
              (
                (nonneg_iff c.stage_id).0 none.stage_id,
                (nonneg_iff c.global_chunk_id).0 none.global_chunk_id,
                h.2.0,
              ),
              r.1,
            ),
            ((nonneg_iff c.local_chunk_id).0 none.local_chunk_id, r.2),
          ),
    )

-- What the later parts need of the tested fields.
Readable-tested :
    (n m : ℕ) (cs : List ChunkLayout)
    → All (Ranged n) cs
    → All (Staged m) cs
    → All (Readable m) cs × All Ends cs × All Counted cs
Readable-tested n m [] h k = (tt, tt, tt)
Readable-tested n m (c ∷ cs) h k =
    let r = Readable-tested n m cs h.1 k.1 in
    (((h.0.0, h.0.1, k.0.2), r.0), ((h.0.0, h.0.1), r.1), (k.0.1, r.2))

pub validate_iff :
    (l : PipelineLayout) (chunks : List ChunkLayout)
    → (validate l chunks ≡ ok tt)
      ↔ (All NoneNegative chunks × IsValid (record l { chunks = map placed chunks }))
unfolding validate
validate_iff l chunks =
    let tested = tested_iff l.num_layers l.num_stages chunks in
    let cover = check_coverage_iff l.num_layers chunks in
    let stage_ids = check_stage_ids_iff l.num_stages chunks in
    let place = check_placement_iff l.placement l.num_stages _ in
    (
      λ e.
          let (e₁, r₁) = >>-eq-ok _ _ e in
          let (e₂, r₂) = >>-eq-ok _ _ r₁ in
          let (e₃, r₃) = >>-eq-ok _ _ r₂ in
          let (e₄, r₄) = >>-eq-ok _ _ r₃ in
          let (e₅, e₆) = >>-eq-ok _ _ r₄ in
          let (ranged, once) = cover.0 e₁ in
          let staged = stage_ids.0 e₂ in
          let (readable, ends, counted) = Readable-tested _ _ chunks ranged staged in
          let (distinct, local) = (check_unique_ids_iff chunks counted).0 e₃ in
          let (none_negative, in_range, in_stage) = tested.0 (ranged, staged, local) in
          let places = place.0 e₄ in
          (
            none_negative,
            record {
              ranges = in_range;
              covered = once;
              staged = in_stage;
              distinct = distinct;
              embedding_in = places.0;
              final_norm_in = places.1;
              lm_head_in = places.2;
              boundary = places.3;
              nonempty = λ t.
                  (check_nonempty_iff l.num_stages chunks readable).0 ((checked_unless _ _).0 e₅ t);
              contiguous = λ t. (check_contiguous_iff chunks ends).0 ((checked_if _ _).0 e₆ t);
            },
          ),
      λ (none_negative, v).
          let (ranged, staged, local) = tested.1 (none_negative, v.ranges, v.staged) in
          let (readable, ends, counted) = Readable-tested _ _ chunks ranged staged in
          rw
            (
              cover.1 (ranged, v.covered),
              stage_ids.1 staged,
              (check_unique_ids_iff chunks counted).1 (v.distinct, local),
              place.1 (v.embedding_in, v.final_norm_in, v.lm_head_in, v.boundary),
              (checked_unless _ _).1
                  (λ t. (check_nonempty_iff l.num_stages chunks readable).1 (v.nonempty t)),
            )
            ((checked_if _ _).1 (λ t. (check_contiguous_iff chunks ends).1 (v.contiguous t))),
    )

placed-given : (cs : List PlacedChunk) → map placed (map given cs) ≡ cs
placed-given [] = refl
placed-given (c ∷ cs) = ap (λ t. c ∷ t) (placed-given cs)

given-NoneNegative : (cs : List PlacedChunk) → All NoneNegative (map given cs)
given-NoneNegative [] = tt
given-NoneNegative (c ∷ cs) = (
  record {
    global_chunk_id = omega arith;
    stage_id = omega arith;
    local_chunk_id = omega arith;
    start = omega arith;
    end = omega arith;
  },
  given-NoneNegative cs,
)

-- The same of a layout whose chunks have fields in ℕ.
pub validate_placed_iff : (l : PipelineLayout) → (validate_placed l ≡ ok tt) ↔ IsValid l
validate_placed_iff l =
    let exact = validate_iff l (map given l.chunks) in
    let same = placed-given l.chunks in
    (
      λ e. subst (λ cs. IsValid (record l { chunks = cs })) same (exact.0 e).1,
      λ v. exact.1 (
        given-NoneNegative l.chunks,
        subst (λ cs. IsValid (record l { chunks = cs })) (sym same) v,
      ),
    )
