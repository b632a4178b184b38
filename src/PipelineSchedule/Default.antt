-- ===== src/PipelineSchedule/Default.antt =====
-- Scheduling on the layouts that `BuildDefault` makes: it works where there are at least as many
-- layers as chunks, and fails where there are fewer: `BuildDefault` leaves the chunks without a
-- layer out, and the scheduler goes through all chunk ids.
use native.Mathlib.Nat.{div-add-mod, mod-eq_of_lt}
use infini_train.Base.{
  ℕ, zero, suc, ◌+◌, ◌*◌, ◌/◌, ◌%◌, ◌≤◌, ◌<◌, ◌≡◌, ◌≢◌, refl, subst, ap, inl, inr, false, List, ok,
  err, ◌==◌, Bool-cases, arith,
}
use infini_train.Base.Int.{pos}
use infini_train.PipelineLayout.{
  PlacedChunk, SpecialModulePlacement, PipelineLayoutPolicy, PipelineLayout, LayoutError,
}
use infini_train.PipelineLayout.Indexes.{find_chunk, chunk}
use infini_train.PipelineLayout.Builders.{
  int_max, PlacementFits, chunk_size, default_chunks, build_default,
}
use infini_train.PipelineLayout.Builders.Default.{
  build_default-Builds, build_default-chunks, div_pos,
}
use infini_train.PipelineSchedule.{Task, generate_gpipe_schedule}
use infini_train.PipelineSchedule.Slots.{HasChunks}
use infini_train.PipelineSchedule.GPipe.{IsSchedule, generate_gpipe_schedule-IsSchedule}
use infini_train.PipelineSchedule.Needs.{generate_gpipe_schedule-HasChunks}

module _ (stages q r : ℕ) where
  default_chunks_all :
      (left id cursor g : ℕ)
      → 0 < q
      → id ≤ g
      → g < id + left
      → (c : PlacedChunk) × (find_chunk (default_chunks stages q r left id cursor) g ≡ ok c)
  unfolding default_chunks find_chunk
  default_chunks_all zero id cursor g hq lo hi = absurd (omega arith)
  default_chunks_all (suc left) id cursor g hq lo hi =
      let full : (chunk_size q r id == 0) ≡ false = ground arith in
      elim (Bool-cases (id == g)) [
        | inl here ↦ rw (full, here) (_, refl)
        | inr later ↦
            rw (full, later)
              (default_chunks_all left (id + 1) (cursor + chunk_size q r id) g hq (ground arith)
                (omega arith))
      ]

  default_chunks_missing :
      (left id cursor g : ℕ)
      → q ≡ 0
      → r ≤ g
      → find_chunk (default_chunks stages q r left id cursor) g
        ≡ err (LayoutError.chunk_not_found g)
  unfolding default_chunks find_chunk
  default_chunks_missing zero id cursor g hq hr = refl
  default_chunks_missing (suc left) id cursor g hq hr =
      let rest = default_chunks_missing left (id + 1) (cursor + chunk_size q r id) g hq hr in
      elim (Bool-cases (chunk_size q r id == 0)) [
        | inl empty ↦ rw empty rest
        | inr full ↦ (let other : (id == g) ≡ false = ground arith in rw (full, other) rest)
      ]

div-eq-zero : (n m : ℕ) → n < m → n / m ≡ 0
div-eq-zero n m h = grind (arith, div-add-mod n m)

module _ (n stages vpp mbs : ℕ) (p : SpecialModulePlacement) (policy : PipelineLayoutPolicy)
    (hn : 0 < n) (hs : 0 < stages) (hv : 0 < vpp) where
  -- For positive sizes whose product is an `int`, a placement that fits, and at least a layer to
  -- each chunk, the default layout is built, and its GPipe schedule is generated and complete, for
  -- any number of micro-batches.
  pub default_layout_scheduled :
      stages * vpp ≤ int_max
      → PlacementFits p policy stages
      → stages * vpp ≤ n
      → (l : PipelineLayout) × (build_default (pos n) (pos stages) (pos vpp) p policy ≡ ok l)
        × IsSchedule mbs vpp l (generate_gpipe_schedule mbs stages vpp l)
  unfolding chunk
  default_layout_scheduled small fits enough =
      let b = build_default-Builds n stages vpp p policy hn hs hv small fits in
      let is = build_default-chunks n stages vpp p policy hn hs hv b.layout b.returns in
      let some_chunk : 0 < stages * vpp = grind arith in
      let has : HasChunks b.layout (b.layout.num_stages * vpp) = rw b.stages_are (λ g hg. rw is (
        default_chunks_all stages _ _ (stages * vpp) 0 0 g (div_pos some_chunk enough) (omega arith)
          (omega arith))) in
      (
        b.layout,
        b.returns,
        subst (λ s. IsSchedule mbs vpp b.layout (generate_gpipe_schedule mbs s vpp b.layout))
            b.stages_are (generate_gpipe_schedule-IsSchedule mbs vpp b.layout b.vpp_is has),
      )

  -- For positive sizes with fewer layers than chunks, the GPipe scheduler returns no schedule of
  -- at least one micro-batch on whatever layout `BuildDefault` returned.
  pub few_layers_unscheduled :
      (l : PipelineLayout) (ts : List Task)
      → n < stages * vpp
      → 0 < mbs
      → build_default (pos n) (pos stages) (pos vpp) p policy ≡ ok l
      → generate_gpipe_schedule mbs stages vpp l ≢ ok ts
  unfolding chunk
  few_layers_unscheduled l ts few hm built e =
      let is = build_default-chunks n stages vpp p policy hn hs hv l built in
      let some_chunk : 0 < stages * vpp = grind arith in
      let (c, found) = generate_gpipe_schedule-HasChunks mbs stages vpp l ts hm e n few in
      let missing =
        default_chunks_missing stages (n / (stages * vpp)) (n % (stages * vpp)) (stages * vpp) 0 0 n
          (div-eq-zero n (stages * vpp) few) (omega (arith, mod-eq_of_lt few)) in
      cc (found, ap (λ cs. find_chunk cs n) is, missing)
