-- ===== src/ParamAndGradBuffer/Checked.antt =====
-- What `BuildBuckets` has laid out when its first part ends.
use infini_train.Base.{
  ℕ, ◌+◌, ◌%◌, ◌<◌, ◌≡◌, refl, sym, ap, ◌∙◌, subst, arith, inl, inr, true, List, ok, leb, ◌==◌,
  Bool-cases, ==→≡, ==→≢, All, length, sum,
}
use infini_train.ParamAndGradBuffer.{
  BufferConfig, pads, Packing, update_bucket_metadata, pack_params, pack, check_sizes,
}
use infini_train.ParamAndGradBuffer.Padding.{Multiple-mod, if_cases}
use infini_train.ParamAndGradBuffer.Placing.{
  Stacked, Tiled, Contained, Aligned, Divisible, Numbered, newest, Packs,
}
use infini_train.ParamAndGradBuffer.Packed.{pack_params-Packs, update-Packs}

-- The parameters do not overlap and end within the buffer, with as many elements as they have; the
-- buckets tile the buffer and each parameter lies in its bucket; where the optimizer is
-- distributed, starts are aligned and buckets can be sharded; and no CHECK on the sizes fails.
pub record IsPacked (c : BufferConfig) (numels : List ℕ) (s : Packing) : Type 0 where
  pub stacked : Stacked numels s.bucket_end_index s.param_index_map
  pub tiled : Tiled 0 s.bucket_indices s.bucket_end_index
  pub contained : All (Contained s.bucket_indices) s.param_index_map
  pub aligned : All (Aligned c) s.param_index_map
  pub divisible : All (Divisible c) s.bucket_indices
  pub numbered : Numbered s.param_index_map
  pub count : 0 < length s.param_index_map → length s.bucket_indices ≡ newest s.param_index_map + 1
  pub checked : check_sizes c s ≡ ok tt

module _ (c : BufferConfig) (world : 0 < c.ddp_world_size) (ns : List ℕ) where
  check_sizes_ok :
      (s : Packing) (top : ℕ)
      → Packs c ns s top
      → s.bucket_end_index ≡ s.bucket_start_index
      → check_sizes c s ≡ ok tt
  unfolding check_sizes
  check_sizes_ok s top P e =
      let fits : leb (sum s.per_bucket_numel_unpadded) s.bucket_end_index ≡ true =
        ground (arith, P.unpadded, e) in
      elim (Bool-cases (pads c)) [
        | inl on ↦
            let rest = ap (λ (k : ℕ). k % c.ddp_world_size) e in
            let divides : (s.bucket_end_index % c.ddp_world_size == 0) ≡ true =
              ground (arith, rest, Multiple-mod _ _ (P.bottom on)) in
            rw (fits, on, divides) refl
        | inr off ↦
            let same : (s.bucket_end_index == sum s.per_bucket_numel_unpadded) ≡ true =
              ground (arith, P.exact off, e) in
            rw (fits, off, same) refl
      ]

  closed-IsPacked :
      (s : Packing) (top : ℕ)
      → Packs c ns s top
      → top ≡ s.bucket_start_index
      → All (Contained s.bucket_indices) s.param_index_map
      → s.bucket_end_index ≡ s.bucket_start_index
      → s.bucket_params ≡ 0
      → IsPacked c ns s
  closed-IsPacked s top P here contained e none_open = record {
    stacked = subst (λ (k : ℕ). Stacked ns k s.param_index_map) (here ∙ sym e) P.stacked;
    tiled = subst (λ (k : ℕ). Tiled 0 s.bucket_indices k) (sym e) P.tiled;
    contained = contained;
    aligned = P.aligned;
    divisible = P.divisible;
    numbered = P.numbered;
    count = λ h. sym P.ids ∙ P.next_id h none_open;
    checked = check_sizes_ok s top P e;
  }

update-closed : (c : BufferConfig) (s : Packing) → (update_bucket_metadata c s).bucket_params ≡ 0
unfolding update_bucket_metadata
update-closed c s = refl

-- For a data-parallel group that is not empty, and parameters of any sizes, the first part of
-- `BuildBuckets` places the parameters in reverse, without overlap and within the buffer, each with
-- its number of elements; the buckets follow each other from 0 to the buffer's end, and each
-- parameter lies in its bucket; the buckets of the parameters are numbered without a gap. With a ZeRO stage each parameter starts at a multiple of 64, and
-- each bucket ends at a multiple of 128 and of the group's size and starts at one of the latter. No
-- CHECK on the sizes fails.
pub pack-IsPacked :
    (c : BufferConfig) (numels : List ℕ) → 0 < c.ddp_world_size → IsPacked c numels (pack c numels)
unfolding pack
pack-IsPacked c numels world =
    let s = pack_params c numels in
    let P = pack_params-Packs c world numels in
    if_cases (IsPacked c numels) (s.bucket_params == 0)
      (λ none_open.
        let (contained, end, top) = P.closed (==→≡ _ _ none_open) in
        closed-IsPacked c world numels s s.param_start_index P top contained end
          (==→≡ _ _ none_open))
      (λ more.
        let at_end = P.open_end (==→≢ _ _ more) in
        let U =
          update-Packs c world numels s (==→≢ _ _ more)
            (subst (λ (k : ℕ). Packs c numels s k) (sym at_end) P) in
        let (contained, end, top) = U.closed (update-closed c s) in
        closed-IsPacked c world numels (update_bucket_metadata c s) _ U top contained end
          (update-closed c s))
