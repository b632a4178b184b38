-- ===== src/ParamAndGradBuffer/Packed.antt =====
-- The rounds of the loop that packs keep what holds between them.
use infini_train.Base.{
  ℕ, ◌+◌, ◌-◌, ◌<◌, refl, arith, inl, inr, ◌≢◌, List, [], ◌∷◌, ◌++◌, leb, ◌==◌, Bool-cases, ==→≡,
  ==→≢, All-map, All-append, length-append, sum-append,
}
use infini_train.ParamAndGradBuffer.{
  BufferConfig, pad_param_start_if_needed, pad_bucket_end_if_needed, Packing,
  update_bucket_metadata, place_param, close_if_full, pack_params,
}
use infini_train.ParamAndGradBuffer.Padding.{if_holds}
use infini_train.ParamAndGradBuffer.Placing.{
  Contained, Placed, Divisible, Packs, pad_param_start_lem, pad_bucket_end_lem, Stacked-weaken,
  Tiled-snoc, Placed-closes, Placed-widen, Numbered-cons,
}

module _ (c : BufferConfig) (world : 0 < c.ddp_world_size) where
  pub update-Packs :
      (ns : List ℕ) (s : Packing)
      → s.bucket_params ≢ 0
      → Packs c ns s s.param_end_index
      → Packs c ns (update_bucket_metadata c s) (update_bucket_metadata c s).bucket_start_index
  unfolding update_bucket_metadata
  update-Packs ns s more P =
      let (le, multiple, same) = pad_bucket_end_lem c s.param_end_index world in
      let end = pad_bucket_end_if_needed c s.param_end_index in
      let contained =
        All-map (Placed s.bucket_indices s.bucket_start_index s.param_end_index)
          (Contained
            (s.bucket_indices ++ record { first = s.bucket_start_index; second = end } ∷ []))
          (λ e. Placed-closes s.bucket_indices s.bucket_start_index s.param_end_index end e le)
          s.param_index_map P.placed in
      let total =
        sum-append s.per_bucket_numel_unpadded ((s.param_end_index - s.bucket_start_index) ∷ []) in
      record {
        stacked = Stacked-weaken ns s.param_end_index end s.param_index_map le P.stacked;
        opened = omega arith;
        tiled =
            Tiled-snoc 0 s.bucket_start_index end s.bucket_indices (omega (arith, P.opened, le))
              P.tiled;
        ids = omega (
          arith,
          P.ids,
          length-append s.bucket_indices
              (record { first = s.bucket_start_index; second = end } ∷ []),
        );
        placed =
            All-map _
              (Placed
                (s.bucket_indices ++ record { first = s.bucket_start_index; second = end } ∷ []) end
                end)
              (λ e here. inl here) s.param_index_map contained;
        aligned = P.aligned;
        divisible =
            All-append (Divisible c) s.bucket_indices _ P.divisible
              (λ h. (P.bottom h, (multiple h).0, (multiple h).1), tt);
        bottom = λ h. (multiple h).0;
        unpadded = omega (arith, total, P.unpadded, P.opened, le);
        exact = λ h. omega (arith, total, P.exact h, P.opened, same h);
        closed = λ h. (contained, refl, refl);
        numbered = P.numbered;
        none_yet = λ h. absurd (omega (arith, h, (P.same_id more).1));
        next_id = λ h k. omega (arith, (P.same_id more).0);
        same_id = λ h. absurd (h refl);
        open_end = λ h. absurd (h refl);
      }

  place-Packs :
      (n : ℕ) (ns : List ℕ) (s : Packing)
      → Packs c ns s s.param_start_index
      → Packs c (n ∷ ns) (place_param c n s) (place_param c n s).param_end_index
  unfolding place_param
  place-Packs n ns s P =
      let (le, multiple) = pad_param_start_lem c s.param_start_index in
      let start = pad_param_start_if_needed c s.param_start_index in
      record {
        stacked = (
          omega arith,
          refl,
          Stacked-weaken ns s.param_start_index start s.param_index_map le P.stacked,
        );
        opened = omega (arith, P.opened, le);
        tiled = P.tiled;
        ids = P.ids;
        placed = (
          inr (P.ids, omega (arith, P.opened, le), omega arith),
          All-map (Placed s.bucket_indices s.bucket_start_index s.param_start_index)
              (Placed s.bucket_indices s.bucket_start_index (start + n))
              (λ e.
                Placed-widen s.bucket_indices s.bucket_start_index s.param_start_index (start + n) e
                  (omega (arith, le)))
              s.param_index_map P.placed,
        );
        aligned = (multiple, P.aligned);
        divisible = P.divisible;
        bottom = P.bottom;
        unpadded = P.unpadded;
        exact = P.exact;
        closed = λ h. absurd (omega (arith, h));
        numbered =
            Numbered-cons
              (record { start_index = start; end_index = start + n; bucket_id = s.bucket_id })
              s.param_index_map P.none_yet
              (λ some_placed. elim (Bool-cases (s.bucket_params == 0)) [
                | inl none_open ↦ inr (P.next_id some_placed (==→≡ _ _ none_open))
                | inr filled ↦ inl ((P.same_id (==→≢ _ _ filled)).0)
              ])
              P.numbered;
        none_yet = λ h. absurd (omega (arith, h));
        next_id = λ h k. absurd (omega (arith, k));
        same_id = λ h. (refl, omega arith);
        open_end = λ h. refl;
      }

  -- The start of the next parameter is no part of it.
  start-Packs :
      (ns : List ℕ) (s : Packing) (top : ℕ)
      → Packs c ns s top
      → Packs c ns (record s { param_start_index = top }) top
  start-Packs ns s top P = record {
    stacked = P.stacked;
    opened = P.opened;
    tiled = P.tiled;
    ids = P.ids;
    placed = P.placed;
    aligned = P.aligned;
    divisible = P.divisible;
    bottom = P.bottom;
    unpadded = P.unpadded;
    exact = P.exact;
    closed = P.closed;
    numbered = P.numbered;
    none_yet = P.none_yet;
    next_id = P.next_id;
    same_id = P.same_id;
    open_end = P.open_end;
  }

  close-Packs :
      (ns : List ℕ) (s : Packing)
      → s.bucket_params ≢ 0
      → Packs c ns s s.param_end_index
      → Packs c ns (close_if_full c s) (close_if_full c s).param_start_index
  unfolding close_if_full update_bucket_metadata
  close-Packs ns s more P =
      if_holds (λ (k : Packing). Packs c ns k k.param_start_index)
        (leb c.bucket_size_in_elements (s.param_end_index - s.bucket_start_index))
        (start-Packs ns (update_bucket_metadata c s) (update_bucket_metadata c s).bucket_start_index
          (update-Packs ns s more P))
        (start-Packs ns s s.param_end_index P)

  pub pack_params-Packs :
      (ns : List ℕ) → Packs c ns (pack_params c ns) (pack_params c ns).param_start_index
  unfolding pack_params place_param
  pack_params-Packs [] = record {
    stacked = tt;
    opened = omega arith;
    tiled = refl;
    ids = refl;
    placed = tt;
    aligned = tt;
    divisible = tt;
    bottom = λ h. (0, grind arith);
    unpadded = omega arith;
    exact = λ h. refl;
    closed = λ h. (tt, refl, refl);
    numbered = tt;
    none_yet = λ h. refl;
    next_id = λ h. absurd (omega (arith, h));
    same_id = λ h. absurd (h refl);
    open_end = λ h. absurd (h refl);
  }
  pack_params-Packs (n ∷ ns) =
      close-Packs (n ∷ ns) (place_param c n (pack_params c ns)) (λ h. omega (arith, h))
        (place-Packs n ns (pack_params c ns) (pack_params-Packs ns))
