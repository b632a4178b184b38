-- ===== src/ParamAndGradBuffer/Buckets/Built.antt =====
-- The buckets that `BuildBuckets` builds from what it has laid out.
use infini_train.Base.{
  ℕ, suc, get_or, ◌≤◌, ◌+◌, ◌<◌, ◌≡◌, refl, sym, ap, ◌∙◌, subst, arith, inl, inr, true, false, some,
  List, [], ◌∷◌, ◌++◌, Result, ok, ◌>>◌, ◌==◌, concat, length, length-append, get_elem?,
  get_elem?-within,
}
use infini_train.ParamAndGradBuffer.{
  BufferError, BufferConfig, ParamIndex, BucketRange, Packing, pack,
}
use infini_train.ParamAndGradBuffer.Placing.{Numbered, newest}
use infini_train.ParamAndGradBuffer.Checked.{IsPacked, pack-IsPacked}
use infini_train.ParamAndGradBuffer.Buckets.{
  ParamAndGradBucket, make_bucket, Building, start_building, find_entry, add_param, map_views,
  map_param, map_params, make_buckets, build_buckets,
}
use infini_train.ParamAndGradBuffer.Buckets.Filled.{
  Builds, new_bucket_ok, Builds-fresh, add-Builds, close_bucket_ok,
}
use infini_train.ParamAndGradBuffer.Buckets.Once.{NoneTwice, find_entry_ok}
use infini_train.ParamAndGradBuffer.Buckets.Tiling.{
  backprop_order, params_of, concat-params_of, Stacked-length, not_empty, Tiled-first,
}

module _ (c : BufferConfig) (pointers numels : List ℕ) (s : Packing) (P : IsPacked c numels s)
    (known : length pointers ≡ length numels) (once : NoneTwice pointers) where
  -- The map has these entries for the parameters from number `i` on.
  Found : ℕ → List ParamIndex → Type 0
  Found i [] = Unit
  Found i (e ∷ es) =
      (find_entry (get_or pointers i 0) pointers s.param_index_map ≡ ok e) × Found (i + 1) es

  Found-all :
      (i : ℕ) (es : List ParamIndex)
      → ((k : ℕ) (e : ParamIndex)
          → get_elem? es k ≡ some e
          → get_elem? s.param_index_map (i + k) ≡ some e)
      → i + length es ≤ length pointers
      → Found i es
  unfolding Found
  Found-all i [] at within = tt
  Found-all i (e ∷ es) at within =
      let here : i + 0 ≡ i = omega arith in
      (
        find_entry_ok pointers s.param_index_map i e once (omega (arith, within))
            (ap (get_elem? s.param_index_map) (sym here) ∙ at 0 e refl),
        Found-all (i + 1) es
            (λ k d found.
              let next : i + 1 + k ≡ i + suc k = omega arith in
              ap (get_elem? s.param_index_map) next ∙ at (suc k) d found)
            (omega (arith, within)),
      )

  -- The loop runs through all of the parameters.
  map_params_ok :
      (i : ℕ) (e : ParamIndex) (es : List ParamIndex)
      → Numbered (e ∷ es)
      → Found i (e ∷ es)
      → e.bucket_id < length s.bucket_indices
      → i + length (e ∷ es) ≤ length pointers
      → (b : Building) × (map_params c pointers numels s i (length (e ∷ es)) ≡ ok b)
        × Builds c pointers numels s P known once i (e ∷ es) b
  unfolding map_params map_param map_views backprop_order Found
  map_params_ok i e [] zero_id found lt within =
      let b = map_views c numels s i e start_building in
      let first : (b.current_bucket_id == e.bucket_id) ≡ true = ground (arith, zero_id) in
      (
        add_param c numels s i b,
        rw (found.0, map_param, map_views, first) refl,
        add-Builds c pointers numels s P known once i e [] b (sym zero_id) (sym zero_id)
            (λ r at.
              Tiled-first 0 s.bucket_end_index s.bucket_indices r P.tiled
                (ap (get_elem? s.bucket_indices) (sym zero_id) ∙ at))
            refl,
      )
  map_params_ok i e (d ∷ es) (step, numbered) found lt within =
      let lt' : d.bucket_id < length s.bucket_indices = elim step [
        | inl same ↦ omega (arith, same, lt)
        | inr next ↦ omega (arith, next, lt)
      ] in
      let within' : i + 1 + length (d ∷ es) ≤ length pointers = omega (arith, within) in
      let (b, run, B) = map_params_ok (i + 1) d es numbered found.1 lt' within' in
      let (r, here) = get_elem?-within s.bucket_indices d.bucket_id lt' in
      elim step [
        | inl same ↦
            let stays : (b.current_bucket_id == e.bucket_id) ≡ true =
              ground (arith, B.current, same) in
            (
              add_param c numels s i (map_views c numels s i e b),
              rw (run, found.0, map_param, map_views, stays) refl,
              add-Builds c pointers numels s P known once i e (d ∷ es) (map_views c numels s i e b)
                  (B.current ∙ sym same) (B.count ∙ sym same)
                  (λ q at. B.starts q (ap (get_elem? s.bucket_indices) (sym same) ∙ at)) B.order,
            )
        | inr next ↦
            let (b', closed, B') =
              close_bucket_ok c pointers numels s P known once i e d es b r B within' next here in
            (b', rw (run, found.0) closed, B')
      ]

  last_bucket_ok :
      (e : ParamIndex) (es : List ParamIndex) (b : Building) (r : BucketRange)
      → map_params c pointers numels s 0 (length pointers) ≡ ok b
      → Builds c pointers numels s P known once 0 (e ∷ es) b
      → length (e ∷ es) ≡ length pointers
      → get_elem? s.bucket_indices e.bucket_id ≡ some r
      → length s.bucket_indices ≡ e.bucket_id + 1
      → (bs : List ParamAndGradBucket) × (make_buckets c pointers numels s ≡ ok bs)
        × (length bs ≡ length s.bucket_indices)
        × (concat (params_of bs) ≡ backprop_order 0 (length (e ∷ es)))
  unfolding make_buckets make_bucket
  last_bucket_ok e es b r run B whole here count =
      let within : 0 + length (e ∷ es) ≤ length pointers = omega (arith, whole) in
      let built =
        new_bucket_ok c pointers numels s P known once b.buckets b.bucket_params
          b.bucket_start_index b.current_bucket_id r
          (ap (get_elem? s.bucket_indices) B.current ∙ here) (B.starts r here)
          (Builds-fresh c pointers numels s P known once 0 (e ∷ es) b B within) in
      let made =
        make_bucket c numels s b.bucket_params b.bucket_start_index r.second b.current_bucket_id in
      let filled : (length b.bucket_params == 0) ≡ false = ground (arith, B.filled) in
      (
        b.buckets ++ made ∷ [],
        rw (make_buckets, run, filled, built) refl,
        omega (arith, length-append b.buckets (made ∷ []), B.count, count),
        concat-params_of b.buckets made ∙ B.order,
      )

  make_buckets_ok :
      (e : ParamIndex) (es : List ParamIndex)
      → s.param_index_map ≡ e ∷ es
      → (bs : List ParamAndGradBucket) × (make_buckets c pointers numels s ≡ ok bs)
        × (length bs ≡ length s.bucket_indices)
        × (concat (params_of bs) ≡ backprop_order 0 (length (e ∷ es)))
  make_buckets_ok e es map_is =
      let count : length s.bucket_indices ≡ e.bucket_id + 1 =
        P.count (omega (arith, ap length map_is)) ∙ ap (λ k. newest k + 1) map_is in
      let total = Stacked-length numels s.bucket_end_index s.param_index_map P.stacked in
      let whole : length (e ∷ es) ≡ length pointers = ap length (sym map_is) ∙ total ∙ sym known in
      let within : 0 + length (e ∷ es) ≤ length pointers = omega (arith, whole) in
      let found =
        Found-all 0 (e ∷ es)
          (λ k d at.
            let same : 0 + k ≡ k = omega arith in
            ap (get_elem? s.param_index_map) same ∙ ap (λ t. get_elem? t k) map_is ∙ at)
          within in
      let (b, run, B) =
        map_params_ok 0 e es (subst Numbered map_is P.numbered) found (omega (arith, count))
          within in
      let (r, here) = get_elem?-within s.bucket_indices e.bucket_id (omega (arith, count)) in
      last_bucket_ok e es b r (ap (map_params c pointers numels s 0) (sym whole) ∙ run) B whole here
        count

-- For a data-parallel group that is not empty, and at least one parameter, each with a size and with
-- a pointer that no other has, no CHECK of `BuildBuckets` fails: it returns a bucket for each range
-- that was laid out, and the parameters of the buckets after each other are all of the parameters,
-- the last one first.
pub build_buckets_ok :
    (c : BufferConfig) (pointers numels : List ℕ)
    → 0 < c.ddp_world_size
    → 0 < length numels
    → length pointers ≡ length numels
    → NoneTwice pointers
    → (bs : List ParamAndGradBucket) × (build_buckets c pointers numels ≡ ok bs)
      × (length bs ≡ length (pack c numels).bucket_indices)
      × (concat (params_of bs) ≡ backprop_order 0 (length numels))
unfolding build_buckets
build_buckets_ok c pointers numels world some_param known once =
    let s = pack c numels in
    let P = pack-IsPacked c numels world in
    let total = Stacked-length numels s.bucket_end_index s.param_index_map P.stacked in
    let (e, es, map_is) = not_empty s.param_index_map (omega (arith, total, some_param)) in
    let (bs, made, count, order) = make_buckets_ok c pointers numels s P known once e es map_is in
    (
      bs,
      ap (λ (t : Result BufferError (Unit {0})). t >> make_buckets c pointers numels s) P.checked
          ∙ made,
      count,
      order ∙ ap (backprop_order 0) (ap length (sym map_is) ∙ total),
    )
