-- ===== src/ParamAndGradBuffer/Buckets/Filled.antt =====
-- A bucket that is filled and closed: what the variables of the loop have become.
use infini_train.Base.{
  ℕ, ◌≤◌, ◌+◌, ◌%◌, ◌<◌, ◌≡◌, refl, sym, ap, ◌∙◌, subst, arith, true, false, some, List, [], ◌∷◌,
  ◌++◌, Result, ok, ◌>>◌, require, ◌==◌, ==-refl, All-get_elem?, concat, length, length-append,
  get_elem?, append_assoc, append_nil,
}
use infini_train.ParamAndGradBuffer.{
  BufferError, BufferConfig, pads, ParamIndex, BucketRange, Packing,
}
use infini_train.ParamAndGradBuffer.Padding.{Multiple-mod, if_cases}
use infini_train.ParamAndGradBuffer.Placing.{Divisible, newest}
use infini_train.ParamAndGradBuffer.Checked.{IsPacked}
use infini_train.ParamAndGradBuffer.Buckets.{
  ParamAndGradBucket, check_bucket, make_bucket, new_bucket, Building, close_bucket, mapped,
  check_params, add_param, map_views, map_param,
}
use infini_train.ParamAndGradBuffer.Buckets.Once.{
  NoneTwice, having, backprop_order_once, new_params_ok,
}
use infini_train.ParamAndGradBuffer.Buckets.Tiling.{
  backprop_order, params_of, concat-params_of, Tiled-next,
}

module _ (c : BufferConfig) (pointers numels : List ℕ) (s : Packing) (P : IsPacked c numels s)
    (known : length pointers ≡ length numels) (once : NoneTwice pointers) where
  check_bucket_ok :
      (k : ℕ) (r : BucketRange)
      → get_elem? s.bucket_indices k ≡ some r
      → check_bucket c numels s r r.first r.second ≡ ok tt
  unfolding check_bucket
  check_bucket_ok k r e =
      if_cases (λ (t : Result BufferError (Unit {0})). t ≡ ok tt) (pads c)
        (λ on.
          let (at_start, at_end, _) =
            All-get_elem? (Divisible c) s.bucket_indices k P.divisible e on in
          let start : (r.first % c.ddp_world_size == 0) ≡ true =
            ground (arith, Multiple-mod _ _ at_start) in
          let end : (r.second % c.ddp_world_size == 0) ≡ true =
            ground (arith, Multiple-mod _ _ at_end) in
          rw (start, end, ==-refl r.first, ==-refl r.second) refl)
        (λ off. refl)

  pub new_bucket_ok :
      (bs : List ParamAndGradBucket) (params : List ℕ) (start k : ℕ) (r : BucketRange)
      → get_elem? s.bucket_indices k ≡ some r
      → r.first ≡ start
      → check_params c pointers numels s (mapped bs) params ≡ ok tt
      → new_bucket c pointers numels s bs params start k
        ≡ ok (make_bucket c numels s params start r.second k, r.second)
  unfolding new_bucket
  new_bucket_ok bs params start k r e same fresh =
      let out : Result BufferError (ParamAndGradBucket × ℕ) =
        ok (make_bucket c numels s params r.first r.second k, r.second) in
      let first : require (r.first == r.first) BufferError.bucket_start_mismatch ≡ ok tt =
        rw (==-refl r.first) refl in
      rw (new_bucket, e, sym same, fresh)
        (ap
            (λ (t : Result BufferError (Unit {0})).
              t >> (check_bucket c numels s r r.first r.second >> out))
            first
          ∙ ap (λ (t : Result BufferError (Unit {0})). t >> out) (check_bucket_ok k r e))

  -- The variables after the rounds for some parameters, from number `i` on.
  pub record Builds (i : ℕ) (es : List ParamIndex) (b : Building) : Type 0 where
    pub current : b.current_bucket_id ≡ newest es
    pub count : length b.buckets ≡ newest es
    pub filled : 0 < length b.bucket_params
    pub starts :
        (r : BucketRange)
        → get_elem? s.bucket_indices (newest es) ≡ some r
        → r.first ≡ b.bucket_start_index
    pub order : concat (params_of b.buckets) ++ b.bucket_params ≡ backprop_order i (length es)

  -- The parameters of the bucket that is being filled are in no bucket yet.
  pub Builds-fresh :
      (i : ℕ) (es : List ParamIndex) (b : Building)
      → Builds i es b
      → i + length es ≤ length pointers
      → check_params c pointers numels s (mapped b.buckets) b.bucket_params ≡ ok tt
  Builds-fresh i es b B within =
      new_params_ok c pointers numels s (mapped b.buckets) b.bucket_params (λ v.
        subst (λ t. having c pointers numels s v t ≤ 1) (sym B.order)
          (backprop_order_once c pointers numels s v i (length es) once within))

  pub add-Builds :
      (i : ℕ) (e : ParamIndex) (es : List ParamIndex) (b : Building)
      → b.current_bucket_id ≡ e.bucket_id
      → length b.buckets ≡ e.bucket_id
      → ((r : BucketRange)
          → get_elem? s.bucket_indices e.bucket_id ≡ some r
          → r.first ≡ b.bucket_start_index)
      → concat (params_of b.buckets) ++ b.bucket_params ≡ backprop_order (i + 1) (length es)
      → Builds i (e ∷ es) (add_param c numels s i b)
  unfolding add_param backprop_order
  add-Builds i e es b current count starts order = record {
    current = current;
    count = count;
    filled = omega (arith, length-append b.bucket_params (i ∷ []));
    starts = starts;
    order =
        sym (append_assoc (concat (params_of b.buckets)) b.bucket_params (i ∷ []))
        ∙ ap (λ t. t ++ i ∷ []) order;
  }

  -- The bucket of the parameters so far is closed.
  pub close_bucket_ok :
      (i : ℕ) (e d : ParamIndex) (es : List ParamIndex) (b : Building) (r : BucketRange)
      → Builds (i + 1) (d ∷ es) b
      → i + 1 + length (d ∷ es) ≤ length pointers
      → e.bucket_id ≡ d.bucket_id + 1
      → get_elem? s.bucket_indices d.bucket_id ≡ some r
      → (b' : Building) × (map_param c pointers numels s i e b ≡ ok b') × Builds i (e ∷ d ∷ es) b'
  unfolding map_param map_views close_bucket make_bucket
  close_bucket_ok i e d es b r B within step here =
      let made =
        make_bucket c numels s b.bucket_params b.bucket_start_index r.second b.current_bucket_id in
      let viewed = map_views c numels s i e b in
      let closed : Building = record viewed {
        bucket_start_index = r.second;
        current_bucket_id = e.bucket_id;
        bucket_params = [];
        buckets = b.buckets ++ made ∷ [];
      } in
      let other : (b.current_bucket_id == e.bucket_id) ≡ false = ground (arith, B.current, step) in
      let count : (b.current_bucket_id + 1 == length b.buckets + 1) ≡ true =
        ground (arith, B.current, B.count) in
      let id : (b.current_bucket_id + 1 == e.bucket_id) ≡ true = ground (arith, B.current, step) in
      let built =
        new_bucket_ok b.buckets b.bucket_params b.bucket_start_index b.current_bucket_id r
          (ap (get_elem? s.bucket_indices) B.current ∙ here) (B.starts r here)
          (Builds-fresh (i + 1) (d ∷ es) b B within) in
      (
        add_param c numels s i closed,
        rw (map_param, map_views, other, close_bucket, built, count, id) refl,
        add-Builds i e (d ∷ es) closed refl
            (omega (arith, length-append b.buckets (made ∷ []), B.count, step))
            (λ q at.
              Tiled-next 0 s.bucket_end_index d.bucket_id s.bucket_indices r q P.tiled here
                (ap (get_elem? s.bucket_indices) (sym step) ∙ at))
            (append_nil _ ∙ concat-params_of b.buckets made ∙ B.order),
      )
