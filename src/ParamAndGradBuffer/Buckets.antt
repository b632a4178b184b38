-- ===== src/ParamAndGradBuffer/Buckets.antt =====
-- The second part of `ParamAndGradBuffer::BuildBuckets`, which builds the buckets from what was
-- laid out (infini_train/src/nn/parallel/ddp/param_and_grad_buffer.cc). A parameter is its place in
-- the list, with the pointer that stands there as the key of the maps; a view into a flat buffer is
-- its start.
pub mod Once
pub mod Filled
pub mod Tiling
pub mod Built
use infini_train.Base.{
  ℕ, zero, suc, ◌+◌, ◌-◌, ◌%◌, Bool, Option, none, some, List, [], ◌∷◌, ◌++◌, map, Result, ok, err,
  ◌>>=◌, ◌>>◌, require, ltb, ◌==◌, if◌then◌else◌, length, get_elem?, get_or, concat,
}
use infini_train.Base.Sort.{count}
use infini_train.ParamAndGradBuffer.{
  BufferError, BufferConfig, pads, ParamIndex, BucketRange, Packing, pack, check_sizes,
}

pub record ParamAndGradBucket : Type 0 where
  pub bucket_id : ℕ
  pub params : List ℕ
  pub offset : ℕ
  pub num_elements : ℕ
  pub num_elements_unpadded : ℕ
  pub param_to_range : List BucketRange

-- The ranges that the constructor of a bucket gives to its parameters.
unfoldable pub ranges_from : ℕ → List ℕ → List BucketRange
ranges_from current_offset [] = []
ranges_from current_offset (numel ∷ numels) =
    record { first = current_offset; second = current_offset + numel }
    ∷ ranges_from (current_offset + numel) numels

-- Parameter `param` looks at the buffer from `start_index` on.
pub record BufferView : Type 0 where
  pub param : ℕ
  pub start_index : ℕ

-- The variables of the loop, and the views that the parameters and their gradients get.
pub record Building : Type 0 where
  pub bucket_start_index : ℕ
  pub current_bucket_id : ℕ
  pub bucket_params : List ℕ
  pub buckets : List ParamAndGradBucket
  pub param_views : List BufferView
  pub grad_views : List BufferView

abbrev pub start_building : Building
start_building = record {
  bucket_start_index = 0;
  current_bucket_id = 0;
  bucket_params = [];
  buckets = [];
  param_views = [];
  grad_views = [];
}

module _ (c : BufferConfig) (numels : List ℕ) (s : Packing) where
  -- `NewBucket`, with the CHECKs of a ZeRO stage.
  unfoldable pub check_bucket : BucketRange → ℕ → ℕ → Result BufferError (Unit {0})
  check_bucket range start_index end_index =
      if pads c
      then (require (start_index % c.ddp_world_size == 0) BufferError.bucket_not_divisible
          >> (require (end_index % c.ddp_world_size == 0) BufferError.bucket_not_divisible
              >> (require (range.first == start_index) BufferError.bucket_range_mismatch
                  >> require (range.second == end_index) BufferError.bucket_range_mismatch)))
      else ok tt

  unfoldable pub make_bucket : List ℕ → ℕ → ℕ → ℕ → ParamAndGradBucket
  unfolding ranges_from
  make_bucket bucket_params start_index end_index bucket_id = record {
    bucket_id = bucket_id;
    params = bucket_params;
    offset = start_index;
    num_elements = end_index - start_index;
    num_elements_unpadded = get_or s.per_bucket_numel_unpadded bucket_id 0;
    param_to_range = ranges_from 0 (map (λ i. get_or numels i 0) bucket_params);
  }

  unfoldable pub add_param : ℕ → Building → Building
  add_param i b = record b { bucket_params = b.bucket_params ++ i ∷ [] }

  -- The parameter buffer is there with a ZeRO stage, the gradient buffer below stage 2.
  unfoldable pub map_views : ℕ → ParamIndex → Building → Building
  map_views i e b =
      let view : BufferView = record { param = i; start_index = e.start_index } in
      record b {
        param_views = if pads c then b.param_views ++ view ∷ [] else b.param_views;
        grad_views = if ltb c.zero_stage 2 then b.grad_views ++ view ∷ [] else b.grad_views;
      }

-- `param_index_map_.at(p)`. The entry of a pointer that stands twice was written last for the
-- first of its places.
unfoldable pub find_entry : ℕ → List ℕ → List ParamIndex → Result BufferError ParamIndex
find_entry p [] es = err BufferError.unknown_param
find_entry p (q ∷ qs) [] = err BufferError.unknown_param
find_entry p (q ∷ qs) (e ∷ es) = if q == p then ok e else find_entry p qs es

-- The parameters that `param_bucket_map_` has a bucket for.
abbrev pub mapped : List ParamAndGradBucket → List ℕ
mapped buckets = concat (map (λ b. b.params) buckets)

module _ (c : BufferConfig) (pointers numels : List ℕ) (s : Packing) where
  abbrev pub pointer_at : ℕ → ℕ
  pointer_at i = get_or pointers i 0

  -- The loop over `bucket_params` in `NewBucket`: the parameters `done` are in the map.
  unfoldable pub check_params : List ℕ → List ℕ → Result BufferError (Unit {0})
  check_params done [] = ok tt
  check_params done (i ∷ params) =
      if ltb 0 (count (λ j. pointer_at j == pointer_at i) done)
      then err BufferError.param_in_two_buckets
      else check_params (i ∷ done) params

  -- The bucket `bucket_id`, which has to start at `start_index`, and where it ends.
  unfoldable pub new_bucket :
      List ParamAndGradBucket → List ℕ → ℕ → ℕ → Result BufferError (ParamAndGradBucket × ℕ)
  unfolding check_bucket make_bucket check_params
  new_bucket buckets bucket_params start_index bucket_id =
      elim (get_elem? s.bucket_indices bucket_id) [
        | none ↦ err BufferError.unknown_bucket
        | some range ↦
            require (range.first == start_index) BufferError.bucket_start_mismatch
            >> (check_bucket c numels s range start_index range.second
                >> (check_params (mapped buckets) bucket_params
                    >> ok (
                      make_bucket c numels s bucket_params start_index range.second bucket_id,
                      range.second,
                    )))
      ]

  unfoldable pub close_bucket : ℕ → Building → Result BufferError Building
  unfolding new_bucket
  close_bucket bucket_id b =
      new_bucket b.buckets b.bucket_params b.bucket_start_index b.current_bucket_id >>= λ built.
      require (b.current_bucket_id + 1 == length b.buckets + 1) BufferError.bucket_count_mismatch
      >> (require (b.current_bucket_id + 1 == bucket_id) BufferError.bucket_id_mismatch
          >> ok (record b {
            bucket_start_index = built.1;
            current_bucket_id = bucket_id;
            bucket_params = [];
            buckets = b.buckets ++ built.0 ∷ [];
          }))

  -- A round for parameter `i`.
  unfoldable pub map_param : ℕ → ParamIndex → Building → Result BufferError Building
  unfolding close_bucket add_param map_views
  map_param i e b =
      let viewed = map_views c numels s i e b in
      (if viewed.current_bucket_id == e.bucket_id
        then ok viewed
        else close_bucket e.bucket_id viewed)
      >>= λ next. ok (add_param c numels s i next)

  -- The rounds for the parameters from `i` on, of which there are `left`, the last one first.
  unfoldable pub map_params : ℕ → ℕ → Result BufferError Building
  unfolding map_param find_entry
  map_params i zero = ok start_building
  map_params i (suc left) = do
    b ← map_params (i + 1) left
    e ← find_entry (pointer_at i) pointers s.param_index_map
    map_param i e b

  -- The loop, and the bucket that is left.
  unfoldable pub make_buckets : Result BufferError (List ParamAndGradBucket)
  unfolding map_params new_bucket
  make_buckets = map_params 0 (length pointers) >>= λ b.
      if length b.bucket_params == 0
      then ok b.buckets
      else (new_bucket b.buckets b.bucket_params b.bucket_start_index b.current_bucket_id
          >>= λ built. ok (b.buckets ++ built.0 ∷ []))

-- `BuildBuckets` as a whole, for parameters with these pointers and sizes.
unfoldable pub build_buckets :
    BufferConfig → List ℕ → List ℕ → Result BufferError (List ParamAndGradBucket)
unfolding pack check_sizes make_buckets
build_buckets c pointers numels =
    let packed = pack c numels in check_sizes c packed >> make_buckets c pointers numels packed
