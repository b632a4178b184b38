-- ===== src/Reducer/Buckets/Built.antt =====
-- No CHECK of `BuildBuckets` fails on buckets that share a key.
use infini_train.Base.{
  ℕ, ◌+◌, ◌≡◌, refl, arith, true, some, List, [], ◌∷◌, ok, All, All-map, All-get_elem?, get_elem?,
}
use infini_train.Tensors.{DeviceType, Tensor, same_device, same_dtype}
use infini_train.Reducer.{VariableLocator, Bucket}
use infini_train.Reducer.Assignment.{Key}
use infini_train.Reducer.Assignment.Shared.{HasKey, SharesKey}
use infini_train.Reducer.Buckets.{
  Filling, start_filling, add_variable, fill_bucket, finish_bucket, build_bucket,
  build_buckets_from,
}

module _ (params : List Tensor) (kind : DeviceType)
    (one_kind : All (λ t. t.device.device_type ≡ kind) params) where
  -- The CHECKs on a parameter of a bucket hold.
  abbrev Fits : Tensor → ℕ → Type 0
  Fits first i =
      (t : Tensor) × (get_elem? params i ≡ some t)
      × (same_device t.device first.device ≡ true)
      × (same_dtype t.dtype first.dtype ≡ true)

  key-Fits : (k : Key) (i j : ℕ) (first : HasKey params k i) → HasKey params k j → Fits first.0 j
  key-Fits k i j (t, e, h) (u, e', h') =
      let kind_t = All-get_elem? _ params i one_kind e in
      let kind_u = All-get_elem? _ params j one_kind e' in
      (u, e', rw (kind_t, kind_u) (ground (arith, h, h')), ground (arith, h, h'))

  fill_bucket_ok :
      (b : ℕ) (first : Tensor) (xs : List ℕ) (f : Filling)
      → All (Fits first) xs
      → (g : Filling) × (fill_bucket params b first xs f ≡ ok g)
  unfolding fill_bucket
  fill_bucket_ok b first [] f h = (f, refl)
  fill_bucket_ok b first (x ∷ xs) f h =
      let (t, e, device, dtype) = h.0 in
      let (g, rest) = fill_bucket_ok b first xs (add_variable b x t f) h.1 in
      (g, rw (fill_bucket, e, device, dtype) rest)

  build_bucket_ok :
      (b : ℕ) (xs : List ℕ) (before : List VariableLocator)
      → SharesKey params xs
      → (x : Bucket) × (after : List VariableLocator) × (build_bucket params b xs before
          ≡ ok (x, after))
  unfolding build_bucket
  build_bucket_ok b [] before (k, some_left, h) = absurd (omega arith)
  build_bucket_ok b (x ∷ xs) before (k, some_left, h) =
      let (first, e, here) = h.0 in
      let (g, filled) =
        fill_bucket_ok b first (x ∷ xs) (start_filling before)
          (All-map (HasKey params k) (Fits first) (λ j. key-Fits k x j h.0) (x ∷ xs) h) in
      (finish_bucket params first (x ∷ xs) g, g.locators, rw (build_bucket, e, filled) refl)

  pub build_buckets_from_ok :
      (a : ℕ) (xss : List (List ℕ)) (before : List VariableLocator)
      → All (SharesKey params) xss
      → (bs : List Bucket) × (after : List VariableLocator) × (build_buckets_from params a xss
            before
          ≡ ok (bs, after))
  unfolding build_buckets_from
  build_buckets_from_ok a [] before h = ([], before, refl)
  build_buckets_from_ok a (xs ∷ xss) before h =
      let (x, mid, first) = build_bucket_ok a xs before h.0 in
      let (bs, after, rest) = build_buckets_from_ok (a + 1) xss mid h.1 in
      (x ∷ bs, after, rw (first, rest) refl)
