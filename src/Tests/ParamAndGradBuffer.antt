-- ===== src/Tests/ParamAndGradBuffer.antt =====
-- The flat buffer of three parameters, for a group of three ranks and without a ZeRO stage.
use infini_train.Base.{
  ℕ, zero, suc, ◌≡◌, refl, arith, false, List, [], ◌∷◌, map, concat, length, Result, ok, err,
}
use infini_train.ParamAndGradBuffer.{BufferError, BufferConfig, BucketRange, lcm, pack}
use infini_train.ParamAndGradBuffer.Checked.{IsPacked, pack-IsPacked}
use infini_train.ParamAndGradBuffer.Buckets.{ParamAndGradBucket, build_buckets}
use infini_train.ParamAndGradBuffer.Buckets.Once.{NoneTwice}
use infini_train.ParamAndGradBuffer.Buckets.Tiling.{backprop_order, params_of}
use infini_train.ParamAndGradBuffer.Buckets.Built.{build_buckets_ok}

abbrev config : ℕ → BufferConfig
config stage = record {
  zero_stage = stage;
  bucket_size_in_elements = 100;
  pad_buckets_for_high_nccl_busbw = false;
  ddp_world_size = 3;
}

padded : lcm 3 128 ≡ 384
unfolding lcm
padded = refl

abbrev range : ℕ → ℕ → BucketRange
range a b = record { first = a; second = b }

-- The last parameter is placed first; it leaves a gap of 14 elements.
packed_ranges :
    (pack (config 2) (10 ∷ 70 ∷ 50 ∷ [])).bucket_indices ≡ range 0 384 ∷ range 384 768 ∷ []
unfolding pack
packed_ranges = refl

packed_params :
    map (λ e. range e.start_index e.end_index) (pack (config 2) (10 ∷ 70 ∷ 50 ∷ [])).param_index_map
    ≡ range 384 394 ∷ range 64 134 ∷ range 0 50 ∷ []
unfolding pack
packed_params = refl

packed_unpadded :
    (pack (config 0) (10 ∷ 70 ∷ 50 ∷ [])).bucket_indices ≡ range 0 120 ∷ range 120 130 ∷ []
unfolding pack
packed_unpadded = refl

abbrev built_of : Result BufferError (List ParamAndGradBucket) → List (List ℕ)
built_of (ok bs) = map (λ b. b.params) bs
built_of (err e) = []

abbrev ranges_of : Result BufferError (List ParamAndGradBucket) → List (List BucketRange)
ranges_of (ok bs) = map (λ b. b.param_to_range) bs
ranges_of (err e) = []

abbrev pointers : List ℕ
pointers = 4096 ∷ 8192 ∷ 5000 ∷ []

built_params :
    built_of (build_buckets (config 2) pointers (10 ∷ 70 ∷ 50 ∷ [])) ≡ (2 ∷ 1 ∷ []) ∷ (0 ∷ []) ∷ []
unfolding build_buckets
built_params = refl

-- The bucket itself places its second parameter at 50, and the buffer at 64.
built_ranges :
    ranges_of (build_buckets (config 2) pointers (10 ∷ 70 ∷ 50 ∷ []))
    ≡ (range 0 50 ∷ range 50 120 ∷ []) ∷ (range 0 10 ∷ []) ∷ []
unfolding build_buckets
built_ranges = refl

pack-IsPacked_example :
    IsPacked (config 2) (10 ∷ 70 ∷ 50 ∷ []) (pack (config 2) (10 ∷ 70 ∷ 50 ∷ []))
pack-IsPacked_example = pack-IsPacked (config 2) (10 ∷ 70 ∷ 50 ∷ []) (omega arith)

pointers-NoneTwice : NoneTwice pointers
pointers-NoneTwice zero zero less within = absurd (omega arith)
pointers-NoneTwice zero (suc zero) less within = λ e. absurd (omega (arith, e))
pointers-NoneTwice zero (suc (suc zero)) less within = λ e. absurd (omega (arith, e))
pointers-NoneTwice zero (suc (suc (suc j))) less within = absurd (omega (arith, within))
pointers-NoneTwice (suc i) zero less within = absurd (omega (arith, less))
pointers-NoneTwice (suc zero) (suc zero) less within = absurd (omega (arith, less))
pointers-NoneTwice (suc zero) (suc (suc zero)) less within = λ e. absurd (omega (arith, e))
pointers-NoneTwice (suc zero) (suc (suc (suc j))) less within = absurd (omega (arith, within))
pointers-NoneTwice (suc (suc i)) (suc zero) less within = absurd (omega (arith, less))
pointers-NoneTwice (suc (suc i)) (suc (suc zero)) less within = absurd (omega (arith, less))
pointers-NoneTwice (suc (suc i)) (suc (suc (suc j))) less within = absurd (omega (arith, within))

-- A parameter that stands twice is in a bucket already.
same_parameter_twice :
    build_buckets (config 2) (4096 ∷ 4096 ∷ []) (10 ∷ 10 ∷ [])
    ≡ err BufferError.param_in_two_buckets
unfolding build_buckets
same_parameter_twice = refl

build_buckets_ok_example :
    (bs : List ParamAndGradBucket) × (build_buckets (config 2) pointers (10 ∷ 70 ∷ 50 ∷ []) ≡ ok bs)
    × (length bs ≡ length (pack (config 2) (10 ∷ 70 ∷ 50 ∷ [])).bucket_indices)
    × (concat (params_of bs) ≡ backprop_order 0 3)
build_buckets_ok_example =
    build_buckets_ok (config 2) pointers (10 ∷ 70 ∷ 50 ∷ []) (omega arith) (omega arith) refl
      pointers-NoneTwice
