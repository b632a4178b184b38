-- ===== src/Tests/DataLoader.antt =====
-- Five samples in batches of two, for two ranks, and for a rank past the batches.
use infini_train.Base.{ℕ, ◌/◌, ◌%◌, ◌<◌, ◌≡◌, refl, arith, true, List, [], ◌∷◌, some, ◌==◌}
use infini_train.Base.Sort.{bit, count}
use infini_train.DataLoader.{batch, differs, max_batches, distributed_begin, distributed_end, visit}
use infini_train.DataLoader.Shares.{visit-shares, late_rank_empty}

first_rank_samples :
    visit 3 (distributed_begin 5 2 0 2) (distributed_end 5 2 0 2) ≡ some (0 ∷ 1 ∷ 4 ∷ [])
unfolding visit distributed_begin distributed_end
first_rank_samples = refl

visit-shares_example :
    (xs : List ℕ) × (visit (max_batches 5 2) (distributed_begin 5 2 1 2) (distributed_end 5 2 1 2)
      ≡ some xs)
    × ((i : ℕ) → i < 5 → count (λ x. x == i) xs ≡ bit ((i / 2) % 2 == 1))
unfolding max_batches
visit-shares_example =
    visit-shares 5 2 2 (omega arith) (omega arith) 1 (omega arith) (omega arith) (omega arith)

late_rank_empty_example :
    (differs (distributed_begin 5 2 7 8) (distributed_end 5 2 7 8) ≡ true)
    × (batch (distributed_begin 5 2 7 8) ≡ [])
unfolding max_batches
late_rank_empty_example =
    late_rank_empty 5 2 8 (omega arith) (omega arith) 7 (omega arith) (omega arith)

-- The batch that starts at sample 2 ^ 31 has no sample, as its number is negative in an `int`.
past_int_empty : batch (record (distributed_begin 4294967296 2 0 1) { batch_idx = 1073741824 }) ≡ []
unfolding batch distributed_begin
past_int_empty = refl
