-- ===== src/DataLoader.antt =====
-- `DataLoader` and `DistributedDataLoader` (infini_train/src/dataloader.cc): which samples of the
-- dataset a rank goes through. A batch is the list of its samples' numbers; the stack of their
-- tensors is not modelled. A product of `size_t` wraps around at 2 ^ 64, and a sum does not.
pub mod Shares
use infini_train.Base.{
  ℕ, zero, suc, ◌+◌, ◌-◌, ◌*◌, ◌/◌, ◌%◌, ◌^◌, min, Bool, not, List, [], ◌∷◌, ◌++◌, Option, none,
  some, ltb, ◌==◌, if◌then◌else◌,
}

pub record DataLoaderIterator : Type 0 where
  pub dataset_size : ℕ
  pub batch_size : ℕ
  pub batch_idx : ℕ
  pub max_batch_idx : ℕ
  pub ddp_rank : ℕ
  pub ddp_world_size : ℕ

-- for (idx = a; left rounds; ++idx) push(idx)
unfoldable pub indexes_from : ℕ → ℕ → List ℕ
indexes_from idx zero = []
indexes_from idx (suc left) = idx ∷ indexes_from (idx + 1) left

-- A product of two `size_t`.
abbrev pub mul_size : ℕ → ℕ → ℕ
mul_size a b = a * b % 2 ^ 64

-- `int idx = n`, as the comparisons with a `size_t` read it: a negative `idx` is near 2 ^ 64.
unfoldable pub narrowed : ℕ → ℕ
narrowed n = let low = n % 2 ^ 32 in if ltb low (2 ^ 31) then low else low + (2 ^ 64 - 2 ^ 32)

-- `operator*`: both bounds of the loop, the batch's end and the dataset's size. The increments of
-- `idx` do not overflow an `int` here.
unfoldable pub batch : DataLoaderIterator → List ℕ
unfolding indexes_from narrowed
batch it =
    let idx = narrowed (mul_size it.batch_idx it.batch_size) in
    indexes_from idx (min (mul_size (it.batch_idx + 1) it.batch_size) it.dataset_size - idx)

-- `operator++`
unfoldable pub advance : DataLoaderIterator → DataLoaderIterator
advance it = record it { batch_idx = min (it.batch_idx + it.ddp_world_size) it.max_batch_idx }

abbrev pub differs : DataLoaderIterator → DataLoaderIterator → Bool
differs lhs rhs = not (lhs.batch_idx == rhs.batch_idx)

unfoldable pub max_batches : ℕ → ℕ → ℕ
max_batches dataset_size batch_size = (dataset_size + batch_size - 1) / batch_size

module _ (dataset_size batch_size ddp_rank ddp_world_size : ℕ) where
  unfoldable pub distributed_begin : DataLoaderIterator
  unfolding max_batches
  distributed_begin = record {
    dataset_size = dataset_size;
    batch_size = batch_size;
    batch_idx = ddp_rank;
    max_batch_idx = max_batches dataset_size batch_size;
    ddp_rank = ddp_rank;
    ddp_world_size = ddp_world_size;
  }

  unfoldable pub distributed_end : DataLoaderIterator
  unfolding max_batches
  distributed_end = record {
    dataset_size = dataset_size;
    batch_size = batch_size;
    batch_idx = max_batches dataset_size batch_size;
    max_batch_idx = max_batches dataset_size batch_size;
    ddp_rank = ddp_rank;
    ddp_world_size = ddp_world_size;
  }

-- A batch before the ones that the rest of the loop goes through.
abbrev pub before : List ℕ → Option (List ℕ) → Option (List ℕ)
before xs none = none
before xs (some ys) = some (xs ++ ys)

-- for (; it != end; ++it) use(*it), on fuel; `none` where the fuel does not suffice.
unfoldable pub visit : ℕ → DataLoaderIterator → DataLoaderIterator → Option (List ℕ)
unfolding batch advance
visit zero it end = if differs it end then none else some []
visit (suc fuel) it end =
    let rest = visit fuel (advance it) end in
    if differs it end then before (batch it) rest else some []
