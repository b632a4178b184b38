-- ===== src/DataLoader/Shares.antt =====
-- The ranks share the samples of the dataset: each sample is seen once, by one rank.
use native.Mathlib.Nat.{
  div-add-mod, mod-lt, mod-eq_of_lt, add-mod_right, add-mul-mod_self_left, div-lt_iff_lt-mul,
}
use infini_train.Base.{
  ℕ, zero, suc, ◌+◌, ◌-◌, ◌*◌, ◌/◌, ◌%◌, ◌^◌, ◌<◌, ◌≤◌, ◌≡◌, refl, ◌∙◌, ap, arith, min, inl, inr,
  Bool, true, ◌&&◌, List, [], ◌++◌, some, ltb, leb, ◌==◌, Bool-cases, ==→≡, ==→≢,
}
use infini_train.Base.Sort.{bit, count}
use infini_train.Base.Loops.{count-append}
use infini_train.DataLoader.{
  DataLoaderIterator, indexes_from, narrowed, batch, advance, differs, max_batches,
  distributed_begin, distributed_end, visit,
}

indexes_from-none : (a : ℕ) → indexes_from a 0 ≡ []
unfolding indexes_from
indexes_from-none a = refl

count-indexes_from :
    (i a left : ℕ) → count (λ x. x == i) (indexes_from a left) ≡ bit (leb a i && ltb i (a + left))
unfolding indexes_from
count-indexes_from i a zero = ground arith
count-indexes_from i a (suc left) = ground (arith, count-indexes_from i (a + 1) left)

module _ (size bs w : ℕ) (hb : 0 < bs) (hw : 0 < w) where
  abbrev at : ℕ → ℕ → DataLoaderIterator
  at r j = record {
    dataset_size = size;
    batch_size = bs;
    batch_idx = j;
    max_batch_idx = max_batches size bs;
    ddp_rank = r;
    ddp_world_size = w;
  }

  -- A batch that ends within the `int`s is the one that the products without a bound give.
  batch-exact :
      (r j : ℕ)
      → (j + 1) * bs ≤ 2 ^ 31
      → batch (at r j) ≡ indexes_from (j * bs) (min ((j + 1) * bs) size - j * bs)
  unfolding batch narrowed
  batch-exact r j h =
      let next : (j + 1) * bs ≡ j * bs + bs = grind arith in
      let first : j * bs % 2 ^ 64 ≡ j * bs = mod-eq_of_lt (omega (arith, next)) in
      let last : (j + 1) * bs % 2 ^ 64 ≡ (j + 1) * bs = mod-eq_of_lt (omega arith) in
      let kept : j * bs % 2 ^ 32 ≡ j * bs = mod-eq_of_lt (omega (arith, next)) in
      let positive : ltb (j * bs) (2 ^ 31) ≡ true = ground (arith, next) in
      rw (first, last, kept, positive) refl

  -- The batches before the end are within the `int`s where the dataset is.
  batch_ends : (j : ℕ) → size + bs ≤ 2 ^ 31 → j < max_batches size bs → (j + 1) * bs ≤ 2 ^ 31
  unfolding max_batches
  batch_ends j small h =
      let q = (size + bs - 1) / bs in
      let split = div-add-mod (size + bs - 1) bs in
      let more : q ≡ j + 1 + (q - j - 1) = omega arith in
      grind (arith, split, ap (λ (x : ℕ). bs * x) more)

  -- A sample stands once in the batch of its number divided by the batch size.
  count-batch :
      (r i j : ℕ)
      → (j + 1) * bs ≤ 2 ^ 31
      → i < size
      → count (λ x. x == i) (batch (at r j)) ≡ bit (i / bs == j)
  count-batch r i j fits h =
      let split = div-add-mod i bs in
      let low = mod-lt i hb in
      ap (count (λ x. x == i)) (batch-exact r j fits)
      ∙ count-indexes_from i (j * bs) _
      ∙ elim (Bool-cases (i / bs == j)) [
        | inl here ↦
            let same : i / bs ≡ j = ==→≡ _ _ here in
            let up : j * bs + i % bs ≡ i = grind (arith, split, ap (λ (x : ℕ). x * bs) same) in
            let next : (j + 1) * bs ≡ j * bs + bs = grind arith in
            rw here (ground (arith, up, next, low))
        | inr other ↦
            let next : (j + 1) * bs ≡ j * bs + bs = grind arith in
            elim (Bool-cases (ltb (i / bs) j)) [
              | inl less ↦
                  let more : j ≡ i / bs + 1 + (j - i / bs - 1) = ground arith in
                  let below : i < j * bs = grind (arith, split, low, ap (λ (x : ℕ). x * bs) more) in
                  rw other (ground (arith, below))
              | inr past ↦
                  let more : i / bs ≡ j + 1 + (i / bs - j - 1) = ground (arith, ==→≢ _ _ other) in
                  let above : (j + 1) * bs ≤ i =
                    grind (arith, split, ap (λ (x : ℕ). bs * x) more) in
                  rw other (ground (arith, above))
            ]
      ]

  -- The batch of a sample is one of the batches.
  batch_in : (i : ℕ) → i < size → i / bs < max_batches size bs
  unfolding max_batches
  batch_in i h = elim (Bool-cases (ltb (i / bs) ((size + bs - 1) / bs))) [
    | inl fine ↦ ground arith
    | inr large ↦
        let few : size + bs - 1 < (i / bs + 1) * bs = (div-lt_iff_lt-mul hb).0 (ground arith) in
        absurd (grind (arith, few, div-add-mod i bs))
  ]

  -- Whether the loop, from batch `j` on, comes to batch `b`.
  abbrev comes : ℕ → ℕ → Bool
  comes j b = leb j b && ((b - j) % w == 0)

  abbrev next_idx : ℕ → ℕ
  next_idx j = min (j + w) (max_batches size bs)

  comes-next :
      (j b : ℕ)
      → j < max_batches size bs
      → b < max_batches size bs
      → bit (b == j) + bit (comes (next_idx j) b) ≡ bit (comes j b)
  comes-next j b hj hb' = elim (Bool-cases (b == j)) [
    | inl here ↦
        let none_left : (b - j) % w ≡ 0 = ap (λ (x : ℕ). x % w) (ground arith) ∙ mod-eq_of_lt hw in
        ground (arith, none_left)
    | inr other ↦ elim (Bool-cases (leb (j + w) b)) [
      | inl later ↦
          let step : b - j ≡ b - (j + w) + w = ground arith in
          let same : (b - j) % w ≡ (b - (j + w)) % w =
            ap (λ (x : ℕ). x % w) step ∙ add-mod_right (b - (j + w)) w in
          let next : min (j + w) (max_batches size bs) ≡ j + w = ground arith in
          rw (next, same) (ground arith)
      | inr soon ↦ elim (Bool-cases (ltb b j)) [
        | inl past ↦ ground arith
        | inr ahead ↦
            let rest : (b - j) % w ≡ b - j = mod-eq_of_lt (ground arith) in ground (arith, rest)
      ]
    ]
  ]

  comes-rank : (r b : ℕ) → r < w → comes r b ≡ (b % w == r)
  comes-rank r b h = elim (Bool-cases (b % w == r)) [
    | inl own ↦
        let split : b ≡ r + w * (b / w) = ground (arith, div-add-mod b w, own) in
        let off : b - r ≡ 0 + w * (b / w) = omega (arith, split) in
        let none_left : (b - r) % w ≡ 0 =
          ap (λ (x : ℕ). x % w) off ∙ add-mul-mod_self_left 0 w (b / w) ∙ mod-eq_of_lt hw in
        rw own (ground (arith, none_left, split))
    | inr other ↦ elim (Bool-cases (comes r b)) [
      | inr no_visit ↦ rw (other, no_visit)
      | inl visit_it ↦
          let none_left : (b - r) % w ≡ 0 = ground (arith, visit_it) in
          let le : r ≤ b = ground (arith, visit_it) in
          let split : b ≡ r + w * ((b - r) / w) =
            omega (arith, div-add-mod (b - r) w, none_left, le) in
          let own : b % w ≡ r =
            ap (λ (x : ℕ). x % w) split
            ∙ add-mul-mod_self_left r w ((b - r) / w)
            ∙ mod-eq_of_lt h in
          absurd (ground (arith, own, other))
    ]
  ]

  -- The samples that the loop goes through from batch `j` on.
  visit-counts :
      (r fuel j : ℕ)
      → size + bs ≤ 2 ^ 31
      → j ≤ max_batches size bs
      → max_batches size bs ≤ j + fuel
      → (xs : List ℕ) × (visit fuel (at r j) (at r (max_batches size bs)) ≡ some xs)
        × ((i : ℕ) → i < size → count (λ x. x == i) xs ≡ bit (comes j (i / bs)))
  unfolding visit advance
  visit-counts r zero j small hj hf =
      let done : (j == max_batches size bs) ≡ true = ground arith in
      rw done ([], refl, λ i h. ground (arith, batch_in i h))
  visit-counts r (suc fuel) j small hj hf = elim (Bool-cases (j == max_batches size bs)) [
    | inl done ↦ rw done ([], refl, λ i h. ground (arith, batch_in i h))
    | inr going ↦
        let (xs, rest, counts) =
          visit-counts r fuel (next_idx j) small (omega arith) (ground arith) in
        rw (going, rest)
          (
            batch (at r j) ++ xs,
            refl,
            λ i h.
                count-append (λ x. x == i) (batch (at r j)) xs
                ∙ omega (
                  arith,
                  count-batch r i j (batch_ends j small (ground arith)) h,
                  counts i h,
                  comes-next j (i / bs) (ground arith) (batch_in i h),
                ),
          )
  ]

  -- For a batch size that is not 0, a rank below the number of ranks that is no more than the
  -- number of batches, and a dataset whose size is, with the batch size, at most 2 ^ 31: the loop from `begin` to `end` of the rank's data loader ends, and goes once
  -- through each sample of the dataset whose batch's number is the rank modulo the number of
  -- ranks, and through no other sample of the dataset.
  pub visit-shares :
      (r : ℕ)
      → r < w
      → r ≤ max_batches size bs
      → size + bs ≤ 2 ^ 31
      → (xs : List ℕ) × (visit
            (max_batches size bs)
            (distributed_begin size bs r w)
            (distributed_end size bs r w)
          ≡ some xs)
        × ((i : ℕ) → i < size → count (λ x. x == i) xs ≡ bit ((i / bs) % w == r))
  unfolding distributed_begin distributed_end
  visit-shares r hr hm small =
      let (xs, runs, counts) = visit-counts r (max_batches size bs) r small hm (omega arith) in
      (xs, runs, λ i h. counts i h ∙ ap bit (comes-rank r (i / bs) hr))

  -- Where there are fewer batches than a rank's number, the batch size is not 0, and the rank's first
  -- batch would end at 2 ^ 31 at the latest, `begin` of the rank's data loader is not `end`, and its
  -- batch is empty.
  pub late_rank_empty :
      (r : ℕ)
      → max_batches size bs < r
      → (r + 1) * bs ≤ 2 ^ 31
      → (differs (distributed_begin size bs r w) (distributed_end size bs r w) ≡ true)
        × (batch (distributed_begin size bs r w) ≡ [])
  unfolding distributed_begin distributed_end max_batches
  late_rank_empty r h fits =
      let last = max_batches size bs in
      let whole = div-add-mod (size + bs - 1) bs in
      let low = mod-lt (size + bs - 1) hb in
      let more : r ≡ (size + bs - 1) / bs + 1 + (r - (size + bs - 1) / bs - 1) = omega arith in
      let past : size ≤ r * bs = grind (arith, whole, low, ap (λ (x : ℕ). x * bs) more) in
      let none_left : min ((r + 1) * bs) size - r * bs ≡ 0 = omega (arith, past) in
      (
        ground arith,
        batch-exact r r fits ∙ ap (indexes_from (r * bs)) none_left ∙ indexes_from-none (r * bs),
      )
