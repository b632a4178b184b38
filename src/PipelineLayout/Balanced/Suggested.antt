-- ===== src/PipelineLayout/Balanced/Suggested.antt =====
-- What `SuggestBalancedPartition` returns, and that `BuildContiguous` takes it.
use infini_train.Base.{
  ℕ, zero, suc, ◌+◌, ◌-◌, ◌≤◌, ◌<◌, ◌≡◌, refl, sym, ap, ◌⊎◌, inl, inr, true, false, ◌||◌, List, [],
  ◌∷◌, All, All-map, Result, ok, ltb, ◌==◌, Bool-cases, arith, length, length-replicate, replicate,
  map, sum,
}
use infini_train.Base.Int.{pos, ltb_ℤ, leb_ℤ}
use infini_train.PipelineLayout.{LayoutError, PipelineLayoutPolicy, default_placement}
use infini_train.PipelineLayout.Builders.{Builds, build_contiguous, default_placement-PlacementFits}
use infini_train.PipelineLayout.Builders.Contiguous.{build_contiguous-Builds}
use infini_train.PipelineLayout.Balanced.{
  DoubleOps, is_cost, filled_costs, check_costs, add_costs, cost_at, take_layers, take_closer,
  fill_stage, fill_stages, suggest_balanced_partition,
}

-- A partition of `n` layers among `p` stages, none of them empty, from which a layout is built.
pub record Partitions (n p : ℕ) (r : Result LayoutError (List ℕ)) : Type 0 where
  pub counts : List ℕ
  pub returns : r ≡ ok counts
  pub one_each : length counts ≡ p
  pub all_dealt : sum counts ≡ n
  pub none_empty : All (λ k. 0 < k) counts
  pub builds :
      (policy : PipelineLayoutPolicy)
      → Builds n p 1 (build_contiguous (map pos counts) default_placement policy)

-- The counts that a stage may have with `limit` layers to choose from.
Within : ℕ → ℕ → Type 0
Within limit k = (0 < k) × (k ≤ limit)

module _ {D : Type 0} (o : DoubleOps D) where
  -- Costs that the function takes: one for each layer, or none at all.
  abbrev pub CostsFit : ℕ → List D → Type 0
  CostsFit n [] = is_cost o (o.unit_cost) ≡ true
  CostsFit n (c ∷ cs) = (length (c ∷ cs) ≡ n) × All (λ d. is_cost o d ≡ true) (c ∷ cs)

  check_costs_lem :
      (i : ℕ) (cs : List D) → All (λ d. is_cost o d ≡ true) cs → check_costs o i cs ≡ ok tt
  unfolding check_costs
  check_costs_lem i [] h = refl
  check_costs_lem i (c ∷ cs) h = rw h.0 (check_costs_lem (i + 1) cs h.1)

  replicate-All :
      (n : ℕ) (d : D) → is_cost o d ≡ true → All (λ d. is_cost o d ≡ true) (replicate n d)
  replicate-All zero d h = tt
  replicate-All (suc n) d h = (h, replicate-All n d h)

  filled_costs_fit :
      (n : ℕ) (cs : List D)
      → CostsFit n cs
      → (length (filled_costs o n cs) ≡ n) × All (λ d. is_cost o d ≡ true) (filled_costs o n cs)
  filled_costs_fit n [] h = (length-replicate n _, replicate-All n _ h)
  filled_costs_fit n (c ∷ cs) h = h

  take_layers-Within :
      (costs : List D) (cursor : ℕ) (target : D) (room taken limit : ℕ) (accum : D)
      → taken + room ≡ limit
      → 0 < taken
      → Within limit (take_layers o costs cursor target room taken accum).0
  unfolding take_layers Within
  take_layers-Within costs cursor target zero taken limit accum e h = (h, omega arith)
  take_layers-Within costs cursor target (suc room) taken limit accum e h =
      let more = o.add accum (cost_at o costs (cursor + taken)) in
      let rest =
        take_layers-Within costs cursor target room (suc taken) limit more (omega arith)
          (omega arith) in
      elim (Bool-cases (o.at_most more target)) [
        | inl fits ↦ rw fits rest
        | inr heavy ↦ rw heavy (h, omega arith)
      ]

  take_closer-Within :
      (costs : List D) (cursor : ℕ) (target : D) (limit : ℕ) (taken : ℕ × D)
      → Within limit taken.0
      → Within limit (take_closer o costs cursor target limit taken).0
  unfolding take_closer Within
  take_closer-Within costs cursor target limit (taken, accum) h =
      let more = o.add accum (cost_at o costs (cursor + taken)) in
      let closer = o.less (o.abs (o.sub more target)) (o.abs (o.sub accum target)) in
      elim (Bool-cases (ltb taken limit)) [
        | inr full ↦ rw full h
        | inl room ↦ elim (Bool-cases closer) [
          | inl nearer ↦ rw (room, nearer) (omega arith, ground arith)
          | inr farther ↦ rw (room, farther) h
        ]
      ]

  -- A stage takes a layer, and leaves one for each stage after it.
  fill_stage-Within :
      (n : ℕ) (costs : List D) (after cursor : ℕ) (remaining : D)
      → cursor + after < n
      → Within (n - cursor - after) (fill_stage o n costs after cursor remaining).0
  unfolding fill_stage
  fill_stage-Within n costs after cursor remaining h =
      take_closer-Within _ _ _ _ _ (take_layers-Within _ _ _ _ 1 _ _ (omega arith) (omega arith))

  fill_stages-parts :
      (n : ℕ) (costs : List D) (after cursor : ℕ) (remaining : D)
      → cursor + after < n
      → (length (fill_stages o n costs after cursor remaining) ≡ suc after)
        × (cursor + sum (fill_stages o n costs after cursor remaining) ≡ n)
        × All (λ k. 0 < k) (fill_stages o n costs after cursor remaining)
  unfolding fill_stages Within
  fill_stages-parts n costs zero cursor remaining h = (refl, omega arith, (omega arith, tt))
  fill_stages-parts n costs (suc after) cursor remaining h =
      let filled = fill_stage o n costs (suc after) cursor remaining in
      let within = fill_stage-Within n costs (suc after) cursor remaining h in
      let (len, total, full) =
        fill_stages-parts n costs after (cursor + filled.0) (o.sub remaining filled.1)
          (omega (arith, within.0, within.1)) in
      (ap suc len, omega (arith, total), (within.0, full))

counts_build :
    (n p : ℕ) (counts : List ℕ)
    → 0 < p
    → length counts ≡ p
    → sum counts ≡ n
    → All (λ k. 0 < k) counts
    → (policy : PipelineLayoutPolicy)
    → Builds n p 1 (build_contiguous (map pos counts) default_placement policy)
counts_build n p [] h len total full policy = absurd (omega (arith, len))
counts_build n p (k ∷ ks) h len total full policy =
    rw (sym total, sym len)
      (build_contiguous-Builds k ks default_placement policy
        (All-map (λ j. 0 < j) (λ j. (0 < j) ⊎ (policy.allow_empty_stages ≡ true))
          (λ j pos_j. inl pos_j) (k ∷ ks) full)
        (default_placement-PlacementFits policy _ (omega arith)))

-- For at least one stage, no more stages than layers, and costs that are finite and not negative,
-- one for each layer or none given, `SuggestBalancedPartition` returns, whatever its sums and
-- comparisons of `double` give: a count for each stage, each above 0, which add up to
-- the number of layers, and from which `BuildContiguous` makes a valid layout of as many layers
-- and stages under every policy, with the special modules left at their default stages.
pub suggest_balanced_partition-Partitions :
    {D : Type 0} (o : DoubleOps D) (n p : ℕ) (costs : List D)
    → 0 < p
    → p ≤ n
    → CostsFit o n costs
    → Partitions n p (suggest_balanced_partition o (pos n) (pos p) costs)
unfolding suggest_balanced_partition
suggest_balanced_partition-Partitions o n p costs h below fit =
    let all = filled_costs o n costs in
    let (len, fine) = filled_costs_fit o n costs fit in
    let made = fill_stages o n all (p - 1) 0 (add_costs o o.zero_cost all) in
    let start = add_costs o o.zero_cost all in
    let (parts, dealt, full) = fill_stages-parts o n all (p - 1) 0 start (omega arith) in
    let count : length made ≡ p = omega (arith, parts) in
    let total : sum made ≡ n = omega (arith, dealt) in
    let positive : (leb_ℤ (pos n) (pos 0) || leb_ℤ (pos p) (pos 0)) ≡ false = ground arith in
    let enough : ltb_ℤ (pos n) (pos p) ≡ false = ground arith in
    let matching : (length all == n) ≡ true = ground (arith, len) in
    record {
      counts = made;
      returns = rw (positive, enough, matching, check_costs_lem o 0 all fine) refl;
      one_each = count;
      all_dealt = total;
      none_empty = full;
      builds = counts_build n p made h count total full;
    }
