-- ===== src/PipelineLayout/Balanced.antt =====
-- `PipelineLayout::SuggestBalancedPartition`. The costs are of C++'s type `double`, which is a
-- parameter here, with the operations that the function calls.
pub mod Suggested
use infini_train.Base.{
  ℕ, zero, suc, ◌+◌, ◌-◌, Bool, true, false, not, ◌&&◌, ◌||◌, List, [], ◌∷◌, Result, ok, err, ◌>>◌,
  ltb, ◌==◌, if◌then◌else◌, length, replicate, get_or,
}
use infini_train.Base.Int.{ℤ, pos, pos_part, ltb_ℤ, leb_ℤ}
use infini_train.PipelineLayout.{LayoutError}

pub record DoubleOps (D : Type 0) : Type 0 where
  pub zero_cost : D
  pub unit_cost : D
  pub add : D → D → D
  pub sub : D → D → D
  -- The division by a number that is turned into a `double`.
  pub divide : D → ℕ → D
  pub abs : D → D
  pub less : D → D → Bool
  pub at_most : D → D → Bool
  pub is_finite : D → Bool

module _ {D : Type 0} (o : DoubleOps D) where
  -- `costs` after the default; `n` is `num_layers`.
  abbrev pub filled_costs : ℕ → List D → List D
  filled_costs n [] = replicate n o.unit_cost
  filled_costs n (c ∷ cs) = c ∷ cs

  abbrev pub is_cost : D → Bool
  is_cost c = o.is_finite c && not (o.less c o.zero_cost)

  unfoldable pub check_costs : ℕ → List D → Result LayoutError (Unit {0})
  check_costs i [] = ok tt
  check_costs i (c ∷ cs) =
      if not (is_cost c) then err (LayoutError.cost_not_finite i) else check_costs (i + 1) cs

  -- `total += c`
  abbrev pub add_costs : D → List D → D
  add_costs total [] = total
  add_costs total (c ∷ cs) = add_costs (o.add total c) cs

  -- `costs[i]`
  abbrev pub cost_at : List D → ℕ → D
  cost_at costs i = get_or costs i o.zero_cost

  -- The `while` loop, with `room` layers that it may still take: `take` and `accum` at its end.
  unfoldable pub take_layers : List D → ℕ → D → ℕ → ℕ → D → ℕ × D
  take_layers costs cursor target zero taken accum = (taken, accum)
  take_layers costs cursor target (suc room) taken accum =
      let more = o.add accum (cost_at costs (cursor + taken)) in
      let rest = take_layers costs cursor target room (suc taken) more in
      if o.at_most more target then rest else (taken, accum)

  -- The layer after these is taken too where that gets the sum closer to the target.
  unfoldable pub take_closer : List D → ℕ → D → ℕ → ℕ × D → ℕ × D
  take_closer costs cursor target limit (taken, accum) =
      let more = o.add accum (cost_at costs (cursor + taken)) in
      if ltb taken limit && o.less (o.abs (o.sub more target)) (o.abs (o.sub accum target))
      then (suc taken, more)
      else (taken, accum)

  -- The number of layers of one stage, and their cost; `stages_after` is `stages_left - 1`.
  unfoldable pub fill_stage : ℕ → List D → ℕ → ℕ → D → ℕ × D
  unfolding take_layers take_closer
  fill_stage num_layers costs stages_after cursor remaining =
      let limit = num_layers - cursor - stages_after in
      let target = o.divide remaining (suc stages_after) in
      take_closer costs cursor target limit
        (take_layers costs cursor target (limit - 1) 1 (cost_at costs cursor))

  -- The loop over the stages, and the last stage, which takes what is left.
  unfoldable pub fill_stages : ℕ → List D → ℕ → ℕ → D → List ℕ
  unfolding fill_stage
  fill_stages num_layers costs zero cursor remaining = (num_layers - cursor) ∷ []
  fill_stages num_layers costs (suc stages_after) cursor remaining =
      let filled = fill_stage num_layers costs (suc stages_after) cursor remaining in
      filled.0
      ∷ fill_stages num_layers costs stages_after (cursor + filled.0) (o.sub remaining filled.1)

  unfoldable pub suggest_balanced_partition : ℤ → ℤ → List D → Result LayoutError (List ℕ)
  unfolding check_costs fill_stages
  suggest_balanced_partition num_layers pp_size layer_costs =
      let layers = pos_part num_layers in
      let costs = filled_costs layers layer_costs in
      if leb_ℤ num_layers (pos 0) || leb_ℤ pp_size (pos 0)
      then err (LayoutError.layers_or_stages_not_positive num_layers pp_size)
      else if ltb_ℤ num_layers pp_size
      then err (LayoutError.layers_below_stages num_layers pp_size)
      else if not (length costs == layers)
      then err (LayoutError.costs_length_mismatch num_layers (length costs))
      else check_costs 0 costs
        >> ok (fill_stages layers costs (pos_part pp_size - 1) 0 (add_costs o.zero_cost costs))
