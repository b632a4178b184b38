-- ===== src/Tests/Balanced.antt =====
-- Suggested partitions, with whole numbers for the costs.
use infini_train.Base.{◌+◌, ◌/◌, ◌≡◌, refl, arith, true, List, [], ◌∷◌, ok, err}
use infini_train.Base.Int.{ℤ, pos, negsuc, pos_part, neg_part, ◌+ℤ◌, ◌-ℤ◌, ltb_ℤ, leb_ℤ}
use infini_train.PipelineLayout.{LayoutError}
use infini_train.PipelineLayout.Balanced.{DoubleOps, suggest_balanced_partition}
use infini_train.PipelineLayout.Balanced.Suggested.{
  Partitions, suggest_balanced_partition-Partitions,
}

abbrev whole : DoubleOps ℤ
whole = record {
  zero_cost = pos 0;
  unit_cost = pos 1;
  add = λ a b. a +ℤ b;
  sub = λ a b. a -ℤ b;
  divide = λ a n. pos (pos_part a / n);
  abs = λ a. pos (pos_part a + neg_part a);
  less = ltb_ℤ;
  at_most = leb_ℤ;
  is_finite = λ a. true;
}

abbrev heavy_first : List ℤ
heavy_first = pos 6 ∷ pos 2 ∷ pos 2 ∷ pos 2 ∷ []

heavy_layer_alone : suggest_balanced_partition whole (pos 4) (pos 2) heavy_first ≡ ok (1 ∷ 3 ∷ [])
unfolding suggest_balanced_partition ◌+ℤ◌ ◌-ℤ◌
heavy_layer_alone = refl

even_by_default : suggest_balanced_partition whole (pos 6) (pos 3) [] ≡ ok (2 ∷ 2 ∷ 2 ∷ [])
unfolding suggest_balanced_partition ◌+ℤ◌ ◌-ℤ◌
even_by_default = refl

negative_cost_fails :
    suggest_balanced_partition whole (pos 2) (pos 1) (pos 1 ∷ negsuc 0 ∷ [])
    ≡ err (LayoutError.cost_not_finite 1)
unfolding suggest_balanced_partition ◌+ℤ◌ ◌-ℤ◌
negative_cost_fails = refl

suggest_balanced_partition-Partitions_example :
    Partitions 4 2 (suggest_balanced_partition whole (pos 4) (pos 2) heavy_first)
suggest_balanced_partition-Partitions_example =
    suggest_balanced_partition-Partitions whole 4 2 heavy_first (omega arith) (omega arith)
      (refl, (refl, (refl, (refl, (refl, tt)))))
