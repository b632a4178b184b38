-- ===== src/Global/Groups.antt =====
-- The groups of a layout in the default order: the ranks that differ on one axis only.
use infini_train.Base.{
  ℕ, zero, suc, ◌+◌, ◌*◌, ◌/◌, ◌%◌, ◌<◌, ◌≤◌, ◌≡◌, ◌↔◌, refl, sym, subst, ◌∙◌, ap, inl, inr, arith,
  ◌∈◌, length, ◌==◌, Bool-cases, ==→≡, ==→≢,
}
use infini_train.Global.{
  Axis, Layout, per_axis, update, rank_of, coord_of, group_id, group_ranks_loop, group_ranks,
  group_id_of_rank, group_ranks_of_rank,
}
use infini_train.Global.Coordinates.{default_layout, coord_of-rank_of, rank_of-coord_of, digit}

module _ (l : Layout) (target : Axis) (i j k : ℕ) where
  -- The rank with the value `w` on the target axis, and the given coordinates on the others.
  abbrev pub rank_with : ℕ → ℕ
  rank_with w =
      let coord = update (per_axis i j k) target w in
      rank_of l (coord Axis.dp) (coord Axis.tp) (coord Axis.pp)

  mem-group_ranks_loop :
      (v left a : ℕ)
      → a ∈ group_ranks_loop l target i j k v left
      → (w : ℕ) × (w < v + left) × (a ≡ rank_with w)
  unfolding group_ranks_loop
  mem-group_ranks_loop v zero a m = absurd m
  mem-group_ranks_loop v (suc left) a (inl e) = (v, omega arith, e)
  mem-group_ranks_loop v (suc left) a (inr m) =
      let (w, lt, e) = mem-group_ranks_loop (v + 1) left a m in (w, omega arith, e)

  group_ranks_loop-mem :
      (v left w : ℕ) → v ≤ w → w < v + left → rank_with w ∈ group_ranks_loop l target i j k v left
  unfolding group_ranks_loop
  group_ranks_loop-mem v zero w lo hi = absurd (omega arith)
  group_ranks_loop-mem v (suc left) w lo hi = elim (Bool-cases (w == v)) [
    | inl here ↦ inl (ap rank_with (==→≡ w v here))
    | inr later ↦
        inr (group_ranks_loop-mem (v + 1) left w (omega (arith, ==→≢ w v later)) (omega arith))
  ]

  length-group_ranks_loop : (v left : ℕ) → length (group_ranks_loop l target i j k v left) ≡ left
  unfolding group_ranks_loop
  length-group_ranks_loop v zero = refl
  length-group_ranks_loop v (suc left) = ap suc (length-group_ranks_loop (v + 1) left)

module _ (d t p : ℕ) where
  abbrev L : Layout
  L = default_layout d t p

  sizes-default : L.sizes ≡ per_axis d t p
  unfolding default_layout
  sizes-default = refl

  -- Coordinates within the sizes, axis by axis.
  abbrev Within : ℕ → ℕ → ℕ → Type 0
  Within i j k = (i < d) × (j < t) × (k < p)

  group_id-dp : (i j k : ℕ) → group_id L Axis.dp i j k ≡ k + p * j
  unfolding group_id default_layout
  group_id-dp i j k = grind arith

  group_id-tp : (i j k : ℕ) → group_id L Axis.tp i j k ≡ k + p * i
  unfolding group_id default_layout
  group_id-tp i j k = grind arith

  group_id-pp : (i j k : ℕ) → group_id L Axis.pp i j k ≡ i + d * j
  unfolding group_id default_layout
  group_id-pp i j k = grind arith

  -- Two numbers of two digits with the same value have the same digits.
  digits_inj : (m a b x y : ℕ) → a < m → x < m → a + m * b ≡ x + m * y → (a ≡ x) × (b ≡ y)
  digits_inj m a b x y ha hx e =
      let one = digit a m b ha in
      let two = digit x m y hx in
      (sym one.0 ∙ ap (λ (z : ℕ). z % m) e ∙ two.0, sym one.1 ∙ ap (λ (z : ℕ). z / m) e ∙ two.1)

  -- Ranks with the same group id differ on the target axis only.
  group_id-rank_with :
      (target : Axis) (i j k x y z : ℕ)
      → Within i j k
      → Within x y z
      → group_id L target x y z ≡ group_id L target i j k
      → rank_of L x y z ≡ rank_with L target i j k (per_axis x y z target)
  group_id-rank_with Axis.dp i j k x y z h h' e =
      let same = digits_inj p z y k j h'.2 h.2 (sym (group_id-dp x y z) ∙ e ∙ group_id-dp i j k) in
      rw (same.0, same.1)
  group_id-rank_with Axis.tp i j k x y z h h' e =
      let same = digits_inj p z x k i h'.2 h.2 (sym (group_id-tp x y z) ∙ e ∙ group_id-tp i j k) in
      rw (same.0, same.1)
  group_id-rank_with Axis.pp i j k x y z h h' e =
      let same = digits_inj d x y i j h'.0 h.0 (sym (group_id-pp x y z) ∙ e ∙ group_id-pp i j k) in
      rw (same.0, same.1)

  module _ (r : ℕ) (hr : r < d * t * p) where
    abbrev at : ℕ × ℕ × ℕ
    at = coord_of L r

    -- A member of the group of a rank has the group id of that rank.
    member-group_id :
        (target : Axis) (w : ℕ)
        → w < per_axis d t p target
        → group_id_of_rank L target (rank_with L target at.0 at.1 at.2 w)
          ≡ group_id_of_rank L target r
    unfolding group_id_of_rank
    member-group_id Axis.dp w h =
        let v = rank_of-coord_of d t p r hr in
        rw (coord_of-rank_of d t p w at.1 at.2 h v.2 v.3, group_id-dp, group_id-dp)
    member-group_id Axis.tp w h =
        let v = rank_of-coord_of d t p r hr in
        rw (coord_of-rank_of d t p at.0 w at.2 v.1 h v.3, group_id-tp, group_id-tp)
    member-group_id Axis.pp w h =
        let v = rank_of-coord_of d t p r hr in
        rw (coord_of-rank_of d t p at.0 at.1 w v.1 v.2 h, group_id-pp, group_id-pp)

    coord_in :
        (a : ℕ)
        → a < d * t * p
        → (target : Axis)
        → per_axis (coord_of L a).0 (coord_of L a).1 (coord_of L a).2 target < per_axis d t p target
    coord_in a h Axis.dp = (rank_of-coord_of d t p a h).1
    coord_in a h Axis.tp = (rank_of-coord_of d t p a h).2
    coord_in a h Axis.pp = (rank_of-coord_of d t p a h).3

    -- Among the ranks below the product of the sizes, the members of the group of one of them along
    -- an axis are exactly the ranks with its group id.
    pub group_ranks_iff :
        (target : Axis) (a : ℕ)
        → a < d * t * p
        → (a ∈ group_ranks_of_rank (default_layout d t p) target r) ↔ (
            group_id_of_rank (default_layout d t p) target a
            ≡ group_id_of_rank (default_layout d t p) target r)
    unfolding group_ranks_of_rank group_ranks group_id_of_rank
    group_ranks_iff target a h =
        let va = rank_of-coord_of d t p a h in
        let vr = rank_of-coord_of d t p r hr in
        (
          λ m.
              let (w, lt, e) =
                mem-group_ranks_loop L target at.0 at.1 at.2 0 (L.sizes target) a m in
              ap (group_id_of_rank L target) e
              ∙ member-group_id target w
                  (omega (arith, ap (λ (f : Axis → ℕ). f target) sizes-default)),
          λ e.
              let here =
                group_id-rank_with target at.0 at.1 at.2 (coord_of L a).0 (coord_of L a).1
                  (coord_of L a).2 (vr.1, vr.2, vr.3) (va.1, va.2, va.3) e in
              subst (λ (x : ℕ). x ∈ group_ranks_of_rank L target r) (sym here ∙ va.0)
                (group_ranks_loop-mem L target at.0 at.1 at.2 0 (L.sizes target)
                  (per_axis (coord_of L a).0 (coord_of L a).1 (coord_of L a).2 target) (omega arith)
                  (omega
                    (arith, coord_in a h target, ap (λ (f : Axis → ℕ). f target) sizes-default))),
        )
