-- ===== src/Reducer/Assignment/Shared.antt =====
-- Which buckets `ComputeBucketAssignmentBySize` returns: each index of the order stands in one of
-- them, none is empty, and the tensors of a bucket share a key.
use infini_train.Base.{
  ℕ, ◌+◌, ◌<◌, ◌≡◌, arith, inl, inr, Bool, true, some, List, [], ◌∷◌, ◌++◌, ==-refl, Bool-cases,
  All, All-append, concat, length, length-append, get_elem?,
}
use infini_train.Base.Sort.{bit, count}
use infini_train.Base.Loops.{count-append}
use infini_train.Tensors.{Tensor}
use infini_train.Reducer.Assignment.{
  Key, same_key, key_of, State, new_state, Group, no_elements, assign_to_state, assign_to_group,
  flush_groups,
}
use infini_train.Reducer.Assignment.Grouped.{
  held, assign_to_state-cases, flush_current_bucket-some, flush_current_bucket-none,
}

module _ (tensors : List Tensor) where
  -- The index names a tensor of this key.
  abbrev pub HasKey : Key → ℕ → Type 0
  HasKey k i = (t : Tensor) × (get_elem? tensors i ≡ some t) × (same_key k (key_of t) ≡ true)

  -- A bucket that is not empty, of tensors of one key.
  abbrev pub SharesKey : List ℕ → Type 0
  SharesKey xs = (k : Key) × (0 < length xs) × All (HasKey k) xs

  abbrev pub Keyed : Group → Type 0
  Keyed g = All (HasKey g.key) g.state.current_tensors

  -- The index that joins a group.
  pub record Joins (p : ℕ → Bool) (idx : ℕ) (gs : List Group) (result : List (List ℕ) × List Group)
      : Type 0 where
    pub counts :
        count p (concat result.0) + count p (held result.1) ≡ count p (held gs) + bit (p idx)
    pub share : All SharesKey result.0
    pub keyed : All Keyed result.1

  state-Joins :
      (p : ℕ → Bool) (limits : List ℕ) (idx : ℕ) (t : Tensor) (k : Key) (s : State)
      (gs : List Group)
      → HasKey k idx
      → All (HasKey k) s.current_tensors
      → All Keyed gs
      → Joins p idx (record { key = k; state = s } ∷ gs) (
        (assign_to_state limits idx t s).0,
        record { key = k; state = (assign_to_state limits idx t s).1 } ∷ gs,
      )
  state-Joins p limits idx t k s gs here old others =
      let all = All-append (HasKey k) s.current_tensors (idx ∷ []) old (here, tt) in
      let total = count-append p s.current_tensors (idx ∷ []) in
      let with_old = count-append p s.current_tensors (held gs) in
      elim (assign_to_state-cases limits idx t s) [
        | inl kept ↦ record {
          counts =
              let with_new = count-append p (s.current_tensors ++ idx ∷ []) (held gs) in
              rw (kept.0, kept.1) (omega (arith, total, with_old, with_new));
          share = rw kept.0 tt;
          keyed = (rw kept.1 all, others);
        }
        | inr flushed ↦ record {
          counts =
              let alone = count-append p (s.current_tensors ++ idx ∷ []) [] in
              rw (flushed.0, flushed.1) (omega (arith, total, with_old, alone));
          share =
              rw flushed.0
                ((k, omega (arith, length-append s.current_tensors (idx ∷ [])), all), tt);
          keyed = (rw flushed.1 tt, others);
        }
      ]

  pub assign_to_group-Joins :
      (p : ℕ → Bool) (limits : List ℕ) (idx : ℕ) (t : Tensor) (gs : List Group)
      → get_elem? tensors idx ≡ some t
      → All Keyed gs
      → Joins p idx gs (assign_to_group limits idx t gs)
  unfolding assign_to_group
  assign_to_group-Joins p limits idx t [] here keyed =
      let J =
        state-Joins p limits idx t (key_of t) new_state []
          (t, here, ground (arith, ==-refl t.device.index)) tt tt in
      record { counts = J.counts; share = J.share; keyed = J.keyed }
  assign_to_group-Joins p limits idx t (g ∷ gs) here keyed =
      elim (Bool-cases (same_key g.key (key_of t))) [
        | inl same ↦
            rw (same, assign_to_group)
              (state-Joins p limits idx t g.key g.state gs (t, here, same) keyed.0 keyed.1)
        | inr other ↦
            let J = assign_to_group-Joins p limits idx t gs here keyed.1 in
            let before = count-append p g.state.current_tensors (held gs) in
            let after =
              count-append p g.state.current_tensors (held (assign_to_group limits idx t gs).1) in
            rw (other, assign_to_group)
              (record {
                counts = omega (arith, J.counts, before, after);
                share = J.share;
                keyed = (keyed.0, J.keyed);
              })
      ]

  pub flush_groups-SharesKey :
      (limits : List ℕ) (gs : List Group) → All Keyed gs → All SharesKey (flush_groups limits gs)
  unfolding flush_groups
  flush_groups-SharesKey limits [] keyed = tt
  flush_groups-SharesKey limits (g ∷ gs) keyed =
      let rest = flush_groups-SharesKey limits gs keyed.1 in
      elim (Bool-cases (no_elements g.state.current_tensors)) [
        | inl e ↦ rw (flush_current_bucket-none limits g.state e) rest
        | inr e ↦
            rw ((flush_current_bucket-some limits g.state e).0)
              ((g.key, ground (arith, e), keyed.0), rest)
      ]
