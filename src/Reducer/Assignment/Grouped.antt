-- ===== src/Reducer/Assignment/Grouped.antt =====
-- What `ComputeBucketAssignmentBySize` makes of the tensors: each index of the order stands in one
-- bucket, and a bucket's tensors are of one key.
use infini_train.Base.{
  ℕ, ◌+◌, ◌%◌, ◌^◌, ◌≡◌, refl, ap, arith, inl, inr, ◌⊎◌, true, false, List, [], ◌∷◌, ◌++◌, leb,
  Bool-cases, concat, length-append, get_or,
}
use infini_train.Tensors.{Tensor}
use infini_train.Reducer.Assignment.{
  State, Group, no_elements, flush_current_bucket, tensor_bytes, assign_to_state, flush_groups,
}

-- What the groups hold that is in no bucket yet.
abbrev pub held : List Group → List ℕ
held [] = []
held (g ∷ gs) = g.state.current_tensors ++ held gs

no_elements-nil : (xs : List ℕ) → no_elements xs ≡ true → xs ≡ []
no_elements-nil [] e = refl
no_elements-nil (x ∷ xs) e = absurd (ground arith)

-- A state is flushed where it holds something, and holds nothing then.
pub flush_current_bucket-some :
    (limits : List ℕ) (s : State)
    → no_elements s.current_tensors ≡ false
    → ((flush_current_bucket limits s).0 ≡ s.current_tensors ∷ [])
      × ((flush_current_bucket limits s).1.current_tensors ≡ [])
unfolding flush_current_bucket
flush_current_bucket-some limits s e =
    (rw (e, flush_current_bucket) refl, rw (e, flush_current_bucket) refl)

pub flush_current_bucket-none :
    (limits : List ℕ) (s : State)
    → no_elements s.current_tensors ≡ true
    → (flush_current_bucket limits s).0 ≡ []
unfolding flush_current_bucket
flush_current_bucket-none limits s e = rw (e, flush_current_bucket) refl

abbrev added : ℕ → Tensor → State → State
added idx t s = record s {
  current_tensors = s.current_tensors ++ idx ∷ [];
  current_bytes = (s.current_bytes + tensor_bytes t) % 2 ^ 64;
}

no_elements-added : (xs : List ℕ) (idx : ℕ) → no_elements (xs ++ idx ∷ []) ≡ false
no_elements-added xs idx = ground (arith, length-append xs (idx ∷ []))

-- The index joins what its state holds; a state that is full is flushed.
pub assign_to_state-cases :
    (limits : List ℕ) (idx : ℕ) (t : Tensor) (s : State)
    → (((assign_to_state limits idx t s).0 ≡ [])
        × ((assign_to_state limits idx t s).1.current_tensors ≡ s.current_tensors ++ idx ∷ []))
      ⊎ (((assign_to_state limits idx t s).0 ≡ (s.current_tensors ++ idx ∷ []) ∷ [])
          × ((assign_to_state limits idx t s).1.current_tensors ≡ []))
unfolding assign_to_state
assign_to_state-cases limits idx t s =
    let flushed =
      flush_current_bucket-some limits (added idx t s) (no_elements-added s.current_tensors idx) in
    elim (Bool-cases
      (leb (get_or limits s.limit_idx 0) ((s.current_bytes + tensor_bytes t) % 2 ^ 64))) [
        | inr e ↦ inl (rw (e, assign_to_state) refl, rw (e, assign_to_state) refl)
        | inl e ↦ inr (rw (e, assign_to_state) flushed.0, rw (e, assign_to_state) flushed.1)
      ]

pub flush_groups-held :
    (limits : List ℕ) (gs : List Group) → concat (flush_groups limits gs) ≡ held gs
unfolding flush_groups
flush_groups-held limits [] = refl
flush_groups-held limits (g ∷ gs) = elim (Bool-cases (no_elements g.state.current_tensors)) [
  | inl e ↦
      rw (flush_current_bucket-none limits g.state e, no_elements-nil _ e)
        (flush_groups-held limits gs)
  | inr e ↦
      rw ((flush_current_bucket-some limits g.state e).0)
        (ap (λ t. g.state.current_tensors ++ t) (flush_groups-held limits gs))
]
