-- ===== src/ParamAndGradBuffer/Buckets/Once.antt =====
-- Parameters whose pointers differ: each is found in `param_index_map_`, and is in one bucket.
use infini_train.Base.{
  ℕ, zero, suc, ◌+◌, ◌<◌, ◌≤◌, ◌≡◌, ◌≢◌, refl, arith, inl, inr, false, some, List, [], ◌∷◌, ◌++◌,
  ok, ltb, ◌==◌, ==-refl, Bool-cases, length, get_elem?, get_or,
}
use infini_train.Base.Sort.{count}
use infini_train.Base.Loops.{count-append}
use infini_train.ParamAndGradBuffer.{BufferConfig, ParamIndex, Packing}
use infini_train.ParamAndGradBuffer.Buckets.{find_entry, pointer_at, check_params}
use infini_train.ParamAndGradBuffer.Buckets.Tiling.{backprop_order}

-- No pointer stands twice.
abbrev pub NoneTwice : List ℕ → Type 0
NoneTwice ps = (i j : ℕ) → i < j → j < length ps → get_or ps i 0 ≢ get_or ps j 0

pub find_entry_ok :
    (ps : List ℕ) (es : List ParamIndex) (k : ℕ) (e : ParamIndex)
    → NoneTwice ps
    → k < length ps
    → get_elem? es k ≡ some e
    → find_entry (get_or ps k 0) ps es ≡ ok e
unfolding find_entry
find_entry_ok [] es k e once lt found = absurd (omega (arith, lt))
find_entry_ok (p ∷ ps) [] k e once lt found = cc
find_entry_ok (p ∷ ps) (d ∷ es) zero e once lt found = rw (==-refl p) (cc)
find_entry_ok (p ∷ ps) (d ∷ es) (suc k) e once lt found =
    let other : (p == get_or ps k 0) ≡ false = ground (arith, once 0 (suc k) (omega arith) lt) in
    rw other (
      find_entry_ok ps es k e
        (λ i j less within. once (suc i) (suc j) (omega (arith, less)) (omega (arith, within)))
        (omega (arith, lt)) found)

module _ (c : BufferConfig) (pointers numels : List ℕ) (s : Packing) where
  -- How many parameters of a list have the pointer `v`.
  abbrev pub having : ℕ → List ℕ → ℕ
  having v ps = count (λ j. pointer_at c pointers numels s j == v) ps

  check_params_ok :
      (done params : List ℕ)
      → ((v : ℕ) → having v done + having v params ≤ 1)
      → check_params c pointers numels s done params ≡ ok tt
  unfolding check_params
  check_params_ok done [] once = refl
  check_params_ok done (i ∷ params) once =
      let v = get_or pointers i 0 in
      let fresh : ltb 0 (having v done) ≡ false = ground (arith, once v, ==-refl v) in
      rw fresh (check_params_ok (i ∷ done) params (λ w. omega (arith, once w)))

  having_none :
      (v i n : ℕ)
      → ((j : ℕ) → i ≤ j → j < i + n → (get_or pointers j 0 == v) ≡ false)
      → having v (backprop_order i n) ≡ 0
  unfolding backprop_order
  having_none v i zero h = refl
  having_none v i (suc n) h =
      let rest = having_none v (i + 1) n (λ j lo hi. h j (omega arith) (omega arith)) in
      let here = h i (omega arith) (omega arith) in
      ground (
        arith,
        count-append (λ j. get_or pointers j 0 == v) (backprop_order (i + 1) n) (i ∷ []),
        rest,
        here,
      )

  pub backprop_order_once :
      (v i n : ℕ) → NoneTwice pointers → i + n ≤ length pointers → having v (backprop_order i n) ≤ 1
  unfolding backprop_order
  backprop_order_once v i zero once h = omega arith
  backprop_order_once v i (suc n) once h =
      let split =
        count-append (λ j. get_or pointers j 0 == v) (backprop_order (i + 1) n) (i ∷ []) in
      elim (Bool-cases (get_or pointers i 0 == v)) [
        | inl here ↦
            let none =
              having_none v (i + 1) n
                (λ j lo hi. ground (arith, once i j (omega arith) (omega arith), here)) in
            ground (arith, split, none)
        | inr other ↦
            let rest = backprop_order_once v (i + 1) n once (omega arith) in
            ground (arith, split, rest, other)
      ]

  -- The parameters of a bucket are new where no pointer stands twice in it and the ones before it.
  pub new_params_ok :
      (done params : List ℕ)
      → ((v : ℕ) → having v (done ++ params) ≤ 1)
      → check_params c pointers numels s done params ≡ ok tt
  new_params_ok done params once =
      check_params_ok done params
        (λ v. omega (arith, once v, count-append (λ j. get_or pointers j 0 == v) done params))
