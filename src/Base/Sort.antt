-- ===== src/Base/Sort.antt =====
-- `std::sort` with a comparator. The standard leaves the order of elements that compare equal
-- open; this is the stable order, which libstdc++ gives on up to sixteen elements.
use Prim.Native.Nat.{ℕ, suc, ◌+◌}
use mathlib.Core.Path.{◌≡◌, refl, ap, ◌∙◌}
use mathlib.Core.Bool.{Bool, true, false}
use mathlib.Core.List.{List, [], ◌∷◌}
use mathlib.Core.Logic.{inl, inr}
use native.Mathlib.Omega.{arith}
use infini_train.Base.Tests.{if◌then◌else◌, Bool-cases}
use infini_train.Base.Lists.{All, length}

abbrev pub bit : Bool → ℕ
bit true = 1
bit false = 0

-- How many elements of a list pass a test.
abbrev pub count {ℓ} : {A : Type ℓ} → (A → Bool) → List A → ℕ
count p [] = 0
count p (x ∷ xs) = bit (p x) + count p xs

-- The elements that pass a test.
abbrev pub select {ℓ} : {A : Type ℓ} → (A → Bool) → List A → List A
select p [] = []
select p (x ∷ xs) = if p x then x ∷ select p xs else select p xs

module _ {ℓ} {A : Type ℓ} (lt : A → A → Bool) where
  pub insert_sorted : A → List A → List A
  insert_sorted x [] = x ∷ []
  insert_sorted x (y ∷ ys) = if lt y x then y ∷ insert_sorted x ys else x ∷ y ∷ ys

  unfoldable pub sort : List A → List A
  unfolding insert_sorted
  sort [] = []
  sort (x ∷ xs) = insert_sorted x (sort xs)

  count-insert_sorted :
      (p : A → Bool) (x : A) (xs : List A) → count p (insert_sorted x xs) ≡ bit (p x) + count p xs
  unfolding insert_sorted
  count-insert_sorted p x [] = refl
  count-insert_sorted p x (y ∷ ys) = elim (Bool-cases (lt y x)) [
    | inl e ↦ rw e (omega (arith, count-insert_sorted p x ys))
    | inr e ↦ rw e
  ]

  -- Sorting keeps the number of elements that pass any test.
  pub count-sort : (p : A → Bool) (xs : List A) → count p (sort xs) ≡ count p xs
  unfolding sort
  count-sort p [] = refl
  count-sort p (x ∷ xs) = omega (arith, count-insert_sorted p x (sort xs), count-sort p xs)

  -- Elements that pass a test are not reordered where none of them is below another.
  module _ (p : A → Bool) (tied : (x y : A) → p x ≡ true → p y ≡ true → lt y x ≡ false) where
    select-insert_sorted : (x : A) (xs : List A) → select p (insert_sorted x xs) ≡ select p (x ∷ xs)
    unfolding insert_sorted
    select-insert_sorted x [] = refl
    select-insert_sorted x (y ∷ ys) = elim (Bool-cases (lt y x)) [
      | inr e ↦ rw e
      | inl e ↦ elim (Bool-cases (p x)) [
        | inr out ↦ rw (e, select-insert_sorted x ys, out) refl
        | inl here ↦ elim (Bool-cases (p y)) [
          | inr out ↦ rw (e, out, select-insert_sorted x ys, here) refl
          | inl both ↦ cc (tied x y here both, e)
        ]
      ]
    ]

    pub select-sort : (xs : List A) → select p (sort xs) ≡ select p xs
    unfolding sort
    select-sort [] = refl
    select-sort (x ∷ xs) =
        select-insert_sorted x (sort xs) ∙ ap (λ ys. if p x then x ∷ ys else ys) (select-sort xs)

  length-insert_sorted : (x : A) (xs : List A) → length (insert_sorted x xs) ≡ suc (length xs)
  unfolding insert_sorted
  length-insert_sorted x [] = refl
  length-insert_sorted x (y ∷ ys) = elim (Bool-cases (lt y x)) [
    | inl e ↦ rw e (ap suc (length-insert_sorted x ys))
    | inr e ↦ rw e
  ]

  pub length-sort : (xs : List A) → length (sort xs) ≡ length xs
  unfolding sort
  length-sort [] = refl
  length-sort (x ∷ xs) = length-insert_sorted x (sort xs) ∙ ap suc (length-sort xs)

  module _ {κ} (P : A → Type κ) where
    All-insert_sorted : (x : A) (xs : List A) → P x → All P xs → All P (insert_sorted x xs)
    unfolding insert_sorted
    All-insert_sorted x [] px h = (px, tt)
    All-insert_sorted x (y ∷ ys) px h = elim (Bool-cases (lt y x)) [
      | inl e ↦ rw e (h.0, All-insert_sorted x ys px h.1)
      | inr e ↦ rw e (px, h)
    ]

    pub All-sort : (xs : List A) → All P xs → All P (sort xs)
    unfolding sort
    All-sort [] h = tt
    All-sort (x ∷ xs) h = All-insert_sorted x (sort xs) h.0 (All-sort xs h.1)

  -- No element is below the one before it.
  abbrev pub IsSorted : List A → Type 0
  IsSorted [] = Unit
  IsSorted (x ∷ []) = Unit
  IsSorted (x ∷ y ∷ ys) = (lt y x ≡ false) × IsSorted (y ∷ ys)

  -- A list that is sorted already stays as it is.
  pub sort_of_sorted : (xs : List A) → IsSorted xs → sort xs ≡ xs
  unfolding sort insert_sorted
  sort_of_sorted [] h = refl
  sort_of_sorted (x ∷ []) h = refl
  sort_of_sorted (x ∷ y ∷ ys) h = rw (sort_of_sorted (y ∷ ys) h.1, h.0)

  -- A comparator must be asymmetric for the result to be sorted.
  module _ (asym : (x y : A) → lt x y ≡ true → lt y x ≡ false) where
    IsSorted-insert_sorted : (x : A) (xs : List A) → IsSorted xs → IsSorted (insert_sorted x xs)
    unfolding insert_sorted
    IsSorted-insert_sorted x [] h = tt
    IsSorted-insert_sorted x (y ∷ []) h = elim (Bool-cases (lt y x)) [
      | inl e ↦ rw e (asym y x e, tt)
      | inr e ↦ rw e (e, tt)
    ]
    IsSorted-insert_sorted x (y ∷ z ∷ zs) h = elim (Bool-cases (lt y x)) [
      | inl e ↦ rw e (elim (Bool-cases (lt z x)) [
        | inl e' ↦ rw e' (h.0, rw e' at (IsSorted-insert_sorted x (z ∷ zs) h.1))
        | inr e' ↦ rw e' (asym y x e, rw e' at (IsSorted-insert_sorted x (z ∷ zs) h.1))
      ])
      | inr e ↦ rw e (e, h)
    ]

    pub sort-IsSorted : (xs : List A) → IsSorted (sort xs)
    unfolding sort
    sort-IsSorted [] = tt
    sort-IsSorted (x ∷ xs) = IsSorted-insert_sorted x (sort xs) (sort-IsSorted xs)
