-- ===== src/Base/Loops.antt =====
-- Counted loops that push to a vector, and sums over a range.
use Prim.Native.Nat.{ℕ, zero, suc, ◌+◌, ◌≤◌, ◌<◌}
use mathlib.Core.Path.{◌≡◌, refl, ap, ◌∙◌}
use mathlib.Core.Bool.{Bool, ◌&&◌}
use mathlib.Core.List.{List, [], ◌∷◌, ◌++◌}
use mathlib.Core.Logic.{◌≢◌, inl, inr}
use native.Mathlib.Omega.{arith}
use infini_train.Base.Tests.{◌==◌, ltb, leb, Bool-cases, ==→≡, ==→≢}
use infini_train.Base.Lists.{All, All-append}
use infini_train.Base.Results.{Result, ok, ◌>>=◌, >>=-eq-ok}
use infini_train.Base.Sort.{bit, count}

module _ {E A : Type 0} where
  -- for (i = a; i < a + left; ++i) { body(i) }, where the body pushes a list of elements; the
  -- first failure ends the loop.
  unfoldable pub for_each : (ℕ → Result E (List A)) → ℕ → ℕ → Result E (List A)
  for_each body a zero = ok []
  for_each body a (suc left) =
      let rest = for_each body (a + 1) left in body a >>= λ xs. rest >>= λ ys. ok (xs ++ ys)

-- The same loop for a body that does not fail.
unfoldable pub gather : {A : Type 0} → (ℕ → List A) → ℕ → ℕ → List A
gather f a zero = []
gather f a (suc left) = f a ++ gather f (a + 1) left

unfoldable pub sum_range : (ℕ → ℕ) → ℕ → ℕ → ℕ
sum_range f a zero = 0
sum_range f a (suc left) = f a + sum_range f (a + 1) left

module _ {E A : Type 0} where
  pub for_each-gather :
      (body : ℕ → Result E (List A)) (f : ℕ → List A) (a left : ℕ)
      → ((i : ℕ) → a ≤ i → i < a + left → body i ≡ ok (f i))
      → for_each body a left ≡ ok (gather f a left)
  unfolding for_each gather
  for_each-gather body f a zero h = refl
  for_each-gather body f a (suc left) h = rw (
    h a (omega arith) (omega arith),
    for_each-gather body f (a + 1) left (λ i lo hi. h i (omega arith) (omega arith)),
  )

  -- A loop that ends normally has run each of its rounds.
  pub for_each_ran :
      (body : ℕ → Result E (List A)) (a left i : ℕ) {xs : List A}
      → for_each body a left ≡ ok xs
      → a ≤ i
      → i < a + left
      → (ys : List A) × (body i ≡ ok ys)
  unfolding for_each
  for_each_ran body a zero i e lo hi = absurd (omega arith)
  for_each_ran body a (suc left) i e lo hi =
      let (ys, here, later) = >>=-eq-ok _ _ e in
      let (zs, rest, _) = >>=-eq-ok _ _ later in
      elim (Bool-cases (i == a)) [
        | inl same ↦ rw (==→≡ i a same) (ys, here)
        | inr other ↦
            for_each_ran body (a + 1) left i rest (omega (arith, ==→≢ i a other)) (omega arith)
      ]

pub count-append {ℓ} :
    {A : Type ℓ} (p : A → Bool) (xs ys : List A) → count p (xs ++ ys) ≡ count p xs + count p ys
count-append p [] ys = omega arith
count-append p (x ∷ xs) ys = omega (arith, count-append p xs ys)

module _ {A : Type 0} where
  pub count-gather :
      (p : A → Bool) (f : ℕ → List A) (a left : ℕ)
      → count p (gather f a left) ≡ sum_range (λ i. count p (f i)) a left
  unfolding gather sum_range
  count-gather p f a zero = refl
  count-gather p f a (suc left) =
      count-append p (f a) (gather f (a + 1) left)
      ∙ ap (λ (t : ℕ). count p (f a) + t) (count-gather p f (a + 1) left)

  pub All-gather {κ} :
      (P : A → Type κ) (f : ℕ → List A) (a left : ℕ)
      → ((i : ℕ) → a ≤ i → i < a + left → All P (f i))
      → All P (gather f a left)
  unfolding gather
  All-gather P f a zero h = tt
  All-gather P f a (suc left) h =
      All-append P (f a) _ (h a (omega arith) (omega arith))
        (All-gather P f (a + 1) left (λ i lo hi. h i (omega arith) (omega arith)))

pub sum_range-eq :
    (f g : ℕ → ℕ) (a left : ℕ)
    → ((i : ℕ) → a ≤ i → i < a + left → f i ≡ g i)
    → sum_range f a left ≡ sum_range g a left
unfolding sum_range
sum_range-eq f g a zero h = refl
sum_range-eq f g a (suc left) h = omega (
  arith,
  h a (omega arith) (omega arith),
  sum_range-eq f g (a + 1) left (λ i lo hi. h i (omega arith) (omega arith)),
)

pub sum_range_zero :
    (f : ℕ → ℕ) (a left : ℕ) → ((i : ℕ) → a ≤ i → i < a + left → f i ≡ 0) → sum_range f a left ≡ 0
unfolding sum_range
sum_range_zero f a zero h = refl
sum_range_zero f a (suc left) h = omega (
  arith,
  h a (omega arith) (omega arith),
  sum_range_zero f (a + 1) left (λ i lo hi. h i (omega arith) (omega arith)),
)

-- A sum with one term at most that is not 0.
pub sum_range_single :
    (f : ℕ → ℕ) (a left k : ℕ)
    → a ≤ k
    → k < a + left
    → ((i : ℕ) → i ≢ k → f i ≡ 0)
    → sum_range f a left ≡ f k
unfolding sum_range
sum_range_single f a zero k lo hi h = absurd (omega arith)
sum_range_single f a (suc left) k lo hi h = elim (Bool-cases (a == k)) [
  | inl here ↦
      let same : a ≡ k = ground arith in
      let rest = sum_range_zero f (a + 1) left (λ i p q. h i (omega arith)) in
      omega (arith, ap f same)
  | inr later ↦
      let other : a ≢ k = ground arith in
      omega (arith, h a other, sum_range_single f (a + 1) left k (omega arith) (omega arith) h)
]

-- Of the rounds of a loop, the one at `k` is run where `k` is in the loop's range.
pub sum_range_at :
    (k a left : ℕ) → sum_range (λ i. bit (i == k)) a left ≡ bit (leb a k && ltb k (a + left))
unfolding sum_range
sum_range_at k a zero = ground arith
sum_range_at k a (suc left) = ground (arith, sum_range_at k (a + 1) left)
