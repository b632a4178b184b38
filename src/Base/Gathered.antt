-- ===== src/Base/Gathered.antt =====
-- What the rounds of a loop push: one round's alone, and two runs of rounds after each other.
use Prim.Native.Nat.{ℕ, zero, suc, ◌+◌, ◌<◌, ◌≤◌}
use mathlib.Core.Path.{◌≡◌, refl, sym, ap, ◌∙◌}
use mathlib.Core.Logic.{◌≢◌, inl, inr}
use mathlib.Core.List.{List, [], ◌++◌}
use native.Mathlib.Omega.{arith}
use infini_train.Base.Tests.{◌==◌, Bool-cases, ==→≡, ==→≢}
use infini_train.Base.Lists.{append_assoc, append_nil}
use infini_train.Base.Loops.{gather}

module _ {A : Type 0} where
  gather_none :
      (f : ℕ → List A) (a left : ℕ)
      → ((i : ℕ) → a ≤ i → i < a + left → f i ≡ [])
      → gather f a left ≡ []
  unfolding gather
  gather_none f a zero h = refl
  gather_none f a (suc left) h =
      rw (h a (omega arith) (omega arith))
        (gather_none f (a + 1) left (λ i lo hi. h i (omega arith) (omega arith)))

  pub gather_single :
      (f : ℕ → List A) (a left k : ℕ)
      → a ≤ k
      → k < a + left
      → ((i : ℕ) → a ≤ i → i < a + left → i ≢ k → f i ≡ [])
      → gather f a left ≡ f k
  unfolding gather
  gather_single f a zero k lo hi h = absurd (omega arith)
  gather_single f a (suc left) k lo hi h = elim (Bool-cases (a == k)) [
    | inl here ↦
        let same : a ≡ k = ==→≡ a k here in
        rw (gather_none f (a + 1) left (λ i p q. h i (omega arith) (omega arith) (omega arith)))
          (append_nil (f a) ∙ ap f same)
    | inr later ↦
        let other : a ≢ k = ==→≢ a k later in
        rw (h a (omega arith) (omega arith) other) (
          gather_single f (a + 1) left k (omega arith) (omega arith)
            (λ i p q. h i (omega arith) (omega arith)))
  ]

  pub gather-add :
      (f : ℕ → List A) (a m n b : ℕ) → a + m ≡ b → gather f a (m + n) ≡ gather f a m ++ gather f b n
  unfolding gather
  gather-add f a zero n b e =
      let all : 0 + n ≡ n = omega arith in
      let here : a ≡ b = omega arith in
      ap (λ (x : ℕ). gather f a x) all ∙ ap (λ (x : ℕ). gather f x n) here
  gather-add f a (suc m) n b e =
      let all : suc m + n ≡ suc (m + n) = omega arith in
      ap (λ (x : ℕ). gather f a x) all
      ∙ rw (gather-add f (a + 1) m n b (omega arith)) (sym (append_assoc (f a) _ _))
