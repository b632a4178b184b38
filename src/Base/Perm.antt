-- ===== src/Base/Perm.antt =====
-- Lists that hold the same elements: what is counted, and what holds of each of them.
use mathlib.Core.List.{Permᴰ}
use mathlib.Core.List.Permᴰ
use Prim.Native.Nat.{ℕ, ◌≤◌}
use mathlib.Core.Path.{◌≡◌, refl, sym, ap, subst, ◌∙◌}
use mathlib.Core.Logic.{inl, inr}
use mathlib.Core.Bool.{Bool}
use mathlib.Core.List.{List, [], ◌∷◌, ◌++◌}
use native.Mathlib.Omega.{arith}
use infini_train.Base.Tests.{◌==◌, Bool-cases, ==→≡, ==-refl}
use infini_train.Base.Lists.{All}
use infini_train.Base.Sort.{bit, count}
use infini_train.Base.Loops.{count-append}

abbrev pub occurrences : ℕ → List ℕ → ℕ
occurrences v xs = count (λ w. w == v) xs

pub count-Permᴰ :
    {A : Type 0} (p : A → Bool) {xs ys : List A} → Permᴰ xs ys → count p xs ≡ count p ys
count-Permᴰ p Permᴰ.nil = refl
count-Permᴰ p (Permᴰ.cons e d) = omega (arith, ap (λ x. bit (p x)) e, count-Permᴰ p d)
count-Permᴰ p (Permᴰ.swap e f) = omega (arith, ap (λ x. bit (p x)) e, ap (λ x. bit (p x)) f)
count-Permᴰ p (Permᴰ.trans d d') = count-Permᴰ p d ∙ count-Permᴰ p d'

pub All-Permᴰ : {A : Type 0} (P : A → Type 0) {xs ys : List A} → Permᴰ xs ys → All P xs → All P ys
All-Permᴰ P Permᴰ.nil h = tt
All-Permᴰ P (Permᴰ.cons e d) h = (subst P e h.0, All-Permᴰ P d h.1)
All-Permᴰ P (Permᴰ.swap e f) h = (subst P f h.1.0, (subst P e h.0, h.1.1))
All-Permᴰ P (Permᴰ.trans d d') h = All-Permᴰ P d' (All-Permᴰ P d h)

-- A number that occurs can be taken out.
take_out :
    (v : ℕ) (ys : List ℕ) → 1 ≤ occurrences v ys → (l : List ℕ) × (r : List ℕ) × (ys ≡ l ++ v ∷ r)
take_out v [] h = absurd (omega arith)
take_out v (y ∷ ys) h = elim (Bool-cases (y == v)) [
  | inl same ↦ ([], ys, ap (λ k. k ∷ ys) (==→≡ y v same))
  | inr other ↦
      let (l, r, e) = take_out v ys (omega (arith, h, ap bit other)) in
      (y ∷ l, r, ap (λ k. y ∷ k) e)
]

-- Lists of numbers in which each number occurs as often.
pub same_occurrences :
    (xs ys : List ℕ) → ((v : ℕ) → occurrences v xs ≡ occurrences v ys) → Permᴰ xs ys
same_occurrences [] [] h = Permᴰ.nil
same_occurrences [] (y ∷ ys) h = absurd (omega (arith, h y, ap bit (==-refl y)))
same_occurrences (x ∷ xs) ys h =
    let (l, r, e) = take_out x ys (omega (arith, h x, ap bit (==-refl x))) in
    let rest = same_occurrences xs (l ++ r) (λ v. omega (
      arith,
      h v,
      ap (occurrences v) e,
      count-append (λ w. w == v) l (x ∷ r),
      count-append (λ w. w == v) l r,
    )) in
    Permᴰ.trans (Permᴰ.cons refl rest)
      (subst (λ k. Permᴰ (x ∷ l ++ r) k) (sym e) (Permᴰ.symm (Permᴰ.middle x l r)))
