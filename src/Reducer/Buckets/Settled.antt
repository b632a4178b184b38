-- ===== src/Reducer/Buckets/Settled.antt =====
-- All of the buckets, once they are built: their sizes, and the locators of their variables.
use infini_train.Base.{
  ℕ, zero, suc, ◌+◌, ◌<◌, ◌≤◌, ◌≡◌, refl, ap, ◌∙◌, subst, arith, List, [], ◌∷◌, ok, >>=-eq-ok,
  ok-injective, ◌==◌, ==-refl, All, concat, length, get_elem?, get_or,
}
use infini_train.Base.Perm.{occurrences}
use infini_train.Base.Sort.{bit}
use infini_train.Base.Loops.{count-append}
use infini_train.Tensors.{Tensor}
use infini_train.Reducer.{VariableLocator, Bucket}
use infini_train.Reducer.Buckets.{build_bucket, build_buckets_from}
use infini_train.Reducer.Buckets.Located.{LocatedIn, build_bucket-Builds}
use infini_train.Reducer.Backward.Fields.{variables_at}

-- Each variable of the buckets, numbered from `a` on, is located in its bucket.
abbrev pub AllLocated : List VariableLocator → ℕ → List (List ℕ) → Type 0
AllLocated locators a [] = Unit
AllLocated locators a (xs ∷ xss) = All (LocatedIn locators a) xs × AllLocated locators (a + 1) xss

pub record Settles (a : ℕ) (xss : List (List ℕ)) (before : List VariableLocator) (bs : List Bucket)
    (after : List VariableLocator) : Type 0 where
  pub count : length bs ≡ length xss
  pub variables : (c : ℕ) → variables_at bs c ≡ length (get_or xss c [])
  pub filled : All (λ xs. 0 < length xs) xss
  pub size : length after ≡ length before
  pub kept : (v : ℕ) → occurrences v (concat xss) ≡ 0 → get_elem? after v ≡ get_elem? before v

-- Locators that are not written again still name the bucket.
keep_located :
    (a : ℕ) (l l' : List VariableLocator) (xs : List ℕ)
    → ((v : ℕ) → 1 ≤ occurrences v xs → get_elem? l' v ≡ get_elem? l v)
    → All (LocatedIn l a) xs
    → All (LocatedIn l' a) xs
keep_located a l l' [] kept h = tt
keep_located a l l' (x ∷ xs) kept h = (
  (h.0.0, kept x (omega (arith, ap bit (==-refl x))) ∙ h.0.1, h.0.2),
  keep_located a l l' xs (λ v e. kept v (omega (arith, e))) h.1,
)

module _ (params : List Tensor) where
  build_buckets_from-eq-ok :
      (a : ℕ) (xs : List ℕ) (xss : List (List ℕ)) (before : List VariableLocator) {bs : List Bucket}
      {after : List VariableLocator}
      → build_buckets_from params a (xs ∷ xss) before ≡ ok (bs, after)
      → (x : Bucket) × (mid : List VariableLocator) × (later : List Bucket) × (build_bucket params a
            xs before
          ≡ ok (x, mid))
        × (build_buckets_from params (a + 1) xss mid ≡ ok (later, after))
        × (x ∷ later ≡ bs)
  unfolding build_buckets_from
  build_buckets_from-eq-ok a xs xss before h =
      let (built, first, next) = >>=-eq-ok _ _ h in
      let (rest, others, e) = >>=-eq-ok _ _ next in
      let same = ok-injective e in
      (
        built.0,
        built.1,
        rest.0,
        first,
        others ∙ ap (λ l. ok (rest.0, l)) (ap (λ k. k.1) same),
        ap (λ k. k.0) same,
      )

  pub build_buckets_from-Settles :
      (a : ℕ) (xss : List (List ℕ)) (before : List VariableLocator) (bs : List Bucket)
      (after : List VariableLocator)
      → build_buckets_from params a xss before ≡ ok (bs, after)
      → Settles a xss before bs after
  unfolding build_buckets_from
  build_buckets_from-Settles a [] before bs after h =
      subst (λ (k : List Bucket × List VariableLocator). Settles a [] before k.0 k.1)
        (ok-injective h)
        (record {
          count = refl;
          variables = λ c. refl;
          filled = tt;
          size = refl;
          kept = λ v e. refl;
        })
  build_buckets_from-Settles a (xs ∷ xss) before bs after h =
      let (x, mid, later, first, others, same) = build_buckets_from-eq-ok a xs xss before h in
      let B = build_bucket-Builds params a xs before first in
      let S = build_buckets_from-Settles (a + 1) xss mid later after others in
      subst (λ k. Settles a (xs ∷ xss) before k after) same
        (record {
          count = ap suc S.count;
          variables = heads x later xs xss B.variables S.variables;
          filled = (B.not_empty, S.filled);
          size = S.size ∙ B.size;
          kept = λ v e.
              let split = count-append (λ w. w == v) xs (concat xss) in
              S.kept v (omega (arith, e, split)) ∙ B.kept v (omega (arith, e, split));
        })
    where
      heads :
          (x : Bucket) (later : List Bucket) (xs : List ℕ) (xss : List (List ℕ))
          → length x.variables ≡ length xs
          → ((c : ℕ) → variables_at later c ≡ length (get_or xss c []))
          → (c : ℕ) → variables_at (x ∷ later) c ≡ length (get_or (xs ∷ xss) c [])
      heads x later xs xss e h zero = e
      heads x later xs xss e h (suc c) = h c

  -- Where no variable stands twice, each is located in its bucket.
  pub build_buckets_from-AllLocated :
      (a : ℕ) (xss : List (List ℕ)) (before : List VariableLocator) (bs : List Bucket)
      (after : List VariableLocator)
      → build_buckets_from params a xss before ≡ ok (bs, after)
      → length before ≡ length params
      → ((v : ℕ) → occurrences v (concat xss) ≤ 1)
      → AllLocated after a xss
  build_buckets_from-AllLocated a [] before bs after h size once = tt
  build_buckets_from-AllLocated a (xs ∷ xss) before bs after h size once =
      let (x, mid, later, first, others, same) = build_buckets_from-eq-ok a xs xss before h in
      let B = build_bucket-Builds params a xs before first in
      let S = build_buckets_from-Settles (a + 1) xss mid later after others in
      let split = λ (v : ℕ). count-append (λ w. w == v) xs (concat xss) in
      (
        keep_located a mid after xs (λ v here. S.kept v (omega (arith, here, split v, once v)))
            (B.located size),
        build_buckets_from-AllLocated (a + 1) xss mid later after others (B.size ∙ size)
            (λ v. omega (arith, split v, once v)),
      )
