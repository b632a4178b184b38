-- ===== src/Reducer/Buckets/Located.antt =====
-- The locators of the variables, once the buckets are built.
use infini_train.Base.{
  ℕ, ◌+◌, ◌<◌, ◌≡◌, refl, sym, ap, ◌∙◌, subst, arith, inl, inr, true, some, List, [], ◌∷◌, ok,
  >>-eq-ok, >>=-eq-ok, require-eq-ok, ok-injective, ◌==◌, Bool-cases, ==→≡, ==→≢, All, length,
  get_elem?, length-set, get_elem?-lt, get_elem?-set_self, get_elem?-set_ne, Option-cases,
  length-append,
}
use infini_train.Base.Perm.{occurrences}
use infini_train.Tensors.{Tensor, same_device, same_dtype}
use infini_train.Reducer.{VariableLocator, Bucket}
use infini_train.Reducer.Buckets.{
  Filling, start_filling, add_variable, fill_bucket, finish_bucket, build_bucket,
}

-- The variable's locator names this bucket.
abbrev pub LocatedIn : List VariableLocator → ℕ → ℕ → Type 0
LocatedIn locators b v =
    (loc : VariableLocator) × (get_elem? locators v ≡ some loc) × (loc.bucket_index ≡ b)

module _ (params : List Tensor) where
  pub fill_bucket-eq-ok :
      (b : ℕ) (first : Tensor) (v : ℕ) (left : List ℕ) (f : Filling) {g : Filling}
      → fill_bucket params b first (v ∷ left) f ≡ ok g
      → (p : Tensor) × (get_elem? params v ≡ some p)
        × (same_device p.device first.device ≡ true)
        × (same_dtype p.dtype first.dtype ≡ true)
        × (fill_bucket params b first left (add_variable b v p f) ≡ ok g)
  unfolding fill_bucket
  fill_bucket-eq-ok b first v left f h = elim (Option-cases (get_elem? params v)) [
    | inl e ↦ cc (rw (fill_bucket, e) at h)
    | inr found ↦
        let (device, next) = >>-eq-ok _ _ (rw (fill_bucket, found.1) at h) in
        let (dtype, rest) = >>-eq-ok _ _ next in
        (found.0, found.1, require-eq-ok _ _ device, require-eq-ok _ _ dtype, rest)
  ]

  -- What the loop over a bucket's parameters makes of the locators.
  pub record Fills (b : ℕ) (xs : List ℕ) (f g : Filling) : Type 0 where
    pub variables : length g.variables ≡ length f.variables + length xs
    pub size : length g.locators ≡ length f.locators
    pub kept : (v : ℕ) → occurrences v xs ≡ 0 → get_elem? g.locators v ≡ get_elem? f.locators v
    pub stays : (v : ℕ) → LocatedIn f.locators b v → LocatedIn g.locators b v
    pub located : length f.locators ≡ length params → All (LocatedIn g.locators b) xs

  pub fill_bucket-Fills :
      (b : ℕ) (first : Tensor) (xs : List ℕ) (f g : Filling)
      → fill_bucket params b first xs f ≡ ok g
      → Fills b xs f g
  unfolding fill_bucket add_variable
  fill_bucket-Fills b first [] f g h =
      let same = ok-injective h in
      record {
        variables =
            subst (λ (k : Filling). length k.variables ≡ length f.variables + 0) same (omega arith);
        size = ap (λ (k : Filling). length k.locators) (sym same);
        kept = λ v e. ap (λ (k : Filling). get_elem? k.locators v) (sym same);
        stays = λ v located. subst (λ (k : Filling). LocatedIn k.locators b v) same located;
        located = λ size. tt;
      }
  fill_bucket-Fills b first (x ∷ xs) f g h =
      let (p, within, _, _, rest) = fill_bucket-eq-ok b first x xs f h in
      let F = fill_bucket-Fills b first xs (add_variable b x p f) g rest in
      let loc : VariableLocator = record {
        bucket_index = b;
        intra_bucket_index = length f.variables;
      } in
      let size = length-set f.locators x loc in
      record {
        variables = omega (arith, F.variables, length-append f.variables (p ∷ []));
        size = F.size ∙ size;
        kept = λ v e. elim (Bool-cases (x == v)) [
          | inl same ↦ absurd (ground (arith, e, same))
          | inr other ↦
              F.kept v (ground (arith, e, other))
              ∙ get_elem?-set_ne f.locators x v loc (==→≢ _ _ other)
        ];
        stays = λ v located. F.stays v (elim (Bool-cases (x == v)) [
          | inl same ↦
              let eq : x ≡ v = ==→≡ _ _ same in
              (
                loc,
                rw eq (get_elem?-set_self f.locators v loc (get_elem?-lt f.locators v located.1)),
                refl,
              )
          | inr other ↦ (
            located.0,
            get_elem?-set_ne f.locators x v loc (==→≢ _ _ other) ∙ located.1,
            located.2,
          )
        ]);
        located = λ all. (
          F.stays x (
            loc,
            get_elem?-set_self f.locators x loc (omega (arith, all, get_elem?-lt params x within)),
            refl,
          ),
          F.located (size ∙ all),
        );
      }

  -- One bucket.
  pub record Builds (b : ℕ) (xs : List ℕ) (before : List VariableLocator) (x : Bucket)
      (after : List VariableLocator) : Type 0 where
    pub not_empty : 0 < length xs
    pub variables : length x.variables ≡ length xs
    pub indices : x.variable_indices ≡ xs
    pub size : length after ≡ length before
    pub kept : (v : ℕ) → occurrences v xs ≡ 0 → get_elem? after v ≡ get_elem? before v
    pub located : length before ≡ length params → All (LocatedIn after b) xs

  pub build_bucket-Builds :
      (b : ℕ) (xs : List ℕ) (before : List VariableLocator) {x : Bucket}
      {after : List VariableLocator}
      → build_bucket params b xs before ≡ ok (x, after)
      → Builds b xs before x after
  unfolding build_bucket finish_bucket
  build_bucket-Builds b [] before h = cc
  build_bucket-Builds b (x ∷ xs) before h = elim (Option-cases (get_elem? params x)) [
    | inl e ↦ cc (rw (build_bucket, e) at h)
    | inr found ↦
        let (g, filled, built) = >>=-eq-ok _ _ (rw (build_bucket, found.1) at h) in
        let F = fill_bucket-Fills b found.0 (x ∷ xs) (start_filling before) g filled in
        subst (λ (k : Bucket × List VariableLocator). Builds b (x ∷ xs) before k.0 k.1)
          (ok-injective built)
          (record {
            not_empty = omega arith;
            variables = omega (arith, F.variables);
            indices = refl;
            size = F.size;
            kept = F.kept;
            located = F.located;
          })
  ]
