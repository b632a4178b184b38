-- ===== src/Base/Results.antt =====
-- Code that fails: an exception thrown, or a `CHECK` that aborts, is the error `err e`.
use mathlib.Core.Path.{◌≡◌, refl}
use mathlib.Core.Bool.{Bool, true, false}

pub data Result {ℓ} (E : Type 0) (A : Type ℓ) : Type ℓ where
  ok : A → Result E A
  err : E → Result E A

module _ {E : Type 0} where
  -- `if (!test) Fail(e)`.
  abbrev pub require : Bool → E → Result E (Unit {0})
  require holds e = elim holds [ true ↦ ok tt | false ↦ err e ]

  infixl 5 ◌>>=◌ ◌>>◌
  abbrev pub ◌>>=◌ {ℓ κ} : {A : Type ℓ} {B : Type κ} → Result E A → (A → Result E B) → Result E B
  (ok value) >>= next = next value
  (err e) >>= next = err e

  -- A step that returns nothing, and what comes after it.
  abbrev pub ◌>>◌ {κ} : {B : Type κ} → Result E (Unit {0}) → Result E B → Result E B
  step >> next = step >>= λ done. next

  pub ok-injective {ℓ} : {A : Type ℓ} {a b : A} → ◌≡◌ {A = Result E A} (ok a) (ok b) → a ≡ b
  ok-injective h = cc

  pub require-eq-ok : (b : Bool) (e : E) → require b e ≡ ok tt → b ≡ true
  require-eq-ok true e h = refl
  require-eq-ok false e h = cc

  pub >>-eq-ok {κ} :
      {B : Type κ} (step : Result E (Unit {0})) (next : Result E B) {b : B}
      → (step >> next) ≡ ok b
      → (step ≡ ok tt) × (next ≡ ok b)
  >>-eq-ok (ok tt) next h = (refl, h)
  >>-eq-ok (err e) next h = cc

  -- Where a chain returns, its first step did, and the rest from what that returned.
  pub >>=-eq-ok {ℓ κ} :
      {A : Type ℓ} {B : Type κ} (step : Result E A) (next : A → Result E B) {b : B}
      → (step >>= next) ≡ ok b
      → (a : A) × (step ≡ ok a) × (next a ≡ ok b)
  >>=-eq-ok (ok value) next h = (value, refl, h)
  >>=-eq-ok (err e) next h = cc
