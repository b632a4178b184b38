-- ===== src/Reducer/Backward/Started.antt =====
-- How a backward pass starts: the state that `PrepareForBackward` leaves, and how many marks each
-- bucket waits for where each of its variables is marked once, in any order.
use infini_train.Base.{
  ℕ, zero, suc, ◌+◌, ◌<◌, ◌≤◌, ◌≡◌, ◌≢◌, refl, ap, ◌∙◌, arith, inl, inr, Bool, true, false, List,
  [], ◌∷◌, ◌++◌, map, ==-refl, ==-ne, Bool-cases, if◌then◌else◌, All, All-append, concat, length,
  get_or, set, replicate,
}
use infini_train.Base.Loops.{count-append}
use infini_train.Reducer.{VariableLocator, Bucket, Event, Grad, Reducer}
use infini_train.Reducer.Buckets.Located.{LocatedIn}
use infini_train.Reducer.Buckets.Settled.{AllLocated}
use infini_train.Reducer.Backward.{
  has_grad, is_view, tie_grad, tie_grads, tie_buckets, reset_pending, start_iteration,
}
use infini_train.Reducer.Backward.Awaiting.{in_bucket, marks_in, HasBucket}

abbrev pub regraded : List Grad → List Event → Reducer → Reducer
regraded grads events r = record r { grads = grads; events = events }

-- Tying gradients to views changes the gradients and the events alone.
abbrev Regraded : Reducer → Reducer → Type 0
Regraded r s = (grads : List Grad) × (events : List Event) × (s ≡ regraded grads events r)

tie_grad-Regraded : (b i v : ℕ) (r : Reducer) → Regraded r (tie_grad b i v r)
unfolding tie_grad
tie_grad-Regraded b i v r =
    elim (Bool-cases (is_view (get_or r.grads v Grad.null) r.assignment b i)) [
      | inl e ↦ (r.grads, r.events, rw (e, tie_grad) refl)
      | inr e ↦ (
        set r.grads v (Grad.view r.assignment b i),
        r.events
            ++ (if has_grad (get_or r.grads v Grad.null)
                then Event.copy_view_from_grad b i
                else Event.mark_overwrite b i)
              ∷ [],
        rw (e, tie_grad) refl,
      )
    ]

Regraded-trans : (r : Reducer) {s t : Reducer} → Regraded r s → Regraded s t → Regraded r t
Regraded-trans r (g, e, p) (g', e', q) = (g', e', q ∙ ap (regraded g' e') p)

tie_grads-Regraded : (b i : ℕ) (vs : List ℕ) (r : Reducer) → Regraded r (tie_grads b i vs r)
unfolding tie_grads
tie_grads-Regraded b i [] r = (r.grads, r.events, refl)
tie_grads-Regraded b i (v ∷ vs) r =
    Regraded-trans r (tie_grad-Regraded b i v r)
      (tie_grads-Regraded b (i + 1) vs (tie_grad b i v r))

tie_buckets-Regraded : (b : ℕ) (bs : List Bucket) (r : Reducer) → Regraded r (tie_buckets b bs r)
unfolding tie_buckets
tie_buckets-Regraded b [] r = (r.grads, r.events, refl)
tie_buckets-Regraded b (x ∷ xs) r =
    Regraded-trans r (tie_grads-Regraded b 0 x.variable_indices r)
      (tie_buckets-Regraded (b + 1) xs (tie_grads b 0 x.variable_indices r))

if-Regraded :
    (b : Bool) (r : Reducer) {s t : Reducer}
    → Regraded r s
    → Regraded r t
    → Regraded r (if b then s else t)
if-Regraded true r h k = h
if-Regraded false r h k = k

abbrev pub started : List Grad → List Event → Reducer → Reducer
started grads events r = regraded grads events (record r {
  next_bucket = 0;
  grad_ready_order_indices = [];
  ready_seen_this_iter = replicate (length r.params) false;
  buckets = map reset_pending r.buckets;
})

pub start_iteration-started :
    (r : Reducer)
    → (grads : List Grad) × (events : List Event) × (start_iteration r ≡ started grads events r)
unfolding start_iteration
start_iteration-started r =
    if-Regraded r.config.gradient_as_bucket_view (started r.grads r.events r)
      (tie_buckets-Regraded 0 (map reset_pending r.buckets) (started r.grads r.events r))
      (r.grads, r.events, refl)

module _ (locators : List VariableLocator) where
  marks_in-one :
      (a : ℕ) (xs : List ℕ) → All (LocatedIn locators a) xs → marks_in locators a xs ≡ length xs
  marks_in-one a [] h = refl
  marks_in-one a (x ∷ xs) h =
      rw (h.0.1, h.0.2, ==-refl a, in_bucket) (omega (arith, marks_in-one a xs h.1))

  marks_in-other :
      (a b : ℕ) (xs : List ℕ) → a ≢ b → All (LocatedIn locators a) xs → marks_in locators b xs ≡ 0
  marks_in-other a b [] ne h = refl
  marks_in-other a b (x ∷ xs) ne h =
      rw (h.0.1, h.0.2, ==-ne a b ne, in_bucket) (omega (arith, marks_in-other a b xs ne h.1))

  marks_in-before :
      (a b : ℕ) (xss : List (List ℕ))
      → b < a
      → AllLocated locators a xss
      → marks_in locators b (concat xss) ≡ 0
  marks_in-before a b [] lt h = refl
  marks_in-before a b (xs ∷ xss) lt h = omega (
    arith,
    count-append (in_bucket locators b) xs (concat xss),
    marks_in-other a b xs (λ e. omega (arith, e, lt)) h.0,
    marks_in-before (a + 1) b xss (omega arith) h.1,
  )

  -- A bucket is marked as often as it has variables.
  pub marks_in-concat :
      (a : ℕ) (xss : List (List ℕ)) (c b : ℕ)
      → a + c ≡ b
      → AllLocated locators a xss
      → marks_in locators b (concat xss) ≡ length (get_or xss c [])
  marks_in-concat a [] c b e h = refl
  marks_in-concat a (xs ∷ xss) zero b e h = omega (
    arith,
    count-append (in_bucket locators b) xs (concat xss),
    ap (λ k. marks_in locators k xs) (let same : a ≡ b = omega (arith, e) in same),
    marks_in-one a xs h.0,
    marks_in-before (a + 1) b xss (omega (arith, e)) h.1,
  )
  marks_in-concat a (xs ∷ xss) (suc c) b e h = omega (
    arith,
    count-append (in_bucket locators b) xs (concat xss),
    marks_in-other a b xs (omega (arith, e)) h.0,
    marks_in-concat (a + 1) xss c b (omega (arith, e)) h.1,
  )

  one-HasBucket :
      (a n : ℕ) (xs : List ℕ)
      → a < n
      → All (LocatedIn locators a) xs
      → All (HasBucket n locators) xs
  one-HasBucket a n [] lt h = tt
  one-HasBucket a n (x ∷ xs) lt h =
      ((h.0.0, h.0.1, omega (arith, h.0.2, lt)), one-HasBucket a n xs lt h.1)

  pub concat-HasBucket :
      (a n : ℕ) (xss : List (List ℕ))
      → a + length xss ≤ n
      → AllLocated locators a xss
      → All (HasBucket n locators) (concat xss)
  concat-HasBucket a n [] le h = tt
  concat-HasBucket a n (xs ∷ xss) le h =
      All-append _ xs _ (one-HasBucket a n xs (omega (arith, le)) h.0)
        (concat-HasBucket (a + 1) n xss (omega (arith, le)) h.1)
