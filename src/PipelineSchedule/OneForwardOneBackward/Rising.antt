-- ===== src/PipelineSchedule/OneForwardOneBackward/Rising.antt =====
-- Lists of tasks that rise strictly in a key, with which the interleaved schedule is compared.
use infini_train.Base.{ℕ, zero, suc, ◌+◌, ◌≤◌, ◌<◌, ◌≡◌, ap, List, [], ◌∷◌, ◌++◌, All, arith}
use infini_train.Base.Loops.{gather}
use infini_train.PipelineSchedule.{Task}

module _ (key : Task → ℕ) where
  -- The keys of the list rise strictly, from `lo` on and below `hi`.
  abbrev pub Rising : List Task → ℕ → ℕ → Type 0
  Rising [] lo hi = lo ≤ hi
  Rising (t ∷ ts) lo hi = (lo ≤ key t) × Rising ts (key t + 1) hi

  pub Rising-from : (ts : List Task) (lo lo' hi : ℕ) → lo' ≤ lo → Rising ts lo hi → Rising ts lo' hi
  Rising-from [] lo lo' hi h r = omega arith
  Rising-from (t ∷ ts) lo lo' hi h r = (omega (arith, r.0), r.1)

  pub Rising-append :
      (xs ys : List Task) (lo mid hi : ℕ)
      → Rising xs lo mid
      → Rising ys mid hi
      → Rising (xs ++ ys) lo hi
  Rising-append [] ys lo mid hi r s = Rising-from ys mid lo hi r s
  Rising-append (x ∷ xs) ys lo mid hi r s = (r.0, Rising-append xs ys (key x + 1) mid hi r.1 s)

  pub Rising-gather :
      (f : ℕ → List Task) (bound : ℕ → ℕ) (a left end : ℕ)
      → a + left ≡ end
      → ((i : ℕ) → a ≤ i → i < a + left → Rising (f i) (bound i) (bound (i + 1)))
      → Rising (gather f a left) (bound a) (bound end)
  unfolding gather
  Rising-gather f bound a zero end e h =
      let here : a ≡ end = omega arith in omega (arith, ap bound here)
  Rising-gather f bound a (suc left) end e h =
      Rising-append (f a) _ (bound a) (bound (a + 1)) _ (h a (omega arith) (omega arith)) (
        Rising-gather f bound (a + 1) left end (omega arith)
          (λ i lo hi. h i (omega arith) (omega arith)))

  pub Rising-split :
      (xs : List Task) (t : Task) (ys : List Task) (lo hi : ℕ)
      → Rising (xs ++ t ∷ ys) lo hi
      → All (λ u. key t < key u) ys
  Rising-split (x ∷ xs) t ys lo hi r = Rising-split xs t ys (key x + 1) hi r.1
  Rising-split [] t ys lo hi r = above ys (key t + 1) hi (omega arith) r.1
    where
      above :
          (us : List Task) (low high : ℕ)
          → key t < low
          → Rising us low high
          → All (λ u. key t < key u) us
      above [] low high h s = tt
      above (u ∷ us) low high h s =
          (omega (arith, s.0), above us (key u + 1) high (omega (arith, s.0)) s.1)
