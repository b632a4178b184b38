-- ===== src/Reducer/Backward/Fields.antt =====
-- What the steps of a backward pass do to the two fields of a bucket that change.
use infini_train.Base.{
  ℕ, zero, suc, ◌+◌, ◌-◌, ◌<◌, ◌≡◌, ◌≢◌, refl, ap, arith, Bool, true, false, some, List, [], ◌∷◌,
  map, length, get_elem?, modify,
}
use infini_train.Base.Loops.{gather}
use infini_train.Reducer.{Bucket, Event}
use infini_train.Reducer.Backward.{set_work, lower_pending, reset_pending, reset_work, waits_from}

abbrev pub pending_at : List Bucket → ℕ → ℕ
pending_at [] b = 0
pending_at (x ∷ xs) zero = x.pending
pending_at (x ∷ xs) (suc b) = pending_at xs b

abbrev pub work_at : List Bucket → ℕ → Bool
work_at [] b = false
work_at (x ∷ xs) zero = x.work
work_at (x ∷ xs) (suc b) = work_at xs b

abbrev pub variables_at : List Bucket → ℕ → ℕ
variables_at [] b = 0
variables_at (x ∷ xs) zero = length x.variables
variables_at (x ∷ xs) (suc b) = variables_at xs b

pub pending_at-some :
    (bs : List Bucket) (b : ℕ) {x : Bucket} → get_elem? bs b ≡ some x → pending_at bs b ≡ x.pending
pending_at-some [] b h = cc
pending_at-some (x ∷ xs) zero h = cc
pending_at-some (x ∷ xs) (suc b) h = pending_at-some xs b h

pub pending_at-set_work :
    (bs : List Bucket) (i b : ℕ) → pending_at (modify bs i set_work) b ≡ pending_at bs b
pending_at-set_work [] i b = refl
pending_at-set_work (x ∷ xs) zero zero = refl
pending_at-set_work (x ∷ xs) zero (suc b) = refl
pending_at-set_work (x ∷ xs) (suc i) zero = refl
pending_at-set_work (x ∷ xs) (suc i) (suc b) = pending_at-set_work xs i b

pub work_at-lower_pending :
    (bs : List Bucket) (i b : ℕ) → work_at (modify bs i lower_pending) b ≡ work_at bs b
work_at-lower_pending [] i b = refl
work_at-lower_pending (x ∷ xs) zero zero = refl
work_at-lower_pending (x ∷ xs) zero (suc b) = refl
work_at-lower_pending (x ∷ xs) (suc i) zero = refl
work_at-lower_pending (x ∷ xs) (suc i) (suc b) = work_at-lower_pending xs i b

pub work_at-set_self :
    (bs : List Bucket) (i : ℕ) → i < length bs → work_at (modify bs i set_work) i ≡ true
work_at-set_self [] i h = absurd (omega arith)
work_at-set_self (x ∷ xs) zero h = refl
work_at-set_self (x ∷ xs) (suc i) h = work_at-set_self xs i (omega arith)

pub work_at-set_ne :
    (bs : List Bucket) (i b : ℕ) → i ≢ b → work_at (modify bs i set_work) b ≡ work_at bs b
work_at-set_ne [] i b h = refl
work_at-set_ne (x ∷ xs) zero zero h = absurd (h refl)
work_at-set_ne (x ∷ xs) zero (suc b) h = refl
work_at-set_ne (x ∷ xs) (suc i) zero h = refl
work_at-set_ne (x ∷ xs) (suc i) (suc b) h = work_at-set_ne xs i b (λ e. h (ap suc e))

pub pending_at-lower_self :
    (bs : List Bucket) (i : ℕ) → pending_at (modify bs i lower_pending) i ≡ pending_at bs i - 1
pending_at-lower_self [] i = refl
pending_at-lower_self (x ∷ xs) zero = refl
pending_at-lower_self (x ∷ xs) (suc i) = pending_at-lower_self xs i

pub pending_at-lower_ne :
    (bs : List Bucket) (i b : ℕ)
    → i ≢ b
    → pending_at (modify bs i lower_pending) b ≡ pending_at bs b
pending_at-lower_ne [] i b h = refl
pending_at-lower_ne (x ∷ xs) zero zero h = absurd (h refl)
pending_at-lower_ne (x ∷ xs) zero (suc b) h = refl
pending_at-lower_ne (x ∷ xs) (suc i) zero h = refl
pending_at-lower_ne (x ∷ xs) (suc i) (suc b) h = pending_at-lower_ne xs i b (λ e. h (ap suc e))

pub pending_at-reset :
    (bs : List Bucket) (b : ℕ) → pending_at (map reset_pending bs) b ≡ variables_at bs b
unfolding reset_pending
pending_at-reset [] b = refl
pending_at-reset (x ∷ xs) zero = refl
pending_at-reset (x ∷ xs) (suc b) = pending_at-reset xs b

pub work_at-reset_pending :
    (bs : List Bucket) (b : ℕ) → work_at (map reset_pending bs) b ≡ work_at bs b
unfolding reset_pending
work_at-reset_pending [] b = refl
work_at-reset_pending (x ∷ xs) zero = refl
work_at-reset_pending (x ∷ xs) (suc b) = work_at-reset_pending xs b

pub work_at-reset_work : (bs : List Bucket) (b : ℕ) → work_at (map reset_work bs) b ≡ false
unfolding reset_work
work_at-reset_work [] b = refl
work_at-reset_work (x ∷ xs) zero = refl
work_at-reset_work (x ∷ xs) (suc b) = work_at-reset_work xs b

-- With every collective under way, the waits are for each bucket in order.
pub waits_from-all :
    (a : ℕ) (bs : List Bucket)
    → ((b : ℕ) → b < length bs → work_at bs b ≡ true)
    → waits_from a bs ≡ gather (λ b. Event.wait b ∷ []) a (length bs)
unfolding waits_from gather
waits_from-all a [] h = refl
waits_from-all a (x ∷ xs) h =
    rw (h 0 (omega arith), waits_from-all (a + 1) xs (λ b lt. h (suc b) (omega arith)))
