-- ===== src/PipelineLayout/Partition/Spelled.antt =====
-- What `ParseLayerPartition` accepts, and what it returns.
use infini_train.Base.{
  ℕ, ◌+◌, ◌≤◌, ◌≡◌, ◌≢◌, ◌↔◌, refl, sym, ◌∙◌, ap, subst, inl, inr, arith, true, false, List, [],
  ◌∷◌, ◌++◌, ok, >>=-eq-ok, >>-eq-ok, ok-injective, ltb, ◌==◌, Bool-cases, ==→≡, All, length,
}
use infini_train.PipelineLayout.Builders.{int_max}
use infini_train.PipelineLayout.Partition.{
  comma, is_digit, split, check_digits, value, from_chars, parse_token, parse_tokens,
  parse_layer_partition,
}

-- One or more digits that spell an `int`.
pub record Token (t : List ℕ) (n : ℕ) : Type 0 where
  pub some : length t ≢ 0
  pub digits : All (λ c. is_digit c ≡ true) t
  pub spells : value 0 t ≡ n
  pub fits : n ≤ int_max

-- Tokens with a comma between each two spell a list of numbers.
pub data Spelled : List ℕ → List ℕ → Type 0 where
  last : {t : List ℕ} {n : ℕ} → Token t n → Spelled t (n ∷ [])
  next :
      {t s : List ℕ} {n : ℕ} {ns : List ℕ}
      → Token t n
      → Spelled s ns
      → Spelled (t ++ comma ∷ s) (n ∷ ns)

check_digits_iff : (t : List ℕ) → (check_digits t ≡ ok tt) ↔ All (λ c. is_digit c ≡ true) t
unfolding check_digits
check_digits_iff [] = (λ e. tt, λ h. refl)
check_digits_iff (c ∷ cs) = elim (Bool-cases (is_digit c)) [
  | inl good ↦ (
    λ e. (good, (check_digits_iff cs).0 (rw good at e)),
    λ h. rw good ((check_digits_iff cs).1 h.1),
  )
  | inr bad ↦ (λ e. cc (rw bad at e), λ h. cc (h.0, bad))
]

from_chars_iff : (t : List ℕ) (n : ℕ) → (from_chars t ≡ ok n) ↔ ((value 0 t ≡ n) × (n ≤ int_max))
unfolding from_chars
from_chars_iff t n = elim (Bool-cases (ltb int_max (value 0 t))) [
  | inl large ↦ (λ e. cc (rw large at e), λ h. absurd (ground (arith, h.0, h.1)))
  | inr small ↦ (
    λ e. let same : value 0 t ≡ n = ok-injective (rw small at e) in (same, ground (arith, same)),
    λ h. rw (small, h.0),
  )
]

parse_token_iff : (begin : ℕ) (t : List ℕ) (n : ℕ) → (parse_token begin t ≡ ok n) ↔ Token t n
unfolding parse_token
parse_token_iff begin t n = (
  λ e. elim (Bool-cases (length t == 0)) [
    | inl empty ↦ cc (rw empty at e)
    | inr full ↦
        let (digits, number) = >>-eq-ok (check_digits t) (from_chars t) (rw full at e) in
        let exact = (from_chars_iff t n).0 number in
        record {
          some = ground (arith, full);
          digits = (check_digits_iff t).0 digits;
          spells = exact.0;
          fits = exact.1;
        }
  ],
  λ h.
      let full : (length t == 0) ≡ false = ground (arith, h.some) in
      rw (full, (check_digits_iff t).1 h.digits) ((from_chars_iff t n).1 (h.spells, h.fits)),
)

join : List ℕ → List (List ℕ) → List ℕ
join t [] = t
join t (u ∷ us) = t ++ comma ∷ join u us

parse_tokens-Spelled :
    (begin : ℕ) (t : List ℕ) (ts : List (List ℕ)) (ns : List ℕ)
    → parse_tokens begin t ts ≡ ok ns
    → Spelled (join t ts) ns
unfolding parse_tokens join
parse_tokens-Spelled begin t [] ns e =
    let (n, here, is) = >>=-eq-ok (parse_token begin t) _ e in
    subst (λ ms. Spelled t ms) (ok-injective is) (last ((parse_token_iff begin t n).0 here))
parse_tokens-Spelled begin t (u ∷ us) ns e =
    let (n, here, later) = >>=-eq-ok (parse_token begin t) _ e in
    let (ms, rest, is) = >>=-eq-ok (parse_tokens (begin + length t + 1) u us) _ later in
    subst (λ ks. Spelled (join t (u ∷ us)) ks) (ok-injective is)
      (next ((parse_token_iff begin t n).0 here)
        (parse_tokens-Spelled (begin + length t + 1) u us ms rest))

join-prepend : (c : ℕ) (t : List ℕ) (ts : List (List ℕ)) → join (c ∷ t) ts ≡ c ∷ join t ts
unfolding join
join-prepend c t [] = refl
join-prepend c t (u ∷ us) = refl

join-split : (s : List ℕ) → join (split s).0 (split s).1 ≡ s
unfolding split join
join-split [] = refl
join-split (c ∷ s) = elim (Bool-cases (c == comma)) [
  | inl here ↦ rw here (
      ap (λ (u : List ℕ). comma ∷ u) (join-split s)
      ∙ ap (λ (x : ℕ). x ∷ s) (sym (==→≡ c comma here)))
  | inr other ↦
      rw other (join-prepend c (split s).0 (split s).1 ∙ ap (λ (u : List ℕ). c ∷ u) (join-split s))
]

split-token :
    (t s : List ℕ)
    → All (λ c. is_digit c ≡ true) t
    → split (t ++ comma ∷ s) ≡ (t, (split s).0 ∷ (split s).1)
unfolding split
split-token [] s h = refl
split-token (c ∷ t) s h =
    let other : (c == comma) ≡ false = ground (arith, h.0) in rw (other, split-token t s h.1)

split-last : (t : List ℕ) → All (λ c. is_digit c ≡ true) t → split t ≡ (t, [])
unfolding split
split-last [] h = refl
split-last (c ∷ t) h =
    let other : (c == comma) ≡ false = ground (arith, h.0) in rw (other, split-last t h.1)

Spelled-parse_tokens :
    (begin : ℕ) (s ns : List ℕ) → Spelled s ns → parse_tokens begin (split s).0 (split s).1 ≡ ok ns
unfolding parse_tokens
Spelled-parse_tokens begin s _ (last {t} {n} token) =
    rw (split-last t token.digits, (parse_token_iff begin t n).1 token)
Spelled-parse_tokens begin _ _ (next {t} {s} {n} {ns} token rest) = rw (
  split-token t s token.digits,
  (parse_token_iff begin t n).1 token,
  Spelled-parse_tokens (begin + length t + 1) s ns rest,
)

append-some : (t s : List ℕ) → length (t ++ comma ∷ s) ≢ 0
append-some [] s = omega arith
append-some (c ∷ t) s = omega arith

Spelled-some : {s ns : List ℕ} → Spelled s ns → length s ≢ 0
Spelled-some (last token) = token.some
Spelled-some (next {t} {s} token rest) = append-some t s

-- `ParseLayerPartition` returns the numbers that the text spells: it returns a list exactly where
-- the text is that list's numbers, each one or more digits of an `int`, with commas between them.
pub parse_layer_partition_iff : (s ns : List ℕ) → (parse_layer_partition s ≡ ok ns) ↔ Spelled s ns
unfolding parse_layer_partition
parse_layer_partition_iff [] ns = (λ e. cc, λ h. absurd (Spelled-some h refl))
parse_layer_partition_iff (c ∷ s) ns = (
  λ e. subst (λ u. Spelled u ns) (join-split (c ∷ s)) (parse_tokens-Spelled 0 _ _ ns e),
  λ h. Spelled-parse_tokens 0 (c ∷ s) ns h,
)
