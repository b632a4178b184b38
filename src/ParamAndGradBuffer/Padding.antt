-- ===== src/ParamAndGradBuffer/Padding.antt =====
-- Padding to a multiple.
use native.Mathlib.Nat.{div-add-mod, mod-lt, mul-mod_right}
use infini_train.Base.{
  ℕ, zero, suc, ◌+◌, ◌-◌, ◌*◌, ◌/◌, ◌%◌, ◌^◌, ◌<◌, ◌≤◌, ◌≡◌, refl, ap, ◌∙◌, arith, inl, inr, Bool,
  true, false, ◌==◌, if◌then◌else◌, Bool-cases, ==→≡,
}
use infini_train.ParamAndGradBuffer.{BufferConfig, pad_to, multiple_from, lcm, bucket_multiple}

-- `v` is a multiple of `a`.
abbrev pub Multiple : ℕ → ℕ → Type 0
Multiple a v = (k : ℕ) × (v ≡ a * k)

pub Multiple-mod : (a v : ℕ) → Multiple a v → v % a ≡ 0
Multiple-mod a v (k, e) = ap (λ (x : ℕ). x % a) e ∙ mul-mod_right a k

pub Multiple-trans : (a b v : ℕ) → Multiple a b → Multiple b v → Multiple a v
Multiple-trans a b v (k, e) (l, f) =
    let through : v ≡ a * k * l = f ∙ ap (λ (x : ℕ). x * l) e in (k * l, through ∙ grind arith)

pub pad_to-Multiple : (v a : ℕ) → 0 < a → Multiple a (pad_to v a)
unfolding pad_to
pad_to-Multiple v a pos =
    let split = div-add-mod v a in
    let low = mod-lt v pos in
    let positive : (a == 0) ≡ false = ground arith in
    elim (Bool-cases (v % a == 0)) [
      | inl e ↦ (v / a, rw (positive, e, pad_to) (omega (arith, split, ==→≡ _ _ e)))
      | inr e ↦ (
        v / a + 1,
        rw (positive, e, pad_to)
            (let next : a * (v / a + 1) ≡ a * (v / a) + a = grind arith in
              omega (arith, split, low, next)),
      )
    ]

pub pad_to-le : (v a : ℕ) → v ≤ pad_to v a
unfolding pad_to
pad_to-le v a = ground arith

multiple_from-Multiple : (a b k left : ℕ) → Multiple a (multiple_from a b k left)
unfolding multiple_from
multiple_from-Multiple a b k zero = (k, refl)
multiple_from-Multiple a b k (suc left) = elim (Bool-cases (a * k % b == 0)) [
  | inl e ↦ (k, rw (e, multiple_from) refl)
  | inr e ↦ let (l, f) = multiple_from-Multiple a b (k + 1) left in (l, rw (e, multiple_from) f)
]

pub lcm-Multiple_left : (a b : ℕ) → Multiple a (lcm a b)
unfolding lcm
lcm-Multiple_left a b = multiple_from-Multiple a b 1 (b - 1)

multiple_from-Multiple_right :
    (a b k left : ℕ) → 0 < b → k + left ≡ b → Multiple b (multiple_from a b k left)
unfolding multiple_from
multiple_from-Multiple_right a b k zero pos e =
    let last : k ≡ b = omega (arith, e) in (a, ap (λ (x : ℕ). a * x) last ∙ grind arith)
multiple_from-Multiple_right a b k (suc left) pos e = elim (Bool-cases (a * k % b == 0)) [
  | inl divides ↦
      let split = div-add-mod (a * k) b in
      (a * k / b, rw (divides, multiple_from) (omega (arith, split, ==→≡ _ _ divides)))
  | inr later ↦
      let (l, f) = multiple_from-Multiple_right a b (k + 1) left pos (omega (arith, e)) in
      (l, rw (later, multiple_from) f)
]

pub lcm-Multiple_right : (a b : ℕ) → 0 < b → Multiple b (lcm a b)
unfolding lcm
lcm-Multiple_right a b pos = multiple_from-Multiple_right a b 1 (b - 1) pos (omega arith)

mul_positive : (a k : ℕ) → 0 < a → 0 < k → 0 < a * k
mul_positive zero k ha hk = absurd (omega arith)
mul_positive (suc a) zero ha hk = absurd (omega arith)
mul_positive (suc a) (suc k) ha hk = grind arith

multiple_from_positive : (a b k left : ℕ) → 0 < a → 0 < k → 0 < multiple_from a b k left
unfolding multiple_from
multiple_from_positive a b k zero ha hk = mul_positive a k ha hk
multiple_from_positive a b k (suc left) ha hk = elim (Bool-cases (a * k % b == 0)) [
  | inl e ↦ rw (e, multiple_from) (mul_positive a k ha hk)
  | inr e ↦ rw (e, multiple_from) (multiple_from_positive a b (k + 1) left ha (omega arith))
]

lcm_positive : (a b : ℕ) → 0 < a → 0 < lcm a b
unfolding lcm
lcm_positive a b ha = multiple_from_positive a b 1 (b - 1) ha (omega arith)

pub if_holds :
    {A : Type 0} (P : A → Type 0) (b : Bool) {x y : A} → P x → P y → P (if b then x else y)
if_holds P true hx hy = hx
if_holds P false hx hy = hy

pub if_cases :
    {A : Type 0} (P : A → Type 0) (b : Bool) {x y : A}
    → (b ≡ true → P x)
    → (b ≡ false → P y)
    → P (if b then x else y)
if_cases P true hx hy = hx refl
if_cases P false hx hy = hy refl

-- What the ends of buckets are multiples of.
pub bucket_multiple_lem :
    (c : BufferConfig)
    → 0 < c.ddp_world_size
    → (0 < bucket_multiple c)
      × Multiple c.ddp_world_size (bucket_multiple c)
      × Multiple 128 (bucket_multiple c)
unfolding bucket_multiple
bucket_multiple_lem c world =
    let w = c.ddp_world_size in
    let one = lcm_positive w 128 world in
    let of_world = lcm-Multiple_left w 128 in
    let of_128 = lcm-Multiple_right w 128 (omega arith) in
    let more = lcm-Multiple_left (lcm w 128) (2 ^ 16) in
    if_holds (λ l. (0 < l) × Multiple w l × Multiple 128 l) c.pad_buckets_for_high_nccl_busbw
      (
        lcm_positive (lcm w 128) (2 ^ 16) one,
        Multiple-trans w (lcm w 128) _ of_world more,
        Multiple-trans 128 (lcm w 128) _ of_128 more,
      )
      (one, of_world, of_128)

-- A value that is padded under a condition.
pub padded_if :
    (b : Bool) (e m : ℕ)
    → 0 < m
    → (e ≤ (if b then pad_to e m else e))
      × (b ≡ true → Multiple m (if b then pad_to e m else e))
      × (b ≡ false → (if b then pad_to e m else e) ≡ e)
padded_if true e m pos = (pad_to-le e m, λ h. pad_to-Multiple e m pos, λ h. cc)
padded_if false e m pos = (omega arith, λ h. cc, λ h. refl)
