-- ===== src/Global/Coordinates.antt =====
-- Ranks and coordinates of a layout in the default order TP, DP, PP.
use native.Mathlib.Nat.{
  one-mul, div-one, div-eq_of_lt, div-div-eq-div-mul, div-lt_iff_lt-mul, add-mul-div_left,
  add-mul-mod_self_left, div-add-mod, mod-lt, mod-eq_of_lt, add-mod_right,
}
use infini_train.Base.{ℕ, ◌+◌, ◌*◌, ◌/◌, ◌%◌, ◌<◌, ◌≡◌, sym, ◌∙◌, ap, arith}
use infini_train.Global.{Layout, default_order, per_axis, init_strides, rank_of, coord_of}

-- What `GlobalEnv::Init` makes of the three sizes. `strides` is set anew on each axis.
abbrev pub sized : ℕ → ℕ → ℕ → Layout
sized d t p = record { sizes = per_axis d t p; order = default_order; strides = per_axis 1 1 1 }

unfoldable pub default_layout : ℕ → ℕ → ℕ → Layout
unfolding init_strides
default_layout d t p = init_strides (sized d t p)

pub rank_of-default : (d t p i j k : ℕ) → rank_of (default_layout d t p) i j k ≡ j + t * (i + d * k)
unfolding rank_of default_layout
rank_of-default d t p i j k = grind arith

pub coord_of-default :
    (d t p r : ℕ) → coord_of (default_layout d t p) r ≡ ((r / t) % d, r % t, (r / (t * d)) % p)
unfolding coord_of default_layout
coord_of-default d t p r = simp (one-mul, div-one)

-- A number is put together from its last digit and the rest, and taken apart again.
pub digit : (j t q : ℕ) → j < t → ((j + t * q) % t ≡ j) × ((j + t * q) / t ≡ q)
digit j t q h = (
  add-mul-mod_self_left j t q ∙ mod-eq_of_lt h,
  add-mul-div_left j q (omega arith) ∙ omega (arith, div-eq_of_lt h),
)

two_digits :
    (d t i j k : ℕ)
    → i < d
    → j < t
    → (((j + t * (i + d * k)) / t) % d ≡ i)
      × ((j + t * (i + d * k)) % t ≡ j)
      × ((j + t * (i + d * k)) / (t * d) ≡ k)
two_digits d t i j k hi hj =
    let low = digit j t (i + d * k) hj in
    let high = digit i d k hi in
    (rw low.1 high.0, low.0, sym (div-div-eq-div-mul (j + t * (i + d * k)) t d) ∙ rw low.1 high.1)

module _ (d t p : ℕ) where
  -- Coordinates within the sizes are read back from the rank that they give.
  pub coord_of-rank_of :
      (i j k : ℕ)
      → i < d
      → j < t
      → k < p
      → coord_of (default_layout d t p) (rank_of (default_layout d t p) i j k) ≡ (i, j, k)
  coord_of-rank_of i j k hi hj hk =
      let e = two_digits d t i j k hi hj in
      rw (rank_of-default, coord_of-default, e.0, e.1, e.2, mod-eq_of_lt hk)

  whole : (r : ℕ) → r % t + t * ((r / t) % d + d * (r / (t * d))) ≡ r
  whole r =
      let high : (r / t) % d + d * (r / (t * d)) ≡ r / t =
        omega (arith, ap (λ (x : ℕ). d * x) (div-div-eq-div-mul r t d), div-add-mod (r / t) d) in
      rw high (omega (arith, div-add-mod r t))

  -- The coordinates of a rank below the product of the sizes are within the sizes, and give the
  -- rank back.
  pub rank_of-coord_of :
      (r : ℕ)
      → r < d * t * p
      → (rank_of
            (default_layout d t p)
            (coord_of (default_layout d t p) r).0
            (coord_of (default_layout d t p) r).1
            (coord_of (default_layout d t p) r).2
          ≡ r)
        × ((coord_of (default_layout d t p) r).0 < d)
        × ((coord_of (default_layout d t p) r).1 < t)
        × ((coord_of (default_layout d t p) r).2 < p)
  rank_of-coord_of r h =
      let hd : 0 < d = grind arith in
      let ht : 0 < t = grind arith in
      let hk : r / (t * d) < p = (div-lt_iff_lt-mul (grind arith)).1 (grind arith) in
      rw (coord_of-default, rank_of-default, mod-eq_of_lt hk)
        (whole r, mod-lt (r / t) hd, mod-lt r ht, hk)

  -- Where the data- and tensor-parallel sizes are positive, ranks that differ by the product of the
  -- three sizes have the same coordinates.
  pub coord_of_wraps :
      (r : ℕ)
      → 0 < d
      → 0 < t
      → coord_of (default_layout d t p) (r + d * t * p) ≡ coord_of (default_layout d t p) r
  coord_of_wraps r hd ht =
      let by_t : r + d * t * p ≡ r + t * (d * p) = grind arith in
      let by_both : r + d * t * p ≡ r + (t * d) * p = grind arith in
      let first : ((r + d * t * p) / t) % d ≡ (r / t) % d =
        rw (by_t, add-mul-div_left r (d * p) ht) (add-mul-mod_self_left (r / t) d p) in
      let second : (r + d * t * p) % t ≡ r % t = rw by_t (add-mul-mod_self_left r t (d * p)) in
      let third : ((r + d * t * p) / (t * d)) % p ≡ (r / (t * d)) % p =
        rw (by_both, add-mul-div_left r p {y = t * d} (grind arith))
          (add-mod_right (r / (t * d)) p) in
      coord_of-default d t p (r + d * t * p)
      ∙ rw (first, second, third) (sym (coord_of-default d t p r))
