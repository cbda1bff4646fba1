-- ===== src/Fixed/Rounding.antt =====
-- What the two rounding steps of fpx16_16.h compute.
use laige_cpp.Prelude.{ℕ, zero, suc, ◌+◌, ◌*◌, ◌/◌, ◌%◌, ◌≤◌, ◌<◌, Bool, false, ◌&&◌, ◌||◌}
use laige_cpp.Prelude.{Bool-cases, ltb, ◌==◌, if◌then◌else◌, ◌≡◌, arith, ◌≢◌, ◌⊎◌, inl, inr, refl}
use laige_cpp.Prelude.Int.{
  ℤ, pos, negsuc, ◌+ℤ◌, ◌≤ℤ◌, ◌<ℤ◌, neg, div_trunc, mod_trunc, is_odd, mul_pos, abs, opp, LeBy,
  EqBy,
}
use native.Mathlib.Nat.{div-add-mod', mod-lt, mod-eq_of_lt, div-eq_of_lt}
use laige_cpp.Fixed.{round_half_to_even, clamp_raw, min_raw, max_raw, IsInt32, div_round}

-- `q` is the integer nearest to num / den (with den positive); on a tie it is the even one.
pub record IsNearestEven (num : ℤ) (den : ℕ) (q : ℤ) : Type 0 where
  pub below : LeBy den (mul_pos q (2 * den)) (mul_pos num 2)
  pub above : LeBy den (mul_pos num 2) (mul_pos q (2 * den))
  pub tie_below : EqBy den (mul_pos q (2 * den)) (mul_pos num 2) → is_odd q ≡ false
  pub tie_above : EqBy den (mul_pos num 2) (mul_pos q (2 * den)) → is_odd q ≡ false

pub round_half_to_even_nearest : (p : ℤ) → IsNearestEven p 65536 (round_half_to_even p)
unfolding round_half_to_even ◌+ℤ◌
round_half_to_even_nearest (pos n) = record {
  below = ground arith;
  above = ground arith;
  tie_below = ground arith;
  tie_above = ground arith;
}
round_half_to_even_nearest (negsuc n) = record {
  below = ground arith;
  above = ground arith;
  tie_below = ground arith;
  tie_above = ground arith;
}

-- `r` is `q` saturated to the range of an `int32_t`.
pub record IsSaturated (q r : ℤ) : Type 0 where
  pub in_range : IsInt32 r
  pub exact : IsInt32 q → r ≡ q
  pub low : q ≤ℤ min_raw → r ≡ min_raw
  pub high : max_raw ≤ℤ q → r ≡ max_raw

pub clamp_raw-IsSaturated : (v : ℤ) → IsSaturated v (clamp_raw v)
unfolding clamp_raw
clamp_raw-IsSaturated (pos n) = record {
  in_range = ground arith;
  exact = ground arith;
  low = ground arith;
  high = ground arith;
}
clamp_raw-IsSaturated (negsuc n) = record {
  in_range = ground arith;
  exact = ground arith;
  low = ground arith;
  high = ground arith;
}

pub clamp_raw_mono : (v w : ℤ) → v ≤ℤ w → clamp_raw v ≤ℤ clamp_raw w
unfolding clamp_raw
clamp_raw_mono v w h = ground arith

-- The dividend, with the sign of the divisor moved to it.
abbrev pub over_sign : ℤ → ℤ → ℤ
over_sign num (pos d) = num
over_sign num (negsuc d) = neg num

-- Where the truncated quotient is not 0, or the exact one is not negative, or it rounds to 0.
abbrev pub KeepsSign : ℤ → ℤ → Type 0
KeepsSign num den = (abs den ≤ abs num) ⊎ ((pos 0 ≤ℤ over_sign num den) ⊎ (2 * abs num ≤ abs den))

-- The rounding step of `div` on magnitudes.
round_nat : ℕ → ℕ → ℕ → ℕ
round_nat q r den = if ltb den (2 * r) || (2 * r == den && is_odd (pos q)) then q + 1 else q

round_nat_nearest :
    (n d q r : ℕ)
    → q * suc d + r ≡ n
    → r < suc d
    → IsNearestEven (pos n) (suc d) (pos (round_nat q r (suc d)))
unfolding round_nat
round_nat_nearest n d q r e lt = elim (Bool-cases up) [
  | inl u ↦ rw u (record {
    below = ground arith;
    above = ground arith;
    tie_below = ground arith;
    tie_above = ground arith;
  })
  | inr s ↦ rw s (record {
    below = ground arith;
    above = ground arith;
    tie_below = ground arith;
    tie_above = ground arith;
  })
]
  where
    up : Bool
    up = ltb (suc d) (2 * r) || (2 * r == suc d && is_odd (pos q))

module _ (n d : ℕ) where
  quotient_lem : n / suc d * suc d + n % suc d ≡ n
  quotient_lem = div-add-mod' n (suc d)

  rest_lt : n % suc d < suc d
  rest_lt = mod-lt n (omega arith)

  quot_zero : n < suc d → n / suc d ≡ 0
  quot_zero h = div-eq_of_lt h

  rest_self : n < suc d → n % suc d ≡ n
  rest_self h = mod-eq_of_lt h

-- Rounding is symmetric in the sign.
opp_nearest : (n den q : ℕ) → IsNearestEven (pos n) den (pos q) → IsNearestEven (opp n) den (opp q)
opp_nearest zero den zero h = h
opp_nearest zero den (suc q) h = record {
  below = ground arith;
  above = ground arith;
  tie_below = ground arith;
  tie_above = ground arith;
}
opp_nearest (suc n) den zero h = record {
  below = ground arith;
  above = ground arith;
  tie_below = ground arith;
  tie_above = ground arith;
}
opp_nearest (suc n) den (suc q) h = record {
  below = ground arith;
  above = ground arith;
  tie_below = ground arith;
  tie_above = ground arith;
}

div_round_nonneg :
    (q : ℕ) (s den : ℤ) → div_round (pos q) s den ≡ pos (round_nat q (abs s) (abs den))
unfolding div_round round_nat ◌+ℤ◌
div_round_nonneg q s den = ground arith

-- A negative truncated quotient steps down.
div_round_neg :
    (q r : ℕ) (den s : ℤ)
    → abs s ≡ r
    → div_round (opp (suc q)) s den ≡ opp (round_nat (suc q) r (abs den))
unfolding div_round round_nat ◌+ℤ◌
div_round_neg q r den s e = ground arith

-- A truncated quotient of 0 is right only if it does not step.
div_round_zero : (r : ℕ) (den s : ℤ) → abs s ≡ r → 2 * r ≤ abs den → div_round (pos 0) s den ≡ pos 0
unfolding div_round
div_round_zero r den s e h = ground arith

round_nat_zero : (r den : ℕ) → 2 * r ≤ den → round_nat 0 r den ≡ 0
unfolding round_nat
round_nat_zero r den h = ground arith

abs-opp : (n : ℕ) → abs (opp n) ≡ n
abs-opp zero = refl
abs-opp (suc n) = omega arith

-- The exact quotient is negative: n / d with opposite signs.
div_round-opp :
    (n d q r : ℕ) (den s : ℤ)
    → q * suc d + r ≡ n
    → r < suc d
    → abs den ≡ suc d
    → abs s ≡ r
    → (suc d ≤ n) ⊎ (2 * n ≤ suc d)
    → IsNearestEven (opp n) (suc d) (div_round (opp q) s den)
div_round-opp n d zero r den s e lt a b h = rw (div_round_zero r den s b (omega arith)) (
    opp_nearest n (suc d) 0
      (rw (round_nat_zero r (suc d) (omega arith)) at (round_nat_nearest n d 0 r e lt)))
div_round-opp n d (suc q) r den s e lt a b h =
    rw (div_round_neg q r den s b, a)
      (opp_nearest n (suc d) _ (round_nat_nearest n d (suc q) r e lt))

-- The rounding of `div` is to nearest, ties to even, wherever it keeps the sign.
pub div_round_nearest :
    (num den : ℤ)
    → den ≢ pos 0
    → KeepsSign num den
    → IsNearestEven
        (over_sign num den)
        (abs den)
        (div_round (div_trunc num den) (mod_trunc num den) den)
div_round_nearest (pos n) (pos zero) ne k = absurd (ne refl)
div_round_nearest (pos n) (pos (suc d)) ne k =
    rw (div_round_nonneg (n / suc d) _ (pos (suc d)))
      (round_nat_nearest n d _ _ (quotient_lem n d) (rest_lt n d))
div_round_nearest (pos n) (negsuc d) ne k =
    div_round-opp n d (n / suc d) _ (negsuc d) _ (quotient_lem n d) (rest_lt n d) refl refl
      (ground arith)
div_round_nearest (negsuc n) (pos zero) ne k = absurd (ne refl)
div_round_nearest (negsuc n) (pos (suc d)) ne k =
    div_round-opp (suc n) d (suc n / suc d) (suc n % suc d) (pos (suc d)) _ (quotient_lem (suc n) d)
      (rest_lt (suc n) d) refl (abs-opp _) (ground arith)
div_round_nearest (negsuc n) (negsuc d) ne k =
    rw (div_round_nonneg (suc n / suc d) _ (negsuc d), abs-opp (suc n % suc d))
      (round_nat_nearest (suc n) d _ _ (quotient_lem (suc n) d) (rest_lt (suc n) d))

-- With opposite signs, and an exact quotient between -1 and -1/2, the step is +1 where the nearest
-- integer is -1: the truncated quotient 0 has lost the sign.
div_round_step : (s den : ℤ) → abs den < 2 * abs s → div_round (pos 0) s den ≡ pos 1
unfolding div_round ◌+ℤ◌
div_round_step s den h = ground arith

minus_one_nearest : (n d : ℕ) → n < suc d → suc d < 2 * n → IsNearestEven (opp n) (suc d) (negsuc 0)
minus_one_nearest zero d lt gt = absurd (omega arith)
minus_one_nearest (suc n) d lt gt = record {
  below = ground arith;
  above = ground arith;
  tie_below = ground arith;
  tie_above = ground arith;
}

pub div_round_wrong :
    (num den : ℤ)
    → over_sign num den <ℤ pos 0
    → abs num < abs den
    → abs den < 2 * abs num
    → (div_round (div_trunc num den) (mod_trunc num den) den ≡ pos 1)
      × IsNearestEven (over_sign num den) (abs den) (negsuc 0)
div_round_wrong (pos n) (pos d) h lt gt = absurd (omega arith)
div_round_wrong (pos n) (negsuc d) h lt gt = (
  rw (quot_zero n d lt) (div_round_step _ (negsuc d) (rw (rest_self n d lt) gt)),
  minus_one_nearest n d lt gt,
)
div_round_wrong (negsuc n) (pos zero) h lt gt = absurd (omega arith)
div_round_wrong (negsuc n) (pos (suc d)) h lt gt = (
  rw (quot_zero (suc n) d lt) (div_round_step _ (pos (suc d)) (rw (rest_self (suc n) d lt) gt)),
  minus_one_nearest (suc n) d lt gt,
)
div_round_wrong (negsuc n) (negsuc d) h lt gt = absurd (omega arith)

-- Rounding keeps the order.
pub round_half_to_even_mono : (p r : ℤ) → p ≤ℤ r → round_half_to_even p ≤ℤ round_half_to_even r
unfolding round_half_to_even ◌+ℤ◌
round_half_to_even_mono p r h = ground arith
