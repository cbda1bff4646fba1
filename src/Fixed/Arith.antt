-- ===== src/Fixed/Arith.antt =====
-- The arithmetic of fpx16_16.h: each operation rounds the exact result once and saturates.
use laige_cpp.Prelude.{ℕ, ◌*◌, ◌<◌, ◌≡◌, ◌≢◌, refl, ap, ◌∙◌, arith}
use laige_cpp.Prelude.Int.{
  ℤ, pos, negsuc, ◌+ℤ◌, ◌-ℤ◌, ◌*ℤ◌, ◌≤ℤ◌, ◌<ℤ◌, div_trunc, mod_trunc, mul_pos, abs, +ℤ_parts,
  *ℤ_parts,
}
use native.Mathlib.Nat.{mul-le-mul_right}
use laige_cpp.Fixed.{Fpx16, add, sub, mul, div, negate, one, fpx_max, min_raw, IsInt32}
use laige_cpp.Fixed.{clamp_raw, round_half_to_even, round_to_q16, div_round}
use laige_cpp.Fixed.Rounding.{
  IsNearestEven, IsSaturated, KeepsSign, over_sign, round_half_to_even_nearest,
  clamp_raw-IsSaturated, clamp_raw_mono, div_round_nearest, div_round_wrong,
  round_half_to_even_mono,
}

-- `r` is the quotient num / den, rounded to nearest with ties to even and then saturated.
abbrev pub Rounds : ℤ → ℕ → ℤ → Type 0
Rounds num den r = (q : ℤ) × IsNearestEven num den q × IsSaturated q r

-- A product is the exact product over 2 ^ 16, rounded to nearest, ties to even, and saturated.
pub mul-Rounds : (a b : Fpx16) → Rounds (a.raw *ℤ b.raw) 65536 (mul a b).raw
unfolding mul round_to_q16
mul-Rounds a b = (
  round_half_to_even (a.raw *ℤ b.raw),
  round_half_to_even_nearest (a.raw *ℤ b.raw),
  clamp_raw-IsSaturated (round_half_to_even (a.raw *ℤ b.raw)),
)

div_nonzero :
    (a b : Fpx16)
    → b.raw ≢ pos 0
    → (div a b).raw
      ≡ clamp_raw (
          div_round
            (div_trunc (mul_pos a.raw 65536) b.raw)
            (mod_trunc (mul_pos a.raw 65536) b.raw)
            b.raw)
unfolding div
div_nonzero a b ne = ground arith

-- A quotient by a divisor that is not 0 is the exact quotient, rounded to nearest, ties to even,
-- and saturated, unless the exact one lies strictly between -1 and -1/2 of a raw unit.
pub div-Rounds :
    (a b : Fpx16)
    → b.raw ≢ pos 0
    → KeepsSign (mul_pos a.raw 65536) b.raw
    → Rounds (over_sign (mul_pos a.raw 65536) b.raw) (abs b.raw) (div a b).raw
div-Rounds a b ne k = (
  _,
  div_round_nearest (mul_pos a.raw 65536) b.raw ne k,
  rw (div_nonzero a b ne) (clamp_raw-IsSaturated _),
)

clamp_one : clamp_raw (pos 1) ≡ pos 1
unfolding clamp_raw
clamp_one = refl

-- In that remaining case the nearest value is -1 raw unit and the code returns +1.
pub div_wrong_sign :
    (a b : Fpx16)
    → over_sign (mul_pos a.raw 65536) b.raw <ℤ pos 0
    → abs (mul_pos a.raw 65536) < abs b.raw
    → abs b.raw < 2 * abs (mul_pos a.raw 65536)
    → ((div a b).raw ≡ pos 1)
      × IsNearestEven (over_sign (mul_pos a.raw 65536) b.raw) (abs b.raw) (negsuc 0)
div_wrong_sign a b h lt gt =
    let wrong = div_round_wrong (mul_pos a.raw 65536) b.raw h lt gt in
    (div_nonzero a b (ground arith) ∙ ap clamp_raw wrong.0 ∙ clamp_one, wrong.1)

-- Saturating addition is monotone in both arguments.
pub add_mono : (a b c d : Fpx16) → a.raw ≤ℤ c.raw → b.raw ≤ℤ d.raw → (add a b).raw ≤ℤ (add c d).raw
unfolding add
add_mono a b c d h k =
    clamp_raw_mono _ _ (omega (arith, +ℤ_parts a.raw b.raw, +ℤ_parts c.raw d.raw))

-- Where the sum does not saturate, subtraction undoes it.
pub sub-add : (a b : Fpx16) → IsInt32 a.raw → IsInt32 (a.raw +ℤ b.raw) → sub (add a b) b ≡ a
unfolding sub add clamp_raw ◌+ℤ◌ ◌-ℤ◌
sub-add a b h k = ground arith

-- Negation is its own inverse at every value but the least one, which it maps to the greatest.
pub negate-negate :
    (a : Fpx16)
    → IsInt32 a.raw
    → ((a.raw ≢ min_raw) → negate (negate a) ≡ a) × (a.raw ≡ min_raw → negate a ≡ fpx_max)
unfolding negate sub clamp_raw ◌-ℤ◌
negate-negate a h = ground arith

-- Multiplication by a value that is not negative keeps the order, saturation and rounding included.
product_mono : (x y z : ℤ) → x ≤ℤ y → pos 0 ≤ℤ z → x *ℤ z ≤ℤ y *ℤ z
product_mono x y (negsuc m) h k = absurd (omega arith)
product_mono x y (pos m) h k =
    omega (arith, *ℤ_parts x (pos m), *ℤ_parts y (pos m), mul-le-mul_right m h)

pub mul_mono : (a b c : Fpx16) → a.raw ≤ℤ b.raw → pos 0 ≤ℤ c.raw → (mul a c).raw ≤ℤ (mul b c).raw
unfolding mul round_to_q16
mul_mono a b c h k =
    clamp_raw_mono _ _ (round_half_to_even_mono _ _ (product_mono a.raw b.raw c.raw h k))

-- `one` is neutral for multiplication and division.
pub mul-one : (a : Fpx16) → IsInt32 a.raw → (mul a one ≡ a) × (mul one a ≡ a) × (div a one ≡ a)
unfolding mul round_to_q16 clamp_raw round_half_to_even ◌+ℤ◌ ◌*ℤ◌ div div_round
mul-one a h = (ground arith, ground arith, ground arith)
