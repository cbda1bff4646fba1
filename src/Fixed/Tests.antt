-- ===== src/Fixed/Tests.antt =====
-- The theorems on fpx16_16.h at concrete inputs, and runs of the code.
use laige_cpp.Prelude.{
  ℕ, zero, suc, ◌+◌, ◌*◌, ◌-◌, ◌≤◌, ◌<◌, ◌^◌, ◌≡◌, ◌≢◌, inl, inr, refl, arith, leb, if◌then◌else◌,
  some, Bool-cases,
}
use laige_cpp.Prelude.Int.{ℤ, pos, negsuc, ◌≤ℤ◌, ◌<ℤ◌, ◌+ℤ◌, ◌*ℤ◌, mul_pos}
use native.Mathlib.Nat.{mul-le-mul, le_trans}
use laige_cpp.Fixed.{Fpx16, add, mul, div, negate, fpx_max, fpx_zero, sqrt}
use laige_cpp.Fixed.{clamp_raw, round_half_to_even, round_to_q16, div_round}
use laige_cpp.Fixed.Rounding.{IsNearestEven, over_sign}
use laige_cpp.Fixed.Arith.{Rounds, mul-Rounds, div-Rounds, div_wrong_sign, add_mono, negate-negate}
use laige_cpp.Fixed.Sqrt.{IsEstimate, IsNearestRoot, sqrt_total}

abbrev of_raw : ℤ → Fpx16
of_raw v = record { raw = v }

mul_run : mul (of_raw (pos 98304)) (of_raw (negsuc 2)) ≡ of_raw (negsuc 3)
unfolding mul round_to_q16 round_half_to_even clamp_raw ◌*ℤ◌ ◌+ℤ◌
mul_run = refl

-- -1 raw unit over 1.52 gives +1 raw unit.
div_run : div (of_raw (negsuc 0)) (of_raw (pos 100000)) ≡ of_raw (pos 1)
unfolding div div_round clamp_raw ◌+ℤ◌
div_run = refl

mul-Rounds_example :
    Rounds (pos 98304 *ℤ negsuc 2) 65536 (mul (of_raw (pos 98304)) (of_raw (negsuc 2))).raw
mul-Rounds_example = mul-Rounds (of_raw (pos 98304)) (of_raw (negsuc 2))

div-Rounds_example :
    Rounds
      (over_sign (mul_pos (negsuc 6) 65536) (pos 131072))
      131072
      (div (of_raw (negsuc 6)) (of_raw (pos 131072))).raw
div-Rounds_example =
    div-Rounds (of_raw (negsuc 6)) (of_raw (pos 131072)) (λ e. ground arith) (inl (omega arith))

div_wrong_sign_example :
    ((div (of_raw (negsuc 0)) (of_raw (pos 100000))).raw ≡ pos 1)
    × IsNearestEven (over_sign (mul_pos (negsuc 0) 65536) (pos 100000)) 100000 (negsuc 0)
div_wrong_sign_example =
    div_wrong_sign (of_raw (negsuc 0)) (of_raw (pos 100000)) (omega arith) (omega arith)
      (omega arith)

add_mono_example : (add (of_raw (pos 1)) fpx_max).raw ≤ℤ (add (of_raw (pos 2)) fpx_max).raw
add_mono_example =
    add_mono (of_raw (pos 1)) fpx_max (of_raw (pos 2)) fpx_max (omega arith) (omega arith)

negate-negate_example :
    (negsuc 4 ≢ negsuc 2147483647 → negate (negate (of_raw (negsuc 4))) ≡ of_raw (negsuc 4))
    × (negsuc 4 ≡ negsuc 2147483647 → negate (of_raw (negsuc 4)) ≡ fpx_max)
negate-negate_example = negate-negate (of_raw (negsuc 4)) (omega arith)

-- An estimate that meets the assumption: the floor of the root itself.
root : ℕ → ℕ
root zero = 0
root (suc n) = let r = root n in if leb ((r + 1) * (r + 1)) (suc n) then r + 1 else r

root_lem : (n : ℕ) → (root n * root n ≤ n) × (n < (root n + 1) * (root n + 1))
unfolding root
root_lem zero = (omega arith, omega arith)
root_lem (suc n) =
    let ih = root_lem n in
    elim (Bool-cases (leb ((root n + 1) * (root n + 1)) (suc n))) [
      | inl t ↦ rw t (ground arith, ground arith)
      | inr t ↦ rw t (ground arith, ground arith)
    ]

sub-le : (r : ℕ) → r - 1 ≤ r
sub-le r = omega arith

root-IsEstimate : IsEstimate root
root-IsEstimate n h = (
  le_trans (mul-le-mul (sub-le (root n)) (sub-le (root n))) (root_lem n).0,
  grind (arith, root_lem n),
)

sqrt_total_example :
    (pos 131072 ≤ℤ pos 0 → sqrt root 2 (of_raw (pos 131072)) ≡ some fpx_zero)
    × (pos 0 <ℤ pos 131072
        → (r : ℕ) × (sqrt root 2 (of_raw (pos 131072)) ≡ some (of_raw (pos r)))
          × IsNearestRoot (131072 * 2 ^ 16) r
          × (r ≤ 2 ^ 24))
sqrt_total_example = sqrt_total root root-IsEstimate (of_raw (pos 131072)) (omega arith)
