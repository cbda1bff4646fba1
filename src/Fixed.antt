-- ===== src/Fixed.antt =====
-- src/laige-core/include/laige/fpx16_16.h: the Q16.16 fixed-point scalar.
pub mod Rounding
pub mod Arith
pub mod Convert
pub mod Sqrt
mod Tests
use laige_cpp.Prelude.{
  ℕ, zero, suc, ◌+◌, ◌-◌, ◌*◌, ◌/◌, ◌%◌, ◌^◌, ◌≤◌, ◌<◌, Bool, true, false, ◌&&◌, ◌||◌,
}
use laige_cpp.Prelude.{ltb, leb, ◌==◌, if◌then◌else◌, ◌≡◌, arith, Option, none, some}
use laige_cpp.Prelude.Int.{
  ℤ, pos, negsuc, ◌+ℤ◌, ◌-ℤ◌, ◌*ℤ◌, ◌≤ℤ◌, ltb_ℤ, neg, div_floor, mod_floor, div_trunc, mod_trunc,
  is_odd, mul_pos, abs, pos_part, neg_part,
}

-- An `fpx16_16`; its value is raw / 2 ^ 16.
pub record Fpx16 : Type 0 where
  pub raw : ℤ

abbrev pub min_raw : ℤ
min_raw = negsuc 2147483647

abbrev pub max_raw : ℤ
max_raw = pos 2147483647

-- The values that an `int32_t` holds.
abbrev pub IsInt32 : ℤ → Type 0
IsInt32 v = (min_raw ≤ℤ v) × (v ≤ℤ max_raw)

abbrev pub fpx_min : Fpx16
fpx_min = record { raw = min_raw }

abbrev pub fpx_max : Fpx16
fpx_max = record { raw = max_raw }

abbrev pub fpx_zero : Fpx16
fpx_zero = record { raw = pos 0 }

abbrev pub one : Fpx16
one = record { raw = pos 65536 }

pub clamp_raw : ℤ → ℤ
clamp_raw v = if ltb_ℤ v min_raw then min_raw else if ltb_ℤ max_raw v then max_raw else v

pub round_half_to_even : ℤ → ℤ
round_half_to_even p =
    let q = div_floor p 65536 in
    let rem = mod_floor p 65536 in
    q +ℤ (if leb 32768 rem && (ltb 32768 rem || is_odd q) then pos 1 else pos 0)

pub round_to_q16 : ℤ → ℤ
round_to_q16 p = clamp_raw (round_half_to_even p)

pub add : Fpx16 → Fpx16 → Fpx16
add a b = record { raw = clamp_raw (a.raw +ℤ b.raw) }

pub sub : Fpx16 → Fpx16 → Fpx16
sub a b = record { raw = clamp_raw (a.raw -ℤ b.raw) }

pub mul : Fpx16 → Fpx16 → Fpx16
mul a b = record { raw = round_to_q16 (a.raw *ℤ b.raw) }

-- The rounding step of `div`, from the truncated quotient and the remainder.
pub div_round : ℤ → ℤ → ℤ → ℤ
div_round q r den =
    let ad = abs den in
    let ar = abs r in
    if ltb ad (2 * ar) || (2 * ar == ad && is_odd q)
    then (if ltb_ℤ q (pos 0) then q +ℤ negsuc 0 else q +ℤ pos 1)
    else q

pub div : Fpx16 → Fpx16 → Fpx16
div a b =
    let num = mul_pos a.raw 65536 in
    if abs b.raw == 0
    then (if abs a.raw == 0 then fpx_zero else (if ltb_ℤ a.raw (pos 0) then fpx_min else fpx_max))
    else record { raw = clamp_raw (div_round (div_trunc num b.raw) (mod_trunc num b.raw) b.raw) }

pub negate : Fpx16 → Fpx16
negate a = sub fpx_zero a

pub from_int32 : ℤ → Fpx16
from_int32 v =
    if ltb_ℤ (pos 32767) v
    then fpx_max
    else (if ltb_ℤ v (negsuc 32766) then fpx_min else record { raw = mul_pos v 65536 })

pub to_int32 : Fpx16 → ℤ
to_int32 x = round_half_to_even x.raw

-- The square of a `uint64_t`, which wraps.
pub square : ℕ → ℕ
square s = s * s % 2 ^ 64

-- `while ((s + 1) * (s + 1) <= n) ++s;` with fuel; `none` means that the fuel ran out.
pub isqrt_up : ℕ → ℕ → ℕ → Option ℕ
isqrt_up zero n s = none
isqrt_up (suc fuel) n s =
    let rest = isqrt_up fuel n (s + 1) in if leb (square (s + 1)) n then rest else some s

-- `while (s * s > n) --s;`
pub isqrt_down : ℕ → ℕ → ℕ
isqrt_down n zero = zero
isqrt_down n (suc s) = let rest = isqrt_down n s in if ltb n (square (suc s)) then rest else suc s

-- `estimate` stands for `std::sqrt` on doubles, truncated to an integer.
pub isqrt_floor : (ℕ → ℕ) → ℕ → ℕ → Option ℕ
isqrt_floor estimate fuel n = elim (isqrt_up fuel n (estimate n)) [
  | none ↦ none
  | some s ↦ some (isqrt_down n s)
]

pub sqrt_of_floor : ℕ → Option ℕ → Option Fpx16
sqrt_of_floor n none = none
sqrt_of_floor n (some s) = some (record { raw = pos (s + (if ltb s (n - s * s) then 1 else 0)) })

pub sqrt : (ℕ → ℕ) → ℕ → Fpx16 → Option Fpx16
sqrt estimate fuel a =
    if ltb_ℤ (pos 0) a.raw
    then (let n = pos_part a.raw * 2 ^ 16 in sqrt_of_floor n (isqrt_floor estimate fuel n))
    else some fpx_zero
