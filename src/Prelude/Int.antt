-- ===== src/Prelude/Int.antt =====
-- Signed integers over the native numbers, under the library's names (its ℤ stands on the unary ℕ).
use Prim.Native.Nat.{ℕ, zero, suc, ◌+◌, ◌-◌, ◌*◌, ◌/◌, ◌%◌, ◌≤◌}
use mathlib.Core.Path.{◌≡◌}
use mathlib.Core.Bool.{Bool}
use native.Mathlib.Omega.{arith}
use laige_cpp.Prelude.Tests.{ltb, leb, ◌==◌, if◌then◌else◌}

-- `negsuc n` is -(n + 1).
pub data ℤ : Type 0 where
  pos : ℕ → ℤ
  negsuc : ℕ → ℤ

abbrev pub pos_part : ℤ → ℕ
pos_part (pos n) = n
pos_part (negsuc n) = 0

abbrev pub neg_part : ℤ → ℕ
neg_part (pos n) = 0
neg_part (negsuc n) = suc n

-- a - b, as an integer.
abbrev pub sub_ℕ : ℕ → ℕ → ℤ
sub_ℕ a b = if leb b a then pos (a - b) else negsuc (b - a - 1)

infixl 65 ◌+ℤ◌ ◌-ℤ◌
infixl 70 ◌*ℤ◌
infix 50 ◌≤ℤ◌ ◌<ℤ◌
unfoldable pub ◌+ℤ◌ : ℤ → ℤ → ℤ
a +ℤ b = sub_ℕ (pos_part a + pos_part b) (neg_part a + neg_part b)

unfoldable pub ◌-ℤ◌ : ℤ → ℤ → ℤ
a -ℤ b = sub_ℕ (pos_part a + neg_part b) (neg_part a + pos_part b)

unfoldable pub ◌*ℤ◌ : ℤ → ℤ → ℤ
a *ℤ b =
    sub_ℕ (pos_part a * pos_part b + neg_part a * neg_part b)
      (pos_part a * neg_part b + neg_part a * pos_part b)

-- -n, as an integer.
abbrev pub opp : ℕ → ℤ
opp zero = pos 0
opp (suc n) = negsuc n

abbrev pub neg : ℤ → ℤ
neg (pos n) = opp n
neg (negsuc n) = pos (suc n)

abbrev pub ◌≤ℤ◌ : ℤ → ℤ → Type 0
a ≤ℤ b = pos_part a + neg_part b ≤ pos_part b + neg_part a

abbrev pub ◌<ℤ◌ : ℤ → ℤ → Type 0
a <ℤ b = suc (pos_part a + neg_part b) ≤ pos_part b + neg_part a

abbrev pub ltb_ℤ : ℤ → ℤ → Bool
ltb_ℤ a b = ltb (pos_part a + neg_part b) (pos_part b + neg_part a)

abbrev pub abs : ℤ → ℕ
abs (pos n) = n
abs (negsuc n) = suc n

-- One lemma for each operation lets `omega` work with the operations shut, at any depth.
pub +ℤ_parts :
    (a b : ℤ)
    → pos_part (a +ℤ b) + neg_part a + neg_part b ≡ neg_part (a +ℤ b) + pos_part a + pos_part b
unfolding ◌+ℤ◌
+ℤ_parts a b = ground arith

pub -ℤ_parts :
    (a b : ℤ)
    → pos_part (a -ℤ b) + neg_part a + pos_part b ≡ neg_part (a -ℤ b) + pos_part a + neg_part b
unfolding ◌-ℤ◌
-ℤ_parts a b = ground arith

pub *ℤ_parts :
    (a b : ℤ)
    → pos_part (a *ℤ b) + (pos_part a * neg_part b + neg_part a * pos_part b)
      ≡ neg_part (a *ℤ b) + (pos_part a * pos_part b + neg_part a * neg_part b)
unfolding ◌*ℤ◌
*ℤ_parts a b = ground arith

pub eq_of_parts : (a b : ℤ) → pos_part a + neg_part b ≡ pos_part b + neg_part a → a ≡ b
eq_of_parts a b h = ground arith

pub ruleset int_laws = (arith, +ℤ_parts, -ℤ_parts, eq_of_parts)

-- `x >> k` of a two's complement number is the floor of x / 2 ^ k; `d` is 2 ^ k.
abbrev pub div_floor : ℤ → ℕ → ℤ
div_floor (pos n) d = pos (n / d)
div_floor (negsuc n) d = negsuc (n / d)

-- `x & (d - 1)` of a two's complement number, where `d` is a power of two.
abbrev pub mod_floor : ℤ → ℕ → ℕ
mod_floor (pos n) d = n % d
mod_floor (negsuc n) d = d - 1 - n % d

-- `/` and `%` of C truncate towards zero; the remainder has the sign of the dividend.
abbrev pub div_trunc : ℤ → ℤ → ℤ
div_trunc (pos n) (pos d) = pos (n / d)
div_trunc (pos n) (negsuc d) = opp (n / suc d)
div_trunc (negsuc n) (pos d) = opp (suc n / d)
div_trunc (negsuc n) (negsuc d) = pos (suc n / suc d)

abbrev pub mod_trunc : ℤ → ℤ → ℤ
mod_trunc (pos n) d = pos (n % abs d)
mod_trunc (negsuc n) d = opp (suc n % abs d)

-- `q & 1` of a two's complement number.
abbrev pub is_odd : ℤ → Bool
is_odd q = mod_floor q 2 == 1

-- `x << k` where the result fits; `d` is 2 ^ k.
abbrev pub mul_pos : ℤ → ℕ → ℤ
mul_pos (pos n) d = pos (n * d)
mul_pos (negsuc n) d = opp (suc n * d)

-- a ≤ b + k and a = b + k.
abbrev pub LeBy : ℕ → ℤ → ℤ → Type 0
LeBy k a b = pos_part a + neg_part b ≤ pos_part b + neg_part a + k

abbrev pub EqBy : ℕ → ℤ → ℤ → Type 0
EqBy k a b = pos_part a + neg_part b ≡ pos_part b + neg_part a + k
