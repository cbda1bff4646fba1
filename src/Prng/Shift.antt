-- ===== src/Prng/Shift.antt =====
-- Shifts of 64-bit words as linear maps, and the inverse of x ^ shift x.
use laige_cpp.Prelude.{ℕ, ◌*◌, ◌/◌, ◌^◌, ◌<◌, bit_xor, ◌≡◌, refl, sym, ap, ◌∙◌, arith}
use laige_cpp.Prelude.Bits.{
  xor_assoc, xor_comm, xor_self, xor-zero, xor_cancel, xor_shr, xor_shl, xor_low_bits,
}
use laige_cpp.Prng.{u64}
use native.Mathlib.Nat.{mod-eq_of_lt, mod-lt, le_trans, div-le_self}
use Prim.Native.Nat.{suc-le-suc}

abbrev pub IsWord : ℕ → Type 0
IsWord x = x < 2 ^ 64

pub xor-IsWord : (a b : ℕ) → IsWord a → IsWord b → IsWord (bit_xor a b)
xor-IsWord a b p q =
    rw (← (mod-eq_of_lt p), ← (mod-eq_of_lt q), ← (xor_low_bits 64 a b))
      (mod-lt (bit_xor a b) (omega arith))

xor_middle :
    (a b c d : ℕ) → bit_xor (bit_xor a b) (bit_xor c d) ≡ bit_xor (bit_xor a c) (bit_xor b d)
xor_middle a b c d =
    rw
      (
        xor_assoc a b (bit_xor c d),
        ← (xor_assoc b c d),
        xor_comm b c,
        xor_assoc c b d,
        ← (xor_assoc a c (bit_xor b d)),
      )
      refl

-- `shift` is linear, `twice` is `shift` twice, and `twice` twice shifts everything out of a word.
pub record IsShift (shift twice : ℕ → ℕ) : Type 0 where
  pub linear : (a b : ℕ) → shift (bit_xor a b) ≡ bit_xor (shift a) (shift b)
  pub linear_twice : (a b : ℕ) → twice (bit_xor a b) ≡ bit_xor (twice a) (twice b)
  pub compose : (a : ℕ) → shift (shift a) ≡ twice a
  pub vanish : (a : ℕ) → IsWord a → twice (twice a) ≡ 0

-- x ^ shift x, and its inverse on words.
unfoldable pub mixed : (ℕ → ℕ) → ℕ → ℕ
mixed shift x = bit_xor x (shift x)

unfoldable pub unmixed : (ℕ → ℕ) → (ℕ → ℕ) → ℕ → ℕ
unmixed shift twice x = mixed twice (mixed shift x)

module _ (shift twice : ℕ → ℕ) (s : IsShift shift twice) where
  pub mixed_twice : (x : ℕ) → mixed shift (mixed shift x) ≡ mixed twice x
  unfolding mixed
  mixed_twice x =
      rw
        (
          s.linear x (shift x),
          xor_assoc x (shift x) (bit_xor (shift x) (shift (shift x))),
          xor_cancel (shift x) (shift (shift x)),
          s.compose x,
        )
        refl

  mixed_vanish : (x : ℕ) → IsWord x → mixed twice (mixed twice x) ≡ x
  unfolding mixed
  mixed_vanish x w =
      rw
        (
          s.linear_twice x (twice x),
          s.vanish x w,
          xor-zero (twice x),
          xor_assoc x (twice x) (twice x),
          xor_self (twice x),
        )
        (xor-zero x)

  mixed_comm : (x : ℕ) → mixed shift (mixed twice x) ≡ mixed twice (mixed shift x)
  unfolding mixed
  mixed_comm x =
      rw
        (s.linear x (twice x), s.linear_twice x (shift x), ← (s.compose x), ← (s.compose (shift x)))
        (xor_middle x (shift (shift x)) (shift x) (shift (shift (shift x))))

  pub unmixed-mixed : (x : ℕ) → IsWord x → unmixed shift twice (mixed shift x) ≡ x
  unfolding unmixed
  unmixed-mixed x w = ap (mixed twice) (mixed_twice x) ∙ mixed_vanish x w

  pub mixed-unmixed : (x : ℕ) → IsWord x → mixed shift (unmixed shift twice x) ≡ x
  unfolding unmixed
  mixed-unmixed x w =
      mixed_comm (mixed shift x) ∙ ap (mixed twice) (mixed_twice x) ∙ mixed_vanish x w

unfoldable pub shr_by : ℕ → ℕ → ℕ
shr_by k x = x / 2 ^ k

unfoldable pub shl_by : ℕ → ℕ → ℕ
shl_by k x = u64 (x * 2 ^ k)

shr-linear : (k a b : ℕ) → shr_by k (bit_xor a b) ≡ bit_xor (shr_by k a) (shr_by k b)
unfolding shr_by
shr-linear = xor_shr

shl-linear : (k a b : ℕ) → shl_by k (bit_xor a b) ≡ bit_xor (shl_by k a) (shl_by k b)
unfolding shl_by
shl-linear k a b = ap u64 (sym (xor_shl k a b)) ∙ xor_low_bits 64 (a * 2 ^ k) (b * 2 ^ k)

pub shr_18 : IsShift (shr_by 18) (shr_by 36)
unfolding shr_by
shr_18 = record {
  linear = shr-linear 18;
  linear_twice = shr-linear 36;
  compose = λ a. omega arith;
  vanish = λ a w. omega arith;
}

pub shr_27 : IsShift (shr_by 27) (shr_by 54)
unfolding shr_by
shr_27 = record {
  linear = shr-linear 27;
  linear_twice = shr-linear 54;
  compose = λ a. omega arith;
  vanish = λ a w. omega arith;
}

pub shr_30 : IsShift (shr_by 30) (shr_by 60)
unfolding shr_by
shr_30 = record {
  linear = shr-linear 30;
  linear_twice = shr-linear 60;
  compose = λ a. omega arith;
  vanish = λ a w. omega arith;
}

pub shr_31 : IsShift (shr_by 31) (shr_by 62)
unfolding shr_by
shr_31 = record {
  linear = shr-linear 31;
  linear_twice = shr-linear 62;
  compose = λ a. omega arith;
  vanish = λ a w. omega arith;
}

pub shl_23 : IsShift (shl_by 23) (shl_by 46)
unfolding shl_by
shl_23 = record {
  linear = shl-linear 23;
  linear_twice = shl-linear 46;
  compose = λ a. omega arith;
  vanish = λ a w. omega arith;
}

pub u64-IsWord : (x : ℕ) → IsWord (u64 x)
u64-IsWord x = omega arith

pub shr-IsWord : (k x : ℕ) → IsWord x → IsWord (shr_by k x)
unfolding shr_by
shr-IsWord k x w = le_trans (suc-le-suc (div-le_self x (2 ^ k))) w

pub halved : (k x : ℕ) → IsWord x → IsWord (x / 2 ^ k)
halved k x w = le_trans (suc-le-suc (div-le_self x (2 ^ k))) w

shl-IsWord : (k x : ℕ) → IsWord x → IsWord (shl_by k x)
unfolding shl_by
shl-IsWord k x w = u64-IsWord (x * 2 ^ k)

pub mixed_shr : (k x : ℕ) → IsWord x → IsWord (mixed (shr_by k) x)
unfolding mixed
mixed_shr k x w = xor-IsWord x _ w (shr-IsWord k x w)

pub mixed_shl : (k x : ℕ) → IsWord x → IsWord (mixed (shl_by k) x)
unfolding mixed
mixed_shl k x w = xor-IsWord x _ w (shl-IsWord k x w)

pub unmixed_shr : (k j x : ℕ) → IsWord x → IsWord (unmixed (shr_by k) (shr_by j) x)
unfolding unmixed
unmixed_shr k j x w = mixed_shr j _ (mixed_shr k x w)

pub unmixed_shl : (k j x : ℕ) → IsWord x → IsWord (unmixed (shl_by k) (shl_by j) x)
unfolding unmixed
unmixed_shl k j x w = mixed_shl j _ (mixed_shl k x w)
