-- ===== src/Prelude/Bits.antt =====
-- Laws of the exclusive or on native numbers, for every width. The library has none at variables.
use Prim.Native.Nat.{
  ℕ, zero, suc, ◌+◌, ◌*◌, ◌/◌, ◌%◌, ◌^◌, ◌≤◌, ◌<◌, bit_xor, digits, bit_xor-bitwise, differ,
}
use mathlib.Core.Path.{◌≡◌, refl, sym, ap, ap₂, ◌∙◌}
use native.Mathlib.Nat.{
  le_refl, pow-succ', div-div-eq-div-mul, mul_assoc, mul-one, div-one, mod-one, mod-lt,
  mod-eq_of_lt, one-le-pow, add-mul-mod_self_right, div-add-mod',
}
use native.Mathlib.Omega.{arith}
use mathlib.Core.Logic.{◌⊎◌, inl, inr}

-- What the fuel is does not matter, once there is one unit for each unit of the first argument.
enough_fuel :
    (b a fuel others : ℕ)
    → digits (λ y. y) differ fuel a b ≡ digits (λ y. y) differ others a b ⊎ fuel < a ⊎ others < a
enough_fuel b zero zero zero = inl refl
enough_fuel b zero (suc x) (suc y) = inl refl
enough_fuel b zero (suc x) zero = inl refl
enough_fuel b zero zero (suc y) = inl refl
enough_fuel b (suc a) zero y = inr (inl (omega arith))
enough_fuel b (suc a) (suc x) zero = inr (inr (omega arith))
enough_fuel b (suc a) (suc x) (suc y) = elim (enough_fuel (b / 2) (suc a / 2) x y) [
  | inl e ↦ inl (rw e)
  | inr (inl l) ↦ inr (inl (omega arith))
  | inr (inr l) ↦ inr (inr (omega arith))
]

half_fuel :
    (a b : ℕ)
    → digits (λ y. y) differ a (suc a / 2) (b / 2)
      ≡ digits (λ y. y) differ (suc a / 2) (suc a / 2) (b / 2)
half_fuel a b = elim (enough_fuel (b / 2) (suc a / 2) a (suc a / 2)) [
  | inl e ↦ e
  | inr (inl l) ↦ absurd (omega arith)
  | inr (inr l) ↦ absurd (omega arith)
]

pub zero-xor : (b : ℕ) → bit_xor 0 b ≡ b
zero-xor b = bit_xor-bitwise 0 b

differ_small : (x y : ℕ) → x < 2 → y < 2 → differ x y ≡ (x + y) % 2
differ_small zero y p q = omega arith
differ_small (suc zero) zero p q = refl
differ_small (suc zero) (suc zero) p q = refl
differ_small (suc zero) (suc (suc y)) p q = absurd (omega arith)
differ_small (suc (suc x)) y p q = absurd (omega arith)

-- The law of the lowest digit: it is the sum of the two lowest digits mod 2.
pub xor_step : (a b : ℕ) → bit_xor a b ≡ bit_xor (a / 2) (b / 2) * 2 + (a + b) % 2
xor_step zero b = omega (arith, zero-xor b, zero-xor (b / 2))
xor_step (suc a) b = omega (
  arith,
  bit_xor-bitwise (suc a) b,
  bit_xor-bitwise (suc a / 2) (b / 2),
  half_fuel a b,
  differ_small (suc a % 2) (b % 2) (omega arith) (omega arith),
)

pub xor_half : (a b : ℕ) → bit_xor a b / 2 ≡ bit_xor (a / 2) (b / 2)
xor_half a b = omega (arith, xor_step a b)

pub xor_low : (a b : ℕ) → bit_xor a b % 2 ≡ (a + b) % 2
xor_low a b = omega (arith, xor_step a b)

-- Each law holds below every bound `n`, by induction on the bound.
comm_below : (n a b : ℕ) → a ≤ n → b ≤ n → bit_xor a b ≡ bit_xor b a
comm_below zero zero zero p q = refl
comm_below zero (suc a) b p q = absurd (omega arith)
comm_below zero zero (suc b) p q = absurd (omega arith)
comm_below (suc n) a b p q =
    omega
      (arith, xor_step a b, xor_step b a, comm_below n (a / 2) (b / 2) (omega arith) (omega arith))

pub xor_comm : (a b : ℕ) → bit_xor a b ≡ bit_xor b a
xor_comm a b = comm_below (a + b) a b (omega arith) (omega arith)

self_below : (n a : ℕ) → a ≤ n → bit_xor a a ≡ 0
self_below zero zero p = refl
self_below zero (suc a) p = absurd (omega arith)
self_below (suc n) a p = omega (arith, xor_step a a, self_below n (a / 2) (omega arith))

pub xor_self : (a : ℕ) → bit_xor a a ≡ 0
xor_self a = self_below a a (le_refl a)

assoc_below :
    (n a b c : ℕ) → a ≤ n → b ≤ n → c ≤ n → bit_xor (bit_xor a b) c ≡ bit_xor a (bit_xor b c)
assoc_below zero zero b c p q r = rw (zero-xor b, zero-xor (bit_xor b c))
assoc_below zero (suc a) b c p q r = absurd (omega arith)
assoc_below (suc n) a b c p q r =
    xor_step (bit_xor a b) c
    ∙ ap₂ (λ x y. x * 2 + y)
        (rw (
          xor_half a b,
          assoc_below n (a / 2) (b / 2) (c / 2) (omega arith) (omega arith) (omega arith),
          ← (xor_half b c),
        ))
        (omega (arith, xor_low a b, xor_low b c))
    ∙ sym (xor_step a (bit_xor b c))

pub xor_assoc : (a b c : ℕ) → bit_xor (bit_xor a b) c ≡ bit_xor a (bit_xor b c)
xor_assoc a b c = assoc_below (a + b + c) a b c (omega arith) (omega arith) (omega arith)

pub xor-zero : (a : ℕ) → bit_xor a 0 ≡ a
xor-zero a = xor_comm a 0 ∙ zero-xor a

-- A value meets itself and is gone.
pub xor_cancel : (a b : ℕ) → bit_xor a (bit_xor a b) ≡ b
xor_cancel a b = sym (xor_assoc a a b) ∙ rw (xor_self a, zero-xor b)

shr_suc : (k x : ℕ) → x / 2 ^ suc k ≡ x / 2 / 2 ^ k
shr_suc k x = ap (λ (d : ℕ). x / d) (pow-succ' 2 k) ∙ sym (div-div-eq-div-mul x 2 (2 ^ k))

-- Shifting right, at any distance.
pub xor_shr : (k a b : ℕ) → bit_xor a b / 2 ^ k ≡ bit_xor (a / 2 ^ k) (b / 2 ^ k)
xor_shr zero a b = rw (div-one (bit_xor a b), div-one a, div-one b)
xor_shr (suc k) a b =
    rw (shr_suc k (bit_xor a b), shr_suc k a, shr_suc k b, xor_half a b) (xor_shr k (a / 2) (b / 2))

shl_suc : (k x : ℕ) → x * 2 ^ suc k ≡ x * 2 * 2 ^ k
shl_suc k x = ap (λ (d : ℕ). x * d) (pow-succ' 2 k) ∙ sym (mul_assoc x 2 (2 ^ k))

xor_parts : (a b h k : ℕ) → a / 2 ≡ h → b / 2 ≡ k → bit_xor a b ≡ bit_xor h k * 2 + (a + b) % 2
xor_parts a b h k p q = xor_step a b ∙ rw (p, q)

xor_double : (a b : ℕ) → bit_xor (a * 2) (b * 2) ≡ bit_xor a b * 2
xor_double a b = xor_parts (a * 2) (b * 2) a b (omega arith) (omega arith) ∙ omega arith

-- Shifting left, at any distance.
pub xor_shl : (k a b : ℕ) → bit_xor (a * 2 ^ k) (b * 2 ^ k) ≡ bit_xor a b * 2 ^ k
xor_shl zero a b = rw (mul-one a, mul-one b, mul-one (bit_xor a b))
xor_shl (suc k) a b =
    rw (shl_suc k a, shl_suc k b, shl_suc k (bit_xor a b), ← (xor_double a b))
      (xor_shl k (a * 2) (b * 2))

mod_suc : (k x : ℕ) → x % 2 ^ suc k ≡ x / 2 % 2 ^ k * 2 + x % 2
mod_suc k x =
    ap (λ (d : ℕ). x % d) (pow-succ' 2 k)
    ∙ ap (λ (y : ℕ). y % (2 * 2 ^ k)) split
    ∙ add-mul-mod_self_right _ (x / 2 / 2 ^ k) (2 * 2 ^ k)
    ∙ mod-eq_of_lt (omega (arith, mod-lt (x / 2) (one-le-pow k 2 (omega arith))))
  where
    split : x ≡ x / 2 % 2 ^ k * 2 + x % 2 + x / 2 / 2 ^ k * (2 * 2 ^ k)
    split = omega (arith, div-add-mod' (x / 2) (2 ^ k))

half_mod : (k x : ℕ) → x % 2 ^ suc k / 2 ≡ x / 2 % 2 ^ k
half_mod k x = omega (arith, mod_suc k x)

-- The low digits, at any width.
pub xor_low_bits : (k a b : ℕ) → bit_xor a b % 2 ^ k ≡ bit_xor (a % 2 ^ k) (b % 2 ^ k)
xor_low_bits zero a b = rw (mod-one (bit_xor a b), mod-one a, mod-one b)
xor_low_bits (suc k) a b =
    rw (mod_suc k (bit_xor a b), xor_half a b, xor_low_bits k (a / 2) (b / 2), xor_low a b)
      (sym (
        xor_parts (a % 2 ^ suc k) (b % 2 ^ suc k) _ _ (half_mod k a) (half_mod k b)
        ∙ ap (λ (y : ℕ). bit_xor (a / 2 % 2 ^ k) (b / 2 % 2 ^ k) * 2 + y)
            (omega (arith, mod_suc k a, mod_suc k b))))
