-- ===== src/Fixed/Sqrt.antt =====
-- `sqrt` of fpx16_16.h. `std::sqrt` is a parameter: an estimate that is off by at most 1.
use laige_cpp.Prelude.{
  ℕ, zero, suc, ◌+◌, ◌-◌, ◌*◌, ◌^◌, ◌≤◌, ◌<◌, ◌≡◌, inl, inr, subst, arith, Bool-cases, ltb, leb,
  some, ap, ◌∙◌, lt→ltb, ltb→lt, ltb→le, leb→le, leb→lt, true,
}
use native.Mathlib.Nat.{mod-eq_of_lt, mul-le-mul}
use laige_cpp.Prelude.Int.{pos, ◌≤ℤ◌, ◌<ℤ◌, pos_part, neg_part}
use laige_cpp.Fixed.{
  Fpx16, sqrt, sqrt_of_floor, isqrt_floor, isqrt_up, isqrt_down, square, IsInt32, fpx_zero,
}

-- `std::sqrt(double(n))`, truncated, for n < 2 ^ 53: correctly rounded, so off by at most 1.
abbrev pub IsEstimate : (ℕ → ℕ) → Type 0
IsEstimate e = (n : ℕ) → n < 2 ^ 53 → ((e n - 1) * (e n - 1) ≤ n) × (n < (e n + 2) * (e n + 2))

-- `s` is the floor of the square root of `n`.
abbrev pub IsRoot : ℕ → ℕ → Type 0
IsRoot n s = (s * s ≤ n) × (n < (s + 1) * (s + 1))

-- No square of the loops wraps below 2 ^ 32.
square_lt : (s : ℕ) → s < 2 ^ 32 → s * s < 2 ^ 64
square_lt s h = grind (arith)

square_small : (s : ℕ) → s < 2 ^ 32 → square s ≡ s * s
unfolding square
square_small s h = mod-eq_of_lt (square_lt s h)

-- The descending loop stops at the root from any start above it.
isqrt_down-IsRoot : (n s : ℕ) → s < 2 ^ 32 → n < (s + 1) * (s + 1) → IsRoot n (isqrt_down n s)
unfolding isqrt_down
isqrt_down-IsRoot n zero b h = (omega arith, omega arith)
isqrt_down-IsRoot n (suc s) b h = elim (Bool-cases (ltb n (square (suc s)))) [
  | inl t ↦
      rw t
        (isqrt_down-IsRoot n s (omega arith) (omega (arith, square_small (suc s) b, ltb→lt n _ t)))
  | inr t ↦ rw t (omega (arith, square_small (suc s) b, ltb→le n _ t), h)
]

shift : (s fuel : ℕ) → s + suc fuel ≡ s + 1 + fuel
shift s fuel = omega arith

module _ (n s : ℕ) (big : n < 2 ^ 62) (b : s < 2 ^ 31 + 1) (t : leb (square (s + 1)) n ≡ true) where
  below : (s + 1) * (s + 1) ≤ n
  below = omega (arith, square_small (s + 1) (omega arith), leb→le _ n t)

  narrow : s + 1 < 2 ^ 31 + 1
  narrow = grind (arith, below, large)
    where
      large : 2 ^ 31 + 1 ≤ s + 1 → (2 ^ 31 + 1) * (2 ^ 31 + 1) ≤ (s + 1) * (s + 1)
      large k = mul-le-mul k k

  fuel_left : (fuel : ℕ) → n < (s + suc fuel) * (s + suc fuel) → 0 < fuel
  fuel_left zero h = absurd (omega (arith, below))
  fuel_left (suc fuel) h = omega arith

-- The ascending loop ends within the fuel, above the root.
isqrt_up_lem :
    (fuel n s : ℕ)
    → n < 2 ^ 62
    → s < 2 ^ 31 + 1
    → 0 < fuel
    → n < (s + fuel) * (s + fuel)
    → (t : ℕ) × (isqrt_up fuel n s ≡ some t) × (n < (t + 1) * (t + 1)) × (t < 2 ^ 32)
unfolding isqrt_up
isqrt_up_lem zero n s big b more h = absurd (omega arith)
isqrt_up_lem (suc fuel) n s big b more h = elim (Bool-cases (leb (square (s + 1)) n)) [
  | inl t ↦ rw t (
      isqrt_up_lem fuel n (s + 1) big (narrow n s big b t) (fuel_left n s big b t fuel h)
        (subst (λ k. n < k * k) (shift s fuel) h))
  | inr t ↦ (s, rw t, omega (arith, square_small (s + 1) (omega arith), leb→lt _ n t), omega arith)
]

root_small : (s n : ℕ) → s * s ≤ n → n < 2 ^ 47 → s < 2 ^ 24
root_small s n h b = ground (arith, le_or_gt s)
  where
    le_or_gt : (t : ℕ) → 2 ^ 24 ≤ t → 2 ^ 24 * 2 ^ 24 ≤ t * t
    le_or_gt t k = mul-le-mul k k

-- Two rounds of the ascending loop are enough for any estimate that is off by at most 1.
isqrt_floor-IsRoot :
    (e : ℕ → ℕ)
    → IsEstimate e
    → (n : ℕ) → n < 2 ^ 47
    → (s : ℕ) × (isqrt_floor e 2 n ≡ some s) × IsRoot n s
unfolding isqrt_floor
isqrt_floor-IsRoot e est n b =
    let bound = est n (omega arith) in
    let small = root_small (e n - 1) n bound.0 b in
    let up = isqrt_up_lem 2 n (e n) (omega arith) (omega arith) (omega arith) bound.1 in
    (isqrt_down n up.0, rw (up.1, isqrt_floor), isqrt_down-IsRoot n up.0 up.3 up.2)

-- The root of a positive raw value `v`, in raw units, is nearest to the root of n = v * 2 ^ 16: it
-- differs from it by less than a half. There is no tie.
abbrev pub IsNearestRoot : ℕ → ℕ → Type 0
IsNearestRoot n r = (n ≤ r * r + r) × (r * r < n + r)

sqrt_of_floor_lem :
    (n s : ℕ)
    → 0 < n
    → IsRoot n s
    → s < 2 ^ 24
    → (r : ℕ) × (sqrt_of_floor n (some s) ≡ some (record { raw = pos r }))
      × IsNearestRoot n r
      × (r ≤ 2 ^ 24)
unfolding sqrt_of_floor
sqrt_of_floor_lem n s some_left h b = elim (Bool-cases (ltb s (n - s * s))) [
  | inl t ↦ (s + 1, rw t, (omega (arith, ltb→lt _ _ t), omega (arith, ltb→lt _ _ t)), omega arith)
  | inr t ↦ (s, rw t (ground arith), (omega (arith, ltb→le _ _ t), grind arith), omega arith)
]

sqrt_positive :
    (e : ℕ → ℕ) (a : Fpx16)
    → pos 0 <ℤ a.raw
    → sqrt e 2 a
      ≡ sqrt_of_floor (pos_part a.raw * 2 ^ 16) (isqrt_floor e 2 (pos_part a.raw * 2 ^ 16))
unfolding sqrt
sqrt_positive e a h = rw (lt→ltb (0 + neg_part a.raw) (pos_part a.raw + 0) h)

-- For every estimate that is off by at most 1, `sqrt` returns: 0 for a value that is not positive,
-- and else the representable value nearest to the root, which is in range.
pub sqrt_total :
    (e : ℕ → ℕ)
    → IsEstimate e
    → (a : Fpx16) → IsInt32 a.raw
    → (a.raw ≤ℤ pos 0 → sqrt e 2 a ≡ some fpx_zero)
      × (pos 0 <ℤ a.raw
          → (r : ℕ) × (sqrt e 2 a ≡ some (record { raw = pos r }))
            × IsNearestRoot (pos_part a.raw * 2 ^ 16) r
            × (r ≤ 2 ^ 24))
unfolding sqrt
sqrt_total e est a h = (ground arith, positive)
  where
    positive :
        pos 0 <ℤ a.raw
        → (r : ℕ) × (sqrt e 2 a ≡ some (record { raw = pos r }))
          × IsNearestRoot (pos_part a.raw * 2 ^ 16) r
          × (r ≤ 2 ^ 24)
    positive k =
        let floor = isqrt_floor-IsRoot e est (pos_part a.raw * 2 ^ 16) (ground arith) in
        let root =
          sqrt_of_floor_lem (pos_part a.raw * 2 ^ 16) floor.0 (ground arith) floor.2
            (root_small floor.0 (pos_part a.raw * 2 ^ 16) floor.2.0 (ground arith)) in
        (
          root.0,
          sqrt_positive e a k ∙ ap (sqrt_of_floor (pos_part a.raw * 2 ^ 16)) floor.1 ∙ root.1,
          root.2,
          root.3,
        )
