-- ===== src/Prng/Range.antt =====
-- `next_range` (src/laige-core/include/laige/prng.h): the range of its result, and when it returns.
use laige_cpp.Prelude.{
  ℕ, zero, suc, ◌+◌, ◌-◌, ◌*◌, ◌/◌, ◌%◌, ◌^◌, ◌≤◌, ◌<◌, ◌≡◌, refl, sym, subst, ==→eq, ap, ◌∙◌,
  arith, Bool-cases, ◌==◌, if◌then◌else◌, Option, none, some, le→ltb, lt→ltb, inl, inr,
}
use laige_cpp.Prng.{Prng, next_u64, next_range, next_accepted, in_span, residue, threshold}
use laige_cpp.Prng.Stream.{after_draws, next_u64_lem}
use native.Mathlib.Nat.{mod-eq_of_lt, mod-lt, div-add-mod', mod-add-mod, mod-le}

-- The `k`-th draw of a stream.
abbrev pub draw : ℕ → Prng → ℕ
draw k g = (next_u64 (after_draws k g)).0

-- `residue` is the remainder of 2 ^ 64.
pub residue_lem : (n : ℕ) → 0 < n → residue n ≡ 2 ^ 64 % n
unfolding residue
residue_lem n h = mod-add-mod (2 ^ 64 - 1) n 1

-- The accepted draws are a multiple of the span, and fewer than `n` are rejected.
pub threshold_lem :
    (n : ℕ)
    → 0 < n
    → n < 2 ^ 32
    → (threshold n ≡ 2 ^ 64 / n * n) × (threshold n + residue n ≡ 2 ^ 64)
unfolding threshold
threshold_lem n h b = (
  omega (arith, residue_lem n h, div-add-mod' (2 ^ 64) n, mod-lt (2 ^ 64) h),
  omega (arith, residue_lem n h, mod-le (2 ^ 64) n),
)

-- At least half of all draws are accepted when the span is a 32-bit number.
pub threshold-half : (n : ℕ) → 0 < n → n < 2 ^ 32 → 2 ^ 63 < threshold n
threshold-half n h k = omega (arith, threshold_lem n h k, residue_lem n h, mod-lt (2 ^ 64) h)

-- The loop returns the first draw below the threshold, with the state after it.
next_accepted_first :
    (fuel k t : ℕ) (g : Prng)
    → k < fuel
    → draw k g < t
    → ((j : ℕ) → j < k → t ≤ draw j g)
    → next_accepted fuel t g ≡ some (draw k g, after_draws (suc k) g)
unfolding next_accepted after_draws
next_accepted_first zero k t g h a r = absurd (omega arith)
next_accepted_first (suc fuel) zero t g h a r = rw (lt→ltb _ t a)
next_accepted_first (suc fuel) (suc k) t g h a r =
    rw (le→ltb _ t (r 0 (omega arith)))
      (next_accepted_first fuel k t (next_u64 g).1 (omega arith) a (λ j l. r (suc j) (omega arith)))

-- `next_range` with the span as a variable.
unfoldable pub span_case : ℕ → ℕ → ℕ → Prng → Option (ℕ × Prng)
span_case fuel low n g =
    if residue n == 0
    then in_span low n (some (next_u64 g))
    else in_span low n (next_accepted fuel (threshold n) g)

pub next_range-span :
    (fuel low high : ℕ) (g : Prng)
    → low < high
    → high < 2 ^ 32
    → next_range fuel low high g ≡ span_case fuel low (high - low) g
unfolding next_range span_case
next_range-span fuel low high g h b = ap (λ n. span_case fuel low n g) (omega arith)

draw-lt : (k : ℕ) (g : Prng) → draw k g < 2 ^ 64
draw-lt k g = rw (next_u64_lem (after_draws k g)).2 (mod-lt _ (omega arith))

-- With no residue every draw is accepted, so the first one is the answer.
first_is_zero :
    (k n : ℕ) (g : Prng)
    → residue n ≡ 0
    → 0 < n
    → n < 2 ^ 32
    → ((j : ℕ) → j < k → threshold n ≤ draw j g)
    → k ≡ 0
first_is_zero zero n g e p b r = refl
first_is_zero (suc k) n g e p b r =
    absurd (omega (arith, r 0 (omega arith), threshold_lem n p b, draw-lt 0 g))

in_span-some :
    (low n r : ℕ) (g : Prng)
    → 0 < n
    → low + n < 2 ^ 32
    → in_span low n (some (r, g)) ≡ some (low + r % n, g)
unfolding in_span
in_span-some low n r g p b = ap (λ (v : ℕ). some (v, g)) (mod-eq_of_lt (omega (arith, mod-lt r p)))

pub span_case_first :
    (fuel k low n : ℕ) (g : Prng)
    → 0 < n
    → low + n < 2 ^ 32
    → k < fuel
    → draw k g < threshold n
    → ((j : ℕ) → j < k → threshold n ≤ draw j g)
    → span_case fuel low n g ≡ some (low + draw k g % n, after_draws (suc k) g)
unfolding span_case after_draws
span_case_first fuel k low n g p b h a r = elim (Bool-cases (residue n == 0)) [
  | inl e ↦ rw e (
      subst
        (λ (j : ℕ).
          in_span low n (some (next_u64 g)) ≡ some (low + draw j g % n, after_draws (suc j) g))
        (sym (first_is_zero k n g (==→eq _ _ e) p (omega arith) r))
        (in_span-some low n (next_u64 g).0 (next_u64 g).1 p b))
  | inr e ↦
      rw (e, next_accepted_first fuel k (threshold n) g h a r)
        (in_span-some low n (draw k g) (after_draws (suc k) g) p b)
]

-- With a fuel above `k`, where draw `k` is the first below the threshold, `next_range` returns
-- `min` plus that draw's remainder by the span, with the state just after the draw.
pub next_range_first :
    (fuel k low high : ℕ) (g : Prng)
    → low < high
    → high < 2 ^ 32
    → k < fuel
    → draw k g < threshold (high - low)
    → ((j : ℕ) → j < k → threshold (high - low) ≤ draw j g)
    → next_range fuel low high g ≡ some (low + draw k g % (high - low), after_draws (suc k) g)
unfolding next_range
next_range_first fuel k low high g lt b h a r =
    next_range-span fuel low high g lt b
    ∙ span_case_first fuel k low (high - low) g (omega arith) (omega arith) h a r

next_accepted-seed :
    (fuel t r : ℕ) (g g' : Prng) → next_accepted fuel t g ≡ some (r, g') → g'.seed ≡ g.seed
unfolding next_accepted
next_accepted-seed zero t r g g' e = cc
next_accepted-seed (suc fuel) t r g g' e =
    ground (arith, next_accepted-seed fuel t r (next_u64 g).1 g', (next_u64_lem g).1)

in_span_bounds :
    (low n r : ℕ) (g g' : Prng) (o : Option (ℕ × Prng))
    → 0 < n
    → low + n < 2 ^ 32
    → ((s : ℕ) (h : Prng) → o ≡ some (s, h) → h.seed ≡ g.seed)
    → in_span low n o ≡ some (r, g')
    → (low ≤ r) × (r < low + n) × (g'.seed ≡ g.seed)
unfolding in_span
in_span_bounds low n r g g' none p b k e = cc
in_span_bounds low n r g g' (some (s, h)) p b k e = ground (arith, k s h refl, mod-lt s p)

span_case_bounds :
    (fuel low n r : ℕ) (g g' : Prng)
    → 0 < n
    → low + n < 2 ^ 32
    → span_case fuel low n g ≡ some (r, g')
    → (low ≤ r) × (r < low + n) × (g'.seed ≡ g.seed)
unfolding span_case
span_case_bounds fuel low n r g g' p b e = elim (Bool-cases (residue n == 0)) [
  | inl t ↦
      in_span_bounds low n r g g' _ p b (λ s h k. ground (arith, (next_u64_lem g).1)) (rw t at e)
  | inr t ↦
      in_span_bounds low n r g g' _ p b (λ s h k. next_accepted-seed fuel (threshold n) s g h k)
        (rw t at e)
]

-- Whatever `next_range` returns lies in [min, max), and the seed is kept.
pub next_range_bounds :
    (fuel low high r : ℕ) (g g' : Prng)
    → low < high
    → high < 2 ^ 32
    → next_range fuel low high g ≡ some (r, g')
    → (low ≤ r) × (r < high) × (g'.seed ≡ g.seed)
next_range_bounds fuel low high r g g' lt b e = omega (
  arith,
  span_case_bounds fuel low (high - low) r g g' (omega arith) (omega arith)
      (sym (next_range-span fuel low high g lt b) ∙ e),
)
