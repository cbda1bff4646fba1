-- ===== src/Prng/Uniform.antt =====
-- The rejection of `next_range` (src/laige-core/include/laige/prng.h) leaves every value as many draws.
use native.Mathlib.Nat.{
  add-zero, add-suc, mul-add-mod_self_right, mod-eq_of_lt, zero-mul, suc-mul, le_refl,
}
use laige_cpp.Prelude.{
  ℕ, zero, suc, ◌+◌, ◌-◌, ◌*◌, ◌/◌, ◌%◌, ◌^◌, ◌≤◌, ◌<◌, ◌≡◌, refl, sym, subst, ap, ap₂, ◌∙◌, arith,
  Bool, true, false, ◌&&◌, Bool-cases, ltb, ◌==◌, ==→eq, if◌then◌else◌, Option, none, some, le→ltb,
  lt→ltb, ltb→lt, ltb→le, inl, inr,
}
use laige_cpp.Prng.{Prng, next_u64, next_range, next_accepted, in_span, residue, threshold}
use laige_cpp.Prng.Stream.{after_draws}
use laige_cpp.Prng.Range.{draw, threshold_lem, span_case, next_range-span, span_case_first}

-- How many draws below `m` leave the remainder `k` by `n`.
unfoldable hits : ℕ → ℕ → ℕ → ℕ
hits n k zero = 0
hits n k (suc m) = hits n k m + (if m % n == k then 1 else 0)

-- A run of draws from a multiple of `n` on.
hits_run :
    (n k q r : ℕ)
    → k < n
    → r ≤ n
    → hits n k (q * n + r) ≡ hits n k (q * n) + (if ltb k r then 1 else 0)
unfolding hits
hits_run n k q zero kn h =
    ap (hits n k) (add-zero (q * n)) ∙ ground (arith, add-zero (hits n k (q * n)))
hits_run n k q (suc r) kn h =
    ap (hits n k) (add-suc (q * n) r)
    ∙ ground
        (arith, hits_run n k q r kn (omega arith), mul-add-mod_self_right q n r, mod-eq_of_lt h)

hits_multiple : (n k q : ℕ) → k < n → hits n k (q * n) ≡ q
unfolding hits
hits_multiple n k zero kn = ap (hits n k) (zero-mul n)
hits_multiple n k (suc q) kn =
    ap (hits n k) (suc-mul q n)
    ∙ hits_run n k q n kn (le_refl n)
    ∙ ground (arith, hits_multiple n k q kn)

-- How many of the generators below `m` make one round of `next_range` return the value.
abbrev pub is_answer : ℕ → Option (ℕ × Prng) → Bool
is_answer v none = false
is_answer v (some (r, g)) = r == v

unfoldable pub answers : (ℕ → Prng) → ℕ → ℕ → ℕ → ℕ → ℕ
answers gen low high v zero = 0
answers gen low high v (suc m) =
    answers gen low high v m + (if is_answer v (next_range 1 low high (gen m)) then 1 else 0)

-- The first answer, or the second where there is none.
abbrev pub or_else : Option (ℕ × Prng) → Option (ℕ × Prng) → Option (ℕ × Prng)
or_else none y = y
or_else (some x) y = some x

-- One round accepts the draws below the threshold and no other.
module _ (low n : ℕ) (pos : 0 < n) (word : low + n < 2 ^ 32) where
  span_case-rejects :
      (g : Prng) → draw 0 g < 2 ^ 64 → threshold n ≤ draw 0 g → span_case 1 low n g ≡ none
  unfolding span_case next_accepted in_span after_draws
  span_case-rejects g b l = elim (Bool-cases (residue n == 0)) [
    | inl e ↦ absurd (omega (arith, ==→eq (residue n) 0 e, threshold_lem n pos (omega arith)))
    | inr e ↦ rw (e, le→ltb (next_u64 g).0 (threshold n) l) refl
  ]

  span_case-rounds :
      (fuel : ℕ) (g : Prng)
      → span_case (suc fuel) low n g
        ≡ or_else (span_case 1 low n g) (span_case fuel low n (next_u64 g).1)
  unfolding span_case next_accepted in_span
  span_case-rounds fuel g = elim (Bool-cases (residue n == 0)) [
    | inl e ↦ rw e refl
    | inr e ↦ elim (Bool-cases (ltb (next_u64 g).0 (threshold n))) [
      | inl t ↦ rw (e, t) refl
      | inr t ↦ rw (e, t) refl
    ]
  ]

  round_answer :
      (k m : ℕ) (g : Prng)
      → m < 2 ^ 64
      → draw 0 g ≡ m
      → is_answer (low + k) (span_case 1 low n g) ≡ (ltb m (threshold n) && m % n == k)
  unfolding after_draws
  round_answer k m g b e = elim (Bool-cases (ltb m (threshold n))) [
    | inl t ↦
        rw
          (
            t,
            span_case_first 1 0 low n g pos word (omega arith)
                (subst (λ d. d < threshold n) (sym e) (ltb→lt m (threshold n) t))
                (λ j l. absurd (omega arith)),
            e,
          )
          (ground arith)
    | inr t ↦ rw (
      t,
      span_case-rejects g (omega arith)
          (subst (λ d. threshold n ≤ d) (sym e) (ltb→le m (threshold n) t)),
    )
  ]

  next_range-span_case :
      (fuel : ℕ) (g : Prng) → next_range fuel low (low + n) g ≡ span_case fuel low n g
  next_range-span_case fuel g =
      next_range-span fuel low (low + n) g (omega arith) word
      ∙ ap (λ (m : ℕ). span_case fuel low m g) (omega arith)

-- A generator for every number, which draws that number next.
module _ (gen : ℕ → Prng) (drawn : (r : ℕ) → r < 2 ^ 64 → (next_u64 (gen r)).0 ≡ r) where
  module _ (low n k : ℕ) (pos : 0 < n) (word : low + n < 2 ^ 32) where
    answer_of :
        (m : ℕ)
        → m < 2 ^ 64
        → is_answer (low + k) (next_range 1 low (low + n) (gen m))
          ≡ (ltb m (threshold n) && m % n == k)
    unfolding after_draws
    answer_of m b =
        ap (is_answer (low + k)) (next_range-span_case low n pos word 1 (gen m))
        ∙ round_answer low n pos word k m (gen m) b (drawn m b)

    answers-below :
        (m : ℕ) → m ≤ threshold n → m ≤ 2 ^ 64 → answers gen low (low + n) (low + k) m ≡ hits n k m
    unfolding answers hits
    answers-below zero l b = refl
    answers-below (suc m) l b =
        let t : ltb m (threshold n) ≡ true = lt→ltb m (threshold n) (omega arith) in
        rw (answers-below m (omega arith) (omega arith), answer_of m (omega arith), t) refl

    answers-above :
        (j : ℕ)
        → threshold n + j ≤ 2 ^ 64
        → answers gen low (low + n) (low + k) (threshold n + j)
          ≡ answers gen low (low + n) (low + k) (threshold n)
    unfolding answers
    answers-above zero b = ap (answers gen low (low + n) (low + k)) (add-zero (threshold n))
    answers-above (suc j) b =
        let t : ltb (threshold n + j) (threshold n) ≡ false =
          le→ltb (threshold n + j) (threshold n) (omega arith) in
        ap (answers gen low (low + n) (low + k)) (add-suc (threshold n) j)
        ∙ rw (answers-above j (omega arith), answer_of (threshold n + j) (omega arith), t)
            (add-zero _)

    answers_all : k < n → answers gen low (low + n) (low + k) (2 ^ 64) ≡ 2 ^ 64 / n
    answers_all small =
        let (multiple, rest) = threshold_lem n pos (omega arith) in
        ap (answers gen low (low + n) (low + k)) (sym rest)
        ∙ answers-above (residue n) (omega arith)
        ∙ answers-below (threshold n) (omega arith) (omega arith)
        ∙ ap (hits n k) multiple
        ∙ hits_multiple n k (2 ^ 64 / n) small

  -- For min < max below 2 ^ 32 and generators that draw every 64-bit number next, one each, exactly 2 ^ 64
  -- divided by max - min of them make one round of `next_range` return any given value of
  -- [min, max); and from every generator, more rounds return what the first returns or else, where it
  -- rejects, what the others return after that draw.
  pub next_range_uniform :
      (low high v fuel : ℕ) (g : Prng)
      → low ≤ v
      → v < high
      → high < 2 ^ 32
      → (answers gen low high v (2 ^ 64) ≡ 2 ^ 64 / (high - low))
        × (next_range (suc fuel) low high g
            ≡ or_else (next_range 1 low high g) (next_range fuel low high (next_u64 g).1))
  next_range_uniform low high v fuel g lv vh word =
      let top : low + (high - low) ≡ high = omega arith in
      let value : low + (v - low) ≡ v = omega arith in
      let span : low + (high - low) < 2 ^ 32 = omega arith in
      let is_span : (f : ℕ) (h : Prng) → next_range f low high h ≡ span_case f low (high - low) h =
        λ f h. next_range-span f low high h (omega arith) word in
      (
        ap₂ (λ (h w : ℕ). answers gen low h w (2 ^ 64)) (sym top) (sym value)
            ∙ answers_all low (high - low) (v - low) (omega arith) span (omega arith),
        rw (is_span (suc fuel) g, is_span 1 g, is_span fuel (next_u64 g).1)
            (span_case-rounds low (high - low) (omega arith) span fuel g),
      )
