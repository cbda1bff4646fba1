-- ===== src/DepthSort/Positions.antt =====
-- Where a pass of the radix sort (src/laige-render/include/laige/render/depth_sort.h) puts its records.
use laige_cpp.Prelude.{
  ℕ, zero, suc, ◌+◌, ◌≤◌, ◌<◌, ◌≡◌, ◌⊎◌, inl, inr, refl, subst, arith, ltb, ◌==◌, Bool-cases, ==→eq,
  ==_self, if◌then◌else◌,
}

-- The number of the first `n` whose digit is below `b`, and is `b`.
abbrev pub count_below : (ℕ → ℕ) → ℕ → ℕ → ℕ
count_below digits zero b = 0
count_below digits (suc n) b = count_below digits n b + (if ltb (digits n) b then 1 else 0)

abbrev pub count_equal : (ℕ → ℕ) → ℕ → ℕ → ℕ
count_equal digits zero b = 0
count_equal digits (suc n) b = count_equal digits n b + (if digits n == b then 1 else 0)

module _ (digits : ℕ → ℕ) where
  pub count_below-suc :
      (n b : ℕ) → count_below digits n (suc b) ≡ count_below digits n b + count_equal digits n b
  count_below-suc zero b = refl
  count_below-suc (suc n) b = ground (arith, count_below-suc n b)

  pub count_below-le : (n b : ℕ) → count_below digits n b ≤ n
  count_below-le zero b = omega arith
  count_below-le (suc n) b = ground (arith, count_below-le n b)

  pub count_below-zero : (n : ℕ) → count_below digits n 0 ≡ 0
  count_below-zero zero = refl
  count_below-zero (suc n) = ground (arith, count_below-zero n)

  count_below_mono : (n b c : ℕ) → b ≤ c → count_below digits n b ≤ count_below digits n c
  count_below_mono zero b c l = omega arith
  count_below_mono (suc n) b c l = ground (arith, count_below_mono n b c l)

  pub count_equal-le : (n b : ℕ) → count_equal digits n b ≤ n
  count_equal-le zero b = omega arith
  count_equal-le (suc n) b = ground (arith, count_equal-le n b)

  -- One more is counted before a later index.
  count_equal-lt :
      (i n : ℕ) → i < n → count_equal digits i (digits i) < count_equal digits n (digits i)
  count_equal-lt i zero l = absurd (omega arith)
  count_equal-lt i (suc n) l = elim (Bool-cases (i == n)) [
    | inl t ↦
        let e = ==→eq i n t in
        subst (λ m. count_equal digits i (digits i) < count_equal digits (suc m) (digits i)) e
          (rw (==_self (digits i)) (omega arith))
    | inr t ↦ ground (arith, count_equal-lt i n (ground arith))
  ]

  -- The place of record `i` among `n`.
  abbrev pub position_of : ℕ → ℕ → ℕ
  position_of n i = count_below digits n (digits i) + count_equal digits i (digits i)

  pub position_of_bound : (n i : ℕ) → i < n → position_of n i < n
  position_of_bound n i l =
      omega (
        arith,
        count_equal-lt i n l,
        count_below-suc n (digits i),
        count_below-le n (suc (digits i)),
      )

  -- Record `i` stands before record `j`: by the digit, and then by the index.
  abbrev pub Before : ℕ → ℕ → Type 0
  Before i j = (digits i < digits j) ⊎ ((digits i ≡ digits j) × (i < j))

  pub Before-position_of : (n i j : ℕ) → i < n → Before i j → position_of n i < position_of n j
  Before-position_of n i j l (inl less) = omega (
    arith,
    count_equal-lt i n l,
    count_below-suc n (digits i),
    count_below_mono n (suc (digits i)) (digits j) less,
  )
  Before-position_of n i j l (inr (same, first)) =
      subst (λ d. position_of n i < count_below digits n d + count_equal digits j d) same
        (omega (arith, count_equal-lt i j first))

  pub Before-total : (i j : ℕ) → (i ≡ j) ⊎ (Before i j ⊎ Before j i)
  Before-total i j = ground arith
