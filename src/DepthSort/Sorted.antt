-- ===== src/DepthSort/Sorted.antt =====
-- What `DepthSort::sort` (src/laige-render/include/laige/render/depth_sort.h) returns.
use native.Mathlib.Nat.{
  div-add-mod', mod-lt, one-le-pow, mul-le-mul_right, pow-succ', add-mul-mod_self_right,
  mod-eq_of_lt,
}
use laige_cpp.Prelude.{
  ℕ, zero, suc, ◌+◌, ◌*◌, ◌/◌, ◌%◌, ◌^◌, ◌≤◌, ◌<◌, ◌≡◌, ◌⊎◌, inl, inr, refl, ap, ◌∙◌, arith, true,
  false, update,
}
use laige_cpp.Prelude.Marks.{
  live_count, live_count-update, live_count-none, live_count_ext, live_count-full, placed_in,
  placed_in-position, position,
}
use laige_cpp.DepthSort.{DepthSort, digit, run_pass}
use laige_cpp.DepthSort.Positions.{
  position_of, position_of_bound, Before, Before-position_of, Before-total,
}
use laige_cpp.DepthSort.Passes.{run_pass-position_of}

-- Every place is taken: `n` different places below `n` are all of them.
module _ (digits : ℕ → ℕ) (n : ℕ) where
  position_of-fresh :
      (k i : ℕ)
      → k ≤ i
      → i < n
      → placed_in k (position_of digits n) (position_of digits n i) ≡ false
  position_of-fresh zero i l m = refl
  position_of-fresh (suc k) i l m =
      let rest = position_of-fresh k i (omega arith) m in
      elim (Before-total digits k i) [
        | inl e ↦ absurd (omega (arith, e))
        | inr (inl b) ↦ rw rest (ground (arith, Before-position_of digits n k i (omega arith) b))
        | inr (inr b) ↦ rw rest (ground (arith, Before-position_of digits n i k m b))
      ]

  places_counted : (k : ℕ) → k ≤ n → live_count n (placed_in k (position_of digits n)) ≡ k
  places_counted zero l = live_count-none n _ (λ j m. refl)
  places_counted (suc k) l =
      let here = position_of digits n k in
      let before = placed_in k (position_of digits n) in
      let one_more = (live_count-update n before here true).0 (position_of_bound digits n k l) in
      live_count_ext n _ (update before here true) (λ j. ground arith)
      ∙ ground
          (arith, one_more, position_of-fresh k k (omega arith) l, places_counted k (omega arith))

  pub place_taken : (q : ℕ) → q < n → (i : ℕ) × ((i < n) × (position_of digits n i ≡ q))
  place_taken q l =
      let on =
        live_count-full n (placed_in n (position_of digits n)) (places_counted n (omega arith)) q
          l in
      (position n (position_of digits n) q, placed_in-position n (position_of digits n) q on)

-- The first `n` records, sorted by the key below `2 ^ shift` and then by the index.
pub record IsSortedBelow (shift n : ℕ) (keys cur_keys cur_idx : ℕ → ℕ) : Type 0 where
  pub of_input : (k : ℕ) → k < n → (cur_idx k < n) × (cur_keys k ≡ keys (cur_idx k))
  pub ascending :
      (j k : ℕ)
      → j < k
      → k < n
      → (cur_keys j % 2 ^ shift < cur_keys k % 2 ^ shift)
        ⊎ ((cur_keys j % 2 ^ shift ≡ cur_keys k % 2 ^ shift) × (cur_idx j < cur_idx k))

pow_digit : (shift : ℕ) → 2 ^ (shift + 8) ≡ 2 ^ shift * 256
pow_digit shift =
    ap (λ (k : ℕ). 2 ^ k) eight
    ∙ omega (
      arith,
      pow-succ' 2 shift,
      pow-succ' 2 (suc shift),
      pow-succ' 2 (suc (suc shift)),
      pow-succ' 2 (suc (suc (suc shift))),
      pow-succ' 2 (suc (suc (suc (suc shift)))),
      pow-succ' 2 (suc (suc (suc (suc (suc shift))))),
      pow-succ' 2 (suc (suc (suc (suc (suc (suc shift)))))),
      pow-succ' 2 (suc (suc (suc (suc (suc (suc (suc shift))))))),
    )
  where
    eight : shift + 8 ≡ suc (suc (suc (suc (suc (suc (suc (suc shift)))))))
    eight = omega arith

mod_parts : (m key : ℕ) → 1 ≤ m → key % (m * 256) ≡ key % m + key / m % 256 * m
mod_parts m key p =
    ap (λ (k : ℕ). k % (m * 256)) split
    ∙ add-mul-mod_self_right _ (key / m / 256) (m * 256)
    ∙ mod-eq_of_lt (omega (arith, mod-lt key p, mul-le-mul_right m low))
  where
    split : key ≡ key % m + key / m % 256 * m + key / m / 256 * (m * 256)
    split = omega (arith, div-add-mod' key m, ap (λ (q : ℕ). q * m) (div-add-mod' (key / m) 256))

    low : key / m % 256 ≤ 255
    low = omega arith

-- The low part with one more digit.
mod_digit : (shift key : ℕ) → key % 2 ^ (shift + 8) ≡ key % 2 ^ shift + digit shift key * 2 ^ shift
mod_digit shift key =
    rw (pow_digit shift) (mod_parts (2 ^ shift) key (one-le-pow shift 2 (omega arith)))

module _ (shift n : ℕ) (keys : ℕ → ℕ) (st : DepthSort) (small : n < 2 ^ 32)
    (v : IsSortedBelow shift n keys st.cur_keys st.cur_idx) where
  abbrev ds : ℕ → ℕ
  ds j = digit shift (st.cur_keys j)

  low : ℕ → ℕ
  low j = st.cur_keys j % 2 ^ (shift + 8)

  -- Records that stand apart by the digit, or by the rest, stand apart by both.
  Before-lexicographic :
      (i j : ℕ)
      → j < n
      → Before ds i j
      → (low i < low j) ⊎ ((low i ≡ low j) × (st.cur_idx i < st.cur_idx j))
  unfolding low
  Before-lexicographic i j l (inl less) =
      let room = one-le-pow shift 2 (omega arith) in
      inl (
        omega (
          arith,
          mod_digit shift (st.cur_keys i),
          mod_digit shift (st.cur_keys j),
          mod-lt (st.cur_keys i) room,
          mul-le-mul_right (2 ^ shift) less,
        ))
  Before-lexicographic i j l (inr (same, first)) =
      let top = ap (λ (d : ℕ). d * 2 ^ shift) same in
      elim (v.ascending i j first l) [
        | inl less ↦ inl (
            omega
              (arith, less, top, mod_digit shift (st.cur_keys i), mod_digit shift (st.cur_keys j)))
        | inr (equal, idx) ↦ inr (
          omega
              (arith, equal, top, mod_digit shift (st.cur_keys i), mod_digit shift (st.cur_keys j)),
          idx,
        )
      ]

  positions_ordered :
      (i j : ℕ) → i < n → j < n → position_of ds n i < position_of ds n j → Before ds i j
  positions_ordered i j l m less = elim (Before-total ds i j) [
    | inl e ↦ absurd (omega (arith, ap (position_of ds n) e, less))
    | inr (inl b) ↦ b
    | inr (inr b) ↦ absurd (omega (arith, Before-position_of ds n j i m b, less))
  ]

  -- A pass sorts by one more digit.
  pub run_pass-IsSortedBelow :
      IsSortedBelow (shift + 8) n keys (run_pass shift n st).cur_keys (run_pass shift n st).cur_idx
  unfolding low
  run_pass-IsSortedBelow = record {
    of_input = λ k l.
        let (i, (m, e)) = place_taken ds n k l in
        let moved = run_pass-position_of shift n st i small m in
        let from = v.of_input i m in rw (← e, moved.0, moved.1) from;
    ascending = λ q r l m.
        let (i, (p, e)) = place_taken ds n q (omega arith) in
        let (j, (o, f)) = place_taken ds n r m in
        let first = run_pass-position_of shift n st i small p in
        let second = run_pass-position_of shift n st j small o in
        rw (← e, ← f, first.0, first.1, second.0, second.1)
          (Before-lexicographic i j o (positions_ordered i j p o (omega (arith, e, f))));
  }
