-- ===== src/DepthSort/Passes.antt =====
-- What the loops of a pass of the radix sort (src/laige-render/include/laige/render/depth_sort.h) compute.
use laige_cpp.Prelude.{
  ℕ, zero, suc, ◌+◌, ◌%◌, ◌^◌, ◌≤◌, ◌<◌, ◌≡◌, inl, inr, refl, sym, ap, subst, ◌∙◌, arith, true,
  false, ltb, ◌==◌, Bool-cases, ==→eq, ==_self, if◌then◌else◌, update,
}
use laige_cpp.Pools.Words.{inc32}
use laige_cpp.DepthSort.{
  DepthSort, depth_sort_buckets, digit, count_digits, sum_counts, scatter_one, scatter, bases,
  run_pass,
}
use laige_cpp.DepthSort.Positions.{
  count_below, count_equal, count_below-suc, count_below-zero, count_below-le, count_equal-le,
  position_of, position_of_bound, Before-position_of, Before-total,
}

-- The first loop counts the digits of the records it passes.
count_digits-count_equal :
    (left i : ℕ) (digits counts : ℕ → ℕ) (b : ℕ)
    → counts b ≡ count_equal digits i b
    → i + left < 2 ^ 32
    → count_digits left i digits counts b ≡ count_equal digits (i + left) b
unfolding count_digits
count_digits-count_equal zero i digits counts b e l =
    e ∙ ap (λ (m : ℕ). count_equal digits m b) (omega arith)
count_digits-count_equal (suc left) i digits counts b e l =
    let one : i + 1 ≡ suc i = omega arith in
    let all : i + 1 + left ≡ i + suc left = omega arith in
    count_digits-count_equal left (i + 1) digits
      (update counts (digits i) (inc32 (counts (digits i)))) b
      (rw one (elim (Bool-cases (digits i == b)) [
        | inl t ↦
            let same = ==→eq (digits i) b t in
            rw (t, same, e) (omega (arith, l, count_equal-le digits i b))
        | inr t ↦ rw t (omega (arith, e))
      ]))
      (omega arith)
    ∙ ap (λ (m : ℕ). count_equal digits m b) all

-- The second loop sums the counts below.
sum_counts-before :
    (left b sum : ℕ) (counts : ℕ → ℕ) (c : ℕ) → c < b → sum_counts left b sum counts c ≡ counts c
unfolding sum_counts
sum_counts-before zero b sum counts c l = refl
sum_counts-before (suc left) b sum counts c l =
    sum_counts-before left (b + 1) ((sum + counts b) % 2 ^ 32) (update counts b sum) c (omega arith)
    ∙ ground arith

sum_counts-count_below :
    (left b : ℕ) (digits : ℕ → ℕ) (n sum : ℕ) (counts : ℕ → ℕ) (c : ℕ)
    → n < 2 ^ 32
    → sum ≡ count_below digits n b
    → ((d : ℕ) → b ≤ d → d < b + left → counts d ≡ count_equal digits n d)
    → b ≤ c
    → c < b + left
    → sum_counts left b sum counts c ≡ count_below digits n c
unfolding sum_counts
sum_counts-count_below zero b digits n sum counts c small e h l m = absurd (omega arith)
sum_counts-count_below (suc left) b digits n sum counts c small e h l m =
    elim (Bool-cases (b == c)) [
      | inl t ↦
          let same = ==→eq b c t in
          sum_counts-before left (b + 1) ((sum + counts b) % 2 ^ 32) (update counts b sum) c
            (omega (arith, same))
          ∙ rw t (e ∙ ap (count_below digits n) same)
      | inr t ↦
          sum_counts-count_below left (b + 1) digits n ((sum + counts b) % 2 ^ 32)
            (update counts b sum) c small
            (let next : b + 1 ≡ suc b = omega arith in
              rw next (
                omega (
                  arith,
                  e,
                  h b (omega arith) (omega arith),
                  count_below-suc digits n b,
                  count_below-le digits n (suc b),
                  small,
                )))
            (λ d p q.
              let far : (b == d) ≡ false = ground arith in rw far (h d (omega arith) (omega arith)))
            (ground arith) (omega arith)
    ]

-- The bases are the numbers of records whose digit is below.
bases-count_below :
    (n : ℕ) (digits counts : ℕ → ℕ) (b : ℕ)
    → n < 2 ^ 32
    → b < depth_sort_buckets
    → bases n digits counts b ≡ count_below digits n b
bases-count_below n digits counts b small l =
    let start = λ (d : ℕ). if ltb d depth_sort_buckets then 0 else counts d in
    sum_counts-count_below depth_sort_buckets 0 digits n 0 (count_digits n 0 digits start) b small
      (sym (count_below-zero digits n))
      (λ d p q.
        let low : ltb d depth_sort_buckets ≡ true = ground arith in
        count_digits-count_equal n 0 digits start d (rw low refl) (omega arith)
        ∙ ap (λ (m : ℕ). count_equal digits m d) (omega arith))
      (omega arith) (omega arith)

-- How the buffers stand after the first `i` records of `n` are placed.
record Scattered (shift n : ℕ) (keys idx : ℕ → ℕ) (i : ℕ) (st : DepthSort) : Type 0 where
  same_keys : st.cur_keys ≡ keys
  same_idx : st.cur_idx ≡ idx
  next :
      (b : ℕ)
      → b < depth_sort_buckets
      → st.counts b
        ≡ count_below (λ j. digit shift (keys j)) n b + count_equal (λ j. digit shift (keys j)) i b
  placed :
      (j : ℕ)
      → j < i
      → (st.aux_keys (position_of (λ j. digit shift (keys j)) n j) ≡ keys j)
        × (st.aux_idx (position_of (λ j. digit shift (keys j)) n j) ≡ idx j)

module _ (shift n : ℕ) (keys idx : ℕ → ℕ) (small : n < 2 ^ 32) where
  abbrev digits : ℕ → ℕ
  digits j = digit shift (keys j)

  position_of-apart :
      (j i : ℕ) → j < i → i < n → (position_of digits n i == position_of digits n j) ≡ false
  position_of-apart j i l m = elim (Before-total digits i j) [
    | inl e ↦ absurd (omega (arith, e))
    | inr (inl b) ↦ ground (arith, Before-position_of digits n i j m b)
    | inr (inr b) ↦ ground (arith, Before-position_of digits n j i (omega arith) b)
  ]

  scatter_one-Scattered :
      (i : ℕ) (st : DepthSort)
      → i < n
      → Scattered shift n keys idx i st
      → Scattered shift n keys idx (suc i) (scatter_one shift i st)
  scatter_one-Scattered i st l v =
      let low : digits i < depth_sort_buckets = omega arith in
      let here : st.counts (digits i) ≡ position_of digits n i = v.next (digits i) low in
      let same = v.same_keys in
      let same_idx = v.same_idx in
      record {
        same_keys = v.same_keys;
        same_idx = v.same_idx;
        next = λ b m. rw same (elim (Bool-cases (digits i == b)) [
          | inl t ↦
              let e = ==→eq (digits i) b t in
              rw t (
                omega
                  (arith, v.next b m, ap st.counts e, here, position_of_bound digits n i l, small))
          | inr t ↦ rw t (omega (arith, v.next b m))
        ]);
        placed = λ j m. elim (Bool-cases (j == i)) [
          | inl t ↦
              rw (==→eq j i t, same, same_idx, here, ==_self (position_of digits n i)) (refl, refl)
          | inr t ↦
              let before : j < i = ground arith in
              rw (same, here, position_of-apart j i before l) (v.placed j before)
        ];
      }

  scatter-Scattered :
      (left i : ℕ) (st : DepthSort)
      → i + left ≡ n
      → Scattered shift n keys idx i st
      → Scattered shift n keys idx n (scatter left i shift st)
  unfolding scatter
  scatter-Scattered zero i st e v =
      let all : i ≡ n = omega (arith, e) in subst (λ m. Scattered shift n keys idx m st) all v
  scatter-Scattered (suc left) i st e v =
      let one : suc i ≡ i + 1 = omega arith in
      scatter-Scattered left (i + 1) (scatter_one shift i st) (omega (arith, e)) (
        subst (λ m. Scattered shift n keys idx m (scatter_one shift i st)) one
          (scatter_one-Scattered i st (omega (arith, e)) v))

-- A pass puts each record at its place.
pub run_pass-position_of :
    (shift n : ℕ) (st : DepthSort) (i : ℕ)
    → n < 2 ^ 32
    → i < n
    → ((run_pass shift n st).cur_keys (position_of (λ j. digit shift (st.cur_keys j)) n i)
        ≡ st.cur_keys i)
      × ((run_pass shift n st).cur_idx (position_of (λ j. digit shift (st.cur_keys j)) n i)
          ≡ st.cur_idx i)
unfolding run_pass
run_pass-position_of shift n st i small l =
    let ds = λ (j : ℕ). digit shift (st.cur_keys j) in
    (scatter-Scattered shift n st.cur_keys st.cur_idx small n 0
        (record st { counts = bases n ds st.counts }) (omega arith)
        record {
          same_keys = refl;
          same_idx = refl;
          next = λ b m. bases-count_below n ds st.counts b small m ∙ omega arith;
          placed = λ j m. absurd (omega arith);
        }).placed
      i l
