-- ===== src/DepthSort/Whole.antt =====
-- All passes of `DepthSort::sort` (src/laige-render/include/laige/render/depth_sort.h).
use laige_cpp.Prelude.{
  ℕ, zero, suc, ◌+◌, ◌*◌, ◌%◌, ◌^◌, ◌≤◌, ◌<◌, ◌≡◌, ◌⊎◌, inl, inr, refl, sym, ap, subst, ◌∙◌, arith,
  false, ltb, ◌==◌, Bool-cases, ==→eq, update,
}
use laige_cpp.Result.{budget_exhausted, done, failed}
use laige_cpp.DepthSort.{
  DepthSort, depth_sort_passes, depth_sort_digit_bits, depth_sort_max_capacity, load_records,
  scatter_one, scatter, run_pass, run_passes, sort,
}
use laige_cpp.DepthSort.Sorted.{IsSortedBelow, run_pass-IsSortedBelow}

-- The records of the input, in the order of their keys, and of their indices where the keys are equal.
pub record IsDepthSorted (n : ℕ) (keys : ℕ → ℕ) (st : DepthSort) : Type 0 where
  pub of_input : (k : ℕ) → k < n → (st.cur_idx k < n) × (st.cur_keys k ≡ keys (st.cur_idx k))
  pub ascending :
      (j k : ℕ)
      → j < k
      → k < n
      → (st.cur_keys j < st.cur_keys k)
        ⊎ ((st.cur_keys j ≡ st.cur_keys k) × (st.cur_idx j < st.cur_idx k))

load_records-before :
    (left i : ℕ) (keys : ℕ → ℕ) (st : DepthSort) (k : ℕ)
    → k < i
    → ((load_records left i keys st).cur_keys k ≡ st.cur_keys k)
      × ((load_records left i keys st).cur_idx k ≡ st.cur_idx k)
unfolding load_records
load_records-before zero i keys st k l = (refl, refl)
load_records-before (suc left) i keys st k l =
    let far : (i == k) ≡ false = ground arith in
    let rest =
      load_records-before left (i + 1) keys
        (record st {
          cur_keys = update st.cur_keys i (keys i);
          cur_idx = update st.cur_idx i (i % 2 ^ 32);
        })
        k (omega arith) in
    (rest.0 ∙ rw far refl, rest.1 ∙ rw far refl)

load_records-loaded :
    (left i : ℕ) (keys : ℕ → ℕ) (st : DepthSort) (k : ℕ)
    → i + left < 2 ^ 32
    → i ≤ k
    → k < i + left
    → ((load_records left i keys st).cur_keys k ≡ keys k)
      × ((load_records left i keys st).cur_idx k ≡ k)
unfolding load_records
load_records-loaded zero i keys st k small l m = absurd (omega arith)
load_records-loaded (suc left) i keys st k small l m =
    let here : DepthSort = record st {
      cur_keys = update st.cur_keys i (keys i);
      cur_idx = update st.cur_idx i (i % 2 ^ 32);
    } in
    elim (Bool-cases (i == k)) [
      | inl t ↦
          let e = ==→eq i k t in
          let kept = load_records-before left (i + 1) keys here k (omega (arith, e)) in
          (kept.0 ∙ rw t (ap keys e), kept.1 ∙ rw t (omega (arith, e, small)))
      | inr t ↦
          load_records-loaded left (i + 1) keys here k (omega arith) (ground arith) (omega arith)
    ]

module _ (n : ℕ) (keys : ℕ → ℕ) (small : n < 2 ^ 32) where
  load_records-IsSortedBelow :
      (st : DepthSort)
      → IsSortedBelow 0 n keys
          (load_records n 0 keys st).cur_keys
          (load_records n 0 keys st).cur_idx
  load_records-IsSortedBelow st =
      let loaded = λ (k : ℕ) (l : k < n).
        load_records-loaded n 0 keys st k (omega arith) (omega arith) (omega arith) in
      record {
        of_input = λ k l. let at = loaded k l in (omega (arith, at.1), at.0 ∙ ap keys (sym at.1));
        ascending =
            λ j k l m. inr (omega arith, omega (arith, (loaded j (omega arith)).1, (loaded k m).1));
      }

  run_passes-IsSortedBelow :
      (left pass : ℕ) (st : DepthSort)
      → IsSortedBelow (pass * depth_sort_digit_bits) n keys st.cur_keys st.cur_idx
      → IsSortedBelow
          ((pass + left) * depth_sort_digit_bits)
          n
          keys
          (run_passes left pass n st).cur_keys
          (run_passes left pass n st).cur_idx
  unfolding run_passes
  run_passes-IsSortedBelow zero pass st v =
      subst (λ s. IsSortedBelow s n keys st.cur_keys st.cur_idx) (omega arith) v
  run_passes-IsSortedBelow (suc left) pass st v =
      let eight : pass * depth_sort_digit_bits + 8 ≡ (pass + 1) * depth_sort_digit_bits =
        omega arith in
      let more : (pass + 1 + left) * depth_sort_digit_bits
          ≡ (pass + suc left) * depth_sort_digit_bits =
        omega arith in
      let next = run_pass (pass * depth_sort_digit_bits) n st in
      subst
        (λ s.
          IsSortedBelow s n keys (run_passes left (pass + 1) n next).cur_keys
            (run_passes left (pass + 1) n next).cur_idx)
        more
        (run_passes-IsSortedBelow left (pass + 1) next (
          subst (λ s. IsSortedBelow s n keys next.cur_keys next.cur_idx) eight
            (run_pass-IsSortedBelow (pass * depth_sort_digit_bits) n keys st small v)))

load_records-capacity :
    (left i : ℕ) (keys : ℕ → ℕ) (st : DepthSort)
    → (load_records left i keys st).capacity ≡ st.capacity
unfolding load_records
load_records-capacity zero i keys st = refl
load_records-capacity (suc left) i keys st = load_records-capacity left (i + 1) keys _

scatter-capacity :
    (left i shift : ℕ) (st : DepthSort) → (scatter left i shift st).capacity ≡ st.capacity
unfolding scatter
scatter-capacity zero i shift st = refl
scatter-capacity (suc left) i shift st =
    scatter-capacity left (i + 1) shift (scatter_one shift i st)

run_pass-capacity : (shift n : ℕ) (st : DepthSort) → (run_pass shift n st).capacity ≡ st.capacity
unfolding run_pass
run_pass-capacity shift n st = scatter-capacity n 0 shift _

run_passes-capacity :
    (left pass n : ℕ) (st : DepthSort) → (run_passes left pass n st).capacity ≡ st.capacity
unfolding run_passes
run_passes-capacity zero pass n st = refl
run_passes-capacity (suc left) pass n st =
    run_passes-capacity left (pass + 1) n (run_pass (pass * depth_sort_digit_bits) n st)
    ∙ run_pass-capacity (pass * depth_sort_digit_bits) n st

-- A key of 32 bits is its low part.
IsSortedBelow-IsDepthSorted :
    (n : ℕ) (keys : ℕ → ℕ) (st : DepthSort)
    → ((k : ℕ) → k < n → keys k < 2 ^ 32)
    → IsSortedBelow 32 n keys st.cur_keys st.cur_idx
    → IsDepthSorted n keys st
IsSortedBelow-IsDepthSorted n keys st words v = record {
  of_input = v.of_input;
  ascending = λ j k l m.
      let first = whole j (omega arith) in
      let second = whole k m in rw (sym first, sym second) (v.ascending j k l m);
}
  where
    whole : (k : ℕ) → k < n → st.cur_keys k % 2 ^ 32 ≡ st.cur_keys k
    whole k l = let at = v.of_input k l in omega (arith, at.1, words (st.cur_idx k) at.0)

-- On 32-bit keys, a span that fits the capacity is sorted by key, and by input position where keys are
-- equal, the state then holds that many records under the same capacity, and a longer span is refused
-- and changes nothing.
pub sort_lem :
    (n : ℕ) (keys : ℕ → ℕ) (st : DepthSort)
    → st.capacity ≤ depth_sort_max_capacity
    → ((k : ℕ) → k < n → keys k < 2 ^ 32)
    → (n ≤ st.capacity
        → ((sort n keys st).0 ≡ done)
          × ((sort n keys st).1.count ≡ n)
          × ((sort n keys st).1.capacity ≡ st.capacity)
          × IsDepthSorted n keys (sort n keys st).1)
      × (st.capacity < n → sort n keys st ≡ (failed budget_exhausted, st))
unfolding sort
sort_lem n keys st bound words = elim (Bool-cases (ltb st.capacity n)) [
  | inl t ↦ rw t (λ fits. absurd (ground arith), λ over. refl)
  | inr t ↦
      let small : n < 2 ^ 32 = ground arith in
      let loaded = load_records n 0 keys st in
      let v =
        run_passes-IsSortedBelow n keys small depth_sort_passes 0 loaded
          (load_records-IsSortedBelow n keys small st) in
      rw t (
        λ fits. (
          refl,
          refl,
          run_passes-capacity depth_sort_passes 0 n loaded ∙ load_records-capacity n 0 keys st,
          IsSortedBelow-IsDepthSorted n keys _ words v,
        ),
        λ over. absurd (ground arith),
      )
]
