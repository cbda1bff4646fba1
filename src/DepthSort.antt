-- ===== src/DepthSort.antt =====
-- src/laige-render/include/laige/render/depth_sort.h: the radix sort of 32-bit keys, least digit first. The four
-- buffers are functions of the index; a method returns its status with the next state.
pub mod Positions
pub mod Passes
pub mod Sorted
pub mod Whole
mod Tests
use laige_cpp.Prelude.{
  ℕ, zero, suc, ◌+◌, ◌*◌, ◌/◌, ◌%◌, ◌^◌, ltb, Bool, ◌||◌, if◌then◌else◌, update,
}
use laige_cpp.Result.{
  invalid_argument, budget_exhausted, Result, success, failure, Status, done, failed,
}
use laige_cpp.Pools.Words.{inc32}

-- Between two calls, the current buffers hold the last result, and `counts` are of no account.
pub record DepthSort : Type 0 where
  pub capacity : ℕ
  pub count : ℕ
  pub cur_keys : ℕ → ℕ
  pub cur_idx : ℕ → ℕ
  pub aux_keys : ℕ → ℕ
  pub aux_idx : ℕ → ℕ
  pub counts : ℕ → ℕ

abbrev pub depth_sort_digit_bits : ℕ
depth_sort_digit_bits = 8

abbrev pub depth_sort_passes : ℕ
depth_sort_passes = 4

abbrev pub depth_sort_buckets : ℕ
depth_sort_buckets = 256

abbrev pub depth_sort_max_capacity : ℕ
depth_sort_max_capacity = 0xFFFFFFFF

abbrev pub empty_sort : ℕ → DepthSort
empty_sort capacity = record {
  capacity = capacity;
  count = 0;
  cur_keys = λ i. 0;
  cur_idx = λ i. 0;
  aux_keys = λ i. 0;
  aux_idx = λ i. 0;
  counts = λ b. 0;
}

unfoldable pub create : ℕ → Result DepthSort
create capacity =
    if ltb capacity 1 || ltb depth_sort_max_capacity capacity
    then failure invalid_argument
    else success (empty_sort capacity)

-- The digit of a key at a shift.
abbrev pub digit : ℕ → ℕ → ℕ
digit shift key = key / 2 ^ shift % depth_sort_buckets

-- The loops are entered at index `i` with `left` rounds to go.
unfoldable pub load_records : ℕ → ℕ → (ℕ → ℕ) → DepthSort → DepthSort
load_records zero i keys st = st
load_records (suc left) i keys st = load_records left (i + 1) keys (record st {
  cur_keys = update st.cur_keys i (keys i);
  cur_idx = update st.cur_idx i (i % 2 ^ 32);
})

unfoldable pub count_digits : ℕ → ℕ → (ℕ → ℕ) → (ℕ → ℕ) → ℕ → ℕ
count_digits zero i digits counts = counts
count_digits (suc left) i digits counts =
    count_digits left (i + 1) digits (update counts (digits i) (inc32 (counts (digits i))))

unfoldable pub sum_counts : ℕ → ℕ → ℕ → (ℕ → ℕ) → ℕ → ℕ
sum_counts zero b sum counts = counts
sum_counts (suc left) b sum counts =
    sum_counts left (b + 1) ((sum + counts b) % 2 ^ 32) (update counts b sum)

-- A record goes to the next place of its digit.
abbrev pub scatter_one : ℕ → ℕ → DepthSort → DepthSort
scatter_one shift i st = record st {
  counts =
      update st.counts (digit shift (st.cur_keys i))
        (inc32 (st.counts (digit shift (st.cur_keys i))));
  aux_keys = update st.aux_keys (st.counts (digit shift (st.cur_keys i))) (st.cur_keys i);
  aux_idx = update st.aux_idx (st.counts (digit shift (st.cur_keys i))) (st.cur_idx i);
}

unfoldable pub scatter : ℕ → ℕ → ℕ → DepthSort → DepthSort
scatter zero i shift st = st
scatter (suc left) i shift st = scatter left (i + 1) shift (scatter_one shift i st)

abbrev pub swap_buffers : DepthSort → DepthSort
swap_buffers st = record st {
  cur_keys = st.aux_keys;
  cur_idx = st.aux_idx;
  aux_keys = st.cur_keys;
  aux_idx = st.cur_idx;
}

-- The counts of the digits, and the sum of those below each.
abbrev pub bases : ℕ → (ℕ → ℕ) → (ℕ → ℕ) → ℕ → ℕ
bases n digits counts =
    sum_counts depth_sort_buckets 0 0
      (count_digits n 0 digits (λ b. if ltb b depth_sort_buckets then 0 else counts b))

unfoldable pub run_pass : ℕ → ℕ → DepthSort → DepthSort
run_pass shift n st = swap_buffers (
    scatter n 0 shift (record st { counts = bases n (λ i. digit shift (st.cur_keys i)) st.counts }))

unfoldable pub run_passes : ℕ → ℕ → ℕ → DepthSort → DepthSort
run_passes zero pass n st = st
run_passes (suc left) pass n st =
    run_passes left (pass + 1) n (run_pass (pass * depth_sort_digit_bits) n st)

-- The first `n` of `keys` are the span.
unfoldable pub sort : ℕ → (ℕ → ℕ) → DepthSort → Status × DepthSort
sort n keys st =
    if ltb st.capacity n
    then (failed budget_exhausted, st)
    else (done, record (run_passes depth_sort_passes 0 n (load_records n 0 keys st)) { count = n })

-- The move: what the target holds, and what the source is left with.
unfoldable pub move : DepthSort → DepthSort × DepthSort
move st = (st, record st { capacity = 0; count = 0 })
