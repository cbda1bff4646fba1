-- ===== src/DepthSort/Tests.antt =====
-- The theorem on the depth sort (src/laige-render/include/laige/render/depth_sort.h) at four keys.
use laige_cpp.Prelude.{ℕ, zero, suc, ◌^◌, ◌≤◌, ◌<◌, ◌≡◌, refl, arith}
use laige_cpp.Result.{budget_exhausted, done, failed}
use laige_cpp.DepthSort.{
  empty_sort, load_records, count_digits, sum_counts, scatter, run_pass, run_passes, sort,
}
use laige_cpp.DepthSort.Whole.{IsDepthSorted, sort_lem}

abbrev sample : ℕ → ℕ
sample zero = 70000
sample (suc zero) = 3
sample (suc (suc zero)) = 70000
sample (suc (suc (suc i))) = 0x80000000

sample_words : (k : ℕ) → k < 4 → sample k < 2 ^ 32
sample_words zero l = omega arith
sample_words (suc zero) l = omega arith
sample_words (suc (suc zero)) l = omega arith
sample_words (suc (suc (suc i))) l = omega arith

sort_lem_example :
    (4 ≤ 5
      → ((sort 4 sample (empty_sort 5)).0 ≡ done)
        × ((sort 4 sample (empty_sort 5)).1.count ≡ 4)
        × ((sort 4 sample (empty_sort 5)).1.capacity ≡ 5)
        × IsDepthSorted 4 sample (sort 4 sample (empty_sort 5)).1)
    × (5 < 4 → sort 4 sample (empty_sort 5) ≡ (failed budget_exhausted, empty_sort 5))
sort_lem_example = sort_lem 4 sample (empty_sort 5) (omega arith) sample_words

sorted_sample :
    ((sort 4 sample (empty_sort 5)).1.cur_idx 0 ≡ 1)
    × ((sort 4 sample (empty_sort 5)).1.cur_idx 1 ≡ 0)
    × ((sort 4 sample (empty_sort 5)).1.cur_idx 2 ≡ 2)
    × ((sort 4 sample (empty_sort 5)).1.cur_idx 3 ≡ 3)
unfolding sort run_passes run_pass load_records count_digits sum_counts scatter
sorted_sample = (refl, refl, refl, refl)
