-- ===== src/Pools/Words.antt =====
-- The counters of the pools: `uint32_t` and `uint64_t`, which wrap.
use laige_cpp.Prelude.{ℕ, ◌+◌, ◌%◌, ◌^◌, ◌-◌}

abbrev pub inc32 : ℕ → ℕ
inc32 x = (x + 1) % 2 ^ 32

abbrev pub dec32 : ℕ → ℕ
dec32 x = (x + (2 ^ 32 - 1)) % 2 ^ 32

abbrev pub inc64 : ℕ → ℕ
inc64 x = (x + 1) % 2 ^ 64

-- `PoolStats`.
pub record PoolStats : Type 0 where
  pub capacity : ℕ
  pub in_use : ℕ
  pub peak_in_use : ℕ
  pub total_created : ℕ
  pub bytes_capacity : ℕ
  pub bytes_in_use : ℕ
