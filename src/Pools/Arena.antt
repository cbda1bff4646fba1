-- ===== src/Pools/Arena.antt =====
-- `ArenaPool<T>`: bump-only storage that is reset once a frame.
pub mod Laws
mod Tests
use laige_cpp.Prelude.{
  ℕ, zero, suc, ◌+◌, ◌*◌, ◌%◌, ◌^◌, ◌≤◌, ◌<◌, ◌≡◌, refl, arith, Bool, Bool-cases, inl, inr, ltb,
  ◌==◌, if◌then◌else◌, Option, some, none, update,
}
use laige_cpp.Result.{Result, success, failure, ErrorCode, budget_exhausted}
use laige_cpp.Pools.Words.{PoolStats, inc32, inc64}

-- `block` holds `none` where no element lives in the raw storage.
pub record Arena (A : Type 0) : Type 0 where
  pub capacity : ℕ
  pub block : ℕ → Option A
  pub in_use : ℕ
  pub peak_in_use : ℕ
  pub total_created : ℕ

module _ {A : Type 0} where
  pub init : ℕ → Arena A
  init capacity = record {
    capacity = capacity;
    block = λ _. none;
    in_use = 0;
    peak_in_use = 0;
    total_created = 0;
  }

  pub create : A → Arena A → Result ℕ × Arena A
  create a p = if p.in_use == p.capacity then (failure budget_exhausted, p) else (
    success p.in_use,
    record p {
      block = update p.block p.in_use (some a);
      in_use = inc32 p.in_use;
      peak_in_use = (if ltb p.peak_in_use (inc32 p.in_use) then inc32 p.in_use else p.peak_in_use);
      total_created = inc64 p.total_created;
    },
  )

  -- The loop of `reset`: the destructors of slots i, i + 1, ... with `left` slots to go.
  pub destroy_from : ℕ → ℕ → (ℕ → Option A) → ℕ → Option A
  destroy_from zero i block = block
  destroy_from (suc left) i block = destroy_from left (i + 1) (update block i none)

  pub reset : Arena A → Arena A
  reset p = record p { block = destroy_from p.in_use 0 p.block; in_use = 0 }

  pub is_valid : Arena A → ℕ → Bool
  is_valid p slot = ltb slot p.in_use

  pub get : Arena A → ℕ → Option A
  get p slot = if ltb slot p.in_use then p.block slot else none

  -- The new owner and what is left behind, an empty arena.
  pub move : Arena A → Arena A × Arena A
  move p = (
    p,
    record { capacity = 0; block = λ _. none; in_use = 0; peak_in_use = 0; total_created = 0 },
  )

  -- `stride` is sizeof(ElementSlot<T>).
  pub stats : ℕ → Arena A → PoolStats
  stats stride p = record {
    capacity = p.capacity;
    in_use = p.in_use;
    peak_in_use = p.peak_in_use;
    total_created = p.total_created;
    bytes_capacity = p.capacity * stride;
    bytes_in_use = p.in_use * stride;
  }
