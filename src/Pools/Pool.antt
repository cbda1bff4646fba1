-- ===== src/Pools/Pool.antt =====
-- `Pool<T>`: the pool of slots behind generation-checked handles.
pub mod Invariant
pub mod Start
pub mod History
mod Tests
pub mod Refine
use laige_cpp.Prelude.{
  ℕ, zero, suc, ◌+◌, ◌*◌, ◌-◌, ◌%◌, ◌^◌, Bool, true, false, not, ◌&&◌, ltb, ◌==◌, if◌then◌else◌,
  Option, some, none, update,
}
use laige_cpp.Result.{
  Result, success, failure, Status, done, failed, ErrorCode, budget_exhausted, invalid_argument,
}
use laige_cpp.Pools.Words.{PoolStats, inc32, dec32, inc64}

pub record PoolHandle : Type 0 where
  pub index : ℕ
  pub generation : ℕ

-- The arrays are functions of the slot; `block` holds `none` where no element lives in the raw
-- storage.
pub record Pool (A : Type 0) : Type 0 where
  pub capacity : ℕ
  pub block : ℕ → Option A
  pub generations : ℕ → ℕ
  pub free_stack : ℕ → ℕ
  pub alive : ℕ → Bool
  pub free_count : ℕ
  pub in_use : ℕ
  pub peak_in_use : ℕ
  pub total_created : ℕ

module _ {A : Type 0} where
  pub blank : ℕ → Pool A
  blank capacity = record {
    capacity = capacity;
    block = λ _. none;
    generations = λ _. 0;
    free_stack = λ _. 0;
    alive = λ _. false;
    free_count = 0;
    in_use = 0;
    peak_in_use = 0;
    total_created = 0;
  }

  -- The loop of the constructor from slot `i` on, with `left` slots to go.
  pub fill : ℕ → ℕ → Pool A → Pool A
  fill zero i p = p
  fill (suc left) i p = fill left (i + 1) (record p {
    generations = update p.generations i 1;
    free_stack = update p.free_stack i i;
    free_count = inc32 p.free_count;
  })

  pub init : ℕ → Pool A
  unfolding blank fill
  init capacity = fill capacity 0 (blank capacity)

  pub is_valid : Pool A → PoolHandle → Bool
  is_valid p h =
      ltb h.index p.capacity
      && (not (h.generation == 0) && (p.alive h.index && p.generations h.index == h.generation))

  pub create : A → Pool A → Result PoolHandle × Pool A
  create a p =
      if p.free_count == 0
      then (failure budget_exhausted, p)
      else (let top = dec32 p.free_count in
          let slot = p.free_stack top in
          (
            success (record { index = slot; generation = p.generations slot }),
            record p {
              block = update p.block slot (some a);
              alive = update p.alive slot true;
              free_count = top;
              in_use = inc32 p.in_use;
              peak_in_use =
                  (if ltb p.peak_in_use (inc32 p.in_use) then inc32 p.in_use else p.peak_in_use);
              total_created = inc64 p.total_created;
            },
          ))

  -- What `destroy` and `clear` do to one live slot.
  pub free_slot : ℕ → Pool A → Pool A
  free_slot i p = record p {
    block = update p.block i none;
    alive = update p.alive i false;
    generations = update p.generations i (inc32 (p.generations i));
    free_stack = update p.free_stack p.free_count i;
    free_count = inc32 p.free_count;
  }

  pub destroy : PoolHandle → Pool A → Status × Pool A
  destroy h p =
      if is_valid p h
      then (done, (let q = free_slot h.index p in record q { in_use = dec32 q.in_use }))
      else (failed invalid_argument, p)

  pub get : Pool A → PoolHandle → Option A
  get p h = if is_valid p h then p.block h.index else none

  -- The loop of `clear` from slot `i` on, with `left` slots to go.
  pub clear_from : ℕ → ℕ → Pool A → Pool A
  clear_from zero i p = p
  clear_from (suc left) i p = clear_from left (i + 1) (if p.alive i then free_slot i p else p)

  pub clear : Pool A → Pool A
  clear p = let q = clear_from p.capacity 0 p in record q { in_use = 0 }

  -- The new owner and what is left behind, an empty pool.
  pub move : Pool A → Pool A × Pool A
  move p = (p, blank 0)

  -- `stride` is sizeof(ElementSlot<T>).
  pub stats : ℕ → Pool A → PoolStats
  stats stride p = record {
    capacity = p.capacity;
    in_use = p.in_use;
    peak_in_use = p.peak_in_use;
    total_created = p.total_created;
    bytes_capacity = p.capacity * (stride + 9);
    bytes_in_use = p.in_use * stride;
  }
