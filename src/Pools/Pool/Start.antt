-- ===== src/Pools/Pool/Start.antt =====
-- The constructor of the slot pool.
use laige_cpp.Prelude.{ℕ, zero, suc, ◌+◌, ◌^◌, ◌<◌, ◌≡◌, refl, arith, false, none}
use laige_cpp.Prelude.Marks.{live_count-none}
use laige_cpp.Pools.Pool.{Pool, blank, fill, init}
use laige_cpp.Pools.Pool.Invariant.{Inv}

-- The pool once the constructor has filled the slots below `i`.
pub record IsFilled {A : Type 0} (capacity i : ℕ) (p : Pool A) : Type 0 where
  pub same_capacity : p.capacity ≡ capacity
  pub free : p.free_count ≡ i
  pub stack : (k : ℕ) → k < i → p.free_stack k ≡ k
  pub first_generation : (k : ℕ) → k < i → p.generations k ≡ 1
  pub all_dead : (k : ℕ) → p.alive k ≡ false
  pub all_raw : (k : ℕ) → p.block k ≡ none
  pub none_used : p.in_use ≡ 0
  pub no_peak : p.peak_in_use ≡ 0

module _ {A : Type 0} (capacity : ℕ) (bounded : capacity < 2 ^ 32) where
  fill-IsFilled :
      (left i : ℕ) (p : Pool A)
      → i + left ≡ capacity
      → IsFilled capacity i p
      → IsFilled capacity capacity (fill left i p)
  unfolding fill
  fill-IsFilled zero i p e f = let e' : i ≡ capacity = omega arith in rw e' at f
  fill-IsFilled (suc left) i p e f = fill-IsFilled left (i + 1) _ (omega arith) (record {
    same_capacity = f.same_capacity;
    free = ground (arith, f.free);
    stack = λ k h. ground (arith, f.stack k);
    first_generation = λ k h. ground (arith, f.first_generation k);
    all_dead = f.all_dead;
    all_raw = f.all_raw;
    none_used = f.none_used;
    no_peak = f.no_peak;
  })

  blank-IsFilled : IsFilled capacity 0 (blank {A = A} capacity)
  unfolding blank
  blank-IsFilled = record {
    same_capacity = refl;
    free = refl;
    stack = λ k h. absurd (omega arith);
    first_generation = λ k h. absurd (omega arith);
    all_dead = λ k. refl;
    all_raw = λ k. refl;
    none_used = refl;
    no_peak = refl;
  }

  -- A new pool is filled: every slot is free, dead and raw, slot k is k-th on the stack, and
  -- every generation is 1.
  pub init-IsFilled : IsFilled capacity capacity (init {A = A} capacity)
  unfolding init
  init-IsFilled = fill-IsFilled capacity 0 (blank capacity) (omega arith) blank-IsFilled

  -- So it satisfies the invariant.
  pub init-Inv : Inv (init {A = A} capacity)
  init-Inv =
      let f = init-IsFilled in
      let none_live =
        live_count-none (init {A = A} capacity).capacity (init {A = A} capacity).alive
          (λ j h. f.all_dead j) in
      record {
        slots = record {
          bounded = ground (arith, f.same_capacity);
          counted = ground (arith, f.same_capacity, f.free, none_live);
          stacked = λ k h. ground (arith, f.stack k, f.all_dead k, f.same_capacity, f.free);
          distinct = λ j k h l e. ground (arith, f.stack j, f.stack k, f.free);
          raw = λ i e. f.all_raw i;
          held = λ i e. ground (arith, f.all_dead i);
        };
        using = ground (arith, f.none_used, none_live);
        fits = ground (arith, f.none_used, f.no_peak);
        peak_fits = ground (arith, f.no_peak);
      }
