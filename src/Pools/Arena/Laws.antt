-- ===== src/Pools/Arena/Laws.antt =====
-- The arena refines a bounded list of elements that grows at its end and is emptied at once.
use laige_cpp.Prelude.{
  ℕ, zero, suc, ◌+◌, ◌^◌, ◌≤◌, ◌<◌, ◌≡◌, ◌≢◌, refl, sym, ◌∙◌, arith, true, false, ltb, ◌==◌, Option,
  none, update, List, [], ◌∷◌, ◌++◌, length, length-append, get_elem?, get_elem?-snoc,
  get_elem?-none,
}
use laige_cpp.Result.{success, failure, budget_exhausted}
use laige_cpp.Pools.Words.{inc32}
use laige_cpp.Pools.Arena.{Arena, init, create, reset, destroy_from, get, is_valid}

module _ {A : Type 0} where
  -- The arena holds the elements `xs`, the oldest first, and no other slot holds one; the counters
  -- are within the budget.
  pub record Holds (p : Arena A) (xs : List A) : Type 0 where
    pub bounded : p.capacity < 2 ^ 32
    pub size : p.in_use ≡ length xs
    pub fits : p.in_use ≤ p.peak_in_use
    pub peak_fits : p.peak_in_use ≤ p.capacity
    pub items : (i : ℕ) → p.block i ≡ get_elem? xs i

  -- A new arena is empty.
  pub init-Holds : (capacity : ℕ) → capacity < 2 ^ 32 → Holds (init capacity) []
  unfolding init
  init-Holds capacity h = record {
    bounded = h;
    size = refl;
    fits = omega arith;
    peak_fits = omega arith;
    items = λ i. refl;
  }

  -- `create` fails exactly at the budget, and changes nothing then; else it appends the element,
  -- and its slot is the number of elements before.
  pub create-Holds :
      (a : A) (p : Arena A) (xs : List A)
      → Holds p xs
      → (length xs ≡ p.capacity → create a p ≡ (failure budget_exhausted, p))
        × (length xs ≢ p.capacity
            → ((create a p).0 ≡ success (length xs)) × Holds (create a p).1 (xs ++ a ∷ []))
  unfolding create
  create-Holds a p xs h = (full, room)
    where
      full : length xs ≡ p.capacity → create a p ≡ (failure budget_exhausted, p)
      full e = let t : (p.in_use == p.capacity) ≡ true = ground (arith, h.size) in rw t

      room :
          length xs ≢ p.capacity
          → ((create a p).0 ≡ success (length xs)) × Holds (create a p).1 (xs ++ a ∷ [])
      room ne =
          let t : (p.in_use == p.capacity) ≡ false = ground (arith, h.size) in
          let grown : inc32 p.in_use ≡ length xs + 1 =
            ground (arith, h.size, h.fits, h.peak_fits, h.bounded) in
          rw t (
            ground (arith, h.size),
            record {
              bounded = h.bounded;
              size = grown ∙ sym (length-append xs (a ∷ []));
              fits = ground arith;
              peak_fits = ground (arith, h.size, h.fits, h.peak_fits, h.bounded);
              items = λ i. ground (arith, get_elem?-snoc xs a i, h.items i, h.size);
            },
          )

  destroy_from_lem :
      (left i : ℕ) (block : ℕ → Option A) (j : ℕ)
      → ((i ≤ j) × (j < i + left) → destroy_from left i block j ≡ none)
        × (j < i → destroy_from left i block j ≡ block j)
        × (i + left ≤ j → destroy_from left i block j ≡ block j)
  unfolding destroy_from
  destroy_from_lem zero i block j = (λ h. absurd (omega arith), λ h. refl, λ h. refl)
  destroy_from_lem (suc left) i block j =
      ground (arith, destroy_from_lem left (i + 1) (update block i none) j)

  -- `reset` destroys every element and keeps the budget and the counters since construction.
  pub reset-Holds :
      (p : Arena A) (xs : List A)
      → Holds p xs
      → Holds (reset p) []
        × ((reset p).capacity ≡ p.capacity)
        × ((reset p).peak_in_use ≡ p.peak_in_use)
        × ((reset p).total_created ≡ p.total_created)
  unfolding reset
  reset-Holds p xs h = (
    record {
      bounded = h.bounded;
      size = refl;
      fits = omega arith;
      peak_fits = h.peak_fits;
      items = λ i.
          ground
            (arith, destroy_from_lem p.in_use 0 p.block i, h.items i, h.size, get_elem?-none xs i);
    },
    refl,
    refl,
    refl,
  )

  -- Reading a slot gives the element of that number, and nothing beyond the last.
  pub get-Holds :
      (p : Arena A) (xs : List A) (slot : ℕ)
      → Holds p xs
      → (get p slot ≡ get_elem? xs slot) × (is_valid p slot ≡ ltb slot (length xs))
  unfolding get is_valid
  get-Holds p xs slot h =
      (ground (arith, h.items slot, h.size, get_elem?-none xs slot), ground (arith, h.size))
