-- ===== src/Ecs/Archetypes/Invariant.antt =====
-- The invariant of the archetype storage of a world (src/laige-sim/archetype.cpp): the slot columns are
-- sorted and agree with `rowOf_` and `archetypeOf_`.
use laige_cpp.Prelude.{
  ℕ, zero, suc, ◌-◌, ◌^◌, ◌≤◌, ◌<◌, ◌≡◌, ◌≢◌, inl, inr, arith, Bool-cases, leb, ltb,
}
use laige_cpp.Ecs.Archetypes.{Archetype, Storage, insertion_row}
use laige_cpp.Ecs.Archetypes.Columns.{IsAscending, IsPlace, insertion_row-IsPlace}
use laige_cpp.Ecs.Archetypes.Moves.{IsSynced}

-- One archetype: its rows are in the reserve, sorted by slot, of slots of the world, and `rowOf_`
-- knows them.
pub record Rows {V : Type 0} (capacity : ℕ) (row_of : ℕ → ℕ) (a : Archetype V) : Type 0 where
  pub fits : a.size ≤ a.row_capacity
  pub some_room : 1 ≤ a.row_capacity
  pub ascending : IsAscending a.size a.slot_col
  pub inside : (r : ℕ) → r < a.size → a.slot_col r < capacity
  pub synced : IsSynced a.size a.slot_col row_of

-- Where a slot stands: in its archetype at its row.
pub record Stands {V : Type 0} (w : Storage V) (slot k : ℕ) : Type 0 where
  pub known : k < w.archetype_count
  pub live : w.row_of slot < (w.archetypes k).size
  pub same : (w.archetypes k).slot_col (w.row_of slot) ≡ slot

pub record Inv {V : Type 0} (w : Storage V) : Type 0 where
  pub bounded : w.capacity ≤ 2 ^ 16
  pub tables : w.archetype_count ≤ 256
  pub rows : (k : ℕ) → k < w.archetype_count → Rows w.capacity w.row_of (w.archetypes k)
  pub assigned :
      (k r : ℕ)
      → k < w.archetype_count
      → r < (w.archetypes k).size
      → w.archetype_of ((w.archetypes k).slot_col r) ≡ suc k
  pub stands : (slot k : ℕ) → w.archetype_of slot ≡ suc k → Stands w slot k

-- Sorted slots below a bound are no more than it, and fewer where a slot is missing.
pub ascending_at_least : (n : ℕ) (col : ℕ → ℕ) → IsAscending n col → (r : ℕ) → r < n → r ≤ col r
ascending_at_least n col a zero p = omega arith
ascending_at_least n col a (suc r) p =
    ground (arith, ascending_at_least n col a r (omega arith), a r (suc r))

ascending_beyond :
    (n : ℕ) (col : ℕ → ℕ) (slot row : ℕ)
    → IsAscending n col
    → IsPlace n col slot row
    → ((r : ℕ) → r < n → col r ≢ slot)
    → (r : ℕ) → row ≤ r
    → r < n
    → r < col r
ascending_beyond n col slot row a place new zero p q = ground (arith, place.behind zero)
ascending_beyond n col slot row a place new (suc r) p q = elim (Bool-cases (leb row r)) [
  | inl t ↦ ground (arith, ascending_beyond n col slot row a place new r, a r (suc r))
  | inr t ↦
      ground (arith, place.behind (suc r), place.before r, new r, ascending_at_least n col a r)
]

-- An archetype of a world that a slot of the world is not in has fewer rows than the world has slots.
pub absent_room :
    (capacity n slot : ℕ) (col : ℕ → ℕ)
    → IsAscending n col
    → ((r : ℕ) → r < n → col r < capacity)
    → slot < capacity
    → ((r : ℕ) → r < n → col r ≢ slot)
    → n < capacity
absent_room capacity n slot col a b l new =
    let row = insertion_row n col slot 0 n in
    let place = insertion_row-IsPlace n col slot a in
    elim (Bool-cases (ltb row n)) [
      | inl t ↦ ground (arith, ascending_beyond n col slot row a place new (n - 1), b (n - 1))
      | inr t ↦ ground (
        arith,
        place.inside,
        place.before (n - 1),
        new (n - 1),
        ascending_at_least n col a (n - 1),
      )
    ]
