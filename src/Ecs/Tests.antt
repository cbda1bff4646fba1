-- ===== src/Ecs/Tests.antt =====
-- The theorems on the archetype storage (src/laige-sim/archetype.cpp) at a world of four slots, whose
-- components are numbers.
use laige_cpp.Prelude.{ℕ, ◌+◌, ◌-◌, ◌≡◌, refl, arith, some}
use laige_cpp.Ecs.Archetypes.{
  Archetype, Storage, insertion_row, sync_rows, without_row, remove_row, detach, with_row,
  insert_slot, attach_slot, new_archetype, create_archetype,
}
use laige_cpp.Ecs.Archetypes.Invariant.{Inv}
use laige_cpp.Ecs.Archetypes.Detach.{cell, detach-cell}
use laige_cpp.Ecs.Archetypes.Attach.{attach_slot-Inv}
use laige_cpp.Ecs.Archetypes.Lookup.{create_archetype-Inv}

abbrev empty : Storage ℕ
empty = record {
  capacity = 4;
  archetype_of = λ s. 0;
  row_of = λ s. 0;
  archetypes = λ k. record {
    sig = λ i. 0;
    sig_count = 0;
    fingerprint = 0;
    row_capacity = 0;
    size = 0;
    slot_col = λ r. 0;
    columns = λ i r. 0;
  };
  archetype_count = 0;
  total_archetype_growth = 0;
  total_reservations = 0;
  total_row_shifts = 0;
}

empty-Inv : Inv empty
empty-Inv = record {
  bounded = omega arith;
  tables = omega arith;
  rows = λ k p. absurd (omega arith);
  assigned = λ k r p q. absurd (omega arith);
  stands = λ s k e. absurd (omega arith);
}

-- The components 3 and 5.
abbrev pair_sig : ℕ → ℕ
pair_sig i = i + i + 3

abbrev with_pair : Storage ℕ
with_pair = create_archetype 0 pair_sig 2 empty

with_pair-Inv : Inv with_pair
with_pair-Inv = (create_archetype-Inv 0 pair_sig 2 empty empty-Inv (omega arith)).0

attach_slot-Inv_example :
    ((attach_slot 0 2 0 with_pair).0 ≡ some ((attach_slot 0 2 0 with_pair).1.row_of 2))
    × ((attach_slot 0 2 0 with_pair).1.archetype_of 2 ≡ 1)
    × Inv (attach_slot 0 2 0 with_pair).1
unfolding create_archetype
attach_slot-Inv_example =
    attach_slot-Inv 0 2 0 with_pair with_pair-Inv (omega arith) (omega arith) refl

abbrev one_in : Storage ℕ
one_in = (attach_slot 0 2 0 with_pair).1

one_in-Inv : Inv one_in
unfolding create_archetype
one_in-Inv = (attach_slot-Inv 0 2 0 with_pair with_pair-Inv (omega arith) (omega arith) refl).2

one_in_fields :
    (one_in.capacity ≡ 4)
    × (one_in.archetype_count ≡ 1)
    × (one_in.archetype_of 0 ≡ 0)
    × (one_in.archetype_of 2 ≡ 1)
    × ((one_in.archetypes (one_in.archetype_of 2 - 1)).sig_count ≡ 2)
unfolding attach_slot insert_slot with_row new_archetype create_archetype
one_in_fields = (refl, refl, refl, refl, refl)

abbrev two_in : Storage ℕ
two_in = (attach_slot 0 0 0 one_in).1

two_in-Inv : Inv two_in
two_in-Inv =
    (attach_slot-Inv 0 0 0 one_in one_in-Inv (omega (arith, one_in_fields))
      (omega (arith, one_in_fields)) one_in_fields.2).2

-- Slot 2 has moved behind slot 0, and comes back when that leaves.
moves : (two_in.row_of 2 ≡ 1) × ((detach 0 two_in).row_of 2 ≡ 0)
unfolding attach_slot insert_slot insertion_row sync_rows with_row new_archetype create_archetype
    detach remove_row without_row
moves = (refl, refl)

two_in_fields :
    (two_in.archetype_of 2 ≡ 1) × ((two_in.archetypes (two_in.archetype_of 2 - 1)).sig_count ≡ 2)
unfolding attach_slot insert_slot with_row new_archetype create_archetype
two_in_fields = (refl, refl)

detach-cell_example :
    ((detach 0 two_in).archetype_of 2 ≡ two_in.archetype_of 2)
    × (cell (detach 0 two_in) 2 1 ≡ cell two_in 2 1)
detach-cell_example =
    detach-cell 0 2 1 two_in two_in-Inv (λ e. absurd (omega arith))
      (λ e. absurd (omega (arith, two_in_fields))) (omega (arith, two_in_fields))

abbrev pair_archetype : Archetype ℕ
pair_archetype = new_archetype 0 4 pair_sig 2
