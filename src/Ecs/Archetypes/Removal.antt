-- ===== src/Ecs/Archetypes/Removal.antt =====
-- A row taken out of one archetype (`removeRow` of src/laige-sim/archetype.cpp): its invariant, the records
-- of its slots, and its columns.
use laige_cpp.Prelude.{ℕ, ◌+◌, ◌-◌, ◌^◌, ◌≤◌, ◌<◌, ◌≡◌, ◌≢◌, ◌∙◌, arith, true, ltb, update}
use laige_cpp.Pools.Words.{dec32}
use laige_cpp.Ecs.Archetypes.{Archetype, sync_rows, shift_left, without_row}
use laige_cpp.Ecs.Archetypes.Columns.{sync_rows_other}
use laige_cpp.Ecs.Archetypes.Moves.{
  left-IsAscending, left-IsSynced, left_gone, left_row, shift_left-left_row,
}
use laige_cpp.Ecs.Archetypes.Invariant.{Rows, ascending_at_least}

module _ {V : Type 0} (capacity row : ℕ) (row_of : ℕ → ℕ) (a : Archetype V) where
  pub size_small : Rows capacity row_of a → capacity ≤ 2 ^ 16 → a.size ≤ 2 ^ 16
  size_small h b =
      ground (
        arith,
        h.inside (a.size - 1),
        ascending_at_least a.size a.slot_col h.ascending (a.size - 1),
      )

  -- The records after the loop, with that of the slot that left.
  abbrev pub records : ℕ → ℕ
  records =
      update (sync_rows ((without_row row a).size - row) row (without_row row a).slot_col row_of)
        (a.slot_col row) 0

  pub without-Rows :
      Rows capacity row_of a
      → capacity ≤ 2 ^ 16
      → row < a.size
      → Rows capacity records (without_row row a)
  unfolding without_row
  without-Rows h b l =
      let top : dec32 a.size ≡ a.size - 1 = ground (arith, size_small h b) in
      rw top (record {
        fits = omega (arith, h.fits);
        some_room = h.some_room;
        ascending = left-IsAscending a.size row a.slot_col row_of h.ascending l;
        inside = λ r p. ground (arith, h.inside r, h.inside (r + 1));
        synced = λ r p. ground (
          arith,
          left-IsSynced a.size row a.slot_col row_of h.ascending l h.synced r p,
          left_gone a.size row a.slot_col row_of h.ascending l r p,
        );
      })

  -- A slot that is not in the archetype keeps its record.
  pub records_other :
      Rows capacity row_of a
      → capacity ≤ 2 ^ 16
      → row < a.size
      → (s : ℕ) → ((r : ℕ) → r < a.size → a.slot_col r ≢ s)
      → records s ≡ row_of s
  unfolding without_row
  records_other h b l s new =
      let top : dec32 a.size ≡ a.size - 1 = ground (arith, size_small h b) in
      rw top (
        ground (
          arith,
          new row l,
          sync_rows_other (a.size - 1 - row) row (shift_left row a.size a.slot_col) row_of s
              (λ j p q. ground (arith, new j, new (j + 1))),
        ))

  -- One of another row follows it.
  pub records_kept :
      Rows capacity row_of a
      → capacity ≤ 2 ^ 16
      → row < a.size
      → (r : ℕ) → r < a.size
      → r ≢ row
      → records (a.slot_col r) ≡ left_row row r
  unfolding without_row
  records_kept h b l r p ne =
      let top : dec32 a.size ≡ a.size - 1 = ground (arith, size_small h b) in
      let (inside, same) = shift_left-left_row a.size row r a.slot_col l p ne in
      let known =
        left-IsSynced a.size row a.slot_col row_of h.ascending l h.synced (left_row row r) inside in
      let apart : a.slot_col row ≢ a.slot_col r =
        λ e. absurd (ground (arith, h.ascending r row, h.ascending row r)) in
      rw top (ground (arith, rw same at known, apart))

  -- And so do its cells.
  pub without_row-columns :
      (i r : ℕ)
      → i < a.sig_count
      → row < a.size
      → r < a.size
      → r ≢ row
      → (without_row row a).columns i (left_row row r) ≡ a.columns i r
  unfolding without_row
  without_row-columns i r c l p ne =
      let t : ltb i a.sig_count ≡ true = ground arith in
      rw t (shift_left-left_row a.size row r (a.columns i) l p ne).1

pub Rows-records :
    {V : Type 0} (capacity : ℕ) (row_of row_of' : ℕ → ℕ) (a : Archetype V)
    → Rows capacity row_of a
    → ((r : ℕ) → r < a.size → row_of' (a.slot_col r) ≡ row_of (a.slot_col r))
    → Rows capacity row_of' a
Rows-records capacity row_of row_of' a h same = record {
  fits = h.fits;
  some_room = h.some_room;
  ascending = h.ascending;
  inside = h.inside;
  synced = λ r p. same r p ∙ h.synced r p;
}
