-- ===== src/Ecs/Archetypes/Detach.antt =====
-- An entity leaves its archetype (`removeRow` of src/laige-sim/archetype.cpp, as entity.cpp calls it).
use laige_cpp.Prelude.{
  ℕ, zero, suc, ◌+◌, ◌-◌, ◌%◌, ◌^◌, ◌<◌, ◌≡◌, ◌≢◌, inl, inr, refl, sym, ap, subst, ◌∙◌, arith, true,
  false, Bool-cases, ◌==◌, update,
}
use laige_cpp.Pools.Words.{dec32}
use laige_cpp.Ecs.Archetypes.{Archetype, Storage, without_row, remove_row, detach}
use laige_cpp.Ecs.Archetypes.Moves.{left-AreAmong, left_gone, left_row, shift_left-left_row}
use laige_cpp.Ecs.Archetypes.Invariant.{Stands, Inv}
use laige_cpp.Ecs.Archetypes.Removal.{
  records, size_small, without-Rows, records_other, records_kept, without_row-columns, Rows-records,
}

-- The cell of a component of an entity, by the component's index in the entity's archetype.
unfoldable pub cell : {V : Type 0} → Storage V → ℕ → ℕ → V
cell w slot i = (w.archetypes (w.archetype_of slot - 1)).columns i (w.row_of slot)

-- A slot that is in archetype `k`, and the storage without it.
module _ {V : Type 0} (w : Storage V) (slot k : ℕ) (v : Inv w)
    (e : w.archetype_of slot ≡ suc k) where
  abbrev old : Archetype V
  old = w.archetypes k

  abbrev row : ℕ
  row = w.row_of slot

  abbrev left_records : ℕ → ℕ
  left_records = records w.capacity row w.row_of old

  abbrev left : Storage V
  left = record w {
    archetypes = update w.archetypes k (without_row row old);
    total_row_shifts = (w.total_row_shifts + (old.size - row - 1)) % 2 ^ 64;
    row_of = left_records;
    archetype_of = update w.archetype_of slot 0;
  }

  detach-left : detach slot w ≡ left
  unfolding detach remove_row
  detach-left =
      let st = v.stands slot k e in
      let here : (w.archetype_of slot == 0) ≡ false = ground arith in
      let index : w.archetype_of slot - 1 ≡ k = omega arith in rw (here, index, st.same) refl

  -- A slot of another archetype keeps its record.
  other_records : (s k' : ℕ) → w.archetype_of s ≡ suc k' → k' ≢ k → left_records s ≡ w.row_of s
  other_records s k' h ne =
      let st = v.stands slot k e in
      records_other w.capacity row w.row_of old (v.rows k st.known) v.bounded st.live s
        (λ r p. λ same. absurd (ground (arith, v.assigned k r st.known p)))

  -- One of the same archetype has its row and its cells in the row that moved.
  same_records :
      (s : ℕ)
      → w.archetype_of s ≡ suc k
      → s ≢ slot
      → (left_records s ≡ left_row row (w.row_of s)) × (w.row_of s ≢ row)
  same_records s h ne =
      let st = v.stands slot k e in
      let su = v.stands s k h in
      let apart : w.row_of s ≢ row =
        λ same. absurd (ne (sym su.same ∙ (ap old.slot_col same ∙ st.same))) in
      (
        subst (λ t. left_records t ≡ left_row row (w.row_of s)) su.same
            (records_kept w.capacity row w.row_of old (v.rows k st.known) v.bounded st.live
              (w.row_of s) su.live apart),
        apart,
      )

  small : dec32 old.size ≡ old.size - 1
  small =
      let st = v.stands slot k e in
      ground (arith, size_small w.capacity row w.row_of old (v.rows k st.known) v.bounded)

  left_assigned :
      (r : ℕ)
      → r < (without_row row old).size
      → update w.archetype_of slot 0 ((without_row row old).slot_col r) ≡ suc k
  unfolding without_row
  left_assigned r p =
      let st = v.stands slot k e in
      let a = (v.rows k st.known).ascending in
      let q : r < old.size - 1 = omega (arith, small) in
      let (r', l, same) = left-AreAmong old.size row old.slot_col w.row_of a r q in
      ground (
        arith,
        left_gone old.size row old.slot_col w.row_of a st.live r q,
        st.same,
        rw same at (v.assigned k r' st.known l),
      )

  left-Stands : (s : ℕ) → w.archetype_of s ≡ suc k → s ≢ slot → Stands left s k
  unfolding without_row
  left-Stands s h ne =
      let st = v.stands slot k e in
      let su = v.stands s k h in
      let (new, apart) = same_records s h ne in
      let (inside, same) =
        shift_left-left_row old.size row (w.row_of s) old.slot_col st.live su.live apart in
      let kk : (k == k) ≡ true = ground arith in
      record {
        known = st.known;
        live = rw (kk, new, small) inside;
        same = rw (kk, new) (same ∙ su.same);
      }

  left-Stands_other : (s k' : ℕ) → w.archetype_of s ≡ suc k' → k' ≢ k → Stands left s k'
  left-Stands_other s k' h ne =
      let su = v.stands s k' h in
      let kk : (k == k') ≡ false = ground arith in
      let new = other_records s k' h ne in
      record { known = su.known; live = rw (kk, new) su.live; same = rw (kk, new) su.same }

  pub left-Inv : Inv left
  left-Inv =
      let st = v.stands slot k e in
      let h = v.rows k st.known in
      record {
        bounded = v.bounded;
        tables = v.tables;
        rows = λ k' p. elim (Bool-cases (k == k')) [
          | inl t ↦ rw t (without-Rows w.capacity row w.row_of old h v.bounded st.live)
          | inr t ↦ rw t (
              Rows-records w.capacity w.row_of left_records (w.archetypes k') (v.rows k' p)
                (λ r q. other_records _ k' (v.assigned k' r p q) (ground arith)))
        ];
        assigned = λ k' r p q. elim (Bool-cases (k == k')) [
          | inl t ↦ rw t (left_assigned r (rw t at q) ∙ ground arith)
          | inr t ↦ rw t (ground (arith, v.assigned k' r p (rw t at q)))
        ];
        stands = λ s k' g. elim (Bool-cases (k == k')) [
          | inl t ↦
              subst (λ x. Stands left s x) {x = k} (ground arith)
                (left-Stands s (ground arith) (ground arith))
          | inr t ↦ left-Stands_other s k' (ground arith) (ground arith)
        ];
      }

  -- The cells of another entity are what they were.
  left-cell :
      (s i : ℕ)
      → s ≢ slot
      → w.archetype_of s ≢ 0
      → i < (w.archetypes (w.archetype_of s - 1)).sig_count
      → cell left s i ≡ cell w s i
  unfolding cell
  left-cell s i ne some_k c =
      let z : (slot == s) ≡ false = ground arith in
      elim (Bool-cases (k == w.archetype_of s - 1)) [
        | inl t ↦
            let m : w.archetype_of s - 1 ≡ k = ground arith in
            let h : w.archetype_of s ≡ suc k = omega arith in
            let st = v.stands slot k e in
            let (new, apart) = same_records s h ne in
            let kk : (k == k) ≡ true = ground arith in
            rw (cell, z, m, kk, new)
              (without_row-columns w.capacity row w.row_of old i (w.row_of s) (rw m at c) st.live
                (v.stands s k h).live apart)
        | inr t ↦
            let new = other_records s (w.archetype_of s - 1) (omega arith) (ground arith) in
            rw (cell, z, t, new) refl
      ]

detach_none : {V : Type 0} (slot : ℕ) (w : Storage V) → w.archetype_of slot ≡ 0 → detach slot w ≡ w
unfolding detach
detach_none slot w e = rw e refl

-- A slot leaves its archetype, if it is in one: the invariant is kept.
pub detach-Inv : {V : Type 0} (slot : ℕ) (w : Storage V) → Inv w → Inv (detach slot w)
detach-Inv slot w v = by_archetype (w.archetype_of slot) refl
  where
    by_archetype : (n : ℕ) → w.archetype_of slot ≡ n → Inv (detach slot w)
    by_archetype zero e = rw (detach_none slot w e) v
    by_archetype (suc k) e = rw (detach-left w slot k v e) (left-Inv w slot k v e)

-- With the invariant, when a slot leaves its archetype, if it is in one, every other entity that is in
-- an archetype stays in it, with the components that it had.
pub detach-cell :
    {V : Type 0} (slot s i : ℕ) (w : Storage V)
    → Inv w
    → s ≢ slot
    → w.archetype_of s ≢ 0
    → i < (w.archetypes (w.archetype_of s - 1)).sig_count
    → ((detach slot w).archetype_of s ≡ w.archetype_of s) × (cell (detach slot w) s i ≡ cell w s i)
detach-cell slot s i w v ne some_k c = by_archetype (w.archetype_of slot) refl
  where
    by_archetype :
        (n : ℕ)
        → w.archetype_of slot ≡ n
        → ((detach slot w).archetype_of s ≡ w.archetype_of s)
          × (cell (detach slot w) s i ≡ cell w s i)
    by_archetype zero e = rw (detach_none slot w e) (refl, refl)
    by_archetype (suc k) e =
        rw (detach-left w slot k v e) (ground arith, left-cell w slot k v e s i ne some_k c)
