-- ===== src/Ecs/Archetypes.antt =====
-- src/laige-sim/archetype.cpp: the rows of the archetypes of a world. An array is a function of its index; a
-- cell of a column holds the bytes of one component.
pub mod Columns
pub mod Moves
pub mod Invariant
pub mod Removal
pub mod Detach
pub mod Records
pub mod Insert
pub mod Attach
pub mod Lookup
use laige_cpp.Prelude.{
  ℕ, zero, suc, ◌+◌, ◌*◌, ◌-◌, ◌/◌, ◌%◌, ◌^◌, min, bit_xor, Bool, true, false, not, ◌&&◌, ◌||◌, ltb,
  leb, ◌==◌, if◌then◌else◌, Option, some, none, update,
}
use laige_cpp.Pools.Words.{inc32, dec32, inc64}

-- `detail::ArchetypeRecord`; `columns i r` is the cell of component `i` in row `r`.
pub record Archetype (V : Type 0) : Type 0 where
  pub sig : ℕ → ℕ
  pub sig_count : ℕ
  pub fingerprint : ℕ
  pub row_capacity : ℕ
  pub size : ℕ
  pub slot_col : ℕ → ℕ
  pub columns : ℕ → ℕ → V

-- The fields of `World` that archetype.cpp uses.
pub record Storage (V : Type 0) : Type 0 where
  pub capacity : ℕ
  pub archetype_of : ℕ → ℕ
  pub row_of : ℕ → ℕ
  pub archetypes : ℕ → Archetype V
  pub archetype_count : ℕ
  pub total_archetype_growth : ℕ
  pub total_reservations : ℕ
  pub total_row_shifts : ℕ

abbrev pub add64 : ℕ → ℕ → ℕ
add64 a b = (a + b) % 2 ^ 64

-- `sigFingerprint`, from index `i` on with `left` ids to go.
unfoldable pub mix_ids : ℕ → ℕ → (ℕ → ℕ) → ℕ → ℕ
mix_ids zero i sig h = h
mix_ids (suc left) i sig h = mix_ids left (i + 1) sig (bit_xor h (sig i) * 16777619 % 2 ^ 32)

unfoldable pub sig_fingerprint : (ℕ → ℕ) → ℕ → ℕ
sig_fingerprint sig count = mix_ids count 0 sig 2166136261

-- The comparison of two signatures from index `j` on.
unfoldable pub same_ids : ℕ → ℕ → (ℕ → ℕ) → (ℕ → ℕ) → Bool
same_ids zero j s t = true
same_ids (suc left) j s t =
    let rest = same_ids left (j + 1) s t in if s j == t j then rest else false

-- The binary searches, on fuel; each round computes the bounds of the next.
abbrev pub middle : ℕ → ℕ → ℕ
middle lo hi = lo + (hi - lo) / 2

-- The first row from `lo` to `hi` whose slot is greater.
unfoldable pub insertion_row : ℕ → (ℕ → ℕ) → ℕ → ℕ → ℕ → ℕ
insertion_row zero col slot lo hi = lo
insertion_row (suc fuel) col slot lo hi =
    let mid = middle lo hi in
    let below = leb (col mid) slot in
    let next =
      insertion_row fuel col slot (if below then mid + 1 else lo) (if below then hi else mid) in
    if ltb lo hi then next else lo

-- `columnIndexOf`: the index of a component in a sorted signature.
unfoldable pub column_index : ℕ → (ℕ → ℕ) → ℕ → ℕ → ℕ → Option ℕ
column_index zero sig id lo hi = none
column_index (suc fuel) sig id lo hi =
    let mid = middle lo hi in
    let below = ltb (sig mid) id in
    let next =
      column_index fuel sig id (if below then mid + 1 else lo) (if below then hi else mid) in
    if not (ltb lo hi)
    then none
    else if below
    then next
    else if ltb id (sig mid)
    then next
    else some mid

-- `memmove` of the rows from `row` on: one up, over the row that is left out, or one down, for a new
-- row, where `size` is the number of rows before.
abbrev pub shift_left : {A : Type 0} → ℕ → ℕ → (ℕ → A) → ℕ → A
shift_left row size f r = if leb row r && ltb (r + 1) size then f (r + 1) else f r

abbrev pub shift_right : {A : Type 0} → ℕ → ℕ → (ℕ → A) → ℕ → A
shift_right row size f r = if ltb row r && leb r size then f (r - 1) else f r

-- The loop that writes `rowOf_` from row `r` on, with `left` rows to go.
unfoldable pub sync_rows : ℕ → ℕ → (ℕ → ℕ) → (ℕ → ℕ) → ℕ → ℕ
sync_rows zero r col row_of = row_of
sync_rows (suc left) r col row_of = sync_rows left (r + 1) col (update row_of (col r) r)

module _ {V : Type 0} where
  -- `findArchetype`, from archetype `i` on with `left` to go: its index.
  unfoldable pub find_from : ℕ → ℕ → (ℕ → Archetype V) → (ℕ → ℕ) → ℕ → ℕ → Option ℕ
  find_from zero i archetypes sig count fp = none
  find_from (suc left) i archetypes sig count fp =
      let rec = archetypes i in
      let later = find_from left (i + 1) archetypes sig count fp in
      if not (rec.fingerprint == fp) || not (rec.sig_count == count)
      then later
      else if same_ids count 0 rec.sig sig
      then some i
      else later

  unfoldable pub find_archetype : (ℕ → ℕ) → ℕ → Storage V → Option ℕ
  find_archetype sig count w =
      find_from w.archetype_count 0 w.archetypes sig count (sig_fingerprint sig count)

  -- The columns of an archetype, each by one function of its rows.
  abbrev pub move_columns : (Archetype V) → ((ℕ → V) → ℕ → V) → ℕ → ℕ → V
  move_columns a move i = if ltb i a.sig_count then move (a.columns i) else a.columns i

  unfoldable pub column_index_of : Archetype V → ℕ → Option ℕ
  column_index_of a id = column_index a.sig_count a.sig id 0 a.sig_count

  -- The archetype with the rows after one moved over it.
  unfoldable pub without_row : ℕ → Archetype V → Archetype V
  without_row row a = record a {
    slot_col = shift_left row a.size a.slot_col;
    columns = move_columns a (λ f. shift_left row a.size f);
    size = dec32 a.size;
  }

  unfoldable pub remove_row : ℕ → ℕ → Storage V → Storage V
  remove_row k row w =
      let a = w.archetypes k in
      let b = without_row row a in
      record w {
        archetypes = update w.archetypes k b;
        total_row_shifts = add64 w.total_row_shifts (a.size - row - 1);
        row_of = sync_rows (b.size - row) row b.slot_col w.row_of;
      }

  -- The slot leaves its archetype, if it is in one, as in `destroy`.
  unfoldable pub detach : ℕ → Storage V → Storage V
  detach slot w =
      if w.archetype_of slot == 0
      then w
      else (let r = remove_row (w.archetype_of slot - 1) (w.row_of slot) w in
          record r { archetype_of = update r.archetype_of slot 0; row_of = update r.row_of slot 0 })

  -- The archetype with a row for a slot; the cells of that row are what stood there.
  unfoldable pub with_row : ℕ → ℕ → Archetype V → Archetype V
  with_row slot row a = record a {
    slot_col = update (shift_right row a.size a.slot_col) row (slot % 2 ^ 16);
    columns = move_columns a (λ f. shift_right row a.size f);
    size = inc32 a.size;
  }

  -- `attachSlot` where the archetype has room: the row with the storage.
  unfoldable pub insert_slot : ℕ → ℕ → Storage V → ℕ × Storage V
  insert_slot slot k w =
      let a = w.archetypes k in
      let row = insertion_row a.size a.slot_col slot 0 a.size in
      let b = with_row slot row a in
      (
        row,
        record w {
          archetypes = update w.archetypes k b;
          total_row_shifts = add64 w.total_row_shifts (a.size - row);
          row_of = sync_rows (b.size - row) row b.slot_col w.row_of;
          archetype_of = update w.archetype_of slot ((k + 1) % 2 ^ 16);
        },
      )

  -- What `make_unique` fills a new block with.
  module _ (blank : V) where
    abbrev pub kept : {A : Type 0} → ℕ → A → (ℕ → A) → ℕ → A
    kept size x f r = if ltb r size then f r else x

    -- `growArchetype`: nothing where the capacity cannot grow.
    unfoldable pub grow_archetype : ℕ → Storage V → Option (Storage V)
    grow_archetype k w =
        let a = w.archetypes k in
        let capacity = min w.capacity (a.row_capacity * 2 % 2 ^ 32) in
        if leb capacity a.row_capacity
        then none
        else some (record w {
          archetypes = update w.archetypes k (record a {
            slot_col = kept a.size 0 a.slot_col;
            columns = move_columns a (λ f. kept a.size blank f);
            row_capacity = capacity;
          });
          total_archetype_growth = inc64 w.total_archetype_growth;
          total_reservations = add64 w.total_reservations (1 + a.sig_count);
        })

    -- `attachSlot`: no row where the archetype is full and cannot grow.
    unfoldable pub attach_slot : ℕ → ℕ → Storage V → Option ℕ × Storage V
    attach_slot slot k w =
        let a = w.archetypes k in
        if a.size == a.row_capacity
        then elim (grow_archetype k w) [
          | none ↦ (none, w)
          | some g ↦ let (row, h) = insert_slot slot k g in (some row, h)
        ]
        else (let (row, h) = insert_slot slot k w in (some row, h))

    -- `createArchetype`, at the end of the table.
    unfoldable pub new_archetype : ℕ → (ℕ → ℕ) → ℕ → Archetype V
    new_archetype capacity sig count =
        let rows = if ltb capacity 16 then capacity else 16 in
        record {
          sig = λ i. if ltb i count then sig i else 0;
          sig_count = count;
          fingerprint = sig_fingerprint sig count;
          row_capacity = if rows == 0 then 1 else rows;
          size = 0;
          slot_col = λ r. 0;
          columns = λ i r. blank;
        }

    unfoldable pub create_archetype : (ℕ → ℕ) → ℕ → Storage V → Storage V
    create_archetype sig count w = record w {
      archetypes = update w.archetypes w.archetype_count (new_archetype w.capacity sig count);
      archetype_count = inc32 w.archetype_count;
      total_reservations = add64 w.total_reservations (1 + count);
    }
