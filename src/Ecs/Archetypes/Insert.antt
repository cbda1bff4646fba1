-- ===== src/Ecs/Archetypes/Insert.antt =====
-- An entity without components enters an archetype that has room (`attachSlot` of
-- src/laige-sim/archetype.cpp).
use laige_cpp.Prelude.{
  ℕ, suc, ◌+◌, ◌-◌, ◌%◌, ◌^◌, ◌<◌, ◌≡◌, ◌≢◌, ◌⊎◌, inl, inr, refl, subst, ◌∙◌, arith, true, false,
  Bool-cases, ltb, ◌==◌, if◌then◌else◌, update,
}
use laige_cpp.Pools.Words.{inc32}
use laige_cpp.Ecs.Archetypes.{
  Archetype, Storage, sync_rows, shift_right, insertion_row, with_row, insert_slot,
}
use laige_cpp.Ecs.Archetypes.Columns.{IsPlace, insertion_row-IsPlace, sync_rows_other}
use laige_cpp.Ecs.Archetypes.Moves.{
  IsSynced, right-IsAscending, right-IsSynced, right_from, right_row, shift_right-right_row,
}
use laige_cpp.Ecs.Archetypes.Invariant.{Rows, Stands, Inv}
use laige_cpp.Ecs.Archetypes.Detach.{cell}
use laige_cpp.Ecs.Archetypes.Removal.{size_small, Rows-records}

-- A slot that is in no archetype, and archetype `k` with room.
module _ {V : Type 0} (w : Storage V) (slot k : ℕ) (v : Inv w) (l : slot < w.capacity)
    (known : k < w.archetype_count) (e : w.archetype_of slot ≡ 0)
    (room : (w.archetypes k).size < (w.archetypes k).row_capacity) where
  abbrev old : Archetype V
  old = w.archetypes k

  abbrev place_row : ℕ
  place_row = insertion_row old.size old.slot_col slot 0 old.size

  abbrev col : ℕ → ℕ
  col = update (shift_right place_row old.size old.slot_col) place_row slot

  abbrev records : ℕ → ℕ
  records = sync_rows (old.size + 1 - place_row) place_row col w.row_of

  abbrev grown : Archetype V
  grown = record old {
    slot_col = col;
    columns = λ i.
        if ltb i old.sig_count
        then shift_right place_row old.size (old.columns i)
        else old.columns i;
    size = old.size + 1;
  }

  abbrev pub entered : Storage V
  entered = record w {
    archetypes = update w.archetypes k grown;
    total_row_shifts = (w.total_row_shifts + (old.size - place_row)) % 2 ^ 64;
    row_of = records;
    archetype_of = update w.archetype_of slot (suc k);
  }

  pub insert_slot-entered : insert_slot slot k w ≡ (place_row, entered)
  unfolding insert_slot with_row
  insert_slot-entered =
      let small = size_small w.capacity 0 w.row_of old (v.rows k known) v.bounded in
      let one_more : inc32 old.size ≡ old.size + 1 = ground arith in
      let narrow : slot % 2 ^ 16 ≡ slot = omega (arith, v.bounded) in
      let index : (k + 1) % 2 ^ 16 ≡ suc k = omega (arith, v.tables) in
      rw (one_more, narrow, index) refl

  absent :
      (k' r : ℕ)
      → k' < w.archetype_count
      → r < (w.archetypes k').size
      → (w.archetypes k').slot_col r ≢ slot
  absent k' r p q = λ same. absurd (ground (arith, rw same at (v.assigned k' r p q)))

  place : IsPlace old.size old.slot_col slot place_row
  place = insertion_row-IsPlace old.size old.slot_col slot (v.rows k known).ascending

  from :
      (r : ℕ)
      → r < old.size + 1
      → (col r ≡ slot) ⊎ ((r' : ℕ) × (r' < old.size) × (col r ≡ old.slot_col r'))
  from =
      right_from old.size slot place_row old.slot_col w.row_of (v.rows k known).ascending place
        (λ r p. absent k r known p)

  synced : IsSynced (old.size + 1) col records
  synced =
      right-IsSynced old.size slot place_row old.slot_col w.row_of (v.rows k known).ascending place
        (λ r p. absent k r known p) (v.rows k known).synced

  grown-Rows : Rows w.capacity records grown
  grown-Rows =
      let h = v.rows k known in
      record {
        fits = omega (arith, room);
        some_room = h.some_room;
        ascending =
            right-IsAscending old.size slot place_row old.slot_col w.row_of h.ascending place
              (λ r p. absent k r known p);
        inside = λ r p. elim (from r p) [
          | inl t ↦ omega (arith, l, t)
          | inr (r', q, t) ↦ omega (arith, t, h.inside r' q)
        ];
        synced = synced;
      }

  -- A slot of another archetype keeps its record.
  other_records : (s k' : ℕ) → w.archetype_of s ≡ suc k' → k' ≢ k → records s ≡ w.row_of s
  other_records s k' h ne =
      sync_rows_other (old.size + 1 - place_row) place_row col w.row_of s (λ j p q. λ same.
        elim (from j (omega (arith, place.inside))) [
          | inl t ↦ absurd (ground arith)
          | inr (r', u, t) ↦ absurd (ground (arith, v.assigned k r' known u))
        ])

  -- One of the same archetype is in the row that moved.
  same_records :
      (s : ℕ)
      → w.archetype_of s ≡ suc k
      → (records s ≡ right_row place_row (w.row_of s))
        × (col (right_row place_row (w.row_of s)) ≡ s)
  same_records s h =
      let su = v.stands s k h in
      let (inside, same) =
        shift_right-right_row old.size place_row (w.row_of s) old.slot_col su.live in
      let there : col (right_row place_row (w.row_of s)) ≡ s = ground (arith, same, su.same) in
      (rw there at (synced (right_row place_row (w.row_of s)) inside), there)

  entered_assigned : (r : ℕ) → r < old.size + 1 → update w.archetype_of slot (suc k) (col r) ≡ suc k
  entered_assigned r p = elim (from r p) [
    | inl t ↦ ground arith
    | inr (r', q, t) ↦ rw t (ground (arith, v.assigned k r' known q))
  ]

  entered-Stands : (s : ℕ) → w.archetype_of s ≡ suc k → Stands entered s k
  entered-Stands s h =
      let su = v.stands s k h in
      let (inside, same) =
        shift_right-right_row old.size place_row (w.row_of s) old.slot_col su.live in
      let (new, there) = same_records s h in
      let kk : (k == k) ≡ true = ground arith in
      record { known = known; live = rw (kk, new) inside; same = rw (kk, new) there }

  entered-Stands_new : Stands entered slot k
  entered-Stands_new =
      let kk : (k == k) ≡ true = ground arith in
      let here : col place_row ≡ slot = ground arith in
      let new : records slot ≡ place_row =
        rw here at (synced place_row (omega (arith, place.inside))) in
      record {
        known = known;
        live = rw (kk, new) (omega (arith, place.inside));
        same = rw (kk, new) here;
      }

  entered-Stands_other : (s k' : ℕ) → w.archetype_of s ≡ suc k' → k' ≢ k → Stands entered s k'
  entered-Stands_other s k' h ne =
      let su = v.stands s k' h in
      let kk : (k == k') ≡ false = ground arith in
      let new = other_records s k' h ne in
      record { known = su.known; live = rw (kk, new) su.live; same = rw (kk, new) su.same }

  entered-Stands_at : (s k' : ℕ) → entered.archetype_of s ≡ suc k' → Stands entered s k'
  entered-Stands_at s k' g = elim (Bool-cases (slot == s)) [
    | inl t ↦
        let this : slot ≡ s = ground arith in
        let here : k ≡ k' = ground arith in
        subst (λ x. Stands entered x k') this
          (subst (λ x. Stands entered slot x) here entered-Stands_new)
    | inr t ↦ elim (Bool-cases (k == k')) [
      | inl u ↦
          let here : k ≡ k' = ground arith in
          subst (λ x. Stands entered s x) here (entered-Stands s (ground arith))
      | inr u ↦ entered-Stands_other s k' (ground arith) (ground arith)
    ]
  ]

  pub entered-Inv : Inv entered
  entered-Inv = record {
    bounded = v.bounded;
    tables = v.tables;
    rows = λ k' p. elim (Bool-cases (k == k')) [
      | inl t ↦ rw t grown-Rows
      | inr t ↦ rw t (
          Rows-records w.capacity w.row_of records (w.archetypes k') (v.rows k' p)
            (λ r q. other_records _ k' (v.assigned k' r p q) (ground arith)))
    ];
    assigned = λ k' r p q. elim (Bool-cases (k == k')) [
      | inl t ↦ rw t (entered_assigned r (rw t at q) ∙ ground arith)
      | inr t ↦ rw t (ground (arith, v.assigned k' r p (rw t at q), absent k' r p (rw t at q)))
    ];
    stands = entered-Stands_at;
  }

  -- The new row is that of the slot, and every other entity has the cells that it had.
  pub entered_row : (entered.archetype_of slot ≡ suc k) × (entered.row_of slot ≡ place_row)
  entered_row =
      let here : col place_row ≡ slot = ground arith in
      (ground arith, rw here at (synced place_row (omega (arith, place.inside))))

  pub entered-cell :
      (s i : ℕ)
      → w.archetype_of s ≢ 0
      → i < (w.archetypes (w.archetype_of s - 1)).sig_count
      → (entered.archetype_of s ≡ w.archetype_of s) × (cell entered s i ≡ cell w s i)
  unfolding cell
  entered-cell s i some_k c =
      let z : (slot == s) ≡ false = ground arith in
      elim (Bool-cases (k == w.archetype_of s - 1)) [
        | inl t ↦
            let m : w.archetype_of s - 1 ≡ k = ground arith in
            let h : w.archetype_of s ≡ suc k = omega arith in
            let (new, there) = same_records s h in
            let kk : (k == k) ≡ true = ground arith in
            let inside : ltb i old.sig_count ≡ true = ground (arith, rw m at c) in
            (
              rw z refl,
              rw (cell, z, m, kk, new, inside)
                  (shift_right-right_row old.size place_row (w.row_of s) (old.columns i)
                    (v.stands s k h).live).1,
            )
        | inr t ↦
            let new = other_records s (w.archetype_of s - 1) (omega arith) (ground arith) in
            (rw z refl, rw (cell, z, t, new) refl)
      ]
