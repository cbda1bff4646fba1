-- ===== src/Ecs/Archetypes/Attach.antt =====
-- `attachSlot` of src/laige-sim/archetype.cpp, with the growth of the archetype: it always succeeds.
use laige_cpp.Prelude.{
  ℕ, suc, ◌+◌, ◌-◌, ◌*◌, ◌%◌, ◌^◌, min, ◌<◌, ◌≡◌, ◌≢◌, inl, inr, refl, sym, ap, ◌∙◌, arith, true,
  false, Bool-cases, leb, ltb, ◌==◌, if◌then◌else◌, Option, some, update,
}
use laige_cpp.Ecs.Archetypes.{Archetype, Storage, kept, grow_archetype, insert_slot, attach_slot}
use laige_cpp.Ecs.Archetypes.Invariant.{Rows, Inv, absent_room}
use laige_cpp.Ecs.Archetypes.Detach.{cell}
use laige_cpp.Ecs.Archetypes.Insert.{insert_slot-entered, entered-Inv, entered_row, entered-cell}

module _ {V : Type 0} (blank : V) (w : Storage V) (k : ℕ) (v : Inv w)
    (known : k < w.archetype_count) (tight : (w.archetypes k).size ≡ (w.archetypes k).row_capacity)
    (wide : (w.archetypes k).size < w.capacity) where
  abbrev old : Archetype V
  old = w.archetypes k

  abbrev more : ℕ
  more = min w.capacity (old.row_capacity * 2 % 2 ^ 32)

  abbrev grown : Archetype V
  grown = record old {
    slot_col = kept blank old.size 0 old.slot_col;
    columns = λ i.
        if ltb i old.sig_count then kept blank old.size blank (old.columns i) else old.columns i;
    row_capacity = more;
  }

  abbrev bigger : Storage V
  bigger = record w {
    archetypes = update w.archetypes k grown;
    total_archetype_growth = (w.total_archetype_growth + 1) % 2 ^ 64;
    total_reservations = (w.total_reservations + (1 + old.sig_count)) % 2 ^ 64;
  }

  more_rows : old.size < more
  more_rows = let h = v.rows k known in omega (arith, v.bounded, h.some_room)

  grow_archetype-bigger : grow_archetype blank k w ≡ some bigger
  unfolding grow_archetype
  grow_archetype-bigger =
      let t : leb more old.row_capacity ≡ false = ground (arith, more_rows) in rw t refl

  grown-Rows : Rows w.capacity w.row_of grown
  grown-Rows =
      let h = v.rows k known in
      record {
        fits = omega (arith, more_rows);
        some_room = omega (arith, more_rows);
        ascending = λ i j p q. ground (arith, h.ascending i j p q);
        inside = λ r p. ground (arith, h.inside r);
        synced = λ r p. let t : ltb r old.size ≡ true = ground arith in rw t (h.synced r p);
      }

  bigger-Inv : Inv bigger
  bigger-Inv = record {
    bounded = v.bounded;
    tables = v.tables;
    rows = λ k' p. elim (Bool-cases (k == k')) [
      | inl t ↦ rw t grown-Rows
      | inr t ↦ rw t (v.rows k' p)
    ];
    assigned = λ k' r p q. elim (Bool-cases (k == k')) [
      | inl t ↦
          let q' : r < old.size = rw t at q in
          let inside : ltb r old.size ≡ true = ground arith in
          rw (t, inside) (v.assigned k r known q' ∙ ground arith)
      | inr t ↦ rw t (v.assigned k' r p (rw t at q))
    ];
    stands = λ s k' g. elim (Bool-cases (k == k')) [
      | inl t ↦
          let su = v.stands s k (ground arith) in
          let inside : ltb (w.row_of s) old.size ≡ true = ground (arith, su.live) in
          record { known = ground arith; live = rw t su.live; same = rw (t, inside) su.same }
      | inr t ↦
          let su = v.stands s k' g in
          record { known = su.known; live = rw t su.live; same = rw t su.same }
    ];
  }

  bigger-cell :
      (s i : ℕ)
      → w.archetype_of s ≢ 0
      → i < (w.archetypes (w.archetype_of s - 1)).sig_count
      → cell bigger s i ≡ cell w s i
  unfolding cell
  bigger-cell s i some_k c = elim (Bool-cases (k == w.archetype_of s - 1)) [
    | inl t ↦
        let m : w.archetype_of s - 1 ≡ k = ground arith in
        let kk : (k == k) ≡ true = ground arith in
        let su = v.stands s k (omega arith) in
        let inside : ltb (w.row_of s) old.size ≡ true = ground (arith, su.live) in
        let column : ltb i old.sig_count ≡ true = ground (arith, rw m at c) in
        rw (cell, m, kk, column, inside) refl
    | inr t ↦ rw (cell, t) refl
  ]

-- A slot that was in no archetype is in one, at the row that is returned; the other entities are
-- where they were.
record Attached {V : Type 0} (w : Storage V) (slot k : ℕ) (r : Option ℕ × Storage V) : Type 0 where
  pub found : r.0 ≡ some (r.1.row_of slot)
  pub there : r.1.archetype_of slot ≡ suc k
  pub inv : Inv r.1
  pub others :
      (s i : ℕ)
      → w.archetype_of s ≢ 0
      → i < (w.archetypes (w.archetype_of s - 1)).sig_count
      → (r.1.archetype_of s ≡ w.archetype_of s) × (cell r.1 s i ≡ cell w s i)

module _ {V : Type 0} (blank : V) (slot k : ℕ) (w : Storage V) (v : Inv w) (l : slot < w.capacity)
    (known : k < w.archetype_count) (e : w.archetype_of slot ≡ 0) where
  wide : (w.archetypes k).size < w.capacity
  wide =
      let h = v.rows k known in
      absent_room w.capacity (w.archetypes k).size slot (w.archetypes k).slot_col h.ascending
        h.inside l (λ r p. λ same. absurd (ground (arith, rw same at (v.assigned k r known p))))

  Attached-roomy :
      (w.archetypes k).size < (w.archetypes k).row_capacity
      → Attached w slot k (let (row, h) = insert_slot slot k w in (some row, h))
  Attached-roomy room =
      let (there, row) = entered_row w slot k v l known e room in
      rw (insert_slot-entered w slot k v l known e room) (record {
        found = ap some (sym row);
        there = there;
        inv = entered-Inv w slot k v l known e room;
        others = entered-cell w slot k v l known e room;
      })

  module _ (tight : (w.archetypes k).size ≡ (w.archetypes k).row_capacity) where
    abbrev base : Storage V
    base = bigger blank w k v known tight wide

    base_room : (base.archetypes k).size < (base.archetypes k).row_capacity
    base_room =
        let kk : (k == k) ≡ true = ground arith in rw kk (more_rows blank w k v known tight wide)

    base_columns : (j : ℕ) → (base.archetypes j).sig_count ≡ (w.archetypes j).sig_count
    base_columns j = elim (Bool-cases (k == j)) [
      | inl t ↦ let here : k ≡ j = ground arith in rw t (ap (λ x. (w.archetypes x).sig_count) here)
      | inr t ↦ rw t refl
    ]

    Attached-tight : Attached w slot k (let (row, h) = insert_slot slot k base in (some row, h))
    Attached-tight =
        let bv = bigger-Inv blank w k v known tight wide in
        let (there, row) = entered_row base slot k bv l known e base_room in
        rw (insert_slot-entered base slot k bv l known e base_room) (record {
          found = ap some (sym row);
          there = there;
          inv = entered-Inv base slot k bv l known e base_room;
          others = λ s i some_k c.
              let (kept_at, same) =
                entered-cell base slot k bv l known e base_room s i some_k
                  (omega (arith, base_columns (w.archetype_of s - 1))) in
              (kept_at, same ∙ bigger-cell blank w k v known tight wide s i some_k c);
        })

  attach_slot-Attached : Attached w slot k (attach_slot blank slot k w)
  unfolding attach_slot
  attach_slot-Attached =
      elim (Bool-cases ((w.archetypes k).size == (w.archetypes k).row_capacity)) [
        | inl t ↦
            let tight : (w.archetypes k).size ≡ (w.archetypes k).row_capacity = ground arith in
            rw (t, grow_archetype-bigger blank w k v known tight wide) (Attached-tight tight)
        | inr t ↦ rw t (Attached-roomy (ground (arith, (v.rows k known).fits)))
      ]

-- With the invariant, a slot of the world that is in no archetype always finds a row, full archetypes
-- included: it is then in the archetype, `rowOf_` has the row that is returned, and the invariant is
-- kept.
pub attach_slot-Inv :
    {V : Type 0} (blank : V) (slot k : ℕ) (w : Storage V)
    → Inv w
    → slot < w.capacity
    → k < w.archetype_count
    → w.archetype_of slot ≡ 0
    → ((attach_slot blank slot k w).0 ≡ some ((attach_slot blank slot k w).1.row_of slot))
      × ((attach_slot blank slot k w).1.archetype_of slot ≡ suc k)
      × Inv (attach_slot blank slot k w).1
attach_slot-Inv blank slot k w v l known e =
    let r = attach_slot-Attached blank slot k w v l known e in (r.found, r.there, r.inv)

-- With the invariant, when a slot that is in no archetype enters one, every other entity that is in an
-- archetype stays in it, with the components that it had.
pub attach_slot-cell :
    {V : Type 0} (blank : V) (slot k s i : ℕ) (w : Storage V)
    → Inv w
    → slot < w.capacity
    → k < w.archetype_count
    → w.archetype_of slot ≡ 0
    → w.archetype_of s ≢ 0
    → i < (w.archetypes (w.archetype_of s - 1)).sig_count
    → ((attach_slot blank slot k w).1.archetype_of s ≡ w.archetype_of s)
      × (cell (attach_slot blank slot k w).1 s i ≡ cell w s i)
attach_slot-cell blank slot k s i w v l known e some_k c =
    (attach_slot-Attached blank slot k w v l known e).others s i some_k c
