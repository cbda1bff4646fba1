-- ===== src/Ecs/Archetypes/Records.antt =====
-- The records of the slots of a world (`archetypeOf_` and `rowOf_` of src/laige-sim/entity.cpp) when a slot
-- leaves its archetype or is reset.
use laige_cpp.Prelude.{
  ℕ, ◌*◌, ◌%◌, ◌^◌, min, leb, ◌<◌, ◌≡◌, ◌≢◌, refl, arith, false, Bool-cases, inl, inr, ◌==◌,
  if◌then◌else◌, update,
}
use laige_cpp.Ecs.Archetypes.{Storage, remove_row, detach, grow_archetype, insert_slot, attach_slot}
use laige_cpp.Ecs.Archetypes.Invariant.{Inv}
use laige_cpp.Ecs.Archetypes.Removal.{Rows-records}

pub detach-archetype_of :
    {V : Type 0} (slot s : ℕ) (w : Storage V)
    → (detach slot w).archetype_of s ≡ (if slot == s then 0 else w.archetype_of s)
unfolding detach remove_row
detach-archetype_of slot s w = elim (Bool-cases (w.archetype_of slot == 0)) [
  | inl t ↦ rw t (ground arith)
  | inr t ↦ rw t refl
]

pub detach-capacity :
    {V : Type 0} (slot : ℕ) (w : Storage V) → (detach slot w).capacity ≡ w.capacity
unfolding detach remove_row
detach-capacity slot w = elim (Bool-cases (w.archetype_of slot == 0)) [
  | inl t ↦ rw t refl
  | inr t ↦ rw t refl
]

-- The records of a slot that is in no archetype do not matter.
pub reset-Inv :
    {V : Type 0} (slot : ℕ) (w : Storage V)
    → Inv w
    → w.archetype_of slot ≡ 0
    → Inv
        (record w { archetype_of = update w.archetype_of slot 0; row_of = update w.row_of slot 0 })
reset-Inv slot w v e =
    let absent : (k r : ℕ)
        → k < w.archetype_count
        → r < (w.archetypes k).size
        → (slot == (w.archetypes k).slot_col r) ≡ false =
      λ k r p q. ground (arith, v.assigned k r p q) in
    record {
      bounded = v.bounded;
      tables = v.tables;
      rows = λ k p.
          Rows-records w.capacity w.row_of _ (w.archetypes k) (v.rows k p)
            (λ r q. rw (absent k r p q) refl);
      assigned = λ k r p q. rw (absent k r p q) (v.assigned k r p q);
      stands = λ s k g.
          let z : (slot == s) ≡ false = ground arith in
          let su = v.stands s k (rw z at g) in
          record { known = su.known; live = rw z su.live; same = rw z su.same };
    }

-- A slot that enters an archetype changes no other slot's archetype.
pub attach_slot-archetype_of :
    {V : Type 0} (blank : V) (slot k s : ℕ) (w : Storage V)
    → s ≢ slot
    → ((attach_slot blank slot k w).1.archetype_of s ≡ w.archetype_of s)
      × ((attach_slot blank slot k w).1.capacity ≡ w.capacity)
unfolding attach_slot insert_slot grow_archetype
attach_slot-archetype_of blank slot k s w ne =
    let z : (slot == s) ≡ false = ground arith in
    let a = w.archetypes k in
    elim (Bool-cases (a.size == a.row_capacity)) [
      | inr t ↦ rw (t, z) (refl, refl)
      | inl t ↦
          elim (Bool-cases (leb (min w.capacity (a.row_capacity * 2 % 2 ^ 32)) a.row_capacity)) [
            | inl u ↦ rw (t, u) (refl, refl)
            | inr u ↦ rw (t, u, z) (refl, refl)
          ]
    ]
