-- ===== src/Ecs/Entities/Invariant.antt =====
-- The invariant of the entities of a world (src/laige-sim/entity.cpp), and that `create` and `destroy` keep
-- it.
use laige_cpp.Prelude.{
  ℕ, ◌+◌, ◌-◌, ◌%◌, ◌^◌, ◌≤◌, ◌<◌, ◌≡◌, ◌≢◌, ◌↔◌, arith, true, false, Bool-cases, inl, inr, ◌==◌,
}
use laige_cpp.Prelude.Marks.{live_count, live_count-update}
use laige_cpp.Pools.Words.{inc32, dec32}
use laige_cpp.Ecs.Archetypes.{Storage, detach}
use laige_cpp.Ecs.Archetypes.Invariant.{Stands}
use laige_cpp.Ecs.Archetypes.Detach.{detach-Inv}
use laige_cpp.Ecs.Archetypes.Records.{detach-archetype_of, detach-capacity, reset-Inv}
use laige_cpp.Ecs.Entities.{Entity, World, bump, is_valid, rejects, create, release, destroy}

-- A generation is never 0 again, and never the one before.
pub bump_bounds : (g : ℕ) → g < 2 ^ 16 → (1 ≤ bump g) × (bump g < 2 ^ 16) × (bump g ≢ g)
unfolding bump
bump_bounds g l = elim (Bool-cases ((g + 1) % 2 ^ 16 == 0)) [
  | inl t ↦ rw t (ground arith)
  | inr t ↦ rw t (ground arith)
]

-- What the arrays satisfy, whatever the counters of use say.
pub record SlotsInv {V : Type 0} (w : World V) : Type 0 where
  pub store : laige_cpp.Ecs.Archetypes.Invariant.Inv w.storage
  pub counted : w.free_count + live_count w.storage.capacity w.alive ≡ w.storage.capacity
  pub stacked :
      (k : ℕ)
      → k < w.free_count
      → (w.free_stack k < w.storage.capacity) × (w.alive (w.free_stack k) ≡ false)
  pub distinct :
      (j k : ℕ) → j < w.free_count → k < w.free_count → w.free_stack j ≡ w.free_stack k → j ≡ k
  pub bare : (i : ℕ) → w.alive i ≡ false → w.storage.archetype_of i ≡ 0
  pub held : (i : ℕ) → w.alive i ≡ true → i < w.storage.capacity
  pub numbered :
      (i : ℕ) → i < w.storage.capacity → (1 ≤ w.generations i) × (w.generations i < 2 ^ 16)

-- Every slot is alive, or dead, in no archetype and on the free stack once; no generation is 0; the
-- counters count, and stay within the capacity; the archetype storage has its invariant.
pub record WorldInv {V : Type 0} (w : World V) : Type 0 where
  pub slots : SlotsInv w
  pub open slots use *
  pub using : w.in_use ≡ live_count w.storage.capacity w.alive
  pub fits : w.in_use ≤ w.peak_in_use
  pub peak_fits : w.peak_in_use ≤ w.storage.capacity

module _ {V : Type 0} where
  pub is_valid_iff :
      (w : World V) (e : Entity)
      → (is_valid w e ≡ true) ↔ (
          (e.id < w.storage.capacity)
          × (e.generation ≢ 0)
          × (w.alive e.id ≡ true)
          × (w.generations e.id ≡ e.generation))
  unfolding is_valid
  is_valid_iff w e = ground arith

  -- The arrays' invariant does not read the counters of use.
  pub recount : {w : World V} (n : ℕ) → SlotsInv w → SlotsInv (record w { in_use = n })
  recount n v = record {
    store = v.store;
    counted = v.counted;
    stacked = v.stacked;
    distinct = v.distinct;
    bare = v.bare;
    held = v.held;
    numbered = v.numbered;
  }

  -- `create` keeps the invariant.
  pub create-WorldInv : (w : World V) → WorldInv w → WorldInv (create w).1
  unfolding create
  create-WorldInv w v = elim (Bool-cases (w.free_count == 0)) [
    | inl t ↦ rw t v
    | inr t ↦
        let small = v.store.bounded in
        let top : dec32 w.free_count ≡ w.free_count - 1 = ground (arith, v.counted, small) in
        let slot = w.free_stack (w.free_count - 1) in
        let dead = v.stacked (w.free_count - 1) (ground arith) in
        let count = live_count-update w.storage.capacity w.alive slot true in
        let used : inc32 w.in_use ≡ w.in_use + 1 = ground (arith, v.using, v.counted, small) in
        rw (t, top, used)
          (record {
            slots = record {
              store = reset-Inv slot w.storage v.store (v.bare slot dead.1);
              counted = ground (arith, v.counted, count, dead);
              stacked = λ k h. ground (arith, v.stacked k, v.distinct k (w.free_count - 1));
              distinct = λ j k h l e. ground (arith, v.distinct j k);
              bare = λ k e. ground (arith, v.bare k);
              held = λ k e. elim (Bool-cases (slot == k)) [
                | inl u ↦ ground (arith, dead)
                | inr u ↦ v.held k (rw u at e)
              ];
              numbered = v.numbered;
            };
            using = ground (arith, v.using, count, dead);
            fits = ground (arith, v.fits);
            peak_fits = ground (arith, v.peak_fits, v.using, v.counted, count, dead);
          })
  ]

  pub release-SlotsInv :
      (i : ℕ) (w : World V) → w.alive i ≡ true → SlotsInv w → SlotsInv (release i w)
  unfolding release
  release-SlotsInv i w on v =
      let inside = v.held i on in
      let count = live_count-update w.storage.capacity w.alive i false in
      let grown : inc32 w.free_count ≡ w.free_count + 1 =
        ground (arith, v.counted, v.store.bounded, count) in
      let same = detach-capacity i w.storage in
      let next = bump_bounds (w.generations i) (v.numbered i inside).1 in
      record {
        store = detach-Inv i w.storage v.store;
        counted = rw same (ground (arith, v.counted, count, grown));
        stacked = λ k h. rw same (ground (arith, v.stacked k, grown));
        distinct = λ j k h l e. ground (arith, v.distinct j k, v.stacked j, v.stacked k, grown);
        bare = λ k e. rw (detach-archetype_of i k w.storage) (ground (arith, v.bare k));
        held = λ k e. rw same (ground (arith, v.held k));
        numbered = λ k l. ground (arith, v.numbered k (rw same at l), next);
      }

  pub release-count :
      (i : ℕ) (w : World V)
      → w.alive i ≡ true
      → SlotsInv w
      → ((release i w).storage.capacity ≡ w.storage.capacity)
        × (live_count w.storage.capacity (release i w).alive + 1
            ≡ live_count w.storage.capacity w.alive)
  unfolding release
  release-count i w on v = (
    detach-capacity i w.storage,
    ground (arith, live_count-update w.storage.capacity w.alive i false, v.held i on),
  )

  -- `destroy` keeps the invariant, whatever it answers.
  pub destroy-WorldInv : (e : Entity) (w : World V) → WorldInv w → WorldInv (destroy e w).1
  unfolding destroy release
  destroy-WorldInv e w v = elim (Bool-cases (is_valid w e)) [
    | inr t ↦ rw t v
    | inl t ↦ elim (Bool-cases (rejects w (w.storage.archetype_of e.id) 0)) [
      | inl u ↦ rw (t, u) v
      | inr u ↦
          let on = ((is_valid_iff w e).0 t).2 in
          let (same, count) = release-count e.id w on v.slots in
          let fewer : dec32 w.in_use + 1 ≡ w.in_use =
            ground (arith, v.using, count, v.counted, v.store.bounded) in
          rw (t, u)
            (record {
              slots = recount _ (release-SlotsInv e.id w on v.slots);
              using = rw same (ground (arith, v.using, count, fewer));
              fits = ground (arith, v.fits, fewer);
              peak_fits = rw same v.peak_fits;
            })
    ]
  ]
