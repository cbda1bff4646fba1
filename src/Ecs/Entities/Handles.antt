-- ===== src/Ecs/Entities/Handles.antt =====
-- What handles are valid after `create` and `destroy` (src/laige-sim/entity.cpp).
use laige_cpp.Prelude.{◌-◌, ◌<◌, ◌≡◌, refl, arith, Bool, true, false, not, ◌&&◌, ◌||◌, ◌==◌}
use laige_cpp.Result.{success, failure, done, budget_exhausted}
use laige_cpp.Pools.Words.{dec32}
use laige_cpp.Ecs.Archetypes.Records.{detach-capacity}
use laige_cpp.Ecs.Entities.{Entity, World, is_valid, rejects, create, release, destroy}
use laige_cpp.Ecs.Entities.Invariant.{WorldInv}

-- The handle that the next `create` hands out.
abbrev pub next_entity : {V : Type 0} → World V → Entity
next_entity w = record {
  id = w.free_stack (w.free_count - 1);
  generation = w.generations (w.free_stack (w.free_count - 1));
}

abbrev pub same_entity : Entity → Entity → Bool
same_entity e f = e.id == f.id && e.generation == f.generation

module _ {V : Type 0} where
  -- With the invariant and room, `create` succeeds with a handle that was not valid and now is, of an
  -- entity without components; every other handle is valid as before.
  pub create_valid :
      (w : World V) (f : Entity)
      → WorldInv w
      → w.in_use < w.storage.capacity
      → ((create w).0 ≡ success (next_entity w))
        × (is_valid w (next_entity w) ≡ false)
        × ((create w).1.storage.archetype_of (next_entity w).id ≡ 0)
        × (is_valid (create w).1 f ≡ (is_valid w f || same_entity (next_entity w) f))
  unfolding create is_valid
  create_valid w f v room =
      let t : (w.free_count == 0) ≡ false = ground (arith, v.using, v.counted) in
      let top : dec32 w.free_count ≡ w.free_count - 1 =
        ground (arith, v.counted, v.store.bounded) in
      let slot = w.free_stack (w.free_count - 1) in
      let dead = v.stacked (w.free_count - 1) (ground arith) in
      let number = v.numbered slot dead.0 in
      rw (t, top) (refl, ground (arith, dead), ground arith, ground (arith, dead, number))

  -- Without, it fails and changes nothing.
  pub create_full :
      (w : World V)
      → WorldInv w
      → w.in_use ≡ w.storage.capacity
      → create w ≡ (failure budget_exhausted, w)
  unfolding create
  create_full w v full =
      let t : (w.free_count == 0) ≡ true = ground (arith, v.using, v.counted) in rw t refl

  -- With the invariant, a valid handle whose archetype no iteration holds is destroyed: no handle of its
  -- slot is valid then, and every other is as before.
  pub destroy_valid :
      (w : World V) (e f : Entity)
      → WorldInv w
      → is_valid w e ≡ true
      → rejects w (w.storage.archetype_of e.id) 0 ≡ false
      → ((destroy e w).0 ≡ done)
        × (is_valid (destroy e w).1 f ≡ (is_valid w f && not (e.id == f.id)))
  unfolding destroy release is_valid
  destroy_valid w e f v t u =
      let same = detach-capacity e.id w.storage in rw (t, u) (refl, rw same ground arith)
