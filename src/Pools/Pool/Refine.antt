-- ===== src/Pools/Pool/Refine.antt =====
-- What the operations of the slot pool do to the map from handles to elements.
use laige_cpp.Prelude.{
  ℕ, ◌+◌, ◌-◌, ◌<◌, ◌≡◌, ◌≢◌, refl, arith, Bool, true, false, ◌&&◌, ◌==◌, if◌then◌else◌, some, none,
}
use laige_cpp.Result.{success, failure, done, failed, budget_exhausted, invalid_argument}
use laige_cpp.Pools.Words.{inc32, dec32}
use laige_cpp.Pools.Pool.{Pool, PoolHandle, is_valid, create, free_slot, destroy, get}
use laige_cpp.Pools.Pool.Invariant.{Inv, is_valid_iff, free_slot-count}

-- `operator==` on handles.
abbrev pub same : PoolHandle → PoolHandle → Bool
same h k = h.index == k.index && h.generation == k.generation

module _ {A : Type 0} where
  -- The handle that `create` hands out when a slot is free.
  unfoldable pub next_handle : Pool A → PoolHandle
  next_handle p = record {
    index = p.free_stack (p.free_count - 1);
    generation = p.generations (p.free_stack (p.free_count - 1));
  }

  create-success :
      (a : A) (p : Pool A) → Inv p → p.free_count ≢ 0 → (create a p).0 ≡ success (next_handle p)
  unfolding create next_handle
  create-success a p v ne =
      let t : (p.free_count == 0) ≡ false = ground arith in
      let top : dec32 p.free_count ≡ p.free_count - 1 = ground (arith, v.counted, v.bounded) in
      rw (t, top)

  -- `create` fails exactly when the whole budget is in use, and then changes nothing; else it
  -- hands out a handle.
  pub create_cases :
      (a : A) (p : Pool A)
      → Inv p
      → (p.in_use ≡ p.capacity → create a p ≡ (failure budget_exhausted, p))
        × (p.in_use ≢ p.capacity → (create a p).0 ≡ success (next_handle p))
  create_cases a p v = (full, λ ne. create-success a p v (ground (arith, v.using, v.counted)))
    where
      full : p.in_use ≡ p.capacity → create a p ≡ (failure budget_exhausted, p)
      full e =
          let t : (p.free_count == 0) ≡ true = ground (arith, v.using, v.counted) in
          unfold create in rw t

  -- With room, and where the slot on top of the free stack has a generation other than 0, `create` returns a
  -- handle of that slot and generation, under which the new element is found; no other handle is
  -- affected, and that handle read nothing before.
  pub get-create :
      (a : A) (p : Pool A) (h : PoolHandle)
      → Inv p
      → p.in_use ≢ p.capacity
      → (next_handle p).generation ≢ 0
      → ((create a p).0 ≡ success (next_handle p))
        × (get (create a p).1 h ≡ (if same h (next_handle p) then some a else get p h))
        × (get p (next_handle p) ≡ none)
  unfolding create next_handle get is_valid
  get-create a p h v room gen =
      let ne : p.free_count ≢ 0 = ground (arith, v.using, v.counted) in
      let t : (p.free_count == 0) ≡ false = ground arith in
      let top : dec32 p.free_count ≡ p.free_count - 1 = ground (arith, v.counted, v.bounded) in
      let dead = v.stacked (p.free_count - 1) (omega arith) in
      rw (t, top) (refl, ground (arith, dead), ground (arith, dead))

  get-free_slot :
      (p : Pool A) (h k : PoolHandle) (n : ℕ)
      → (h.index < p.capacity)
        × (h.generation ≢ 0)
        × (p.alive h.index ≡ true)
        × (p.generations h.index ≡ h.generation)
      → get (record (free_slot h.index p) { in_use = n }) k ≡ (if same k h then none else get p k)
  unfolding get is_valid free_slot
  get-free_slot p h k n t = ground arith

  -- `destroy` fails exactly on a handle that is not valid, and then changes nothing; else that
  -- handle is gone and no other handle is affected.
  pub get-destroy :
      (p : Pool A) (h k : PoolHandle)
      → Inv p
      → (is_valid p h ≡ false → destroy h p ≡ (failed invalid_argument, p))
        × (is_valid p h ≡ true
            → ((destroy h p).0 ≡ done)
              × (get (destroy h p).1 k ≡ (if same k h then none else get p k)))
  unfolding destroy
  get-destroy p h k v =
      (λ t. rw t, λ t. rw t (refl, get-free_slot p h k _ ((is_valid_iff p h).0 t)))

  -- Slots are recycled last in, first out: after `destroy` the next handle is that slot's, with
  -- the next generation.
  pub next_handle-destroy :
      (p : Pool A) (h : PoolHandle)
      → Inv p
      → is_valid p h ≡ true
      → next_handle (destroy h p).1 ≡ record { index = h.index; generation = inc32 h.generation }
  unfolding destroy free_slot next_handle
  next_handle-destroy p h v t =
      let valid = (is_valid_iff p h).0 t in
      rw t (ground (arith, valid, v.counted, v.bounded, free_slot-count h.index p valid.2 v.slots))

  -- A slot whose generation has wrapped to 0 gets a handle that is not valid, so the new element
  -- can be neither read nor destroyed.
  pub create_wrapped :
      (a : A) (p : Pool A)
      → Inv p
      → p.in_use ≢ p.capacity
      → (next_handle p).generation ≡ 0
      → ((create a p).0 ≡ success (next_handle p))
        × (get (create a p).1 (next_handle p) ≡ none)
        × (destroy (next_handle p) (create a p).1 ≡ (failed invalid_argument, (create a p).1))
        × ((create a p).1.in_use ≡ p.in_use + 1)
  create_wrapped a p v room gen =
      let used : (create a p).1.in_use ≡ p.in_use + 1 =
        unfold create in ground (arith, v.using, v.counted, v.bounded) in
      let lost : is_valid (create a p).1 (next_handle p) ≡ false =
        unfold is_valid in ground (arith, gen) in
      ((create_cases a p v).1 room, unfold get in rw lost, unfold destroy in rw lost, used)
