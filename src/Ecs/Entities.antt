-- ===== src/Ecs/Entities.antt =====
-- src/laige-sim/entity.cpp: the entities of a world, behind handles of 16-bit slots and generations. The
-- arrays are functions of the slot; the messages of the log are left out.
pub mod Invariant
pub mod Handles
pub mod Clear
pub mod History
use laige_cpp.Prelude.{
  ℕ, zero, suc, ◌+◌, ◌*◌, ◌-◌, ◌%◌, ◌^◌, Bool, true, false, not, ◌&&◌, ◌||◌, ltb, ◌==◌,
  if◌then◌else◌, update,
}
use laige_cpp.Result.{
  Result, success, failure, Status, done, failed, ErrorCode, budget_exhausted, invalid_argument,
}
use laige_cpp.Pools.Words.{inc32, dec32, inc64}
use laige_cpp.Ecs.Archetypes.{Archetype, Storage, detach}
use laige_cpp.Ecs.Guardrails.{Guardrails, init_guardrails, check_entity_budget}

pub record Entity : Type 0 where
  pub id : ℕ
  pub generation : ℕ

-- The fields of `World` that entity.cpp uses; `storage` holds the capacity and the archetypes.
pub record World (V : Type 0) : Type 0 where
  pub storage : Storage V
  pub generations : ℕ → ℕ
  pub alive : ℕ → Bool
  pub free_stack : ℕ → ℕ
  pub free_count : ℕ
  pub in_use : ℕ
  pub peak_in_use : ℕ
  pub total_created : ℕ
  pub guardrails : Guardrails
  pub iteration_active : Bool
  pub iteration_archetypes : ℕ → Bool

-- `bumpGeneration` of one generation: 0 is left out.
unfoldable pub bump : ℕ → ℕ
bump g = let next = (g + 1) % 2 ^ 16 in if next == 0 then (next + 1) % 2 ^ 16 else next

module _ {V : Type 0} where
  unfoldable pub is_valid : World V → Entity → Bool
  is_valid w e =
      ltb e.id w.storage.capacity
      && (not (e.generation == 0) && (w.alive e.id && w.generations e.id == e.generation))

  -- `guardStructural` (query.cpp): whether the change is rejected.
  unfoldable pub rejects : World V → ℕ → ℕ → Bool
  rejects w source target =
      w.iteration_active && (w.iteration_archetypes source || w.iteration_archetypes target)

  -- The loop of the factory from slot `i` on, with `left` slots to go.
  unfoldable pub fill : ℕ → ℕ → World V → World V
  fill zero i w = w
  fill (suc left) i w = fill left (i + 1) (record w {
    generations = update w.generations i 1;
    free_stack = update w.free_stack i (i % 2 ^ 16);
    free_count = inc32 w.free_count;
  })

  -- A world without slots on its free stack; `nothing` is the record of no archetype.
  abbrev pub blank_world : Archetype V → ℕ → ℕ → World V
  blank_world nothing capacity churn_budget = record {
    storage = record {
      capacity = capacity;
      archetype_of = λ i. 0;
      row_of = λ i. 0;
      archetypes = λ k. nothing;
      archetype_count = 0;
      total_archetype_growth = 0;
      total_reservations = 0;
      total_row_shifts = 0;
    };
    generations = λ i. 0;
    alive = λ i. false;
    free_stack = λ i. 0;
    free_count = 0;
    in_use = 0;
    peak_in_use = 0;
    total_created = 0;
    guardrails = init_guardrails capacity churn_budget;
    iteration_active = false;
    iteration_archetypes = λ k. false;
  }

  -- The factory, `World::create(Options)`.
  unfoldable pub init : Archetype V → ℕ → ℕ → Result (World V)
  init nothing capacity churn_budget =
      if ltb 65536 capacity
      then failure invalid_argument
      else success (fill capacity 0 (blank_world nothing capacity churn_budget))

  -- `create`.
  unfoldable pub create : World V → Result Entity × World V
  create w =
      if w.free_count == 0
      then (failure budget_exhausted, w)
      else (let top = dec32 w.free_count in
          let slot = w.free_stack top in
          let used = inc32 w.in_use in
          (
            success (record { id = slot; generation = w.generations slot }),
            record w {
              storage = record w.storage {
                archetype_of = update w.storage.archetype_of slot 0;
                row_of = update w.storage.row_of slot 0;
              };
              alive = update w.alive slot true;
              free_count = top;
              in_use = used;
              peak_in_use = (if ltb w.peak_in_use used then used else w.peak_in_use);
              total_created = inc64 w.total_created;
              guardrails = check_entity_budget used w.guardrails;
            },
          ))

  -- What `destroy` does to one live slot.
  unfoldable pub release : ℕ → World V → World V
  release slot w = record w {
    storage = detach slot w.storage;
    alive = update w.alive slot false;
    generations = update w.generations slot (bump (w.generations slot));
    free_stack = update w.free_stack w.free_count slot;
    free_count = inc32 w.free_count;
  }

  unfoldable pub destroy : Entity → World V → Status × World V
  destroy e w =
      if not (is_valid w e)
      then (failed invalid_argument, w)
      else if rejects w (w.storage.archetype_of e.id) 0
      then (failed invalid_argument, w)
      else (done, (let r = release e.id w in record r { in_use = dec32 r.in_use }))

  -- `guardClear`, from archetype `i` on with `left` to go: whether `clear` is rejected.
  unfoldable pub rejects_clear : ℕ → ℕ → World V → Bool
  rejects_clear zero i w = false
  rejects_clear (suc left) i w =
      let later = rejects_clear left (i + 1) w in
      if w.iteration_archetypes (i + 1) && ltb 0 (w.storage.archetypes i).size then true else later

  -- The slot in `clear`, which resets both records in any case.
  unfoldable pub clear_slot : ℕ → World V → World V
  clear_slot slot w =
      let r = release slot w in
      record r {
        storage = record r.storage {
          archetype_of = update r.storage.archetype_of slot 0;
          row_of = update r.storage.row_of slot 0;
        };
      }

  -- The loop of `clear` from slot `i` on, with `left` slots to go.
  unfoldable pub clear_from : ℕ → ℕ → World V → World V
  clear_from zero i w = w
  clear_from (suc left) i w = clear_from left (i + 1) (if w.alive i then clear_slot i w else w)

  unfoldable pub clear : World V → Status × World V
  clear w =
      if w.iteration_active && rejects_clear w.storage.archetype_count 0 w
      then (failed invalid_argument, w)
      else (done, (let r = clear_from w.storage.capacity 0 w in record r { in_use = 0 }))
