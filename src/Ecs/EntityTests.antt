-- ===== src/Ecs/EntityTests.antt =====
-- The theorems on the entities and the guardrails (src/laige-sim/entity.cpp and guardrails.cpp) at a world of
-- two slots.
use laige_cpp.Prelude.{
  ℕ, ◌+◌, ◌≡◌, refl, arith, false, not, ◌&&◌, ◌||◌, ◌==◌, if◌then◌else◌, [], ◌∷◌,
}
use laige_cpp.Result.{success, done}
use laige_cpp.Ecs.Archetypes.{Archetype, insert_slot, attach_slot, new_archetype, create_archetype}
use laige_cpp.Ecs.Guardrails.{
  Guardrails, init_guardrails, begin_frame, check_all, among, check_entity_budget, check_level,
  check_all-begin_frame,
}
use laige_cpp.Ecs.Entities.{
  Entity, World, is_valid, rejects, create, destroy, fill, blank_world, init,
}
use laige_cpp.Ecs.Entities.Invariant.{WorldInv}
use laige_cpp.Ecs.Entities.Handles.{next_entity, same_entity, create_valid, destroy_valid}
use laige_cpp.Ecs.Entities.History.{
  IsReachable, starts, follows, creates, destroys, extends, attaches, IsReachable-WorldInv,
}

abbrev nothing : Archetype ℕ
nothing = record {
  sig = λ i. 0;
  sig_count = 0;
  fingerprint = 0;
  row_capacity = 0;
  size = 0;
  slot_col = λ r. 0;
  columns = λ i r. 0;
}

abbrev fresh : World ℕ
fresh = fill 2 0 (blank_world nothing 2 256)

fresh_reached : IsReachable 0 nothing 2 256 fresh
unfolding init
fresh_reached = starts fresh refl

fresh-WorldInv : WorldInv fresh
fresh-WorldInv = IsReachable-WorldInv 0 nothing 2 256 fresh fresh_reached

abbrev second : Entity
second = record { id = 1; generation = 1 }

abbrev first : Entity
first = record { id = 0; generation = 1 }

create_valid_example :
    ((create fresh).0 ≡ success (next_entity fresh))
    × (is_valid fresh (next_entity fresh) ≡ false)
    × ((create fresh).1.storage.archetype_of (next_entity fresh).id ≡ 0)
    × (is_valid (create fresh).1 first
        ≡ (is_valid fresh first || same_entity (next_entity fresh) first))
unfolding fill
create_valid_example = create_valid fresh first fresh-WorldInv (omega arith)

-- The second slot is handed out first, gets two components, and is destroyed.
abbrev one_live : World ℕ
one_live = (create fresh).1

abbrev with_pair : World ℕ
with_pair = record one_live { storage = create_archetype 0 (λ i. i + 3) 2 one_live.storage }

abbrev one_placed : World ℕ
one_placed = record with_pair { storage = (attach_slot 0 1 0 with_pair.storage).1 }

one_placed_reached : IsReachable 0 nothing 2 256 one_placed
unfolding fill create create_archetype
one_placed_reached =
    follows with_pair one_placed
      (follows one_live with_pair (follows fresh one_live fresh_reached creates)
        (extends (λ i. i + 3) 2 (omega arith)))
      (attaches 1 0 refl refl (omega arith))

IsReachable-WorldInv_example : WorldInv (destroy second one_placed).1
IsReachable-WorldInv_example =
    IsReachable-WorldInv 0 nothing 2 256 (destroy second one_placed).1
      (follows one_placed (destroy second one_placed).1 one_placed_reached (destroys second))

destroy_valid_example :
    ((destroy second one_placed).0 ≡ done)
    × (is_valid (destroy second one_placed).1 second
        ≡ (is_valid one_placed second && not (second.id == second.id)))
unfolding is_valid rejects create fill attach_slot insert_slot create_archetype new_archetype
destroy_valid_example =
    destroy_valid one_placed second second
      (IsReachable-WorldInv 0 nothing 2 256 one_placed one_placed_reached) refl refl

-- At a capacity of 4 the level of half the capacity is reached by the second entity, twice in a frame.
abbrev four : Guardrails
four = init_guardrails 4 256

check_all-begin_frame_example :
    (check_all (2 ∷ 3 ∷ 2 ∷ []) (begin_frame four)).entity_budget_warns 1
    ≡ four.entity_budget_warns 1
      + (if not (four.entity_threshold 1 == 0) && among (four.entity_threshold 1) (2 ∷ 3 ∷ 2 ∷ [])
          then 1
          else 0)
unfolding init_guardrails
check_all-begin_frame_example =
    check_all-begin_frame (2 ∷ 3 ∷ 2 ∷ []) 1 four (omega arith) (omega arith)

warned_once : (check_all (2 ∷ 3 ∷ 2 ∷ []) (begin_frame four)).entity_budget_warns 1 ≡ 1
unfolding init_guardrails begin_frame check_all check_entity_budget check_level
warned_once = refl
