-- ===== src/Systems/Schedule.antt =====
-- `World::scheduleSystems` (src/laige-sim/systems.cpp): the dependencies of the systems by id, and their order.
pub mod Names
pub mod Table
pub mod Writers
pub mod Order
pub mod Placed
use laige_cpp.Prelude.{
  ℕ, zero, suc, ◌+◌, Bool, true, false, not, ◌&&◌, ◌||◌, ltb, ◌==◌, if◌then◌else◌, List, [], ◌∷◌,
  update,
}
use laige_cpp.Result.{invalid_argument, Result, success, failure, Status, done, failed}
use laige_cpp.Systems.{Systems, SystemSchedule, contains, find_system, max_component_types}
use laige_cpp.Systems.Deps.{spec_ok, parse_dep_spec, ParsedSpec}
use laige_cpp.Systems.Kahn.{Placing, topological_sort}

-- An id, if it was found, before the others.
abbrev pub cons_id : ℕ → Result (List ℕ) → Result (List ℕ)
cons_id zero rest = failure invalid_argument
cons_id (suc i) (success ids) = success (suc i ∷ ids)
cons_id (suc i) (failure e) = failure e

abbrev pub then_row :
    ((ℕ → List ℕ) → Result (ℕ → List ℕ)) → ℕ → (ℕ → List ℕ) → Result (List ℕ) → Result (ℕ → List ℕ)
then_row next i rows (success ids) = next (update rows i ids)
then_row next i rows (failure e) = failure e

module _ {W : Type 0} where
  -- The ids of the names that a system depends on, in the order of its spec.
  unfoldable pub resolve_names : Systems W → List (List ℕ) → Result (List ℕ)
  resolve_names s [] = success []
  resolve_names s (t ∷ ts) = cons_id (find_system s.system_count 0 s t) (resolve_names s ts)

  abbrev pub resolve_parsed : Systems W → ParsedSpec → Result (List ℕ)
  resolve_parsed s (spec_ok, names) = resolve_names s names
  resolve_parsed s (_, names) = failure invalid_argument

  -- `depIds` with `depCount`, from row `i` on.
  unfoldable pub resolve_from : ℕ → ℕ → Systems W → (ℕ → List ℕ) → Result (ℕ → List ℕ)
  resolve_from zero i s rows = success rows
  resolve_from (suc left) i s rows =
      then_row (resolve_from left (i + 1) s) i rows
        (resolve_parsed s (parse_dep_spec (s.systems i).def.depends_on))

  -- The systems that write component `c`, from index `i` on: the first two, `first` being the first of
  -- those before; 0 stands for none.
  unfoldable pub second_writer : ℕ → ℕ → Systems W → ℕ → ℕ → ℕ
  second_writer zero i s c first = 0
  second_writer (suc left) i s c first =
      let writes = contains (s.systems i).write_components c in
      let later = second_writer left (i + 1) s c (if writes && first == 0 then suc i else first) in
      if writes && not (first == 0) then suc i else later

  -- Whether a component from `c` on has two writers.
  unfoldable pub has_double_writer : ℕ → ℕ → Systems W → Bool
  has_double_writer zero c s = false
  has_double_writer (suc left) c s =
      let later = has_double_writer left (c + 1) s in
      if second_writer s.system_count 0 s c 0 == 0 then later else true

  abbrev pub schedule_of : Systems W → (ℕ → ℕ) → SystemSchedule
  schedule_of s order = record { system_count = s.system_count; order = order }

  abbrev pub schedule_sorted : Systems W → Placing → Status × SystemSchedule
  schedule_sorted s st =
      if ltb st.placed s.system_count
      then (failed invalid_argument, schedule_of s st.order)
      else if has_double_writer max_component_types 1 s
      then (failed invalid_argument, schedule_of s st.order)
      else (done, schedule_of s st.order)

  abbrev pub schedule_resolved : Systems W → Result (ℕ → List ℕ) → Status × SystemSchedule
  schedule_resolved s (failure e) = (failed e, schedule_of s (λ k. 0))
  schedule_resolved s (success dep_ids) =
      schedule_sorted s (topological_sort dep_ids s.system_count (λ k. 0))

  unfoldable pub schedule_systems : Systems W → Status × SystemSchedule
  schedule_systems s =
      if s.system_count == 0
      then (done, schedule_of s (λ k. 0))
      else schedule_resolved s (resolve_from s.system_count 0 s (λ i. []))
