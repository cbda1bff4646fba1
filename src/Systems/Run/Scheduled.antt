-- ===== src/Systems/Run/Scheduled.antt =====
-- A tick of `World::runSystems` with a schedule of `World::scheduleSystems` (src/laige-sim/systems.cpp).
use laige_cpp.Prelude.{ℕ, ◌≡◌, inl, inr, refl, arith, true, ltb, ◌==◌, Bool-cases, List, []}
use laige_cpp.Result.{Result, success, failure, status_ok}
use laige_cpp.Systems.{Systems, max_component_types}
use laige_cpp.Systems.Registry.{RegistryInv}
use laige_cpp.Systems.Kahn.{Placing, topological_sort}
use laige_cpp.Systems.Schedule.{
  has_double_writer, schedule_sorted, schedule_resolved, schedule_systems, resolve_from,
}
use laige_cpp.Systems.Schedule.Order.{schedule_systems_empty, schedule_systems_some}
use laige_cpp.Systems.Schedule.Placed.{schedule_systems-IsSchedule}
use laige_cpp.Systems.Run.Checks.{IsCurrent}

module _ {W : Type 0} where
  schedule_sorted-count :
      (s : Systems W) (st : Placing) → (schedule_sorted s st).1.system_count ≡ s.system_count
  schedule_sorted-count s st = elim (Bool-cases (ltb st.placed s.system_count)) [
    | inl t ↦ rw t refl
    | inr t ↦ elim (Bool-cases (has_double_writer max_component_types 1 s)) [
      | inl u ↦ rw (t, u) refl
      | inr u ↦ rw (t, u) refl
    ]
  ]

  schedule_resolved-count :
      (s : Systems W) (r : Result (ℕ → List ℕ))
      → (schedule_resolved s r).1.system_count ≡ s.system_count
  schedule_resolved-count s (failure e) = refl
  schedule_resolved-count s (success table) =
      schedule_sorted-count s (topological_sort table s.system_count (λ k. 0))

  schedule_systems-count : (s : Systems W) → (schedule_systems s).1.system_count ≡ s.system_count
  schedule_systems-count s = elim (Bool-cases (s.system_count == 0)) [
    | inl t ↦ rw (schedule_systems_empty s t) refl
    | inr t ↦
        rw (schedule_systems_some s t)
          (schedule_resolved-count s (resolve_from s.system_count 0 s (λ i. [])))
  ]

  -- With the invariant of the registry, a schedule that is made is one that a tick takes.
  pub schedule_systems-IsCurrent :
      (s : Systems W)
      → RegistryInv s
      → status_ok (schedule_systems s).0 ≡ true
      → IsCurrent (schedule_systems s).1 s
  schedule_systems-IsCurrent s v ok =
      let made = schedule_systems-IsSchedule s v ok in
      record {
        current = schedule_systems-count s;
        ids = made.ids;
        once = λ j k l m e. absurd (omega (arith, l, made.distinct j k (omega arith) m e));
      }
