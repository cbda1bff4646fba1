-- ===== src/Systems/Schedule/Placed.antt =====
-- The order of a schedule that `World::scheduleSystems` (src/laige-sim/systems.cpp) makes.
use laige_cpp.Prelude.{
  ℕ, suc, ◌-◌, ◌≤◌, ◌<◌, ◌≡◌, ◌≢◌, inl, inr, refl, sym, subst, arith, true, false, ltb, ◌==◌,
  Bool-cases, ==→eq, List, [],
}
use laige_cpp.Prelude.Marks.{placed_in, placed_in-entry, placed_in-position, position}
use laige_cpp.Result.{Result, success, failure, status_ok}
use laige_cpp.Systems.{Systems, name_at, max_component_types}
use laige_cpp.Systems.Registry.{RegistryInv}
use laige_cpp.Systems.Kahn.{topological_sort, Placing}
use laige_cpp.Systems.Kahn.Rounds.{AreDeps}
use laige_cpp.Systems.Kahn.Greedy.{IsGreedy}
use laige_cpp.Systems.Kahn.Complete.{
  all_placed-has_id, topological_sort_at_most, topological_sort_order,
}
use laige_cpp.Systems.Kahn.Unique.{IsGreedy-unique, IsGreedy-ids}
use laige_cpp.Systems.Schedule.{
  has_double_writer, schedule_sorted, schedule_resolved, schedule_systems, resolve_from,
}
use laige_cpp.Systems.Schedule.Names.{Names, tokens_at}
use laige_cpp.Systems.Schedule.Table.{Table, resolve_from-Table}
use laige_cpp.Systems.Schedule.Order.{depends, schedule_sorted_iff, schedule_systems_some}

module _ {W : Type 0} where
  -- Each id stands in the order once, behind those of the systems that it depends on.
  pub record IsSchedule (s : Systems W) (order : ℕ → ℕ) : Type 0 where
    pub ids : (k : ℕ) → k < s.system_count → (1 ≤ order k) × (order k ≤ s.system_count)
    pub distinct : (k l : ℕ) → k < s.system_count → l < s.system_count → order k ≡ order l → k ≡ l
    pub each : (i : ℕ) → i < s.system_count → (k : ℕ) × ((k < s.system_count) × (order k ≡ suc i))
    pub after :
        (k j : ℕ)
        → k < s.system_count
        → j < s.system_count
        → depends s (order k - 1) j ≡ true
        → (l : ℕ) × ((l < k) × (order l ≡ suc j))

  module _ (s : Systems W) (v : RegistryInv s) (table : ℕ → List ℕ)
      (names : (i : ℕ) → i < s.system_count → Names s (tokens_at s i) (table i)) (order : ℕ → ℕ)
      (greedy : IsGreedy s.system_count table order s.system_count)
      (all : (i : ℕ) → i < s.system_count → placed_in s.system_count order (suc i) ≡ true) where
    entries_differ : (k l : ℕ) → k < l → l < s.system_count → order k ≢ order l
    unfolding IsGreedy
    entries_differ k l p q e = ground (
      arith,
      (greedy l q).fresh,
      subst (λ x. placed_in l order x ≡ true) e (placed_in-entry l order k p),
    )

    entry_after :
        (k j : ℕ)
        → k < s.system_count
        → j < s.system_count
        → depends s (order k - 1) j ≡ true
        → (l : ℕ) × ((l < k) × (order l ≡ suc j))
    unfolding IsGreedy
    entry_after k j p q on =
        let next = greedy k p in
        let row = names (order k - 1) (omega (arith, next.positive, next.bounded)) in
        let (d, (there, named)) = row.by_name (name_at s j) on in
        let range = row.in_range d there in
        let same = v.distinct j (d - 1) q (omega (arith, range)) named in
        let found =
          placed_in-position k order d
            (all_placed-has_id k order (table (order k - 1)) d next.behind there) in
        (position k order d, (found.0, omega (arith, found.1, same, range)))

    greedy-IsSchedule : IsSchedule s order
    unfolding IsGreedy
    greedy-IsSchedule = record {
      ids = λ k l. ((greedy k l).positive, (greedy k l).bounded);
      distinct = λ k l p q e. elim (Bool-cases (ltb k l)) [
        | inl t ↦ absurd (entries_differ k l (ground arith) q e)
        | inr t ↦ elim (Bool-cases (ltb l k)) [
          | inl u ↦ absurd (entries_differ l k (ground arith) p (sym e))
          | inr u ↦ ground arith
        ]
      ];
      each = λ i l.
          let found = placed_in-position s.system_count order (suc i) (all i l) in
          (position s.system_count order (suc i), found);
      after = entry_after;
    }

  schedule_sorted-order : (s : Systems W) (st : Placing) → (schedule_sorted s st).1.order ≡ st.order
  schedule_sorted-order s st = elim (Bool-cases (ltb st.placed s.system_count)) [
    | inl t ↦ rw t refl
    | inr t ↦ elim (Bool-cases (has_double_writer max_component_types 1 s)) [
      | inl u ↦ rw (t, u) refl
      | inr u ↦ rw (t, u) refl
    ]
  ]

  -- What a schedule that is made comes from.
  record Made (s : Systems W) (order : ℕ → ℕ) : Type 0 where
    table : ℕ → List ℕ
    deps : AreDeps s.system_count table
    names : (i : ℕ) → i < s.system_count → Names s (tokens_at s i) (table i)
    greedy : IsGreedy s.system_count table order s.system_count
    all : (i : ℕ) → i < s.system_count → placed_in s.system_count order (suc i) ≡ true

  schedule_resolved-Made :
      (s : Systems W) (r : Result (ℕ → List ℕ))
      → Table s r
      → status_ok (schedule_resolved s r).0 ≡ true
      → Made s (schedule_resolved s r).1.order
  unfolding Table
  schedule_resolved-Made s (failure e) unknown ok = absurd (ground (arith, ok))
  schedule_resolved-Made s (success table) (names, deps) ok =
      let n = s.system_count in
      let st = topological_sort table n (λ k. 0) in
      let full =
        topological_sort_order n table deps (λ k. 0)
          (omega (
            arith,
            ((schedule_sorted_iff s st).0 ok).0,
            topological_sort_at_most n table deps (λ k. 0),
          )) in
      rw (schedule_sorted-order s st)
        record { table = table; deps = deps; names = names; greedy = full.0; all = full.1 }

  schedule_systems-Made :
      (s : Systems W)
      → RegistryInv s
      → (s.system_count == 0) ≡ false
      → status_ok (schedule_systems s).0 ≡ true
      → Made s (schedule_systems s).1.order
  schedule_systems-Made s v t = rw (schedule_systems_some s t) (
      schedule_resolved-Made s (resolve_from s.system_count 0 s (λ i. [])) (resolve_from-Table s v))

  -- With the invariant of the registry, a schedule that is made has each id once, behind those of the
  -- systems that it depends on.
  pub schedule_systems-IsSchedule :
      (s : Systems W)
      → RegistryInv s
      → status_ok (schedule_systems s).0 ≡ true
      → IsSchedule s (schedule_systems s).1.order
  schedule_systems-IsSchedule s v ok = elim (Bool-cases (s.system_count == 0)) [
    | inl t ↦
        let e = ==→eq s.system_count 0 t in
        record {
          ids = λ k l. absurd (omega (arith, l, e));
          distinct = λ k l p. absurd (omega (arith, p, e));
          each = λ i l. absurd (omega (arith, l, e));
          after = λ k j l. absurd (omega (arith, l, e));
        }
    | inr t ↦
        let m = schedule_systems-Made s v t ok in
        greedy-IsSchedule s v m.table m.names (schedule_systems s).1.order m.greedy m.all
  ]

  -- With the invariant of the registry, and if each system depends on systems registered before it only, a
  -- schedule that is made is the order of registration.
  pub schedule_systems_stable :
      (s : Systems W)
      → RegistryInv s
      → ((i j : ℕ) → i < s.system_count → j < s.system_count → depends s i j ≡ true → j < i)
      → status_ok (schedule_systems s).0 ≡ true
      → (k : ℕ) → k < s.system_count
      → (schedule_systems s).1.order k ≡ suc k
  schedule_systems_stable s v earlier ok k l =
      let m = schedule_systems-Made s v (ground arith) ok in
      IsGreedy-unique s.system_count s.system_count m.table (schedule_systems s).1.order suc
        m.greedy
        (IsGreedy-ids s.system_count m.table (λ i d p there.
          let range = (m.names i p).in_range d there in
          let lower = earlier i (d - 1) p (omega (arith, range)) ((m.names i p).by_id d there) in
          (range.0, omega (arith, range, lower))))
        k l
