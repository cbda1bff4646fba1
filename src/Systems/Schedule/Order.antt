-- ===== src/Systems/Schedule/Order.antt =====
-- What `World::scheduleSystems` (src/laige-sim/systems.cpp) accepts, and the order that it returns.
use laige_cpp.Prelude.{
  ℕ, suc, ◌+◌, ◌-◌, ◌≤◌, ◌<◌, ◌≡◌, ◌↔◌, inl, inr, refl, ap, arith, Bool, true, false, ltb, ◌==◌,
  Bool-cases, ==→eq, List, [],
}
use laige_cpp.Prelude.Marks.{position}
use laige_cpp.Result.{Result, success, failure, Status, status_ok}
use laige_cpp.Systems.{Systems, name_at, max_component_types}
use laige_cpp.Systems.Registry.{RegistryInv}
use laige_cpp.Systems.Deps.{listed}
use laige_cpp.Systems.Kahn.{topological_sort, Placing}
use laige_cpp.Systems.Kahn.Complete.{
  IsRank, topological_sort_complete, topological_sort_at_most, topological_sort_order,
  IsGreedy-IsRank,
}
use laige_cpp.Systems.Schedule.{
  has_double_writer, schedule_of, schedule_sorted, schedule_resolved, schedule_systems,
  resolve_from,
}
use laige_cpp.Systems.Schedule.Names.{Names, tokens_at}
use laige_cpp.Systems.Schedule.Table.{AreKnown, Table, resolve_from-Table}
use laige_cpp.Systems.Schedule.Writers.{IsSingle, has_double_writer_iff}

module _ {W : Type 0} where
  -- Whether the system at an index depends on the one at another, by name.
  abbrev pub depends : Systems W → ℕ → ℕ → Bool
  depends s i j = listed (name_at s j) (tokens_at s i)

  -- All names that systems depend on are there, some ranking has each system above those that it
  -- depends on, and no component has two writers.
  pub record IsSchedulable (s : Systems W) : Type 0 where
    pub known : (i : ℕ) → i < s.system_count → AreKnown s i
    pub ranked :
        (rank : ℕ → ℕ) × ((i j : ℕ)
          → i < s.system_count
          → j < s.system_count
          → depends s i j ≡ true
          → rank j < rank i)
    pub single : (c : ℕ) → 1 ≤ c → c < 1 + max_component_types → IsSingle s c

  -- The ranks of the table are those of the names.
  module _ (s : Systems W) (v : RegistryInv s) (table : ℕ → List ℕ)
      (names : (i : ℕ) → i < s.system_count → Names s (tokens_at s i) (table i)) where
    IsRank-by_name :
        (rank : ℕ → ℕ)
        → IsRank s.system_count table rank
        → (i j : ℕ) → i < s.system_count
        → j < s.system_count
        → depends s i j ≡ true
        → rank j < rank i
    unfolding IsRank
    IsRank-by_name rank ranks i j l m on =
        let (d, (there, named)) = (names i l).by_name (name_at s j) on in
        let range = (names i l).in_range d there in
        let same = v.distinct j (d - 1) m (omega (arith, range)) named in
        omega (arith, same, ap rank same, ranks i d l there)

    IsRank-by_id :
        (rank : ℕ → ℕ)
        → ((i j : ℕ)
            → i < s.system_count
            → j < s.system_count
            → depends s i j ≡ true
            → rank j < rank i)
        → IsRank s.system_count table rank
    unfolding IsRank
    IsRank-by_id rank ranks i d l there =
        let range = (names i l).in_range d there in
        ranks i (d - 1) l (omega (arith, range)) ((names i l).by_id d there)

    pub names_known : (i : ℕ) → i < s.system_count → AreKnown s i
    names_known i l t on =
        let (d, (there, named)) = (names i l).by_name t on in
        let range = (names i l).in_range d there in (d - 1, (omega (arith, range), named))

  pub schedule_sorted_iff :
      (s : Systems W) (st : Placing)
      → (status_ok (schedule_sorted s st).0 ≡ true)
        ↔ ((s.system_count ≤ st.placed) × (has_double_writer max_component_types 1 s ≡ false))
  schedule_sorted_iff s st = elim (Bool-cases (ltb st.placed s.system_count)) [
    | inl t ↦ rw t (λ e. absurd (ground (arith, e)), λ both. absurd (ground (arith, t, both.0)))
    | inr t ↦ elim (Bool-cases (has_double_writer max_component_types 1 s)) [
      | inl u ↦ rw (t, u) (λ e. absurd (ground (arith, e)), λ both. absurd (ground (arith, both.1)))
      | inr u ↦ rw (t, u) (λ e. (ground arith, refl), λ both. refl)
    ]
  ]

  schedule_resolved_iff :
      (s : Systems W) (r : Result (ℕ → List ℕ))
      → RegistryInv s
      → Table s r
      → (status_ok (schedule_resolved s r).0 ≡ true) ↔ IsSchedulable s
  unfolding Table
  schedule_resolved_iff s (failure e) v unknown =
      (λ ok. absurd (ground (arith, ok)), λ h. absurd (unknown h.known))
  schedule_resolved_iff s (success table) v (names, deps) =
      let n = s.system_count in
      let st = topological_sort table n (λ k. 0) in
      let sorted = schedule_sorted_iff s st in
      let double = has_double_writer_iff max_component_types 1 s in
      (
        λ ok.
            let (all, one) = sorted.0 ok in
            let full =
              topological_sort_order n table deps (λ k. 0)
                (omega (arith, all, topological_sort_at_most n table deps (λ k. 0))) in
            record {
              known = names_known s v table names;
              ranked = (
                λ i. position n st.order (suc i),
                IsRank-by_name s v table names _
                    (IsGreedy-IsRank n table st.order deps.known full.0 full.1),
              );
              single = double.0 one;
            },
        λ h.
            let placed =
              topological_sort_complete n table deps (λ k. 0) h.ranked.0
                (IsRank-by_id s v table names h.ranked.0 h.ranked.1) in
            sorted.1 (omega (arith, placed), double.1 h.single),
      )

  pub schedule_systems_empty :
      (s : Systems W)
      → (s.system_count == 0) ≡ true
      → schedule_systems s ≡ (Status.done, schedule_of s (λ k. 0))
  unfolding schedule_systems
  schedule_systems_empty s t = rw t refl

  pub schedule_systems_some :
      (s : Systems W)
      → (s.system_count == 0) ≡ false
      → schedule_systems s ≡ schedule_resolved s (resolve_from s.system_count 0 s (λ i. []))
  unfolding schedule_systems
  schedule_systems_some s t = rw t refl

  -- With the invariant of the registry, a schedule is made exactly if all names that systems depend on are
  -- there, some ranking has each system above those that it depends on, and no component has two
  -- writers.
  pub schedule_systems_iff :
      (s : Systems W) → RegistryInv s → (status_ok (schedule_systems s).0 ≡ true) ↔ IsSchedulable s
  unfolding IsSingle
  schedule_systems_iff s v = elim (Bool-cases (s.system_count == 0)) [
    | inl t ↦
        let e = ==→eq s.system_count 0 t in
        (
          λ ok. record {
            known = λ i l. absurd (omega (arith, l, e));
            ranked = (λ i. 0, λ i j l. absurd (omega (arith, l, e)));
            single = λ c p q i j l m. absurd (omega (arith, m, e));
          },
          λ h. rw (schedule_systems_empty s t) refl,
        )
    | inr t ↦ rw (schedule_systems_some s t) (
        schedule_resolved_iff s (resolve_from s.system_count 0 s (λ i. [])) v
          (resolve_from-Table s v))
  ]
