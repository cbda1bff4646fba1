-- ===== src/Systems/Schedule/Table.antt =====
-- The table of dependencies that `World::scheduleSystems` (src/laige-sim/systems.cpp) builds.
use laige_cpp.Prelude.{
  ℕ, zero, suc, ◌+◌, ◌≤◌, ◌<◌, ◌≡◌, inl, inr, refl, subst, ◌∙◌, arith, true, ◌==◌, Bool-cases,
  ==→eq, ==_self, List, [], update,
}
use laige_cpp.Result.{Result, success, failure}
use laige_cpp.Systems.{Systems, name_at, is_spec_ok}
use laige_cpp.Systems.Registry.{RegistryInv}
use laige_cpp.Systems.Deps.{DepSpecError, spec_ok, ParsedSpec, listed, parse_dep_spec}
use laige_cpp.Systems.Deps.Laws.{AreDistinct, IsRead, parse_dep_spec-IsRead}
use laige_cpp.Systems.Kahn.Greedy.{AreIds}
use laige_cpp.Systems.Kahn.Rounds.{AreDeps}
use laige_cpp.Systems.Schedule.Names.{Names, tokens_at, Resolves, resolve_names-Resolves}
use laige_cpp.Systems.Schedule.{then_row, resolve_names, resolve_parsed, resolve_from}

module _ {W : Type 0} (s : Systems W) where
  -- What a row of the table holds.
  IsRow : ℕ → List ℕ → Type 0
  IsRow i ids = Names s (tokens_at s i) ids × AreIds s.system_count ids

  -- That the names of the system at an index are those of systems.
  abbrev pub AreKnown : ℕ → Type 0
  AreKnown i =
      (t : List ℕ)
      → listed t (tokens_at s i) ≡ true
      → (j : ℕ) × ((j < s.system_count) × (t ≡ name_at s j))

  -- What the rows are, from index `i` on: those before stay.
  Rows : ℕ → ℕ → (ℕ → List ℕ) → Result (ℕ → List ℕ) → Type 0
  Rows left i rows (success table) =
      ((j : ℕ) → j < i → table j ≡ rows j) × ((j : ℕ) → i ≤ j → j < i + left → IsRow j (table j))
  Rows left i rows (failure e) = ¬ ((j : ℕ) → i ≤ j → j < i + left → AreKnown j)

  Rows-weaken :
      (left i : ℕ) (rows : ℕ → List ℕ) (ids : List ℕ) (r : Result (ℕ → List ℕ))
      → IsRow i ids
      → Rows left (i + 1) (update rows i ids) r
      → Rows (suc left) i rows r
  unfolding Rows
  Rows-weaken left i rows ids (success table) row v = (
    λ j l. v.0 j (omega arith) ∙ ground arith,
    λ j l m. elim (Bool-cases (i == j)) [
      | inl t ↦
          let same : table i ≡ ids = v.0 i (omega arith) ∙ rw (==_self i) refl in
          subst (λ k. IsRow k (table k)) (==→eq i j t) (rw same row)
      | inr t ↦ v.1 j (ground arith) (omega arith)
    ],
  )
  Rows-weaken left i rows ids (failure e) row v =
      λ known. v (λ j l m. known j (omega arith) (omega arith))

  then_row-Rows :
      (left i : ℕ) (rows : ℕ → List ℕ) (next : (ℕ → List ℕ) → Result (ℕ → List ℕ))
      (r : Result (List ℕ))
      → Resolves s (tokens_at s i) r
      → AreDistinct (tokens_at s i)
      → ((rows : ℕ → List ℕ) → Rows left (i + 1) rows (next rows))
      → Rows (suc left) i rows (then_row next i rows r)
  unfolding Resolves Rows IsRow
  then_row-Rows left i rows next (success ids) v d rest =
      Rows-weaken left i rows ids (next (update rows i ids)) (v.0, v.1 d) (rest (update rows i ids))
  then_row-Rows left i rows next (failure e) (t, (on, none_has)) d rest =
      λ known. let (j, (l, named)) = known i (omega arith) (omega arith) t on in none_has j l named

  resolve_parsed_lem :
      (o : ParsedSpec) → is_spec_ok o.0 ≡ true → resolve_parsed s o ≡ resolve_names s o.1
  resolve_parsed_lem (DepSpecError.spec_ok, names) e = refl
  resolve_parsed_lem (DepSpecError.empty_token, names) e = absurd (ground (arith, e))
  resolve_parsed_lem (DepSpecError.duplicate_token, names) e = absurd (ground (arith, e))
  resolve_parsed_lem (DepSpecError.too_many, names) e = absurd (ground (arith, e))

  is_spec_ok-eq : (e : DepSpecError) → is_spec_ok e ≡ true → e ≡ spec_ok
  is_spec_ok-eq DepSpecError.spec_ok h = refl
  is_spec_ok-eq DepSpecError.empty_token h = absurd (ground (arith, h))
  is_spec_ok-eq DepSpecError.duplicate_token h = absurd (ground (arith, h))
  is_spec_ok-eq DepSpecError.too_many h = absurd (ground (arith, h))

  -- The tokens of a spec that is read without an error.
  tokens_at-IsRead :
      (i : ℕ)
      → is_spec_ok (parse_dep_spec (s.systems i).def.depends_on).0 ≡ true
      → IsRead (tokens_at s i)
  tokens_at-IsRead i h = parse_dep_spec-IsRead (s.systems i).def.depends_on (is_spec_ok-eq _ h)

  resolve_from-Rows :
      (left i : ℕ) (rows : ℕ → List ℕ)
      → ((j : ℕ) → j < i + left → is_spec_ok (parse_dep_spec (s.systems j).def.depends_on).0 ≡ true)
      → Rows left i rows (resolve_from left i s rows)
  unfolding resolve_from Rows
  resolve_from-Rows zero i rows read = (λ j l. refl, λ j l m. absurd (omega arith))
  resolve_from-Rows (suc left) i rows read =
      let here = read i (omega arith) in
      rw (resolve_parsed_lem (parse_dep_spec (s.systems i).def.depends_on) here) (
        then_row-Rows left i rows (resolve_from left (i + 1) s) (resolve_names s (tokens_at s i))
          (resolve_names-Resolves s (tokens_at s i)) (tokens_at-IsRead i here).distinct
          (λ rows. resolve_from-Rows left (i + 1) rows (λ j l. read j (omega arith))))

  -- What the scheduler resolves, all systems seen: a row for each system, or an unknown name.
  unfoldable pub Table : Result (ℕ → List ℕ) → Type 0
  Table (success table) =
      ((i : ℕ) → i < s.system_count → Names s (tokens_at s i) (table i))
      × AreDeps s.system_count table
  Table (failure e) = ¬ ((i : ℕ) → i < s.system_count → AreKnown i)

  Rows-Table :
      (rows : ℕ → List ℕ) (r : Result (ℕ → List ℕ))
      → RegistryInv s
      → Rows s.system_count 0 rows r
      → Table r
  unfolding Rows IsRow Table
  Rows-Table rows (success table) v (before, row) = (
    λ i l. (row i (omega arith) (omega arith)).0,
    record {
      known = λ i l. (row i (omega arith) (omega arith)).1;
      short = λ i l.
          let few = (tokens_at-IsRead i (v.parsed i l)).few in
          omega (arith, (row i (omega arith) (omega arith)).0.as_many, few);
    },
  )
  Rows-Table rows (failure e) v unknown = λ known. unknown (λ i l m. known i (omega arith))

  pub resolve_from-Table : RegistryInv s → Table (resolve_from s.system_count 0 s (λ i. []))
  resolve_from-Table v =
      Rows-Table (λ i. []) (resolve_from s.system_count 0 s (λ i. [])) v
        (resolve_from-Rows s.system_count 0 (λ i. []) (λ j l. v.parsed j (omega arith)))
