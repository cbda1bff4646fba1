-- ===== src/Systems/Schedule/Names.antt =====
-- The ids that `World::scheduleSystems` (src/laige-sim/systems.cpp) resolves the names of dependencies to.
use laige_cpp.Prelude.{
  ℕ, zero, suc, ◌-◌, ◌≤◌, ◌<◌, ◌≡◌, ◌≢◌, inl, inr, refl, sym, ap, subst, ◌∙◌, arith, true, ◌==◌,
  Bool-cases, ==→eq, ==_self, List, [], ◌∷◌, length,
}
use laige_cpp.Result.{Result, success, failure}
use laige_cpp.Systems.{Systems, name_at, find_system}
use laige_cpp.Systems.Registry.{find_system-found, find_system-none}
use laige_cpp.Systems.Deps.{same_chars, listed, parse_dep_spec}
use laige_cpp.Systems.Deps.Laws.{same_chars_refl, same_chars→eq, AreDistinct}
use laige_cpp.Systems.Kahn.{has_id}
use laige_cpp.Systems.Kahn.Greedy.{AreIds}
use laige_cpp.Systems.Schedule.{cons_id, resolve_names}

-- That `ids` are those of the systems that `names` name.
pub record Names {W : Type 0} (s : Systems W) (names : List (List ℕ)) (ids : List ℕ) : Type 0 where
  pub as_many : length ids ≡ length names
  pub in_range : (d : ℕ) → has_id d ids ≡ true → (1 ≤ d) × (d ≤ s.system_count)
  pub by_id : (d : ℕ) → has_id d ids ≡ true → listed (name_at s (d - 1)) names ≡ true
  pub by_name :
      (t : List ℕ)
      → listed t names ≡ true
      → (d : ℕ) × ((has_id d ids ≡ true) × (t ≡ name_at s (d - 1)))

module _ {W : Type 0} (s : Systems W) where
  -- The names of the systems that the system at an index depends on.
  abbrev pub tokens_at : ℕ → List (List ℕ)
  tokens_at i = (parse_dep_spec (s.systems i).def.depends_on).1

  Names-cons :
      (t : List ℕ) (ts : List (List ℕ)) (x : ℕ) (ids : List ℕ)
      → x < s.system_count
      → t ≡ name_at s x
      → Names s ts ids
      → Names s (t ∷ ts) (suc x ∷ ids)
  unfolding listed
  Names-cons t ts x ids l e v = record {
    as_many = omega (arith, v.as_many);
    in_range = λ d on. elim (Bool-cases (suc x == d)) [
      | inl u ↦ let same = ==→eq (suc x) d u in omega (arith, same)
      | inr u ↦ v.in_range d (ground (arith, on, u))
    ];
    by_id = λ d on. elim (Bool-cases (suc x == d)) [
      | inl u ↦ let same : x ≡ d - 1 = ground (arith, u) in rw (← same, ← e, same_chars_refl t) refl
      | inr u ↦ rw (v.by_id d (ground (arith, on, u))) (ground arith)
    ];
    by_name = λ u on. elim (Bool-cases (same_chars t u)) [
      | inl w ↦
          let same : suc x - 1 ≡ x = omega arith in
          (
            suc x,
            (rw (==_self (suc x)) refl, sym (same_chars→eq t u w) ∙ e ∙ ap (name_at s) (sym same)),
          )
      | inr w ↦
          let (d, (there, named)) = v.by_name u (ground (arith, on, w)) in
          (d, (rw there (ground arith), named))
    ];
  }

  Names-nil : Names s [] []
  unfolding listed
  Names-nil = record {
    as_many = refl;
    in_range = λ d on. absurd (ground (arith, on));
    by_id = λ d on. absurd (ground (arith, on));
    by_name = λ t on. absurd (ground (arith, on));
  }

  -- What a resolution returns: the ids, or an error because of a name that no system has.
  unfoldable pub Resolves : List (List ℕ) → Result (List ℕ) → Type 0
  Resolves names (success ids) = Names s names ids × (AreDistinct names → AreIds s.system_count ids)
  Resolves names (failure e) =
      (t : List ℕ) × ((listed t names ≡ true) × ((j : ℕ) → j < s.system_count → t ≢ name_at s j))

  AreIds-cons :
      (t : List ℕ) (ts : List (List ℕ)) (x : ℕ) (ids : List ℕ)
      → x < s.system_count
      → t ≡ name_at s x
      → Names s ts ids
      → (AreDistinct ts → AreIds s.system_count ids)
      → AreDistinct (t ∷ ts)
      → AreIds s.system_count (suc x ∷ ids)
  unfolding AreIds AreDistinct
  AreIds-cons t ts x ids l e v rest d = (
    omega arith,
    omega arith,
    elim (Bool-cases (has_id (suc x) ids)) [
      | inl on ↦
          let same : suc x - 1 ≡ x = omega arith in
          let twice : listed t ts ≡ true =
            subst (λ n. listed n ts ≡ true) (ap (name_at s) same ∙ sym e) (v.by_id (suc x) on) in
          absurd (ground (arith, twice, d.0))
      | inr off ↦ off
    ],
    rest d.1,
  )

  cons_id-Resolves :
      (t : List ℕ) (ts : List (List ℕ)) (found : ℕ) (rest : Result (List ℕ))
      → find_system s.system_count 0 s t ≡ found
      → Resolves ts rest
      → Resolves (t ∷ ts) (cons_id found rest)
  unfolding Resolves listed
  cons_id-Resolves t ts zero rest e v = (
    t,
    (
      rw (same_chars_refl t) refl,
      λ j l. find_system-none s.system_count 0 s t e j (omega arith) (omega arith),
    ),
  )
  cons_id-Resolves t ts (suc x) (success ids) e v =
      let found = find_system-found s.system_count 0 x s t e in
      (
        Names-cons t ts x ids (omega (arith, found.1)) found.2 v.0,
        AreIds-cons t ts x ids (omega (arith, found.1)) found.2 v.0 v.1,
      )
  cons_id-Resolves t ts (suc x) (failure err) e (u, (on, none_has)) =
      (u, (rw on (ground arith), none_has))

  pub resolve_names-Resolves : (names : List (List ℕ)) → Resolves names (resolve_names s names)
  unfolding resolve_names Resolves AreIds
  resolve_names-Resolves [] = (Names-nil, λ d. omega arith)
  resolve_names-Resolves (t ∷ ts) =
      cons_id-Resolves t ts (find_system s.system_count 0 s t) (resolve_names s ts) refl
        (resolve_names-Resolves ts)
