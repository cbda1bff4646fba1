-- ===== src/Systems/Registry.antt =====
-- What `World::registerSystem` (src/laige-sim/entity.h) keeps true of the registry of the systems.
use laige_cpp.Prelude.{
  ℕ, zero, suc, ◌+◌, ◌≤◌, ◌<◌, ◌≡◌, ◌≢◌, inl, inr, refl, if_keeps, not-false, sym, ap, subst, ◌∙◌,
  arith, true, false, not, ◌&&◌, ◌||◌, leb, ◌==◌, Bool-cases, ==→eq, List, [], ◌∷◌, update,
}
use laige_cpp.Prelude.Int.{pos, ltb_ℤ}
use laige_cpp.Result.{invalid_argument, budget_exhausted, Result, success, failure, ok}
use laige_cpp.Systems.{
  IdSet, contains, set_id, SystemDef, SystemRecord, Systems, Access, read, write, IoEntry, IoSets,
  io_ok, unregistered, duplicate, IoResolution, declare, resolve_io_entry, then_io, resolve_io,
  no_io, chars, is_empty, is_some, is_spec_ok, is_io_ok, name_at, find_system, add_system,
  register_system, max_systems,
}
use laige_cpp.Systems.Deps.{same_chars, parse_dep_spec}
use laige_cpp.Systems.Deps.Laws.{same_chars→eq, same_chars_refl}

-- No component is both read and written.
abbrev pub AreDisjoint : IdSet → IdSet → Type 0
AreDisjoint reads writes = (c : ℕ) → (contains reads c && contains writes c) ≡ false

-- What the scheduler relies on: names that are there, each once, systems that can run, with a positive
-- budget, a spec that is read without an error, and sets of components that are apart.
pub record RegistryInv {W : Type 0} (s : Systems W) : Type 0 where
  pub few : s.system_count ≤ max_systems
  pub named : (i : ℕ) → i < s.system_count → is_empty (name_at s i) ≡ false
  pub distinct :
      (i j : ℕ) → i < s.system_count → j < s.system_count → name_at s i ≡ name_at s j → i ≡ j
  pub runs : (i : ℕ) → i < s.system_count → is_some (s.systems i).def.run ≡ true
  pub budgeted : (i : ℕ) → i < s.system_count → ltb_ℤ (pos 0) (s.systems i).def.budget_raw ≡ true
  pub parsed :
      (i : ℕ)
      → i < s.system_count
      → is_spec_ok (parse_dep_spec (s.systems i).def.depends_on).0 ≡ true
  pub apart :
      (i : ℕ)
      → i < s.system_count
      → AreDisjoint (s.systems i).read_components (s.systems i).write_components

set_id-apart :
    (one other : IdSet) (id : ℕ)
    → AreDisjoint one other
    → contains other id ≡ false
    → AreDisjoint (set_id one id) other
set_id-apart one other id v off c = ground (arith, v c, off)

apart_sym : (one other : IdSet) → AreDisjoint one other → AreDisjoint other one
apart_sym one other v c = ground (arith, v c)

declare-AreDisjoint :
    (c : ℕ) (a : Access) (sets : IoSets)
    → AreDisjoint sets.reads sets.writes
    → (contains sets.reads c || contains sets.writes c) ≡ false
    → AreDisjoint
        (declare (record { component = c; access = a }) sets).reads
        (declare (record { component = c; access = a }) sets).writes
declare-AreDisjoint c read sets v new =
    set_id-apart sets.reads sets.writes c v (ground (arith, new))
declare-AreDisjoint c write sets v new = apart_sym (set_id sets.writes c) sets.reads (
    set_id-apart sets.writes sets.reads c (apart_sym sets.reads sets.writes v)
      (ground (arith, new)))

resolve_io_entry-AreDisjoint :
    (e : IoEntry) (sets : IoSets)
    → AreDisjoint sets.reads sets.writes
    → AreDisjoint (resolve_io_entry e sets).1.reads (resolve_io_entry e sets).1.writes
unfolding resolve_io_entry
resolve_io_entry-AreDisjoint e sets v = if_keeps IsApart (e.component == 0) v (λ t.
    if_keeps IsApart (contains sets.reads e.component || contains sets.writes e.component) v
      (declare-AreDisjoint e.component e.access sets v))
  where
    IsApart : IoResolution × IoSets → Type 0
    IsApart r = AreDisjoint r.1.reads r.1.writes

then_io-AreDisjoint :
    (next : IoSets → IoResolution × IoSets) (r : IoResolution × IoSets)
    → ((sets : IoSets)
        → AreDisjoint sets.reads sets.writes
        → AreDisjoint (next sets).1.reads (next sets).1.writes)
    → AreDisjoint r.1.reads r.1.writes
    → AreDisjoint (then_io next r).1.reads (then_io next r).1.writes
then_io-AreDisjoint next (io_ok, sets) keeps v = keeps sets v
then_io-AreDisjoint next (unregistered, sets) keeps v = v
then_io-AreDisjoint next (duplicate, sets) keeps v = v

resolve_io-AreDisjoint :
    (es : List IoEntry) (sets : IoSets)
    → AreDisjoint sets.reads sets.writes
    → AreDisjoint (resolve_io es sets).1.reads (resolve_io es sets).1.writes
unfolding resolve_io
resolve_io-AreDisjoint [] sets v = v
resolve_io-AreDisjoint (e ∷ es) sets v =
    then_io-AreDisjoint (resolve_io es) (resolve_io_entry e sets) (resolve_io-AreDisjoint es)
      (resolve_io_entry-AreDisjoint e sets v)

module _ {W : Type 0} where
  find_system-here :
      (left i : ℕ) (s : Systems W) (name : List ℕ)
      → same_chars name (name_at s i) ≡ true
      → find_system (suc left) i s name ≡ suc i
  unfolding find_system
  find_system-here left i s name t = rw t refl

  find_system-later :
      (left i : ℕ) (s : Systems W) (name : List ℕ)
      → same_chars name (name_at s i) ≡ false
      → find_system (suc left) i s name ≡ find_system left (i + 1) s name
  unfolding find_system
  find_system-later left i s name t = rw t refl

  pub find_system-found :
      (left i x : ℕ) (s : Systems W) (name : List ℕ)
      → find_system left i s name ≡ suc x
      → (i ≤ x) × (x < i + left) × (name ≡ name_at s x)
  unfolding find_system
  find_system-found zero i x s name e = absurd (omega (arith, e))
  find_system-found (suc left) i x s name e = elim (Bool-cases (same_chars name (name_at s i))) [
    | inl t ↦
        let same : i ≡ x = omega (arith, e, find_system-here left i s name t) in
        (omega arith, omega arith, same_chars→eq name _ t ∙ ap (name_at s) same)
    | inr t ↦
        let rest =
          find_system-found left (i + 1) x s name (sym (find_system-later left i s name t) ∙ e) in
        (omega (arith, rest.0), omega (arith, rest.1), rest.2)
  ]

  pub find_system-none :
      (left i : ℕ) (s : Systems W) (name : List ℕ)
      → find_system left i s name ≡ 0
      → (j : ℕ) → i ≤ j
      → j < i + left
      → name ≢ name_at s j
  find_system-none zero i s name e j l m = absurd (omega arith)
  find_system-none (suc left) i s name e j l m = elim (Bool-cases (same_chars name (name_at s i))) [
    | inl t ↦ absurd (omega (arith, e, find_system-here left i s name t))
    | inr t ↦ elim (Bool-cases (i == j)) [
      | inl h ↦ λ same. absurd (
          ground (
            arith,
            t,
            subst (λ n. same_chars name n ≡ true) (same ∙ ap (name_at s) (sym (==→eq i j h)))
                (same_chars_refl name),
          ))
      | inr h ↦
          find_system-none left (i + 1) s name (sym (find_system-later left i s name t) ∙ e) j
            (ground arith) (omega arith)
    ]
  ]

  -- What a new system satisfies.
  pub record Accepts (def : SystemDef W) (io : IoResolution × IoSets) (s : Systems W) : Type 0 where
    pub present : s.has_registry ≡ true
    pub name : is_empty (chars def.name) ≡ false
    pub run : is_some def.run ≡ true
    pub budget : ltb_ℤ (pos 0) def.budget_raw ≡ true
    pub spec : is_spec_ok (parse_dep_spec def.depends_on).0 ≡ true
    pub new : find_system s.system_count 0 s (chars def.name) ≡ 0
    pub declared : is_io_ok io.0 ≡ true
    pub room : s.system_count < max_systems

  -- A registration is refused and changes nothing, or it adds the system.
  pub data Registers (def : SystemDef W) (ios : List IoEntry) (s : Systems W)
      : Result ℕ × Systems W → Type 0 where
    refused : (e : laige_cpp.Result.ErrorCode) → Registers def ios s (failure e, s)
    added :
        Accepts def (resolve_io ios no_io) s
        → Registers def ios s
            (success (s.system_count + 1), add_system def (resolve_io ios no_io).1 s)

  pub register_system-Registers :
      (def : SystemDef W) (ios : List IoEntry) (s : Systems W)
      → Registers def ios s (register_system def ios s)
  unfolding register_system
  register_system-Registers def ios s = if_keeps post (not s.has_registry) refusal (λ a.
      if_keeps post (is_empty (chars def.name)) refusal (λ b.
        if_keeps post (not (is_some def.run)) refusal (λ c.
          if_keeps post (not (ltb_ℤ (pos 0) def.budget_raw)) refusal (λ d.
            if_keeps post (not (is_spec_ok (parse_dep_spec def.depends_on).0)) refusal (λ f.
              if_keeps post (not (find_system s.system_count 0 s (chars def.name) == 0)) refusal
                (λ g. if_keeps post (not (is_io_ok (resolve_io ios no_io).0)) refusal (λ h.
                  if_keeps post (leb max_systems s.system_count) (refused budget_exhausted) (λ i.
                    added record {
                      present = not-false _ a;
                      name = b;
                      run = not-false _ c;
                      budget = not-false _ d;
                      spec = not-false _ f;
                      new = ==→eq _ 0 (not-false _ g);
                      declared = not-false _ h;
                      room = ground (arith, i);
                    }))))))))
    where
      post : Result ℕ × Systems W → Type 0
      post = Registers def ios s

      refusal : post (failure invalid_argument, s)
      refusal = refused invalid_argument

  -- A property of the records, with one more.
  each_new :
      (P : SystemRecord W → Type 0) (s : Systems W) (r : SystemRecord W)
      → P r
      → ((i : ℕ) → i < s.system_count → P (s.systems i))
      → (i : ℕ) → i < s.system_count + 1
      → P (update s.systems s.system_count r i)
  each_new P s r new old i l = elim (Bool-cases (s.system_count == i)) [
    | inl t ↦ rw t new
    | inr t ↦ rw t (old i (ground arith))
  ]

  add_system_distinct :
      (def : SystemDef W) (io : IoSets) (s : Systems W)
      → RegistryInv s
      → ((j : ℕ) → 0 ≤ j → j < 0 + s.system_count → chars def.name ≢ name_at s j)
      → (i j : ℕ) → i < s.system_count + 1
      → j < s.system_count + 1
      → name_at (add_system def io s) i ≡ name_at (add_system def io s) j
      → i ≡ j
  add_system_distinct def io s v new i j l m = elim (Bool-cases (s.system_count == i)) [
    | inl t ↦ elim (Bool-cases (s.system_count == j)) [
      | inl u ↦ λ same. ground arith
      | inr u ↦ rw (t, u) (λ same. absurd (new j (omega arith) (ground arith) same))
    ]
    | inr t ↦ elim (Bool-cases (s.system_count == j)) [
      | inl u ↦ rw (t, u) (λ same. absurd (new i (omega arith) (ground arith) (sym same)))
      | inr u ↦ rw (t, u) (v.distinct i j (ground arith) (ground arith))
    ]
  ]

  add_system-RegistryInv :
      (def : SystemDef W) (io : IoResolution × IoSets) (s : Systems W)
      → RegistryInv s
      → Accepts def io s
      → AreDisjoint io.1.reads io.1.writes
      → RegistryInv (add_system def io.1 s)
  add_system-RegistryInv def io s v a d = record {
    few = omega (arith, a.room);
    named = each_new (λ r. is_empty (chars r.def.name) ≡ false) s _ a.name v.named;
    distinct = add_system_distinct def io.1 s v (find_system-none _ 0 s (chars def.name) a.new);
    runs = each_new (λ r. is_some r.def.run ≡ true) s _ a.run v.runs;
    budgeted = each_new (λ r. ltb_ℤ (pos 0) r.def.budget_raw ≡ true) s _ a.budget v.budgeted;
    parsed =
        each_new (λ r. is_spec_ok (parse_dep_spec r.def.depends_on).0 ≡ true) s _ a.spec v.parsed;
    apart = each_new (λ r. AreDisjoint r.read_components r.write_components) s _ d v.apart;
  }

  Registers-RegistryInv :
      (def : SystemDef W) (ios : List IoEntry) (s : Systems W) (r : Result ℕ × Systems W)
      → RegistryInv s
      → Registers def ios s r
      → RegistryInv r.1 × (ok r.0 ≡ false → r.1 ≡ s)
  Registers-RegistryInv def ios s _ v (refused e) = (v, λ e. refl)
  Registers-RegistryInv def ios s _ v (added a) = (
    add_system-RegistryInv def (resolve_io ios no_io) s v a
        (resolve_io-AreDisjoint ios no_io (λ c. ground arith)),
    λ e. absurd (ground (arith, e)),
  )

  -- A registration keeps the invariant of the registry, and one that fails changes nothing.
  pub register_system-RegistryInv :
      (def : SystemDef W) (ios : List IoEntry) (s : Systems W)
      → RegistryInv s
      → RegistryInv (register_system def ios s).1
        × (ok (register_system def ios s).0 ≡ false → (register_system def ios s).1 ≡ s)
  register_system-RegistryInv def ios s v =
      Registers-RegistryInv def ios s (register_system def ios s) v
        (register_system-Registers def ios s)
