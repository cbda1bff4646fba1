-- ===== src/Systems.antt =====
-- src/laige-sim/systems.cpp and the system part of entity.h and system.h: the registry of the systems, their
-- schedule and a tick of them. `W` is the state that the systems work on; a system takes its random
-- stream, or none, and returns what it leaves of both. An array of the registry is a function of its index.
pub mod Deps
pub mod Kahn
pub mod Registry
pub mod Schedule
pub mod Run
mod Tests
use laige_cpp.Prelude.{
  ℕ, zero, suc, ◌+◌, ◌-◌, ◌≡◌, Bool, true, false, not, ◌&&◌, ◌||◌, ltb, leb, ◌==◌, if◌then◌else◌,
  Option, some, none, List, [], ◌∷◌, update,
}
use laige_cpp.Prelude.Int.{ℤ, pos, ltb_ℤ}
use laige_cpp.Result.{invalid_argument, budget_exhausted, Result, success, failure}
use laige_cpp.Prng.{Prng, derive_substream}
use laige_cpp.Systems.Deps.{DepSpecError, spec_ok, same_chars, parse_dep_spec}

-- `detail::IdSet256`, a set of the ids from 1 to 256.
abbrev pub IdSet : Type 0
IdSet = ℕ → Bool

abbrev pub contains : IdSet → ℕ → Bool
contains ids id = if id == 0 then false else ids id

abbrev pub set_id : IdSet → ℕ → IdSet
set_id ids id = if id == 0 then ids else update ids id true

abbrev pub SystemFn : Type 0 → Type 0
SystemFn W = Option Prng → W → Option Prng × W

pub record SystemDef (W : Type 0) : Type 0 where
  pub name : Option (List ℕ)
  pub run : Option (SystemFn W)
  pub budget_raw : ℤ
  pub depends_on : Option (List ℕ)

pub record SystemRecord (W : Type 0) : Type 0 where
  pub def : SystemDef W
  pub read_components : IdSet
  pub write_components : IdSet
  pub rng : Option Prng

-- The fields of `World` that the systems use.
pub record Systems (W : Type 0) : Type 0 where
  pub has_registry : Bool
  pub system_count : ℕ
  pub systems : ℕ → SystemRecord W
  pub deterministic : Bool
  pub seed : ℕ

pub record SystemSchedule : Type 0 where
  pub system_count : ℕ
  pub order : ℕ → ℕ

abbrev pub max_systems : ℕ
max_systems = 256

abbrev pub max_component_types : ℕ
max_component_types = 256

pub data Access : Type 0 where
  read write : Access

-- An entry of the I/O list: what `componentIdOfKey` answers for its component, 0 if it is not
-- registered, and its access.
pub record IoEntry : Type 0 where
  pub component : ℕ
  pub access : Access

pub data IoResolution : Type 0 where
  io_ok unregistered duplicate : IoResolution

-- The sets of the ids that are read and written.
pub record IoSets : Type 0 where
  pub reads : IdSet
  pub writes : IdSet

abbrev pub declare : IoEntry → IoSets → IoSets
declare e sets = elim e.access [
  | read ↦ record sets { reads = set_id sets.reads e.component }
  | write ↦ record sets { writes = set_id sets.writes e.component }
]

unfoldable pub resolve_io_entry : IoEntry → IoSets → IoResolution × IoSets
resolve_io_entry e sets =
    if e.component == 0
    then (unregistered, sets)
    else if contains sets.reads e.component || contains sets.writes e.component
    then (duplicate, sets)
    else (io_ok, declare e sets)

abbrev pub then_io :
    (IoSets → IoResolution × IoSets) → IoResolution × IoSets → IoResolution × IoSets
then_io next (io_ok, sets) = next sets
then_io next (unregistered, sets) = (unregistered, sets)
then_io next (duplicate, sets) = (duplicate, sets)

-- The fold over the list, which ends at the first failure.
unfoldable pub resolve_io : List IoEntry → IoSets → IoResolution × IoSets
resolve_io [] sets = (io_ok, sets)
resolve_io (e ∷ es) sets = then_io (resolve_io es) (resolve_io_entry e sets)

abbrev pub no_io : IoSets
no_io = record { reads = λ c. false; writes = λ c. false }

-- The chars of a name; the null pointer has none, and is refused by `register_system`.
abbrev pub chars : Option (List ℕ) → List ℕ
chars none = []
chars (some cs) = cs

abbrev pub is_empty : List ℕ → Bool
is_empty [] = true
is_empty (c ∷ cs) = false

abbrev pub is_some {ℓ} : {A : Type ℓ} → Option A → Bool
is_some none = false
is_some (some a) = true

abbrev pub is_spec_ok : DepSpecError → Bool
is_spec_ok spec_ok = true
is_spec_ok _ = false

abbrev pub is_io_ok : IoResolution → Bool
is_io_ok io_ok = true
is_io_ok _ = false

module _ {W : Type 0} where
  abbrev pub name_at : Systems W → ℕ → List ℕ
  name_at s i = chars (s.systems i).def.name

  -- The search of a name from index `i` on, by `strcmp` and `tokenMatchesName`: the id, or 0.
  unfoldable pub find_system : ℕ → ℕ → Systems W → List ℕ → ℕ
  find_system zero i s name = 0
  find_system (suc left) i s name =
      let later = find_system left (i + 1) s name in
      if same_chars name (name_at s i) then suc i else later

  abbrev pub add_system : SystemDef W → IoSets → Systems W → Systems W
  add_system def io s = record s {
    systems = update s.systems s.system_count (record {
      def = def;
      read_components = io.reads;
      write_components = io.writes;
      rng =
          if s.deterministic
          then some (derive_substream s.seed (s.system_count + 1))
          else (s.systems s.system_count).rng;
    });
    system_count = s.system_count + 1;
  }

  -- The id, or the error, and the registry that is left.
  unfoldable pub register_system : SystemDef W → List IoEntry → Systems W → Result ℕ × Systems W
  register_system def ios s =
      let io = resolve_io ios no_io in
      if not s.has_registry
      then (failure invalid_argument, s)
      else if is_empty (chars def.name)
      then (failure invalid_argument, s)
      else if not (is_some def.run)
      then (failure invalid_argument, s)
      else if not (ltb_ℤ (pos 0) def.budget_raw)
      then (failure invalid_argument, s)
      else if not (is_spec_ok (parse_dep_spec def.depends_on).0)
      then (failure invalid_argument, s)
      else if not (find_system s.system_count 0 s (chars def.name) == 0)
      then (failure invalid_argument, s)
      else if not (is_io_ok io.0)
      then (failure invalid_argument, s)
      else if leb max_systems s.system_count
      then (failure budget_exhausted, s)
      else (success (s.system_count + 1), add_system def io.1 s)
