-- ===== src/Systems/Tests.antt =====
-- The theorems on the systems (src/laige-sim/systems.cpp) at registries of three, whose systems write their
-- letter to a log.
use laige_cpp.Prelude.{
  ℕ, zero, suc, ◌-◌, ◌<◌, ◌≡◌, ◌↔◌, refl, arith, true, false, Option, some, none, List, [], ◌∷◌,
}
use laige_cpp.Prelude.Int.{pos}
use laige_cpp.Result.{invalid_argument, ok, done, failed, status_ok}
use laige_cpp.Systems.{
  SystemFn, SystemDef, Systems, read, write, find_system, register_system, resolve_io,
  resolve_io_entry,
}
use laige_cpp.Systems.Deps.{
  spec_ok, empty_token, parse_dep_spec, parse_tokens, take_token, skip_blanks, up_to_comma,
  from_comma, trim_end, listed, same_chars,
}
use laige_cpp.Systems.Deps.Laws.{cons-ne-nil, IsToken, AreDistinct, IsSolid}
use laige_cpp.Systems.Deps.RoundTrip.{
  Piece, ArePieces, AreBlanks, names_of, spell, spell_rest, parse_dep_spec-spell,
}
use laige_cpp.Systems.Registry.{RegistryInv, register_system-RegistryInv}
use laige_cpp.Systems.Kahn.{start_placing, first_ready, release_from, place_system, place_all}
use laige_cpp.Systems.Schedule.{
  resolve_names, resolve_from, second_writer, has_double_writer, schedule_systems,
}
use laige_cpp.Systems.Schedule.Order.{depends, IsSchedulable, schedule_systems_iff}
use laige_cpp.Systems.Schedule.Placed.{
  IsSchedule, schedule_systems-IsSchedule, schedule_systems_stable,
}
use laige_cpp.Systems.Run.{leave, run_order, run_systems}
use laige_cpp.Systems.Run.Checks.{IsCurrent, run_systems_lem}
use laige_cpp.Systems.Run.Ticks.{given, turn, world_after, run_systems-world_after}
use laige_cpp.Systems.Run.Scheduled.{schedule_systems-IsCurrent}

-- " b ,c"
abbrev spaced : List Piece
spaced =
    record { before = 32 ∷ []; name = 98 ∷ []; after = 32 ∷ [] }
    ∷ record { before = []; name = 99 ∷ []; after = [] }
    ∷ []

parse_dep_spec-spell_example :
    parse_dep_spec (some (32 ∷ 98 ∷ 32 ∷ 44 ∷ 99 ∷ [])) ≡ (spec_ok, (98 ∷ []) ∷ (99 ∷ []) ∷ [])
unfolding spell spell_rest names_of ArePieces AreBlanks IsToken IsSolid AreDistinct listed
    same_chars up_to_comma trim_end
parse_dep_spec-spell_example =
    parse_dep_spec-spell spaced
      (
        record {
          blank_before = (refl, omega arith);
          token = (cons-ne-nil 98 [], refl, refl, refl);
          blank_after = (refl, omega arith);
        },
        (
          record {
            blank_before = omega arith;
            token = (cons-ne-nil 99 [], refl, refl, refl);
            blank_after = omega arith;
          },
          omega arith,
        ),
      )
      (refl, (refl, omega arith)) (omega arith)

-- A spec with an error leaves the names before it.
half_read : parse_dep_spec (some (97 ∷ 44 ∷ 44 ∷ [])) ≡ (empty_token, (97 ∷ []) ∷ [])
unfolding parse_dep_spec parse_tokens take_token skip_blanks up_to_comma from_comma trim_end listed
half_read = refl

abbrev note : ℕ → SystemFn (List ℕ)
note c rng w = (rng, c ∷ w)

abbrev def_of : ℕ → Option (List ℕ) → SystemDef (List ℕ)
def_of c deps = record {
  name = some (c ∷ []);
  run = some (note c);
  budget_raw = pos 65536;
  depends_on = deps;
}

abbrev empty : Systems (List ℕ)
empty = record {
  has_registry = true;
  system_count = 0;
  systems = λ i. record {
    def = record { name = none; run = none; budget_raw = pos 0; depends_on = none };
    read_components = λ c. false;
    write_components = λ c. false;
    rng = none;
  };
  deterministic = false;
  seed = 7;
}

empty-RegistryInv : RegistryInv empty
empty-RegistryInv = record {
  few = omega arith;
  named = λ i l. absurd (omega arith);
  distinct = λ i j l. absurd (omega arith);
  runs = λ i l. absurd (omega arith);
  budgeted = λ i l. absurd (omega arith);
  parsed = λ i l. absurd (omega arith);
  apart = λ i l. absurd (omega arith);
}

-- "a" depends on "c", and writes component 3.
abbrev with_a : Systems (List ℕ)
with_a =
    (register_system (def_of 97 (some (99 ∷ []))) (record { component = 3; access = write } ∷ [])
      empty).1

abbrev with_b : Systems (List ℕ)
with_b = (register_system (def_of 98 none) [] with_a).1

abbrev with_c : Systems (List ℕ)
with_c = (register_system (def_of 99 none) (record { component = 3; access = read } ∷ []) with_b).1

with_a-RegistryInv : RegistryInv with_a
with_a-RegistryInv =
    (register_system-RegistryInv (def_of 97 (some (99 ∷ [])))
      (record { component = 3; access = write } ∷ []) empty empty-RegistryInv).0

with_b-RegistryInv : RegistryInv with_b
with_b-RegistryInv = (register_system-RegistryInv (def_of 98 none) [] with_a with_a-RegistryInv).0

-- A second system of one name is refused.
register_system-RegistryInv_example :
    RegistryInv (register_system (def_of 98 none) [] with_b).1
    × (ok (register_system (def_of 98 none) [] with_b).0 ≡ false
        → (register_system (def_of 98 none) [] with_b).1 ≡ with_b)
register_system-RegistryInv_example =
    register_system-RegistryInv (def_of 98 none) [] with_b with_b-RegistryInv

with_c-RegistryInv : RegistryInv with_c
with_c-RegistryInv =
    (register_system-RegistryInv (def_of 99 none) (record { component = 3; access = read } ∷ [])
      with_b with_b-RegistryInv).0

-- "b" runs first, then "c", then "a".
with_c_order :
    (status_ok (schedule_systems with_c).0 ≡ true)
    × ((schedule_systems with_c).1.order 0 ≡ 2)
    × ((schedule_systems with_c).1.order 1 ≡ 3)
    × ((schedule_systems with_c).1.order 2 ≡ 1)
unfolding register_system find_system resolve_io resolve_io_entry same_chars parse_dep_spec
    parse_tokens take_token skip_blanks up_to_comma from_comma trim_end listed schedule_systems
    resolve_from resolve_names second_writer has_double_writer start_placing first_ready
    release_from place_system place_all
with_c_order = (refl, refl, refl, refl)

schedule_systems_iff_example : (status_ok (schedule_systems with_c).0 ≡ true) ↔ IsSchedulable with_c
schedule_systems_iff_example = schedule_systems_iff with_c with_c-RegistryInv

schedule_systems-IsSchedule_example : IsSchedule with_c (schedule_systems with_c).1.order
schedule_systems-IsSchedule_example =
    schedule_systems-IsSchedule with_c with_c-RegistryInv with_c_order.0

run_systems_lem_example :
    (IsCurrent (schedule_systems with_c).1 with_b
      → run_systems (schedule_systems with_c).1 (with_b, []) ≡ (
        done,
        run_order
            (schedule_systems with_c).1.system_count
            0
            (schedule_systems with_c).1.order
            (with_b, []),
      ))
    × (¬ IsCurrent (schedule_systems with_c).1 with_b
        → run_systems (schedule_systems with_c).1 (with_b, [])
          ≡ (failed invalid_argument, (with_b, [])))
run_systems_lem_example = run_systems_lem (schedule_systems with_c).1 with_b []

run_systems-world_after_example :
    (status_ok (run_systems (schedule_systems with_c).1 (with_c, [])).0 ≡ true)
    × ((run_systems (schedule_systems with_c).1 (with_c, [])).1.1
        ≡ world_after with_c (schedule_systems with_c).1.order [] with_c.system_count)
    × ((k : ℕ)
        → k < with_c.system_count
        → (run_systems (schedule_systems with_c).1 (with_c, [])).1.0.systems
            ((schedule_systems with_c).1.order k - 1)
          ≡ record (with_c.systems ((schedule_systems with_c).1.order k - 1)) {
            rng =
                leave
                  (given with_c ((schedule_systems with_c).1.order k - 1))
                  (turn with_c
                    ((schedule_systems with_c).1.order k - 1)
                    (world_after with_c (schedule_systems with_c).1.order [] k)).0
                  (with_c.systems ((schedule_systems with_c).1.order k - 1)).rng;
          })
run_systems-world_after_example =
    run_systems-world_after (schedule_systems with_c).1 with_c []
      (schedule_systems-IsCurrent with_c with_c-RegistryInv with_c_order.0)

-- "a", and "b" that depends on it.
abbrev ordered : Systems (List ℕ)
ordered =
    (register_system (def_of 98 (some (97 ∷ []))) []
      (register_system (def_of 97 none) [] empty).1).1

ordered-RegistryInv : RegistryInv ordered
ordered-RegistryInv =
    (register_system-RegistryInv (def_of 98 (some (97 ∷ []))) []
      (register_system (def_of 97 none) [] empty).1
      (register_system-RegistryInv (def_of 97 none) [] empty empty-RegistryInv).0).0

ordered_count : ordered.system_count ≡ 2
unfolding register_system find_system resolve_io resolve_io_entry same_chars parse_dep_spec
    parse_tokens take_token skip_blanks up_to_comma from_comma trim_end listed schedule_systems
    resolve_from resolve_names second_writer has_double_writer start_placing first_ready
    release_from place_system place_all
ordered_count = refl

ordered-depends : (i j : ℕ) → i < 2 → j < 2 → depends ordered i j ≡ true → j < i
unfolding register_system find_system resolve_io resolve_io_entry same_chars parse_dep_spec
    parse_tokens take_token skip_blanks up_to_comma from_comma trim_end listed schedule_systems
    resolve_from resolve_names second_writer has_double_writer start_placing first_ready
    release_from place_system place_all
ordered-depends zero zero l m on = absurd (ground (arith, on))
ordered-depends zero (suc zero) l m on = absurd (ground (arith, on))
ordered-depends (suc zero) zero l m on = omega arith
ordered-depends (suc zero) (suc zero) l m on = absurd (ground (arith, on))
ordered-depends zero (suc (suc j)) l m on = absurd (omega arith)
ordered-depends (suc zero) (suc (suc j)) l m on = absurd (omega arith)
ordered-depends (suc (suc i)) j l m on = absurd (omega arith)

ordered_made : status_ok (schedule_systems ordered).0 ≡ true
unfolding register_system find_system resolve_io resolve_io_entry same_chars parse_dep_spec
    parse_tokens take_token skip_blanks up_to_comma from_comma trim_end listed schedule_systems
    resolve_from resolve_names second_writer has_double_writer start_placing first_ready
    release_from place_system place_all
ordered_made = refl

schedule_systems_stable_example : (schedule_systems ordered).1.order 1 ≡ 2
schedule_systems_stable_example =
    schedule_systems_stable ordered ordered-RegistryInv
      (λ i j l m.
        ordered-depends i j (omega (arith, l, ordered_count)) (omega (arith, m, ordered_count)))
      ordered_made 1 (omega (arith, ordered_count))

-- Two systems that depend on each other.
abbrev cyclic : Systems (List ℕ)
cyclic =
    (register_system (def_of 98 (some (97 ∷ []))) []
      (register_system (def_of 97 (some (98 ∷ []))) [] empty).1).1

cyclic_refused : (schedule_systems cyclic).0 ≡ failed invalid_argument
unfolding register_system find_system resolve_io resolve_io_entry same_chars parse_dep_spec
    parse_tokens take_token skip_blanks up_to_comma from_comma trim_end listed schedule_systems
    resolve_from resolve_names second_writer has_double_writer start_placing first_ready
    release_from place_system place_all
cyclic_refused = refl
