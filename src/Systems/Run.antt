-- ===== src/Systems/Run.antt =====
-- `World::runSystems` (src/laige-sim/systems.cpp): one tick of the systems. Their run times are not measured.
pub mod Checks
pub mod Ticks
pub mod Scheduled
use laige_cpp.Prelude.{
  ℕ, zero, suc, ◌+◌, ◌-◌, Bool, true, false, not, ◌&&◌, ◌||◌, ltb, ◌==◌, if◌then◌else◌, Option,
  some, none, update,
}
use laige_cpp.Prng.{Prng}
use laige_cpp.Result.{invalid_argument, Status, done, failed}
use laige_cpp.Systems.{IdSet, SystemFn, SystemRecord, Systems, SystemSchedule, contains, set_id}

-- The entries of an order from index `k` on, `left` of them: each is an id, and none is in `seen`.
unfoldable pub check_order : ℕ → ℕ → ℕ → IdSet → (ℕ → ℕ) → Bool
check_order zero k count seen order = true
check_order (suc left) k count seen order =
    let rest = check_order left (k + 1) count (set_id seen (order k)) order in
    if order k == 0 || (ltb count (order k) || contains seen (order k)) then false else rest

-- The stream of a record after a run that was given `passed` and left `after`.
abbrev pub leave : Option Prng → Option Prng → Option Prng → Option Prng
leave none after own = own
leave (some g) none own = own
leave (some g) (some h) own = some h

module _ {W : Type 0} where
  abbrev pub call : Option (SystemFn W) → Option Prng → W → Option Prng × W
  call none rng w = (rng, w)
  call (some f) rng w = f rng w

  unfoldable pub run_system : ℕ → Systems W × W → Systems W × W
  run_system i (s, w) =
      let rec = s.systems i in
      let passed = if s.deterministic then rec.rng else none in
      let after = call rec.def.run passed w in
      (
        record s {
          systems = update s.systems i (record rec { rng = leave passed after.0 rec.rng });
        },
        after.1,
      )

  -- The systems of an order from index `k` on, `left` of them, one after the other.
  unfoldable pub run_order : ℕ → ℕ → (ℕ → ℕ) → Systems W × W → Systems W × W
  run_order zero k order sw = sw
  run_order (suc left) k order sw = run_order left (k + 1) order (run_system (order k - 1) sw)

  unfoldable pub run_systems : SystemSchedule → Systems W × W → Status × (Systems W × W)
  run_systems schedule (s, w) =
      if not (schedule.system_count == s.system_count)
      then (failed invalid_argument, (s, w))
      else if schedule.system_count == 0
      then (done, (s, w))
      else if not
          (check_order schedule.system_count 0 schedule.system_count (λ id. false) schedule.order)
      then (failed invalid_argument, (s, w))
      else (done, run_order schedule.system_count 0 schedule.order (s, w))
