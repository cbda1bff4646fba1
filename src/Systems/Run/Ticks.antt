-- ===== src/Systems/Run/Ticks.antt =====
-- What a tick of `World::runSystems` (src/laige-sim/systems.cpp) does to the world and to the random streams.
use laige_cpp.Prelude.{
  ℕ, zero, suc, ◌+◌, ◌-◌, ◌≤◌, ◌<◌, ◌≡◌, ◌≢◌, inl, inr, refl, subst, arith, true, false, ◌==◌,
  Bool-cases, ==→eq, ==_self, if◌then◌else◌, Option, none,
}
use laige_cpp.Prng.{Prng}
use laige_cpp.Result.{status_ok}
use laige_cpp.Systems.{Systems, SystemSchedule}
use laige_cpp.Systems.Run.{leave, call, run_system, run_order, run_systems}
use laige_cpp.Systems.Run.Checks.{IsCurrent, run_systems_lem}

module _ {W : Type 0} where
  -- The stream that a system is given, and what a run at a world leaves of both.
  abbrev pub given : Systems W → ℕ → Option Prng
  given s i = if s.deterministic then (s.systems i).rng else none

  abbrev pub turn : Systems W → ℕ → W → Option Prng × W
  turn s i w = call (s.systems i).def.run (given s i) w

  -- The world after the first `k` systems of an order, each with the stream that it had before the tick.
  abbrev pub world_after : Systems W → (ℕ → ℕ) → W → ℕ → W
  world_after s order w zero = w
  world_after s order w (suc k) = (turn s (order k - 1) (world_after s order w k)).1

  -- How the registry and the world stand after the first `k` systems.
  record Ticked (s : Systems W) (order : ℕ → ℕ) (w : W) (k : ℕ) (sw : Systems W × W) : Type 0 where
    world : sw.1 ≡ world_after s order w k
    mode : sw.0.deterministic ≡ s.deterministic
    waiting : (i : ℕ) → ((j : ℕ) → j < k → order j ≢ suc i) → sw.0.systems i ≡ s.systems i
    ran :
        (j : ℕ)
        → j < k
        → sw.0.systems (order j - 1) ≡ record (s.systems (order j - 1)) {
          rng =
              leave
                (given s (order j - 1))
                (turn s (order j - 1) (world_after s order w j)).0
                (s.systems (order j - 1)).rng;
        }

  module _ (s : Systems W) (order : ℕ → ℕ) (w : W) (n : ℕ)
      (positive : (k : ℕ) → k < n → 1 ≤ order k)
      (once : (j k : ℕ) → j < k → k < n → order j ≢ order k) where
    run_system-Ticked :
        (k : ℕ) (sw : Systems W × W)
        → k < n
        → Ticked s order w k sw
        → Ticked s order w (suc k) (run_system (order k - 1) sw)
    unfolding run_system
    run_system-Ticked k (t, u) l v =
        let own : t.systems (order k - 1) ≡ s.systems (order k - 1) =
          v.waiting (order k - 1) (λ j m e. once j k m l (omega (arith, e, positive k l))) in
        let same = v.mode in
        let now = v.world in
        record {
          world = rw (own, same, now) refl;
          mode = same;
          waiting = λ i h.
              let far : (order k - 1 == i) ≡ false =
                ground (arith, h k (omega arith), positive k l) in
              rw far (v.waiting i (λ j m. h j (omega arith)));
          ran = λ j m. elim (Bool-cases (j == k)) [
            | inl e ↦ rw (==→eq j k e, ==_self (order k - 1), own, same, now) refl
            | inr e ↦
                let before : j < k = ground arith in
                let far : (order k - 1 == order j - 1) ≡ false =
                  ground (
                    arith,
                    once j k before l,
                    positive k l,
                    positive j (omega (arith, before, l)),
                  ) in
                rw far (v.ran j before)
          ];
        }

    run_order-Ticked :
        (left k : ℕ) (sw : Systems W × W)
        → k + left ≡ n
        → Ticked s order w k sw
        → Ticked s order w n (run_order left k order sw)
    unfolding run_order
    run_order-Ticked zero k sw e v =
        let same : k ≡ n = omega (arith, e) in subst (λ m. Ticked s order w m sw) same v
    run_order-Ticked (suc left) k sw e v =
        run_order-Ticked left (k + 1) (run_system (order k - 1) sw) (omega (arith, e)) (
          subst (λ m. Ticked s order w m (run_system (order k - 1) sw)) (omega arith)
            (run_system-Ticked k sw (omega (arith, e)) v))

  -- A tick with a schedule for as many systems as there are, with each id once, leaves the world that the
  -- systems of the order make one after the other, each given its own stream as it was before the
  -- tick, and stores in each record what its system left of the stream.
  pub run_systems-world_after :
      (schedule : SystemSchedule) (s : Systems W) (w : W)
      → IsCurrent schedule s
      → (status_ok (run_systems schedule (s, w)).0 ≡ true)
        × ((run_systems schedule (s, w)).1.1 ≡ world_after s schedule.order w s.system_count)
        × ((k : ℕ)
            → k < s.system_count
            → (run_systems schedule (s, w)).1.0.systems (schedule.order k - 1)
              ≡ record (s.systems (schedule.order k - 1)) {
                rng =
                    leave
                      (given s (schedule.order k - 1))
                      (turn s (schedule.order k - 1) (world_after s schedule.order w k)).0
                      (s.systems (schedule.order k - 1)).rng;
              })
  run_systems-world_after schedule s w c =
      let ticked =
        run_order-Ticked s schedule.order w s.system_count (λ k l. (c.ids k l).0) c.once
          schedule.system_count 0 (s, w) (omega (arith, c.current))
          record {
            world = refl;
            mode = refl;
            waiting = λ i h. refl;
            ran = λ j m. absurd (omega arith);
          } in
      rw ((run_systems_lem schedule s w).0 c) (refl, ticked.world, ticked.ran)
