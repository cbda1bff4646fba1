-- ===== src/Loop/Ticks.antt =====
-- `runOneTick` and the tick loop of `frame` (src/laige-sim/game_loop.cpp).
use laige_cpp.Prelude.{ℕ, zero, suc, ◌+◌, ◌^◌, ◌≤◌, ◌<◌, ◌≡◌, refl, ap, ◌∙◌, arith}
use laige_cpp.Result.{Status, done, failed}
use laige_cpp.Loop.{GameLoop, Driver, settle, run_tick, run_ticks}

-- The loop after its tick number is `n`; nothing else of it has changed.
abbrev pub counted : ℕ → GameLoop → GameLoop
counted n l = record l { ticks = n }

module _ {World : Type 0} (d : Driver World) where
  -- The system phase never fails.
  unfoldable pub NeverFails : Type 0
  NeverFails = (w : World) → (d.run_systems w).0 ≡ done

  settle-done :
      (l : GameLoop) (r : Status × World)
      → r.0 ≡ done
      → l.ticks + 1 < 2 ^ 64
      → ((settle d l r).0 ≡ done) × ((settle d l r).1.0 ≡ counted (l.ticks + 1) l)
  unfolding settle
  settle-done l (done, w) e p = (refl, ap (λ (n : ℕ). counted n l) (omega arith))
  settle-done l (failed c, w) e p = absurd (ground arith)

  -- Ticks that do not fail are counted, one each.
  pub run_ticks-counts :
      (n : ℕ) (r : Status × (GameLoop × World))
      → NeverFails
      → r.0 ≡ done
      → r.1.0.ticks + n < 2 ^ 64
      → ((run_ticks d n r).0 ≡ done) × ((run_ticks d n r).1.0 ≡ counted (r.1.0.ticks + n) r.1.0)
  unfolding run_ticks run_tick NeverFails
  run_ticks-counts zero r h e p = (e, ap (λ (n : ℕ). counted n r.1.0) (omega arith))
  run_ticks-counts (suc n) (failed c, s) h e p = absurd (ground arith)
  run_ticks-counts (suc n) (done, (l, w)) h e p =
      let s = settle d l (d.run_systems (d.begin_frame w)) in
      let first =
        settle-done l (d.run_systems (d.begin_frame w)) (h (d.begin_frame w)) (omega arith) in
      let now : s.1.0.ticks ≡ l.ticks + 1 = ap (λ (m : GameLoop). m.ticks) first.1 in
      let rest = run_ticks-counts n s h first.0 (omega arith) in
      (
        rest.0,
        rest.1
            ∙ ap (λ (m : GameLoop). counted (m.ticks + n) m) first.1
            ∙ ap (λ (k : ℕ). counted k l) (omega arith),
      )

  settle-le :
      (l : GameLoop) (r : Status × World)
      → l.ticks + 1 < 2 ^ 64
      → (settle d l r).1.0 ≡ counted (settle d l r).1.0.ticks l
        × (l.ticks ≤ (settle d l r).1.0.ticks)
        × ((settle d l r).1.0.ticks ≤ l.ticks + 1)
  unfolding settle
  settle-le l (done, w) p = (refl, omega arith, omega arith)
  settle-le l (failed c, w) p = (refl, omega arith, omega arith)

  -- Whatever the systems answer, a run of `n` ticks counts at most `n` and changes nothing else.
  pub run_ticks-le :
      (n : ℕ) (r : Status × (GameLoop × World))
      → r.1.0.ticks + n < 2 ^ 64
      → (run_ticks d n r).1.0 ≡ counted (run_ticks d n r).1.0.ticks r.1.0
        × (r.1.0.ticks ≤ (run_ticks d n r).1.0.ticks)
        × ((run_ticks d n r).1.0.ticks ≤ r.1.0.ticks + n)
  unfolding run_ticks run_tick
  run_ticks-le zero r p = (refl, omega arith, omega arith)
  run_ticks-le (suc n) (failed c, s) p = (refl, omega arith, omega arith)
  run_ticks-le (suc n) (done, (l, w)) p =
      let s = settle d l (d.run_systems (d.begin_frame w)) in
      let (same, more, most) = settle-le l (d.run_systems (d.begin_frame w)) (omega arith) in
      let (same', more', most') = run_ticks-le n s (omega arith) in
      (
        same' ∙ ap (λ (m : GameLoop). counted (run_ticks d n s).1.0.ticks m) same,
        omega arith,
        omega arith,
      )
