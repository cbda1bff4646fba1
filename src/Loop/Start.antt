-- ===== src/Loop/Start.antt =====
-- `GameLoop::create` and what it makes (src/laige-sim/game_loop.cpp), and the calls of
-- `World::beginFrame`.
use laige_cpp.Prelude.{
  ℕ, zero, suc, ◌+◌, ◌-◌, ◌≤◌, ◌<◌, ◌≡◌, ◌↔◌, refl, ◌∙◌, arith, true, leb, leb→le, Bool-cases, ltb,
  inl, inr, none, min,
}
use laige_cpp.Result.{Status, done, failed, ok}
use laige_cpp.Loop.{
  GameLoop, Options, Driver, create, start_loop, min_tick_rate_hz, max_tick_rate_hz, run_ticks,
  run_tick, settle, notify, count_dropped, advance,
}
use laige_cpp.Loop.Frames.{Inv, to_run}

-- A loop is made exactly for a rate from 20 to 120 Hz and at least one tick a frame.
pub create_iff :
    (o : Options)
    → (ok (create o) ≡ true) ↔ (
        min_tick_rate_hz ≤ o.tick_rate_hz
        × (o.tick_rate_hz ≤ max_tick_rate_hz)
        × (0 < o.max_catch_up_ticks))
unfolding create
create_iff o = ground arith

-- The loop that is made for such options has no tick yet and keeps the invariant of the frames.
pub start_loop-Inv : (o : Options) → o.tick_rate_hz ≤ max_tick_rate_hz → Inv 0 (start_loop o)
unfolding start_loop
start_loop-Inv o p = record {
  rate_ok = p;
  begun = omega arith;
  behind = omega arith;
  fresh = λ f. refl;
}

-- A world that counts the calls of `beginFrame`, with systems that do nothing.
abbrev pub counting : Driver ℕ
counting = record { begin_frame = λ w. w + 1; run_systems = λ w. (done, w); on_tick = none }

run_ticks-counting :
    (n : ℕ) (l : GameLoop) (w : ℕ)
    → ((run_ticks counting n (done, (l, w))).0 ≡ done)
      × ((run_ticks counting n (done, (l, w))).1.1 ≡ w + n)
unfolding run_ticks run_tick settle notify
run_ticks-counting zero l w = (refl, omega arith)
run_ticks-counting (suc n) l w = let (e, f) = run_ticks-counting n _ (w + 1) in (e, f ∙ omega arith)

count_dropped-world :
    {World : Type 0} (d : Driver World) (want : ℕ) (r : Status × (GameLoop × World))
    → (count_dropped d want r).1.1 ≡ r.1.1
unfolding count_dropped
count_dropped-world d want (failed e, s) = refl
count_dropped-world d want (done, (l, w)) =
    elim (Bool-cases (ltb l.options.max_catch_up_ticks want)) [
      | inl e ↦ rw e refl
      | inr e ↦ rw e refl
    ]

-- `beginFrame` is called once for each tick that a frame runs, and not once a frame.
pub begin_frame_each_tick :
    (due : ℕ) (l : GameLoop) (w : ℕ)
    → (advance counting due (l, w)).1.1 ≡ w + min (due - l.ticks) l.options.max_catch_up_ticks
unfolding advance
begin_frame_each_tick due l w =
    let early = leb→le due l.ticks in
    elim (Bool-cases (leb due l.ticks)) [
      | inl e ↦ rw e (omega (arith, early e))
      | inr e ↦ rw e (
          let want = due - l.ticks in
          let n = to_run want l.options.max_catch_up_ticks in
          let (e', f) = run_ticks-counting n l w in
          count_dropped-world counting want (run_ticks counting n (done, (l, w)))
          ∙ f
          ∙ ground arith)
    ]
