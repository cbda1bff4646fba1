-- ===== src/Loop/Clock.antt =====
-- `GameLoop::frame` (src/laige-sim/game_loop.cpp) where the systems never fail: the loop is decided
-- by the readings of the clock.
use laige_cpp.Prelude.{
  ℕ, ◌+◌, ◌-◌, ◌^◌, ◌≤◌, ◌<◌, ◌≡◌, refl, sym, ap, ◌∙◌, arith, Bool, true, ltb, leb, ◌==◌,
  if◌then◌else◌, leb→lt, ==→eq, Bool-cases, inl, inr, min,
}
use laige_cpp.Result.{Status, done, failed}
use laige_cpp.Loop.{
  GameLoop, Driver, u64, run_ticks, count_dropped, advance, reading, enter, drive, frame, ticks_due,
}
use laige_cpp.Loop.Due.{ticks_due-fits, ticks_due-zero}
use laige_cpp.Loop.Ticks.{counted, NeverFails, run_ticks-counts}
use laige_cpp.Loop.Frames.{Inv, to_run, to_run-le, reading-now, enter-Inv, frame-valid}

-- What becomes of the loop alone, told without the world and the systems.
charge : ℕ → GameLoop → GameLoop
charge want l =
    let most = l.options.max_catch_up_ticks in
    if ltb most want
    then record l {
      dropped_ticks = u64 (l.dropped_ticks + (want - most));
      dropped_frames = u64 (l.dropped_frames + 1);
    }
    else l

caught_up : ℕ → GameLoop → GameLoop
caught_up due l =
    let want = due - l.ticks in
    if leb due l.ticks
    then l
    else charge want (counted (l.ticks + to_run want l.options.max_catch_up_ticks) l)

pub driven : ℕ → GameLoop → GameLoop
driven now l =
    let m = enter now l in
    let t = reading now l in
    if t == m.start_ns then m else caught_up (ticks_due (t - m.start_ns) m.options.tick_rate_hz) m

-- What a frame does to the counters: it runs what is due, as far as one frame may, and drops
-- the rest.
pub record Step (due : ℕ) (l m : GameLoop) : Type 0 where
  pub ran : m.ticks ≡ l.ticks + min (due - l.ticks) l.options.max_catch_up_ticks
  pub charged :
      l.dropped_ticks + due < 2 ^ 64
      → m.dropped_ticks ≡ l.dropped_ticks + (due - l.ticks - l.options.max_catch_up_ticks)
  pub start_same : m.start_ns ≡ l.start_ns
  pub options_same : m.options ≡ l.options
  pub valid_same : m.valid ≡ l.valid
  pub started_same : m.started ≡ l.started

caught_up-Step : (due : ℕ) (l : GameLoop) → Step due l (caught_up due l)
unfolding caught_up charge
caught_up-Step due l = record {
  ran = ground arith;
  charged = λ p. ground arith;
  start_same = ground arith;
  options_same = ground arith;
  valid_same = ground arith;
  started_same = ground arith;
}

idle-Step : (due : ℕ) (l : GameLoop) → due ≤ l.ticks → Step due l l
idle-Step due l p = record {
  ran = omega arith;
  charged = λ q. omega arith;
  start_same = refl;
  options_same = refl;
  valid_same = refl;
  started_same = refl;
}

-- The number of ticks that are due at a reading.
abbrev pub due_at : ℕ → GameLoop → ℕ
due_at now l = ticks_due (now - l.start_ns) l.options.tick_rate_hz

enter-started :
    (now : ℕ) (l : GameLoop)
    → l.started ≡ true
    → enter now l ≡ record l { frames = u64 (l.frames + 1) }
unfolding enter
enter-started now l t =
    ap
      (λ (b : Bool). record l {
        started = true;
        start_ns = (if b then l.start_ns else now);
        frames = u64 (l.frames + 1);
      })
      t
    ∙ sym (ap (λ (b : Bool). record l { started = b; frames = u64 (l.frames + 1) }) t)

framed-Step :
    (due : ℕ) (l m : GameLoop)
    → Step due (record l { frames = u64 (l.frames + 1) }) m
    → Step due l m
framed-Step due l m s = record {
  ran = s.ran;
  charged = s.charged;
  start_same = s.start_same;
  options_same = s.options_same;
  valid_same = s.valid_same;
  started_same = s.started_same;
}

pub driven-Step :
    (last now : ℕ) (l : GameLoop)
    → Inv last l
    → last ≤ now
    → l.started ≡ true
    → Step (due_at now l) l (driven now l)
unfolding driven
driven-Step last now l v p t =
    let m : GameLoop = record l { frames = u64 (l.frames + 1) } in
    rw (reading-now last now l v p, enter-started now l t)
      (elim (Bool-cases (now == l.start_ns)) [
        | inl e ↦ rw e (
            let none_due : due_at now l ≡ 0 =
              ap (λ (x : ℕ). ticks_due x l.options.tick_rate_hz)
                (omega (arith, ==→eq now l.start_ns e))
              ∙ ticks_due-zero l.options.tick_rate_hz in
            framed-Step (due_at now l) l m (idle-Step (due_at now l) m (omega (arith, none_due))))
        | inr e ↦ rw e (framed-Step (due_at now l) l _ (caught_up-Step (due_at now l) m))
      ])

pub driven-valid : (now : ℕ) (l : GameLoop) → l.valid ≡ true → (driven now l).valid ≡ true
unfolding driven caught_up charge enter
driven-valid now l t = ground arith

module _ {World : Type 0} (d : Driver World) (h : NeverFails d) where
  count_dropped-charge :
      (want : ℕ) (r : Status × (GameLoop × World))
      → r.0 ≡ done
      → ((count_dropped d want r).0 ≡ done) × ((count_dropped d want r).1.0 ≡ charge want r.1.0)
  unfolding count_dropped charge
  count_dropped-charge want (failed e, s) p = absurd (ground arith)
  count_dropped-charge want (done, (l, w)) p =
      elim (Bool-cases (ltb l.options.max_catch_up_ticks want)) [
        | inl e ↦ rw e (refl, refl)
        | inr e ↦ rw e (refl, refl)
      ]

  advance-caught_up :
      (due : ℕ) (l : GameLoop) (w : World)
      → due < 2 ^ 63
      → ((advance d due (l, w)).0 ≡ done) × ((advance d due (l, w)).1.0 ≡ caught_up due l)
  unfolding advance caught_up
  advance-caught_up due l w p = elim (Bool-cases (leb due l.ticks)) [
    | inl e ↦ rw e (refl, refl)
    | inr e ↦ rw e (
        let want = due - l.ticks in
        let n = to_run want l.options.max_catch_up_ticks in
        let late = leb→lt due l.ticks e in
        let (ok, loop) =
          run_ticks-counts d n (done, (l, w)) h refl
            (omega (arith, (to_run-le want l.options.max_catch_up_ticks).1)) in
        let (ok', loop') = count_dropped-charge want (run_ticks d n (done, (l, w))) ok in
        (ok', loop' ∙ ap (λ (m : GameLoop). charge want m) loop))
  ]

  -- The loop after a frame does not depend on the world, nor on what the systems do to it.
  pub frame-driven :
      (last now : ℕ) (l : GameLoop) (w : World)
      → Inv last l
      → last ≤ now
      → now < 2 ^ 63
      → l.valid ≡ true
      → ((frame d now (l, w)).0 ≡ done) × ((frame d now (l, w)).1.0 ≡ driven now l)
  unfolding drive driven
  frame-driven last now l w v p q t =
      let m = enter now l in
      let u = enter-Inv last now l v p q in
      rw (frame-valid d now l w t, reading-now last now l v p)
        (elim (Bool-cases (now == m.start_ns)) [
          | inl e ↦ rw e (refl, refl)
          | inr e ↦ rw e (advance-caught_up _ m w (ticks_due-fits _ _ (omega arith) u.rate_ok))
        ])

  -- Where the systems never fail, a frame of a started loop succeeds; it runs the ticks that are due,
  -- as far as one frame may, and counts as dropped what is over that.
  pub frame_lem :
      (last now : ℕ) (l : GameLoop) (w : World)
      → Inv last l
      → last ≤ now
      → now < 2 ^ 63
      → l.valid ≡ true
      → l.started ≡ true
      → l.dropped_ticks + due_at now l < 2 ^ 64
      → let due = due_at now l in
        let most = l.options.max_catch_up_ticks in
        let (answer, (after, w')) = frame d now (l, w) in
        (answer ≡ done)
        × ((after.ticks ≡ l.ticks + min (due - l.ticks) most)
            × (after.dropped_ticks ≡ l.dropped_ticks + (due - l.ticks - most)))
  frame_lem last now l w v p q t b r =
      let (ok, loop) = frame-driven last now l w v p q t in
      let s = driven-Step last now l v p b in (ok, (rw loop s.ran, rw loop (s.charged r)))
