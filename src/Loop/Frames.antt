-- ===== src/Loop/Frames.antt =====
-- `GameLoop::frame` (src/laige-sim/game_loop.cpp) on every driver, and on one that never fails.
use laige_cpp.Prelude.{
  ℕ, ◌+◌, ◌-◌, ◌^◌, ◌≤◌, ◌<◌, ◌≡◌, refl, ap, arith, Bool, true, false, not, ltb, leb, ◌==◌,
  if◌then◌else◌, leb→lt, Bool-cases, inl, inr,
}
use laige_cpp.Result.{Status, done, failed, invalid_argument}
use laige_cpp.Loop.{
  GameLoop, Driver, run_ticks, count_dropped, advance, reading, enter, drive, frame, ticks_due,
  max_tick_rate_hz,
}
use laige_cpp.Loop.Due.{ticks_due-fits, ticks_due_mono}
use laige_cpp.Loop.Ticks.{run_ticks-le}

-- The loop has a start at or before the reading, and no more ticks than are due at the reading.
pub record Inv (now : ℕ) (l : GameLoop) : Type 0 where
  pub rate_ok : l.options.tick_rate_hz ≤ max_tick_rate_hz
  pub begun : l.start_ns ≤ now
  pub behind : l.ticks ≤ ticks_due (now - l.start_ns) l.options.tick_rate_hz
  pub fresh : l.started ≡ false → l.ticks ≡ 0

-- What a step keeps of the loop, and how far its tick number may go.
pub record Moves (most : ℕ) (due : ℕ) (l m : GameLoop) : Type 0 where
  pub options_same : m.options ≡ l.options
  pub valid_same : m.valid ≡ l.valid
  pub started_same : m.started ≡ l.started
  pub start_same : m.start_ns ≡ l.start_ns
  pub no_less : l.ticks ≤ m.ticks
  pub no_more : m.ticks ≤ l.ticks + most
  pub not_early : l.ticks ≤ due → m.ticks ≤ due

-- The ticks that one frame runs, out of those that are wanted.
abbrev pub to_run : ℕ → ℕ → ℕ
to_run want most = if ltb want most then want else most

pub to_run-le : (want most : ℕ) → to_run want most ≤ most × (to_run want most ≤ want)
to_run-le want most = ground arith

later-Inv : (last now : ℕ) (l : GameLoop) → Inv last l → last ≤ now → now < 2 ^ 63 → Inv now l
later-Inv last now l v p q =
    let mono =
      ticks_due_mono (last - l.start_ns) (now - l.start_ns) l.options.tick_rate_hz (omega arith)
        (omega arith) v.rate_ok in
    record {
      rate_ok = v.rate_ok;
      begun = omega (arith, v.begun);
      behind = omega (arith, v.behind, mono);
      fresh = v.fresh;
    }

pub reading-now : (last now : ℕ) (l : GameLoop) → Inv last l → last ≤ now → reading now l ≡ now
unfolding reading
reading-now last now l v p =
    let begun = v.begun in
    elim (Bool-cases l.started) [ inl e ↦ rw e (ground arith) | inr e ↦ rw e refl ]

pub enter-Inv :
    (last now : ℕ) (l : GameLoop) → Inv last l → last ≤ now → now < 2 ^ 63 → Inv now (enter now l)
unfolding enter
enter-Inv last now l v p q =
    let u = later-Inv last now l v p q in
    elim (Bool-cases l.started) [
      | inl e ↦ rw e (record {
        rate_ok = u.rate_ok;
        begun = u.begun;
        behind = u.behind;
        fresh = λ f. absurd (ground arith);
      })
      | inr e ↦ rw e (record {
        rate_ok = u.rate_ok;
        begun = omega arith;
        behind = omega (arith, u.fresh e);
        fresh = λ f. u.fresh e;
      })
    ]

enter-started : (now : ℕ) (l : GameLoop) → (enter now l).started ≡ true
unfolding enter
enter-started now l = refl

Moves-Inv :
    {most : ℕ} (now : ℕ) (l m : GameLoop)
    → Inv now l
    → Moves most (ticks_due (now - l.start_ns) l.options.tick_rate_hz) l m
    → l.started ≡ true
    → Inv now m
Moves-Inv now l m v c t = record {
  rate_ok = rw c.options_same v.rate_ok;
  begun = rw c.start_same v.begun;
  behind = rw (c.options_same, c.start_same) (c.not_early v.behind);
  fresh = λ f. absurd (ground (arith, c.started_same));
}

module _ {World : Type 0} (d : Driver World) where
  count_dropped-Moves :
      (most due want : ℕ) (l : GameLoop) (r : Status × (GameLoop × World))
      → Moves most due l r.1.0
      → Moves most due l (count_dropped d want r).1.0
  unfolding count_dropped
  count_dropped-Moves most due want l (failed e, s) v = v
  count_dropped-Moves most due want l (done, (m, w)) v =
      elim (Bool-cases (ltb m.options.max_catch_up_ticks want)) [
        | inl e ↦ rw e (record {
          options_same = v.options_same;
          valid_same = v.valid_same;
          started_same = v.started_same;
          start_same = v.start_same;
          no_less = v.no_less;
          no_more = v.no_more;
          not_early = v.not_early;
        })
        | inr e ↦ rw e v
      ]

  run_ticks-Moves :
      (n most due : ℕ) (l : GameLoop) (w : World)
      → due < 2 ^ 63
      → n ≤ most
      → l.ticks + n ≤ due
      → Moves most due l (run_ticks d n (done, (l, w))).1.0
  run_ticks-Moves n most due l w p b q =
      let (same, more, few) = run_ticks-le d n (done, (l, w)) (omega arith) in
      record {
        options_same = ap (λ (m : GameLoop). m.options) same;
        valid_same = ap (λ (m : GameLoop). m.valid) same;
        started_same = ap (λ (m : GameLoop). m.started) same;
        start_same = ap (λ (m : GameLoop). m.start_ns) same;
        no_less = more;
        no_more = omega arith;
        not_early = λ _. omega arith;
      }

  advance-Moves :
      (due : ℕ) (l : GameLoop) (w : World)
      → due < 2 ^ 63
      → Moves l.options.max_catch_up_ticks due l (advance d due (l, w)).1.0
  unfolding advance
  advance-Moves due l w p = elim (Bool-cases (leb due l.ticks)) [
    | inl e ↦ rw e (record {
      options_same = refl;
      valid_same = refl;
      started_same = refl;
      start_same = refl;
      no_less = omega arith;
      no_more = omega arith;
      not_early = λ q. q;
    })
    | inr e ↦ rw e (
        let most = l.options.max_catch_up_ticks in
        let n = to_run (due - l.ticks) most in
        let (few, wanted) = to_run-le (due - l.ticks) most in
        let late = leb→lt due l.ticks e in
        count_dropped-Moves most due (due - l.ticks) l (run_ticks d n (done, (l, w)))
          (run_ticks-Moves n most due l w p few (omega arith)))
  ]

  pub frame-valid :
      (now : ℕ) (l : GameLoop) (w : World)
      → l.valid ≡ true
      → frame d now (l, w) ≡ drive d now (l, w)
  unfolding frame
  frame-valid now l w t =
      ap (λ (b : Bool). if not b then (failed invalid_argument, (l, w)) else drive d now (l, w)) t

  -- A loop that has been moved from answers an error and leaves the world alone.
  pub frame-moved :
      (now : ℕ) (l : GameLoop) (w : World)
      → l.valid ≡ false
      → frame d now (l, w) ≡ (failed invalid_argument, (l, w))
  unfolding frame
  frame-moved now l w f =
      ap (λ (b : Bool). if not b then (failed invalid_argument, (l, w)) else drive d now (l, w)) f

  drive-Inv :
      (last now : ℕ) (l : GameLoop) (w : World)
      → Inv last l
      → last ≤ now
      → now < 2 ^ 63
      → Inv now (drive d now (l, w)).1.0
  unfolding drive
  drive-Inv last now l w v p q =
      let m = enter now l in
      let u = enter-Inv last now l v p q in
      let begins : m.started ≡ true = enter-started now l in
      rw (reading-now last now l v p) (elim (Bool-cases (now == m.start_ns)) [
        | inl e ↦ rw e u
        | inr e ↦ rw e (
            Moves-Inv now m _ u (advance-Moves _ m w (ticks_due-fits _ _ (omega arith) u.rate_ok))
              begins)
      ])

  -- Whatever the systems answer, a frame at a reading that is not earlier than the last keeps the
  -- loop between its start and the clock: no tick runs before it is due.
  pub frame-Inv :
      (last now : ℕ) (l : GameLoop) (w : World)
      → Inv last l
      → last ≤ now
      → now < 2 ^ 63
      → Inv now (frame d now (l, w)).1.0
  frame-Inv last now l w v p q = elim (Bool-cases l.valid) [
    | inl t ↦ rw (frame-valid now l w t) (drive-Inv last now l w v p q)
    | inr f ↦ rw (frame-moved now l w f) (later-Inv last now l v p q)
  ]
