-- ===== src/Loop/Overload.antt =====
-- Runs of frames (src/laige-sim/game_loop.cpp): which ticks a run of frames has run, and what is left
-- of those that a frame counted as dropped.
use laige_cpp.Prelude.{
  ℕ, zero, suc, ◌+◌, ◌*◌, ◌^◌, ◌≤◌, ◌<◌, ◌≡◌, refl, sym, ap, ◌∙◌, arith, true, List, [], ◌∷◌, min,
}
use laige_cpp.Loop.{GameLoop, Driver, frame}
use laige_cpp.Loop.Ticks.{NeverFails}
use laige_cpp.Loop.Frames.{Inv, frame-Inv}
use laige_cpp.Loop.Clock.{due_at, Step, driven, driven-Step, driven-valid, frame-driven}

-- One frame for each reading of the clock, whatever it answers.
pub run_frames : {World : Type 0} → Driver World → List ℕ → GameLoop × World → GameLoop × World
run_frames d [] s = s
run_frames d (now ∷ later) s = run_frames d later (frame d now s).1

-- The readings never go back, and fit the clock.
unfoldable pub Forward : ℕ → List ℕ → Type 0
Forward last [] = last < 2 ^ 63
Forward last (now ∷ later) = last ≤ now × (now < 2 ^ 63) × Forward now later

pub run_frames-Inv :
    {World : Type 0} (d : Driver World) (last : ℕ) (times : List ℕ) (l : GameLoop) (w : World)
    → Inv last l
    → Forward last times
    → (now : ℕ) × Inv now (run_frames d times (l, w)).0
unfolding run_frames Forward
run_frames-Inv d last [] l w v p = (last, v)
run_frames-Inv d last (now ∷ later) l w v (p, q, r) =
    run_frames-Inv d now later (frame d now (l, w)).1.0 (frame d now (l, w)).1.1
      (frame-Inv d last now l w v p q) r

driven_run : List ℕ → GameLoop → GameLoop
driven_run [] l = l
driven_run (now ∷ later) l = driven_run later (driven now l)

module _ {World : Type 0} (d : Driver World) (h : NeverFails d) where
  run_frames-driven :
      (last : ℕ) (times : List ℕ) (l : GameLoop) (w : World)
      → Inv last l
      → Forward last times
      → l.valid ≡ true
      → (run_frames d times (l, w)).0 ≡ driven_run times l
  unfolding run_frames driven_run Forward
  run_frames-driven last [] l w v p t = refl
  run_frames-driven last (now ∷ later) l w v (p, q, r) t =
      let s = (frame d now (l, w)).1 in
      let (ok, loop) = frame-driven d h last now l w v p q t in
      run_frames-driven now later s.0 s.1 (frame-Inv d last now l w v p q) r
        (rw loop (driven-valid now l t))
      ∙ ap (λ (m : GameLoop). driven_run later m) loop

-- Where the systems never fail, the loop after any frames is decided by the readings of the clock
-- and the loop before: two worlds, and two sets of systems and hooks, run the same ticks.
pub run_frames-same :
    {World World' : Type 0} (d : Driver World) (d' : Driver World') (last : ℕ) (times : List ℕ)
    (l : GameLoop) (w : World) (w' : World')
    → NeverFails d
    → NeverFails d'
    → Inv last l
    → Forward last times
    → l.valid ≡ true
    → (run_frames d times (l, w)).0 ≡ (run_frames d' times (l, w')).0
run_frames-same d d' last times l w w' h h' v p t =
    run_frames-driven d h last times l w v p t ∙ sym (run_frames-driven d' h' last times l w' v p t)

-- `k` frames at one reading of the clock.
abbrev pub repeated : ℕ → ℕ → List ℕ
repeated zero now = []
repeated (suc k) now = now ∷ repeated k now

module _ {World : Type 0} (d : Driver World) (h : NeverFails d) where
  -- Frames at one reading of the clock, where the systems never fail, run the ticks that are due
  -- then, as far as all the frames together may: those that the first one counted as dropped too.
  pub repeated_ticks :
      (k now : ℕ) (l : GameLoop) (w : World)
      → Inv now l
      → now < 2 ^ 63
      → l.valid ≡ true
      → l.started ≡ true
      → (run_frames d (repeated k now) (l, w)).0.ticks
        ≡ min (due_at now l) (l.ticks + k * l.options.max_catch_up_ticks)
  unfolding run_frames
  repeated_ticks zero now l w v p t b = omega (arith, v.behind)
  repeated_ticks (suc k) now l w v p t b =
      let s = (frame d now (l, w)).1 in
      let (ok, loop) = frame-driven d h now now l w v (omega arith) p t in
      let step : Step (due_at now l) l s.0 = rw loop (driven-Step now now l v (omega arith) b) in
      let later =
        repeated_ticks k now s.0 s.1 (frame-Inv d now now l w v (omega arith) p) p
          (step.valid_same ∙ t) (step.started_same ∙ b) in
      let same : due_at now s.0 ≡ due_at now l = rw (step.start_same, step.options_same) refl in
      let most : k * s.0.options.max_catch_up_ticks ≡ k * l.options.max_catch_up_ticks =
        rw step.options_same refl in
      later ∙ omega (arith, same, most, step.ran)
