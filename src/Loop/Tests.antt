-- ===== src/Loop/Tests.antt =====
-- The theorems on the game loop at concrete inputs, and runs of the loop.
use laige_cpp.Prelude.{ℕ, ◌+◌, ◌-◌, ◌*◌, ◌/◌, ◌≡◌, ◌≤◌, refl, arith, true, none, some, min}
use laige_cpp.Result.{done, failed, invalid_argument, io_error}
use laige_cpp.Loop.{
  GameLoop, Options, Driver, create, start_loop, frame, advance, ticks_due, nanoseconds_per_second,
  min_tick_rate_hz, max_tick_rate_hz, move,
}
use laige_cpp.Loop.Due.{ticks_due-exact, ticks_due_mono}
use laige_cpp.Loop.Ticks.{NeverFails}
use laige_cpp.Loop.Frames.{Inv, frame-Inv, frame-moved}
use laige_cpp.Loop.Start.{counting, begin_frame_each_tick}
use laige_cpp.Loop.Clock.{frame_lem, due_at}
use laige_cpp.Loop.Overload.{run_frames, repeated, repeated_ticks}

abbrev options : Options
options = record { tick_rate_hz = 60; max_catch_up_ticks = 5 }

-- Systems that write the number of a tick into the world.
abbrev writing : Driver ℕ
writing = record { begin_frame = λ w. w; run_systems = λ w. (done, w); on_tick = some (λ w n. n) }

-- Systems that always fail.
abbrev broken : Driver ℕ
broken = record { begin_frame = λ w. w; run_systems = λ w. (failed io_error, w); on_tick = none }

writing-NeverFails : NeverFails writing
unfolding NeverFails
writing-NeverFails w = refl

counting-NeverFails : NeverFails counting
unfolding NeverFails
counting-NeverFails w = refl

-- A loop that started at reading 100.
abbrev started : GameLoop
started = record {
  options = options;
  valid = true;
  started = true;
  start_ns = 100;
  frames = 1;
  ticks = 0;
  dropped_ticks = 0;
  dropped_frames = 0;
}

started-Inv : Inv 100 started
started-Inv = record {
  rate_ok = omega arith;
  begun = omega arith;
  behind = omega arith;
  fresh = λ f. refl;
}

-- One second after the start.
abbrev second : ℕ
second = 1000000100

first_frame : (frame counting 100 (start_loop options, 0)).1.0 ≡ started
unfolding frame laige_cpp.Loop.drive laige_cpp.Loop.enter laige_cpp.Loop.reading start_loop
first_frame = refl

ticks_due-exact_example : ticks_due 2500000000 60 ≡ 2500000000 * 60 / nanoseconds_per_second
ticks_due-exact_example = ticks_due-exact 2500000000 60 (omega arith) (omega arith)

ticks_due_mono_example : ticks_due 16666666 60 ≤ ticks_due 16666667 60
ticks_due_mono_example =
    ticks_due_mono 16666666 16666667 60 (omega arith) (omega arith) (omega arith)

frame-Inv_example : Inv second (frame broken second (started, 0)).1.0
frame-Inv_example = frame-Inv broken 100 second started 0 started-Inv (omega arith) (omega arith)

frame-moved_example :
    frame writing second ((move started).1, 0) ≡ (failed invalid_argument, ((move started).1, 0))
unfolding move
frame-moved_example = frame-moved writing second (move started).1 0 refl

begin_frame_each_tick_example : (advance counting 3 (started, 0)).1.1 ≡ 0 + min (3 - 0) 5
begin_frame_each_tick_example = begin_frame_each_tick 3 started 0

second-Inv : Inv second started
unfolding ticks_due
second-Inv = record {
  rate_ok = omega arith;
  begun = omega arith;
  behind = omega arith;
  fresh = λ f. refl;
}

frame_lem_example :
    (frame writing second (started, 0)).0 ≡ done
    × (((frame writing second (started, 0)).1.0.ticks ≡ 0 + min (due_at second started - 0) 5)
        × ((frame writing second (started, 0)).1.0.dropped_ticks
            ≡ 0 + (due_at second started - 0 - 5)))
unfolding ticks_due
frame_lem_example =
    frame_lem writing writing-NeverFails 100 second started 0 started-Inv (omega arith)
      (omega arith) refl refl (omega arith)

-- Twelve frames at one second run all of the sixty ticks, those counted as dropped too.
repeated_ticks_example :
    (run_frames writing (repeated 12 second) (started, 0)).0.ticks
    ≡ min (due_at second started) (0 + 12 * 5)
repeated_ticks_example =
    repeated_ticks writing writing-NeverFails 12 second started 0 second-Inv (omega arith) refl refl
