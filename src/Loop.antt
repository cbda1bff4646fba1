-- ===== src/Loop.antt =====
-- src/laige-sim/game_loop.cpp: the fixed-timestep loop. The world and its systems are an interface.
pub mod Due
pub mod Ticks
pub mod Frames
pub mod Start
pub mod Clock
pub mod Overload
mod Tests
use laige_cpp.Prelude.{
  ℕ, zero, suc, ◌+◌, ◌-◌, ◌*◌, ◌/◌, ◌%◌, ◌^◌, Bool, true, false, not, ◌||◌, ltb, leb, ◌==◌,
  if◌then◌else◌, Option, some, none, List, [], ◌∷◌,
}
use laige_cpp.Result.{Result, success, failure, Status, done, failed, ErrorCode, invalid_argument}

-- Counters of 64 bits.
abbrev pub u64 : ℕ → ℕ
u64 n = n % 2 ^ 64

-- What the loop calls on the world: `World::beginFrame`, `World::runSystems` on the schedule, and
-- the hook `Options::onTick` with the number of the completed tick.
pub record Driver (World : Type 0) : Type 0 where
  pub begin_frame : World → World
  pub run_systems : World → Status × World
  pub on_tick : Option (World → ℕ → World)

pub record Options : Type 0 where
  pub tick_rate_hz : ℕ
  pub max_catch_up_ticks : ℕ

pub record GameLoop : Type 0 where
  pub options : Options
  pub valid : Bool
  pub started : Bool
  pub start_ns : ℕ
  pub frames : ℕ
  pub ticks : ℕ
  pub dropped_ticks : ℕ
  pub dropped_frames : ℕ

-- `kNanosecondsPerSecond`, `kMinTickRateHz` and `kMaxTickRateHz`.
abbrev pub nanoseconds_per_second : ℕ
nanoseconds_per_second = 1000000000

abbrev pub min_tick_rate_hz : ℕ
min_tick_rate_hz = 20

abbrev pub max_tick_rate_hz : ℕ
max_tick_rate_hz = 120

pub ticks_due : ℕ → ℕ → ℕ
ticks_due elapsed rate =
    let seconds = elapsed / nanoseconds_per_second in
    let remainder = elapsed % nanoseconds_per_second in
    u64 (u64 (seconds * rate) + u64 (remainder * rate) / nanoseconds_per_second)

pub start_loop : Options → GameLoop
start_loop o = record {
  options = o;
  valid = true;
  started = false;
  start_ns = 0;
  frames = 0;
  ticks = 0;
  dropped_ticks = 0;
  dropped_frames = 0;
}

pub create : Options → Result GameLoop
create o =
    if ltb o.tick_rate_hz min_tick_rate_hz || ltb max_tick_rate_hz o.tick_rate_hz
    then failure invalid_argument
    else if o.max_catch_up_ticks == 0
    then failure invalid_argument
    else success (start_loop o)

-- The move: the new loop, and what is left of the source.
pub move : GameLoop → GameLoop × GameLoop
move l = (l, record l { valid = false })

-- The reading of the clock that `frame` goes by: never before the start.
pub reading : ℕ → GameLoop → ℕ
reading now l = if l.started then (if ltb now l.start_ns then l.start_ns else now) else now

-- The first call takes the reading as the start; every call counts a frame.
pub enter : ℕ → GameLoop → GameLoop
enter now l = record l {
  started = true;
  start_ns = (if l.started then l.start_ns else now);
  frames = u64 (l.frames + 1);
}

module _ {World : Type 0} (d : Driver World) where
  pub notify : Option (World → ℕ → World) → ℕ → World → World
  notify none n w = w
  notify (some hook) n w = hook w n

  -- What `runTick` does with the answer of the system phase.
  pub settle : GameLoop → Status × World → Status × (GameLoop × World)
  settle l (done, w) =
      let n = u64 (l.ticks + 1) in (done, (record l { ticks = n }, notify d.on_tick n w))
  settle l (failed e, w) = (failed e, (l, w))

  pub run_tick : GameLoop × World → Status × (GameLoop × World)
  run_tick (l, w) = settle l (d.run_systems (d.begin_frame w))

  -- The loop of `frame` over the ticks to run, which the first failure leaves.
  pub run_ticks : ℕ → Status × (GameLoop × World) → Status × (GameLoop × World)
  run_ticks zero r = r
  run_ticks (suc n) (failed e, s) = (failed e, s)
  run_ticks (suc n) (done, s) = run_ticks n (run_tick s)

  -- The end of `frame`: what is over the bound of one frame is counted as dropped.
  pub count_dropped : ℕ → Status × (GameLoop × World) → Status × (GameLoop × World)
  count_dropped want (failed e, s) = (failed e, s)
  count_dropped want (done, (l, w)) =
      let most = l.options.max_catch_up_ticks in
      if ltb most want
      then (
        done,
        (
          record l {
            dropped_ticks = u64 (l.dropped_ticks + (want - most));
            dropped_frames = u64 (l.dropped_frames + 1);
          },
          w,
        ),
      )
      else (done, (l, w))

  -- The part of `frame` that begins where `due` is known.
  pub advance : ℕ → GameLoop × World → Status × (GameLoop × World)
  advance due (l, w) =
      if leb due l.ticks
      then (done, (l, w))
      else (let want = due - l.ticks in
          let most = l.options.max_catch_up_ticks in
          count_dropped want (run_ticks (if ltb want most then want else most) (done, (l, w))))

  -- `frame` on a loop that has not been moved from.
  pub drive : ℕ → GameLoop × World → Status × (GameLoop × World)
  drive now (l, w) =
      let m = enter now l in
      let t = reading now l in
      if t == m.start_ns
      then (done, (m, w))
      else advance (ticks_due (t - m.start_ns) m.options.tick_rate_hz) (m, w)

  pub frame : ℕ → GameLoop × World → Status × (GameLoop × World)
  frame now (l, w) = if not l.valid then (failed invalid_argument, (l, w)) else drive now (l, w)
