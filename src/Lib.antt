-- ===== src/Lib.antt =====
-- Verification library of Laige, a deterministic 2.5D game engine in C++20.
--
-- The engine is a set of libraries under src/: laige-core (fixed-point arithmetic, the PRNG, memory
-- pools, results and errors, JSON, logging, budgets), laige-sim (the ECS world, systems, the game
-- loop, configuration, replay) and laige-render (cameras, depth sorting, sprites, text). The
-- development models the pure, deterministic core that the other parts rest on.
--
--   Prelude          shared names, tests, lists, the integers over the native numbers, bit laws
--   Fixed            src/laige-core/include/laige/fpx16_16.h: a value is its raw integer; each static
--                    operation is a function of the same name in snake_case
--   Prng             src/laige-core/include/laige/prng.h: a generator is its seed and two state words;
--                    a draw returns its value and the next generator
--   Result           src/laige-core/include/laige/result.h and errors.h
--   Pools.Arena      src/laige-core/include/laige/pools.h, ArenaPool<T>
--   Pools.Pool       src/laige-core/include/laige/pools.h, Pool<T>: the arrays are functions of the
--                    slot; a method returns its result and the next pool
--   Loop             src/laige-sim/game_loop.cpp, GameLoop: `frame` takes the reading of the clock, the loop
--                    and the world, and returns its status with both; Loop.Driver is the interface of
--                    the world and the system phase
--   Ecs.Entities     src/laige-sim/entity.cpp, World: the slots of the entities and their generations; a method
--                    returns its result and the next world. History is the step relation of a world
--   Ecs.Guardrails   src/laige-sim/guardrails.cpp: the thresholds and the warnings of a frame; Ecs.Churn is its
--                    count of adds
--   Ecs.Archetypes   src/laige-sim/archetype.cpp: the archetypes of World with the records of the slots
--                    (archetypeOf_, rowOf_); an array is a function of its index, and a method returns
--                    its result with the next storage
--   Errors           src/laige-core/errors.cpp: the registry slot by slot, and its lookups
--   Json             src/laige-core/json.cpp, over lists of bytes; a parser takes the bytes from `pos` on and
--                    returns those that are left. Json.Utf8, Json.Hex and Json.Strings are UTF-8,
--                    escapes and strings, Json.Values is JsonValue, Json.Numbers the scanner of
--                    parseNumber with the grammar of json.h, Json.Parser and Json.Printer the rest of
--                    the parser and the serializer; Json.RoundTrip and Json.Bounds prove what they do
--                    together
--
--   Systems          src/laige-sim/systems.cpp, with the system part of src/laige-sim/entity.cpp: the registry of
--                    systems, their I/O declarations (Systems.Deps), the schedule by rounds
--                    (Systems.Kahn, Systems.Schedule) and the run of a tick (Systems.Run)
--   DepthSort        src/laige-render/include/laige/render/depth_sort.h: the radix sort of 32-bit keys with
--                    their indices; the arrays are functions of the index
--   Replay           src/laige-sim/replay.cpp: ReplayRecorder, parseReplay and loadReplay. Replay.Bytes is the integers
--                    and the hash, Replay.Parser the reader, Replay.Recording the recorder's file
--
-- Machine integers are natural numbers with the wrap-around written out (`u64`, `u32`, `inc32`);
-- signed ones are the integers of Prelude.Int, with their ranges as hypotheses.
--
-- Fuel and bounds: the ascending loop of the integer square root takes fuel, and two rounds are
-- proved enough for every estimate that is off by at most 1. The rejection loop of `next_range` takes
-- fuel, since no bound holds for every stream; it is proved to return at the first accepted draw.
-- The loops over the bytes of a string take the number of the bytes as fuel, and a round of the
-- parser is proved to read at least one (Json.Strings.Progress). The parser of documents takes twice
-- the number of the bytes and two, which is proved enough for every text (Json.Bounds). The binary
-- searches of the archetypes take the number of the rows or ids as fuel, and their theorems hold for
-- whole columns and signatures. The parser of I/O declarations takes the number of the bytes and
-- one, and the parser of the frames of a replay log the number of the bytes; both read at least one
-- byte a round, and their theorems hold for whole texts and logs. The rounds of the schedule are
-- structural on the systems to place, as all other loops are on what they run over.
--
-- Parameters: `std::sqrt` on doubles is an estimate of the integer root (Fixed.Sqrt.IsEstimate).
-- `strtod`, `snprintf` with "%.*g" and the comparison of doubles are Json.Doubles, with what the C
-- library documents of them on finite numbers (AreStandard).
-- The world and its system phase are what the game loop takes (Loop.Driver).
-- The systems of a world are functions of their random stream and the state, and register no system
-- while they run; the component of an I/O entry is what the registry of components answers; run times
-- are not measured. Whether a call on a file succeeds, and in what chunks it is read, are arguments.
-- The components of an archetype are values of any type, and what a new block is filled with is one of
-- them.
--
-- Not modelled: the conversions of the fixed-point type from and to `float`, object lifetimes beyond
-- "this slot holds an element", logging, the profiler and the debug checks of the game loop, and the
-- parts of the engine that call OpenGL or the clock. Of the world, the registry of components, queries
-- and the moves from one archetype to another are not modelled; of replay.cpp, the hashes of an
-- identity and the run of a log.
mod Prelude
pub mod Fixed
pub mod Prng
pub mod Result
pub mod Systems
pub mod DepthSort
pub mod Errors
pub mod Ecs
pub mod Pools
pub mod Loop
pub mod Json
pub mod Replay
