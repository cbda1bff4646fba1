-- ===== src/Pools/Arena/Tests.antt =====
-- The theorems on the arena at concrete inputs.
use laige_cpp.Prelude.{ℕ, arith, []}
use laige_cpp.Pools.Arena.{Arena, init}
use laige_cpp.Pools.Arena.Laws.{Holds, init-Holds}

-- An arena of two slots.
abbrev arena : Arena ℕ
arena = init 2

arena-Holds : Holds arena []
arena-Holds = init-Holds 2 (omega arith)
