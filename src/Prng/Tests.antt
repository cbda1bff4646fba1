-- ===== src/Prng/Tests.antt =====
-- The theorems on prng.h at concrete inputs, and runs of the generator.
use laige_cpp.Prelude.{ℕ, ap, ◌∙◌, ◌+◌, ◌-◌, ◌/◌, ◌%◌, ◌^◌, ◌<◌, ◌≡◌, ◌↔◌, refl, arith, some}
use laige_cpp.Prng.{
  Prng, init, next_u64, next_range, next_accepted, in_span, residue, threshold, derive_substream,
  substream, seed_state, step_state, split_mix64, u64, u32,
}
use laige_cpp.Prng.Stream.{state, after_draws, next_u64_lem}
use laige_cpp.Prng.Substreams.{substream_compose_iff}
use laige_cpp.Prng.Bijection.{unstep, unstep_second, unstep-step_state}
use laige_cpp.Prng.Range.{draw}
use laige_cpp.Prng.Uniform.{answers, or_else, next_range_uniform}

master : Prng
master = init 42

-- The first draw of the stream of seed 42 lands on a die face.
die_run : next_range 1 1 7 master ≡ some (1 + draw 0 master % 6, after_draws 1 master)
unfolding next_range next_accepted in_span residue threshold master init seed_state split_mix64
    next_u64 after_draws
die_run = refl

next_u64_lem_example :
    (state (next_u64 master).1 ≡ step_state (state master))
    × ((next_u64 master).1.seed ≡ master.seed)
    × ((next_u64 master).0 ≡ u64 ((step_state (state master)).1 + master.s1))
next_u64_lem_example = next_u64_lem master

-- Here the sum of the ids wraps, and the two streams differ.
substream_compose_iff_example :
    (substream (derive_substream 42 4294967295) 1 ≡ derive_substream 42 (u32 (4294967295 + 1)))
    ↔ (4294967295 + 1 < 2 ^ 32)
substream_compose_iff_example = substream_compose_iff 42 4294967295 1 (omega arith) (omega arith)

-- The generator whose next draw is a number: the state before the one that holds it.
drawing : ℕ → Prng
drawing r = record { seed = 0; s0 = (unstep (0, r)).0; s1 = (unstep (0, r)).1 }

next_u64-drawing : (r : ℕ) → r < 2 ^ 64 → (next_u64 (drawing r)).0 ≡ r
unfolding drawing
next_u64-drawing r l =
    (next_u64_lem (drawing r)).2
    ∙ omega (
      arith,
      ap (λ (s : ℕ × ℕ). s.1) (unstep-step_state (0, r) (omega arith, l)).1,
      unstep_second (0, r),
      l,
    )

-- The die face 3, and a draw that the first of two rounds takes.
next_range_uniform_example :
    (answers drawing 1 7 3 (2 ^ 64) ≡ 2 ^ 64 / (7 - 1))
    × (next_range 2 1 7 master
        ≡ or_else (next_range 1 1 7 master) (next_range 1 1 7 (next_u64 master).1))
next_range_uniform_example =
    next_range_uniform drawing next_u64-drawing 1 7 3 1 master (omega arith) (omega arith)
      (omega arith)

first_accepted : draw 0 master < threshold (7 - 1)
unfolding threshold residue master init seed_state split_mix64 next_u64 after_draws
first_accepted = omega arith
