-- ===== src/Prng/Stream.antt =====
-- The stream of a generator: its states are never zero, and a stream can be run back.
use laige_cpp.Prelude.{ℕ, zero, suc, ◌+◌, ◌≡◌, ◌≢◌, refl, sym, ap, ◌∙◌, arith}
use laige_cpp.Prng.{Prng, init, next_u64, step_state, seed_state, split_mix64, u64, increment}
use laige_cpp.Prng.Shift.{IsWord, u64-IsWord}
use laige_cpp.Prng.Bijection.{
  unmix64, split_mix64-IsWord, unmix64-split_mix64, IsState, unstep, step_state-IsState,
  unmix64-zero, unstep-zero, unstep-step_state,
}

-- The state of a generator, as the two words that `step_state` steps.
abbrev pub state : Prng → ℕ × ℕ
state g = (g.s0, g.s1)

-- The state after `n` draws.
unfoldable pub after_draws : ℕ → Prng → Prng
after_draws zero g = g
after_draws (suc n) g = after_draws n (next_u64 g).1

-- One draw steps the state by `step_state`, keeps the seed, and gives the 64-bit sum of the new
-- second word and the old one.
pub next_u64_lem :
    (g : Prng)
    → (state (next_u64 g).1 ≡ step_state (state g))
      × ((next_u64 g).1.seed ≡ g.seed)
      × ((next_u64 g).0 ≡ u64 ((step_state (state g)).1 + g.s1))
unfolding next_u64 step_state
next_u64_lem g = (refl, refl, refl)

mix_zero : (z : ℕ) → IsWord z → split_mix64 z ≡ 0 → z ≡ 0
mix_zero z w e = sym (unmix64-split_mix64 z w).0 ∙ ap unmix64 e ∙ unmix64-zero

pub seed_state-IsState : (seed : ℕ) → IsState (seed_state seed)
unfolding seed_state
seed_state-IsState seed = (split_mix64-IsWord _, split_mix64-IsWord _)

seed_state-ne-zero : (seed : ℕ) → seed_state seed ≢ (0, 0)
unfolding seed_state
seed_state-ne-zero seed e = omega (
  arith,
  mix_zero _ (u64-IsWord (seed + increment)) (ap (λ (s : ℕ × ℕ). s.0) e),
  mix_zero _ (u64-IsWord (u64 (seed + increment) + increment)) (ap (λ (s : ℕ × ℕ). s.1) e),
)

step_state-ne-zero : (s : ℕ × ℕ) → IsState s → s ≢ (0, 0) → step_state s ≢ (0, 0)
step_state-ne-zero s w ne e = ne (sym (unstep-step_state s w).0 ∙ ap unstep e ∙ unstep-zero)

run-ne-zero :
    (n : ℕ) (g : Prng) → IsState (state g) → state g ≢ (0, 0) → state (after_draws n g) ≢ (0, 0)
unfolding after_draws
run-ne-zero zero g w ne = ne
run-ne-zero (suc n) g w ne =
    run-ne-zero n (next_u64 g).1 (rw (next_u64_lem g).0 (step_state-IsState (state g) w))
      (rw (next_u64_lem g).0 (step_state-ne-zero (state g) w ne))

-- From every seed, no number of draws reaches the excluded all-zero state.
pub after_draws-ne-zero : (n seed : ℕ) → state (after_draws n (init seed)) ≢ (0, 0)
unfolding init
after_draws-ne-zero n seed = run-ne-zero n _ (seed_state-IsState seed) (seed_state-ne-zero seed)
