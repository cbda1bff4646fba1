-- ===== src/Loop/Due.antt =====
-- `ticksDue` of src/laige-sim/game_loop.cpp: how many ticks are due after a time.
use laige_cpp.Prelude.{ℕ, ◌+◌, ◌*◌, ◌/◌, ◌%◌, ◌^◌, ◌≤◌, ◌<◌, ◌≡◌, ap, ◌∙◌, arith}
use laige_cpp.Loop.{ticks_due, max_tick_rate_hz, nanoseconds_per_second}
use native.Mathlib.Nat.{mul-le-mul_left, mul-le-mul_right}

-- The seconds and the rest of a second, each times the rate, need no more than 64 bits.
seconds_fit : (e rate : ℕ) → e < 2 ^ 63 → rate ≤ max_tick_rate_hz → e / 1000000000 * rate < 2 ^ 41
seconds_fit e rate p q = omega (arith, mul-le-mul_left (e / 1000000000) q)

rest_fits : (e rate : ℕ) → rate ≤ max_tick_rate_hz → e % 1000000000 * rate ≤ 120000000000
rest_fits e rate q = omega (arith, mul-le-mul_left (e % 1000000000) q)

regroup : (s r rate : ℕ) → (s * 1000000000 + r) * rate ≡ s * rate * 1000000000 + r * rate
regroup s r rate = omega arith

split_time : (e rate : ℕ) → e * rate ≡ e / 1000000000 * rate * 1000000000 + e % 1000000000 * rate
split_time e rate =
    ap (λ (x : ℕ). x * rate) (omega arith) ∙ regroup (e / 1000000000) (e % 1000000000) rate

-- Whenever the time is under 2^63 nanoseconds and the rate at most 120 Hz, the number of ticks due
-- is the whole part of the time times the rate over a second: no step of the computation wraps.
pub ticks_due-exact :
    (e rate : ℕ)
    → e < 2 ^ 63
    → rate ≤ max_tick_rate_hz
    → ticks_due e rate ≡ e * rate / nanoseconds_per_second
unfolding ticks_due
ticks_due-exact e rate p q =
    omega (arith, seconds_fit e rate p q, rest_fits e rate q, split_time e rate)

pub ticks_due-fits : (e rate : ℕ) → e < 2 ^ 63 → rate ≤ max_tick_rate_hz → ticks_due e rate < 2 ^ 63
ticks_due-fits e rate p q = omega (
  arith,
  ticks_due-exact e rate p q,
  seconds_fit e rate p q,
  rest_fits e rate q,
  split_time e rate,
)

-- Later, at the same rate, no fewer ticks are due.
pub ticks_due_mono :
    (e f rate : ℕ)
    → e ≤ f
    → f < 2 ^ 63
    → rate ≤ max_tick_rate_hz
    → ticks_due e rate ≤ ticks_due f rate
ticks_due_mono e f rate l p q = omega (
  arith,
  ticks_due-exact e rate (omega arith) q,
  ticks_due-exact f rate p q,
  mul-le-mul_right rate l,
)

pub ticks_due-zero : (rate : ℕ) → ticks_due 0 rate ≡ 0
unfolding ticks_due
ticks_due-zero rate = omega arith
