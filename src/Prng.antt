-- ===== src/Prng.antt =====
-- src/laige-core/include/laige/prng.h: the deterministic xorshift128+ generator.
pub mod Shift
pub mod Bijection
pub mod Stream
pub mod Substreams
pub mod Range
pub mod Uniform
mod Tests
use laige_cpp.Prelude.{
  ℕ, zero, suc, ◌+◌, ◌-◌, ◌*◌, ◌/◌, ◌%◌, ◌^◌, bit_xor, Bool, ltb, ◌==◌, if◌then◌else◌, Option, none,
  some,
}

-- Words of 64 and 32 bits: a sum, a product or a left shift is cut to the width.
abbrev pub u64 : ℕ → ℕ
u64 n = n % 2 ^ 64

abbrev pub u32 : ℕ → ℕ
u32 n = n % 2 ^ 32

-- `kSplitmix64Increment`, `kMixMultiplierA` and `kMixMultiplierB`.
abbrev pub increment : ℕ
increment = 0x9E3779B97F4A7C15

abbrev pub multiplier_a : ℕ
multiplier_a = 0xBF58476D1CE4E5B9

abbrev pub multiplier_b : ℕ
multiplier_b = 0x94D049BB133111EB

pub record Prng : Type 0 where
  pub seed : ℕ
  pub s0 : ℕ
  pub s1 : ℕ

pub split_mix64 : ℕ → ℕ
split_mix64 z =
    let y = u64 (bit_xor z (z / 2 ^ 30) * multiplier_a) in
    let x = u64 (bit_xor y (y / 2 ^ 27) * multiplier_b) in bit_xor x (x / 2 ^ 31)

pub seed_state : ℕ → ℕ × ℕ
seed_state seed =
    let z = u64 (seed + increment) in (split_mix64 z, split_mix64 (u64 (z + increment)))

pub init : ℕ → Prng
init seed = let (part1, part2) = seed_state seed in record { seed = seed; s0 = part1; s1 = part2 }

pub step_state : ℕ × ℕ → ℕ × ℕ
step_state (o0, o1) =
    let t = bit_xor o0 (u64 (o0 * 2 ^ 23)) in
    (o1, bit_xor (bit_xor (bit_xor t o1) (t / 2 ^ 18)) (o1 / 2 ^ 5))

pub next_u64 : Prng → ℕ × Prng
next_u64 g =
    let t = bit_xor g.s0 (u64 (g.s0 * 2 ^ 23)) in
    let new = bit_xor (bit_xor (bit_xor t g.s1) (t / 2 ^ 18)) (g.s1 / 2 ^ 5) in
    (u64 (new + g.s1), record g { s0 = g.s1; s1 = new })

-- The rejection loop of `next_range`, with fuel; `none` means that the fuel ran out.
pub next_accepted : ℕ → ℕ → Prng → Option (ℕ × Prng)
next_accepted zero threshold g = none
next_accepted (suc fuel) threshold g =
    let (r, g') = next_u64 g in
    let rest = next_accepted fuel threshold g' in if ltb r threshold then some (r, g') else rest

-- 2 ^ 64 mod n, by way of the greatest value.
pub residue : ℕ → ℕ
residue n = ((2 ^ 64 - 1) % n + 1) % n

pub threshold : ℕ → ℕ
threshold n = 2 ^ 64 - 1 - residue n + 1

pub in_span : ℕ → ℕ → Option (ℕ × Prng) → Option (ℕ × Prng)
in_span low n none = none
in_span low n (some (r, g)) = some (u32 (low + r % n), g)

-- The span `max - min` is that of `uint32_t`.
pub next_range : ℕ → ℕ → ℕ → Prng → Option (ℕ × Prng)
next_range fuel low high g =
    let n = u32 (high + 2 ^ 32 - low) in
    if residue n == 0
    then in_span low n (some (next_u64 g))
    else in_span low n (next_accepted fuel (threshold n) g)

-- The value is this number times 2 ^ -24.
pub next_float01 : Prng → ℕ × Prng
next_float01 g = let (r, g') = next_u64 g in (r / 2 ^ 40, g')

pub derive_substream : ℕ → ℕ → Prng
derive_substream seed id = init (u64 (seed + u64 (id * increment)))

pub substream : Prng → ℕ → Prng
substream g id = derive_substream g.seed id
