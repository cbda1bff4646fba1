-- ===== src/Prng/Substreams.antt =====
-- Substream derivation: which streams coincide.
use laige_cpp.Prelude.{ℕ, ◌+◌, ◌^◌, ◌<◌, ◌≡◌, ◌↔◌, ap, arith}
use laige_cpp.Prng.{Prng, init, derive_substream, substream, u32}

-- Streams of one seed with different ids have different seeds, so different identities.
pub derive_substream-injective :
    (seed i j : ℕ)
    → i < 2 ^ 32
    → j < 2 ^ 32
    → (derive_substream seed i).seed ≡ (derive_substream seed j).seed
    → i ≡ j
unfolding derive_substream init
derive_substream-injective seed i j p q e = omega arith

-- Deriving `i` and then `j` is deriving the 32-bit id `i + j` exactly when that sum does not wrap.
pub substream_compose_iff :
    (seed i j : ℕ)
    → i < 2 ^ 32
    → j < 2 ^ 32
    → ((substream (derive_substream seed i) j ≡ derive_substream seed (u32 (i + j)))
        ↔ (i + j < 2 ^ 32))
unfolding substream derive_substream init
substream_compose_iff seed i j p q = (forth, λ h. ap init (omega arith))
  where
    forth :
        substream (derive_substream seed i) j ≡ derive_substream seed (u32 (i + j)) → i + j < 2 ^ 32
    forth e = omega (arith, ap (λ (g : Prng). g.seed) e)
