-- ===== src/Replay/Bytes.antt =====
-- The little-endian integers and the hash of a replay log (src/laige-sim/replay.cpp).
use native.Mathlib.Nat.{pow-succ'}
use laige_cpp.Prelude.{
  ℕ, zero, suc, ◌+◌, ◌*◌, ◌/◌, ◌%◌, ◌^◌, ◌<◌, ◌≡◌, refl, arith, bit_xor, Bool, true, false, ◌&&◌,
  ◌==◌, List, [], ◌∷◌, ◌++◌, length,
}

-- `encodeU16le`, `encodeU32le` and `encodeU64le`, of 2, 4 and 8 bytes.
unfoldable pub encode_le : ℕ → ℕ → List ℕ
encode_le zero v = []
encode_le (suc n) v = v % 256 ∷ encode_le n (v / 256)

-- `decodeU16le`, `decodeU32le` and `decodeU64le`.
unfoldable pub decode_le : List ℕ → ℕ
decode_le [] = 0
decode_le (b ∷ bs) = b + 256 * decode_le bs

-- `fnv1a64BytesExtend`.
unfoldable pub fnv_extend : ℕ → List ℕ → ℕ
fnv_extend h [] = h
fnv_extend h (b ∷ bs) = fnv_extend (bit_xor h b * 0x100000001b3 % 2 ^ 64) bs

unfoldable pub fnv1a64 : List ℕ → ℕ
fnv1a64 bs = fnv_extend 0xcbf29ce484222325 bs

-- `memcmp`, of as many bytes on both sides.
unfoldable pub same_bytes : List ℕ → List ℕ → Bool
same_bytes [] [] = true
same_bytes [] (y ∷ ys) = false
same_bytes (x ∷ xs) [] = false
same_bytes (x ∷ xs) (y ∷ ys) = x == y && same_bytes xs ys

pub decode_le-encode_le : (n v : ℕ) → v < 256 ^ n → decode_le (encode_le n v) ≡ v
unfolding decode_le encode_le
decode_le-encode_le zero v l = omega arith
decode_le-encode_le (suc n) v l =
    let rest = decode_le-encode_le n (v / 256) (omega (arith, l, pow-succ' 256 n)) in
    omega (arith, rest)

pub length-encode_le : (n v : ℕ) → length (encode_le n v) ≡ n
unfolding encode_le
length-encode_le zero v = refl
length-encode_le (suc n) v = omega (arith, length-encode_le n (v / 256))

pub fnv_extend-append :
    (h : ℕ) (xs ys : List ℕ) → fnv_extend h (xs ++ ys) ≡ fnv_extend (fnv_extend h xs) ys
unfolding fnv_extend
fnv_extend-append h [] ys = refl
fnv_extend-append h (x ∷ xs) ys = fnv_extend-append (bit_xor h x * 0x100000001b3 % 2 ^ 64) xs ys

pub fnv_extend-bound : (h : ℕ) (xs : List ℕ) → h < 2 ^ 64 → fnv_extend h xs < 2 ^ 64
unfolding fnv_extend
fnv_extend-bound h [] l = l
fnv_extend-bound h (x ∷ xs) l =
    fnv_extend-bound (bit_xor h x * 0x100000001b3 % 2 ^ 64) xs (omega arith)

pub fnv1a64-bound : (xs : List ℕ) → fnv1a64 xs < 2 ^ 64
unfolding fnv1a64
fnv1a64-bound xs = fnv_extend-bound 0xcbf29ce484222325 xs (omega arith)
