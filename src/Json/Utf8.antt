-- ===== src/Json/Utf8.antt =====
-- The strict UTF-8 decoder and the encoder of src/laige-core/json.cpp. A view from `pos` on is the list
-- of its bytes; masks and shifts of bytes are remainders, quotients and products.
pub mod Laws
pub mod Sound
use laige_cpp.Prelude.{
  ℕ, zero, suc, ◌+◌, ◌-◌, ◌*◌, ◌/◌, ◌%◌, Bool, true, false, not, ◌&&◌, ◌||◌, ltb, leb, ◌==◌,
  if◌then◌else◌, Option, some, none, List, [], ◌∷◌, length,
}

-- `(b & 0xC0u) == 0x80u`.
abbrev pub is_continuation : ℕ → Bool
is_continuation b = b / 64 % 4 == 2

unfoldable pub decode2 : ℕ → List ℕ → Option (ℕ × List ℕ)
decode2 b0 (b1 ∷ rest) =
    if not (is_continuation b1) then none else some (b0 % 32 * 64 + b1 % 64, rest)
decode2 b0 _ = none

unfoldable pub decode3 : ℕ → List ℕ → Option (ℕ × List ℕ)
decode3 b0 (b1 ∷ b2 ∷ rest) =
    if not (is_continuation b1) || not (is_continuation b2)
    then none
    else (let cp = b0 % 16 * 4096 + b1 % 64 * 64 + b2 % 64 in
        if ltb cp 0x800
        then none
        else if leb 0xD800 cp && leb cp 0xDFFF
        then none
        else some (cp, rest))
decode3 b0 _ = none

unfoldable pub decode4 : ℕ → List ℕ → Option (ℕ × List ℕ)
decode4 b0 (b1 ∷ b2 ∷ b3 ∷ rest) =
    if not (is_continuation b1) || (not (is_continuation b2) || not (is_continuation b3))
    then none
    else (let cp = b0 % 8 * 262144 + b1 % 64 * 4096 + b2 % 64 * 64 + b3 % 64 in
        if ltb cp 0x10000 then none else some (cp, rest))
decode4 b0 _ = none

-- The code point at the front and the bytes after it, or nothing.
unfoldable pub decode_utf8 : List ℕ → Option (ℕ × List ℕ)
decode_utf8 [] = none
decode_utf8 (b0 ∷ rest) =
    if ltb b0 0x80
    then some (b0, rest)
    else if leb 0xC2 b0 && leb b0 0xDF
    then decode2 b0 rest
    else if leb 0xE0 b0 && leb b0 0xEF
    then decode3 b0 rest
    else if leb 0xF0 b0 && leb b0 0xF4
    then decode4 b0 rest
    else none

-- The bytes that `appendUtf8` appends.
unfoldable pub append_utf8 : ℕ → List ℕ
append_utf8 cp =
    if ltb cp 0x80
    then cp ∷ []
    else if ltb cp 0x800
    then (0xC0 + cp / 64) ∷ (0x80 + cp % 64) ∷ []
    else if ltb cp 0x10000
    then (0xE0 + cp / 4096) ∷ (0x80 + cp / 64 % 64) ∷ (0x80 + cp % 64) ∷ []
    else (0xF0 + cp / 262144)
      ∷ (0x80 + cp / 4096 % 64)
      ∷ (0x80 + cp / 64 % 64)
      ∷ (0x80 + cp % 64)
      ∷ []

-- The loop of `isValidUtf8`, with fuel; every code point takes at least one byte.
unfoldable pub valid_from : ℕ → List ℕ → Bool
valid_from n [] = true
valid_from zero (b ∷ bs) = false
valid_from (suc n) (b ∷ bs) = elim (decode_utf8 (b ∷ bs)) [
  | none ↦ false
  | some (cp, rest) ↦ valid_from n rest
]

unfoldable pub is_valid_utf8 : List ℕ → Bool
is_valid_utf8 bs = valid_from (length bs) bs
