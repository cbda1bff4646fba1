-- ===== src/Json/Hex.antt =====
-- The four hexadecimal digits of an escape (src/laige-core/json.cpp), read and written.
use laige_cpp.Prelude.{
  ℕ, zero, suc, ◌+◌, ◌-◌, ◌*◌, ◌/◌, ◌%◌, ◌<◌, ◌≡◌, refl, ap, ap₂, ◌∙◌, arith, ◌&&◌, ltb, leb,
  if◌then◌else◌, Option, some, none, List, [], ◌∷◌, ◌++◌,
}

-- The value of one digit: '0' is 48, 'a' is 97 and 'A' is 65.
pub hex_value : ℕ → Option ℕ
hex_value c =
    if leb 48 c && leb c 57
    then some (c - 48)
    else if leb 97 c && leb c 102
    then some (c - 97 + 10)
    else if leb 65 c && leb c 70
    then some (c - 65 + 10)
    else none

-- The loop of `parseHex4` over the digits to go, with the value so far.
unfoldable pub parse_digits : ℕ → ℕ → List ℕ → Option (ℕ × List ℕ)
parse_digits zero v bs = some (v, bs)
parse_digits (suc n) v [] = none
parse_digits (suc n) v (c ∷ bs) = elim (hex_value c) [
  | none ↦ none
  | some x ↦ parse_digits n (v * 16 + x) bs
]

unfoldable pub parse_hex4 : List ℕ → Option (ℕ × List ℕ)
parse_hex4 bs = parse_digits 4 0 bs

-- `kHexDigits`.
pub hex_digit : ℕ → ℕ
hex_digit d = if ltb d 10 then 48 + d else 97 + (d - 10)

pub append_hex4 : ℕ → List ℕ
append_hex4 v =
    hex_digit (v / 4096 % 16)
    ∷ hex_digit (v / 256 % 16)
    ∷ hex_digit (v / 16 % 16)
    ∷ hex_digit (v % 16)
    ∷ []

hex_value-hex_digit : (d : ℕ) → d < 16 → hex_value (hex_digit d) ≡ some d
unfolding hex_value hex_digit
hex_value-hex_digit d p = ground arith

next_digit :
    (n v d : ℕ) (bs : List ℕ)
    → d < 16
    → parse_digits (suc n) v (hex_digit d ∷ bs) ≡ parse_digits n (v * 16 + d) bs
unfolding parse_digits
next_digit n v d bs p = rw (parse_digits, hex_value-hex_digit d p) refl

-- The four digits that are written for a 16-bit value are read back, and the bytes after them are
-- left.
pub parse_hex4-append_hex4 :
    (v : ℕ) (rest : List ℕ) → v < 65536 → parse_hex4 (append_hex4 v ++ rest) ≡ some (v, rest)
unfolding parse_hex4 parse_digits append_hex4
parse_hex4-append_hex4 v rest p =
    let a = 0 * 16 + v / 4096 % 16 in
    let b = a * 16 + v / 256 % 16 in
    let c = b * 16 + v / 16 % 16 in
    let third = hex_digit (v % 16) ∷ rest in
    let second = hex_digit (v / 16 % 16) ∷ third in
    next_digit 3 0 (v / 4096 % 16) (hex_digit (v / 256 % 16) ∷ second) (omega arith)
    ∙ next_digit 2 a (v / 256 % 16) second (omega arith)
    ∙ next_digit 1 b (v / 16 % 16) third (omega arith)
    ∙ next_digit 0 c (v % 16) rest (omega arith)
    ∙ ap (λ (x : ℕ). some (x, rest)) (omega arith)

pub append_hex4-small :
    (v : ℕ) → v < 256 → append_hex4 v ≡ 48 ∷ 48 ∷ hex_digit (v / 16 % 16) ∷ hex_digit (v % 16) ∷ []
unfolding append_hex4 hex_digit
append_hex4-small v p =
    ap₂ (λ (x y : ℕ). hex_digit x ∷ hex_digit y ∷ hex_digit (v / 16 % 16) ∷ hex_digit (v % 16) ∷ [])
      zeros zeros'
    ∙ refl
  where
    zeros : v / 4096 % 16 ≡ 0
    zeros = omega arith

    zeros' : v / 256 % 16 ≡ 0
    zeros' = omega arith
