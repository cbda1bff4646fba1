-- ===== src/Json/Strings.antt =====
-- Strings of JSON (src/laige-core/json.cpp): `appendEscapedString` and `parseString`. Characters are
-- byte values; a parser takes the bytes from `pos` on and returns those after what it read.
pub mod Escapes
pub mod Texts
pub mod Progress
use laige_cpp.Prelude.{
  ℕ, zero, suc, ◌+◌, ◌-◌, ◌*◌, ◌/◌, ◌%◌, Bool, true, false, not, ◌&&◌, ◌||◌, ltb, leb, ◌==◌,
  if◌then◌else◌, Option, some, none, List, [], ◌∷◌, ◌++◌, length, take,
}
use laige_cpp.Json.Outcome.{Outcome, ok, failed, out_of_fuel}
use laige_cpp.Json.Utf8.{decode_utf8, append_utf8}
use laige_cpp.Json.Hex.{parse_hex4, append_hex4, hex_digit}

-- The bytes of "\u", of the backslash and of the quote.
abbrev pub backslash : ℕ
backslash = 92

abbrev pub quote : ℕ
quote = 34

abbrev pub letter_u : ℕ
letter_u = 117

-- What is written for a byte below 0x20.
pub escape_control : ℕ → List ℕ
escape_control b =
    if b == 0x08
    then backslash ∷ 98 ∷ []
    else if b == 0x0C
    then backslash ∷ 102 ∷ []
    else if b == 0x0A
    then backslash ∷ 110 ∷ []
    else if b == 0x0D
    then backslash ∷ 114 ∷ []
    else if b == 0x09
    then backslash ∷ 116 ∷ []
    else backslash ∷ letter_u ∷ 48 ∷ 48 ∷ hex_digit (b / 16 % 16) ∷ hex_digit (b % 16) ∷ []

-- What is written for a code point above 0x7F.
pub escape_point : ℕ → List ℕ
escape_point cp =
    if ltb 0xFFFF cp
    then (let v = cp - 0x10000 in
        (backslash ∷ letter_u ∷ append_hex4 (0xD800 + v / 1024))
        ++ (backslash ∷ letter_u ∷ append_hex4 (0xDC00 + v % 1024)))
    else backslash ∷ letter_u ∷ append_hex4 cp

-- The loop of `appendEscapedString` with the quote at its end, which an invalid byte leaves out. The
-- fuel is the length: each round reads at least one byte.
unfoldable pub escape_from : ℕ → List ℕ → List ℕ
escape_from n [] = quote ∷ []
escape_from zero (b ∷ bs) = []
escape_from (suc n) (b ∷ bs) =
    let more = escape_from n bs in
    if ltb b 0x20
    then escape_control b ++ more
    else if leb 0x80 b
    then elim (decode_utf8 (b ∷ bs)) [
      | none ↦ []
      | some (cp, rest) ↦ escape_point cp ++ escape_from n rest
    ]
    else if b == quote || b == backslash
    then backslash ∷ b ∷ more
    else b ∷ more

unfoldable pub append_escaped_string : List ℕ → List ℕ
append_escaped_string s = quote ∷ escape_from (length s) s

-- One round of the loop of `parseString`: the end of the string (`none`) or the bytes to append, with
-- the bytes left; nothing when it fails.
abbrev pub Round : Type 0
Round = Option (Option (List ℕ) × List ℕ)

abbrev pub plain : ℕ → List ℕ → Round
plain b rest = some (some (b ∷ []), rest)

pub parse_low : ℕ → List ℕ → Round
parse_low hi (b1 ∷ b2 ∷ bs) =
    if not (b1 == backslash) || not (b2 == letter_u) then none else elim (parse_hex4 bs) [
      | none ↦ none
      | some (lo, rest) ↦
          if ltb lo 0xDC00 || ltb 0xDFFF lo
          then none
          else some (some (append_utf8 (0x10000 + (hi - 0xD800) * 1024 + (lo - 0xDC00))), rest)
    ]
parse_low hi _ = none

pub parse_unicode : List ℕ → Round
parse_unicode bs = elim (parse_hex4 bs) [
  | none ↦ none
  | some (hi, rest) ↦
      if leb 0xD800 hi && leb hi 0xDBFF
      then parse_low hi rest
      else if leb 0xDC00 hi && leb hi 0xDFFF
      then none
      else some (some (append_utf8 hi), rest)
]

pub parse_escape : List ℕ → Round
parse_escape [] = none
parse_escape (e ∷ bs) =
    if e == quote
    then plain quote bs
    else if e == backslash
    then plain backslash bs
    else if e == 47
    then plain 47 bs
    else if e == 98
    then plain 0x08 bs
    else if e == 102
    then plain 0x0C bs
    else if e == 110
    then plain 0x0A bs
    else if e == 114
    then plain 0x0D bs
    else if e == 116
    then plain 0x09 bs
    else if e == letter_u
    then parse_unicode bs
    else none

pub parse_raw : List ℕ → Round
parse_raw bs = elim (decode_utf8 bs) [
  | none ↦ none
  | some (cp, rest) ↦
      if ltb cp 0x20 then none else some (some (take (length bs - length rest) bs), rest)
]

pub parse_char : List ℕ → Round
parse_char [] = none
parse_char (c ∷ bs) =
    if c == quote
    then some (none, bs)
    else if c == backslash
    then parse_escape bs
    else parse_raw (c ∷ bs)

abbrev pub prepend : List ℕ → Outcome (List ℕ × List ℕ) → Outcome (List ℕ × List ℕ)
prepend piece (ok (decoded, rest)) = ok (piece ++ decoded, rest)
prepend piece failed = failed
prepend piece out_of_fuel = out_of_fuel

-- The loop, with fuel: the decoded string and the bytes after the closing quote.
pub parse_chars : ℕ → List ℕ → Outcome (List ℕ × List ℕ)
parse_chars zero bs = out_of_fuel
parse_chars (suc n) bs = elim (parse_char bs) [
  | none ↦ failed
  | some (none, rest) ↦ ok ([], rest)
  | some (some piece, rest) ↦ prepend piece (parse_chars n rest)
]

-- `consume(p, '"')`, whose answer `parseString` does not look at.
pub skip_quote : List ℕ → List ℕ
skip_quote [] = []
skip_quote (c ∷ bs) = if c == quote then bs else c ∷ bs

pub parse_string : List ℕ → Outcome (List ℕ × List ℕ)
parse_string bs = parse_chars (suc (length (skip_quote bs))) (skip_quote bs)
