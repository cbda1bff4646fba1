-- ===== src/Json/Strings/Escapes.antt =====
-- One code point, escaped and read back (src/laige-core/json.cpp).
use laige_cpp.Prelude.{
  ℕ, suc, ◌+◌, ◌-◌, ◌*◌, ◌/◌, ◌%◌, ◌≤◌, ◌<◌, ◌≡◌, ◌⊎◌, inl, inr, refl, sym, ap, ◌∙◌, arith, ltb,
  leb, ltb→lt, ltb→le, leb→le, leb→lt, ==→eq, append_assoc, ◌||◌, ◌==◌, if◌then◌else◌, Bool-cases,
  le→ltb, some, List, [], ◌∷◌, ◌++◌, length,
}
use laige_cpp.Json.Utf8.{append_utf8}
use laige_cpp.Json.Utf8.Laws.{decode-one, append_utf8_ascii}
use laige_cpp.Json.Hex.{append_hex4, parse_hex4-append_hex4, append_hex4-small}
use laige_cpp.Json.Strings.{
  backslash, quote, letter_u, escape_control, escape_point, plain, parse_low, parse_unicode,
  parse_escape, parse_raw, parse_char,
}

-- A Unicode code point that is not a surrogate.
unfoldable pub IsScalar : ℕ → Type 0
IsScalar cp = (cp < 0xD800 ⊎ 0xDFFF < cp) × (cp < 0x110000)

-- What `appendEscapedString` writes for a code point.
abbrev pub escaped : ℕ → List ℕ
escaped cp =
    if ltb cp 0x20
    then escape_control cp
    else if leb 0x80 cp
    then escape_point cp
    else if cp == quote || cp == backslash
    then backslash ∷ cp ∷ []
    else cp ∷ []

unicode_small :
    (cp : ℕ) (rest : List ℕ)
    → cp < 0x10000
    → cp < 0xD800 ⊎ 0xDFFF < cp
    → parse_unicode (append_hex4 cp ++ rest) ≡ some (some (append_utf8 cp), rest)
unfolding parse_unicode
unicode_small cp rest p (inl s) =
    rw (parse_unicode, parse_hex4-append_hex4 cp rest p) (ground arith)
unicode_small cp rest p (inr s) =
    rw (parse_unicode, parse_hex4-append_hex4 cp rest p) (ground arith)

low_read :
    (hi lo : ℕ) (rest : List ℕ)
    → 0xDC00 ≤ lo
    → lo ≤ 0xDFFF
    → parse_low hi (backslash ∷ letter_u ∷ append_hex4 lo ++ rest)
      ≡ some (some (append_utf8 (0x10000 + (hi - 0xD800) * 1024 + (lo - 0xDC00))), rest)
unfolding parse_low
low_read hi lo rest p q =
    rw (parse_low, parse_hex4-append_hex4 lo rest (omega arith)) (ground arith)

high_read :
    (hi : ℕ) (rest : List ℕ)
    → 0xD800 ≤ hi
    → hi ≤ 0xDBFF
    → parse_unicode (append_hex4 hi ++ rest) ≡ parse_low hi rest
unfolding parse_unicode
high_read hi rest p q =
    rw (parse_unicode, parse_hex4-append_hex4 hi rest (omega arith)) (ground arith)

unicode_pair :
    (cp : ℕ) (rest : List ℕ)
    → 0x10000 ≤ cp
    → cp < 0x110000
    → parse_unicode (
        append_hex4 (0xD800 + (cp - 0x10000) / 1024)
        ++ (backslash ∷ letter_u ∷ append_hex4 (0xDC00 + (cp - 0x10000) % 1024) ++ rest))
      ≡ some (some (append_utf8 cp), rest)
unicode_pair cp rest p q =
    high_read _ _ (omega arith) (omega arith)
    ∙ low_read (0xD800 + (cp - 0x10000) / 1024) (0xDC00 + (cp - 0x10000) % 1024) rest (omega arith)
        (omega arith)
    ∙ ap (λ (x : ℕ). some (some (append_utf8 x), rest)) (omega arith)

point_read :
    (cp : ℕ) (rest : List ℕ)
    → 0x80 ≤ cp
    → IsScalar cp
    → parse_char (escape_point cp ++ rest) ≡ some (some (append_utf8 cp), rest)
unfolding parse_char parse_escape escape_point IsScalar
point_read cp rest l (s, p) = elim (Bool-cases (ltb 0xFFFF cp)) [
  | inl e ↦ rw e (
      ap (λ (bs : List ℕ). parse_unicode bs) (append_assoc _ _ rest)
      ∙ unicode_pair cp rest (ltb→lt 0xFFFF cp e) p)
  | inr e ↦ rw e (unicode_small cp rest (omega (arith, ltb→le 0xFFFF cp e)) s)
]

raw_read :
    (cp : ℕ) (rest : List ℕ)
    → 0x20 ≤ cp
    → cp < 0x80
    → parse_raw (cp ∷ rest) ≡ some (some (append_utf8 cp), rest)
unfolding parse_raw
raw_read cp rest p q =
    let one : suc (length rest) - length rest ≡ 1 = omega arith in
    rw (parse_raw, decode-one cp rest q, le→ltb cp 0x20 p, one, append_utf8_ascii cp q) refl

short :
    (cp b : ℕ) (rest : List ℕ)
    → cp ≡ b
    → b < 0x80
    → plain b rest ≡ some (some (append_utf8 cp), rest)
short cp b rest e p =
    sym (ap (λ (bs : List ℕ). some (some bs, rest)) (ap append_utf8 e ∙ append_utf8_ascii b p))

control_read :
    (cp : ℕ) (rest : List ℕ)
    → cp < 0x20
    → parse_char (escape_control cp ++ rest) ≡ some (some (append_utf8 cp), rest)
unfolding parse_char parse_escape escape_control
control_read cp rest p = elim (Bool-cases (cp == 0x08)) [
  | inl e ↦ rw e (short cp 0x08 rest (==→eq cp 0x08 e) (omega arith))
  | inr e ↦ rw e (elim (Bool-cases (cp == 0x0C)) [
    | inl e ↦ rw e (short cp 0x0C rest (==→eq cp 0x0C e) (omega arith))
    | inr e ↦ rw e (elim (Bool-cases (cp == 0x0A)) [
      | inl e ↦ rw e (short cp 0x0A rest (==→eq cp 0x0A e) (omega arith))
      | inr e ↦ rw e (elim (Bool-cases (cp == 0x0D)) [
        | inl e ↦ rw e (short cp 0x0D rest (==→eq cp 0x0D e) (omega arith))
        | inr e ↦ rw e (elim (Bool-cases (cp == 0x09)) [
          | inl e ↦ rw e (short cp 0x09 rest (==→eq cp 0x09 e) (omega arith))
          | inr e ↦ rw e (
              ap (λ (bs : List ℕ). parse_unicode (bs ++ rest))
                (sym (append_hex4-small cp (omega arith)))
              ∙ unicode_small cp rest (omega arith) (inl (omega arith)))
        ])
      ])
    ])
  ])
]

ascii_read :
    (cp : ℕ) (rest : List ℕ)
    → 0x20 ≤ cp
    → cp < 0x80
    → parse_char ((if cp == quote || cp == backslash then backslash ∷ cp ∷ [] else cp ∷ []) ++ rest)
      ≡ some (some (append_utf8 cp), rest)
unfolding parse_char parse_escape
ascii_read cp rest p q = elim (Bool-cases (cp == quote)) [
  | inl e ↦ rw (e, e) (short cp quote rest (==→eq cp quote e) (omega arith))
  | inr e ↦ rw e (elim (Bool-cases (cp == backslash)) [
    | inl f ↦ rw (f, e, f) (short cp backslash rest (==→eq cp backslash f) (omega arith))
    | inr f ↦ rw (f, e, f) (raw_read cp rest p q)
  ])
]

-- What is written for a code point that is not a surrogate is one round of the parser, which
-- appends the encoding of that code point.
pub parse_char-escaped :
    (cp : ℕ) (rest : List ℕ)
    → IsScalar cp
    → parse_char (escaped cp ++ rest) ≡ some (some (append_utf8 cp), rest)
unfolding IsScalar
parse_char-escaped cp rest s = elim (Bool-cases (ltb cp 0x20)) [
  | inl e ↦ rw e (control_read cp rest (ltb→lt cp 0x20 e))
  | inr e ↦ rw e (elim (Bool-cases (leb 0x80 cp)) [
    | inl f ↦ rw f (point_read cp rest (leb→le 0x80 cp f) s)
    | inr f ↦ rw f (ascii_read cp rest (ltb→le cp 0x20 e) (leb→lt 0x80 cp f))
  ])
]
