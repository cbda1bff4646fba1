-- ===== src/Json/Strings/Texts.antt =====
-- Whole strings, written and read back (src/laige-core/json.cpp).
use laige_cpp.Prelude.{
  ℕ, zero, suc, ◌≤◌, ◌<◌, ◌≡◌, ◌≢◌, inl, inr, refl, sym, ap, ◌∙◌, arith, ltb, ltb→lt, ltb→le, ◌||◌,
  ◌==◌, Bool-cases, ==→eq, le→ltb, le→leb, lt→leb, some, List, [], ◌∷◌, ◌++◌, length, length-append,
  append_assoc,
}
use laige_cpp.Json.Outcome.{ok}
use laige_cpp.Json.Utf8.{decode_utf8, append_utf8}
use laige_cpp.Json.Utf8.Laws.{
  IsDecodable, decode_utf8-append_utf8, append_utf8_ascii, append_utf8_head,
}
use laige_cpp.Json.Strings.{
  backslash, quote, escape_control, escape_point, escape_from, append_escaped_string, parse_char,
  parse_chars, skip_quote, parse_string,
}
use laige_cpp.Json.Strings.Escapes.{IsScalar, escaped, parse_char-escaped}

-- The UTF-8 text of code points.
unfoldable pub encode : List ℕ → List ℕ
encode [] = []
encode (cp ∷ cps) = append_utf8 cp ++ encode cps

unfoldable pub AreScalars : List ℕ → Type 0
AreScalars [] = 0 ≤ 0
AreScalars (cp ∷ cps) = IsScalar cp × AreScalars cps

-- What is written for a text, up to and with the closing quote.
quoted : List ℕ → List ℕ
quoted [] = quote ∷ []
quoted (cp ∷ cps) = escaped cp ++ quoted cps

escape_ascii :
    (n cp : ℕ) (bs : List ℕ)
    → cp < 0x80
    → escape_from (suc n) (cp ∷ bs) ≡ escaped cp ++ escape_from n bs
unfolding escape_from
escape_ascii n cp bs p = elim (Bool-cases (ltb cp 0x20)) [
  | inl e ↦ rw e refl
  | inr e ↦
      rw (e, lt→leb 0x80 cp p)
        (elim (Bool-cases (cp == quote || cp == backslash)) [
          | inl f ↦ rw f refl
          | inr f ↦ rw f refl
        ])
]

escape_high :
    (n cp : ℕ) (bs : List ℕ)
    → 0x80 ≤ cp
    → IsDecodable cp
    → escape_from (suc n) (append_utf8 cp ++ bs) ≡ escaped cp ++ escape_from n bs
unfolding escape_from
escape_high n cp bs p d =
    let (b, (t, (e, high))) = append_utf8_head cp in
    let back : decode_utf8 (b ∷ t ++ bs) ≡ some (cp, bs) =
      ap (λ (xs : List ℕ). decode_utf8 (xs ++ bs)) (sym e) ∙ decode_utf8-append_utf8 cp bs d in
    let large = high p in
    rw
      (
        e,
        le→ltb b 0x20 (omega arith),
        le→leb 0x80 b large,
        back,
        le→ltb cp 0x20 (omega arith),
        le→leb 0x80 cp p,
      )
      refl

escape_one :
    (n cp : ℕ) (bs : List ℕ)
    → IsScalar cp
    → escape_from (suc n) (append_utf8 cp ++ bs) ≡ escaped cp ++ escape_from n bs
unfolding IsScalar IsDecodable
escape_one n cp bs (s, p) = elim (Bool-cases (ltb cp 0x80)) [
  | inl e ↦ rw (append_utf8_ascii cp (ltb→lt cp 0x80 e)) (escape_ascii n cp bs (ltb→lt cp 0x80 e))
  | inr e ↦ escape_high n cp bs (ltb→le cp 0x80 e) (s, omega arith)
]

escape_text :
    (n : ℕ) (cps : List ℕ)
    → AreScalars cps
    → length cps ≤ n
    → escape_from n (encode cps) ≡ quoted cps
unfolding AreScalars encode quoted escape_from
escape_text n [] s p = refl
escape_text zero (cp ∷ cps) s p = absurd (omega arith)
escape_text (suc n) (cp ∷ cps) (s, ss) p =
    escape_one n cp (encode cps) s
    ∙ ap (λ (bs : List ℕ). escaped cp ++ bs) (escape_text n cps ss (omega arith))

parse_text :
    (n : ℕ) (cps rest : List ℕ)
    → AreScalars cps
    → length cps < n
    → parse_chars n (quoted cps ++ rest) ≡ ok (encode cps, rest)
unfolding AreScalars encode quoted parse_chars parse_char
parse_text zero cps rest s p = absurd (omega arith)
parse_text (suc n) [] rest s p = refl
parse_text (suc n) (cp ∷ cps) rest (s, ss) p =
    let one =
      ap (λ (bs : List ℕ). parse_char bs) (append_assoc (escaped cp) (quoted cps) rest)
      ∙ parse_char-escaped cp (quoted cps ++ rest) s in
    rw (parse_chars, one, parse_text n cps rest ss (omega arith)) refl

encode_long : (cps : List ℕ) → length cps ≤ length (encode cps)
unfolding encode
encode_long [] = omega arith
encode_long (cp ∷ cps) =
    let (b, (t, (e, high))) = append_utf8_head cp in
    rw e (omega (arith, length-append t (encode cps), encode_long cps))

escaped_some : (cp : ℕ) → 1 ≤ length (escaped cp)
unfolding escape_control escape_point
escaped_some cp = ground arith

quoted_long : (cps rest : List ℕ) → length cps < length (quoted cps ++ rest)
unfolding quoted
quoted_long [] rest = omega arith
quoted_long (cp ∷ cps) rest = rw (append_assoc (escaped cp) (quoted cps) rest) (
    omega (
      arith,
      length-append (escaped cp) (quoted cps ++ rest),
      escaped_some cp,
      quoted_long cps rest,
    ))

-- The text of any code points that are not surrogates, written as a JSON string, is read back, and
-- the bytes after the closing quote are left.
pub parse_string-append_escaped_string :
    (cps rest : List ℕ)
    → AreScalars cps
    → parse_string (append_escaped_string (encode cps) ++ rest) ≡ ok (encode cps, rest)
unfolding parse_string append_escaped_string skip_quote
parse_string-append_escaped_string cps rest s =
    rw (escape_text (length (encode cps)) cps s (encode_long cps)) (
      parse_text (suc (length (quoted cps ++ rest))) cps rest s
        (omega (arith, quoted_long cps rest)))

-- The opening quote does not matter: without it, the rest of the string is read in the same way.
pub parse_string_unquoted :
    (c : ℕ) (bs : List ℕ) → c ≢ quote → parse_string (c ∷ bs) ≡ parse_string (quote ∷ c ∷ bs)
unfolding parse_string skip_quote
parse_string_unquoted c bs n = elim (Bool-cases (c == quote)) [
  | inl e ↦ absurd (n (==→eq c quote e))
  | inr e ↦ rw e refl
]
