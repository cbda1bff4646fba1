-- ===== src/Json/Tests.antt =====
-- The theorems on JSON text at concrete inputs, and runs of the decoder and the parser.
use laige_cpp.Prelude.{ℕ, List, ◌≡◌, ◌≢◌, inl, inr, refl, arith, true, some, none, [], ◌∷◌, ◌++◌}
use laige_cpp.Json.Utf8.{decode_utf8, append_utf8, is_valid_utf8}
use laige_cpp.Json.Utf8.Laws.{IsDecodable, decode_utf8-append_utf8}
use laige_cpp.Json.Utf8.Sound.{AreBytes, Accepted, decode_utf8_sound}
use laige_cpp.Json.Outcome.{ok}
use laige_cpp.Json.Strings.{append_escaped_string, parse_string, quote}
use laige_cpp.Json.Strings.Escapes.{IsScalar}
use laige_cpp.Json.Strings.Texts.{
  encode, AreScalars, parse_string-append_escaped_string, parse_string_unquoted,
}

-- U+20AC, and the first code point past Unicode, which the decoder takes.
decode_utf8-append_utf8_example :
    decode_utf8 (append_utf8 0x20AC ++ 65 ∷ []) ≡ some (0x20AC, 65 ∷ [])
unfolding IsDecodable
decode_utf8-append_utf8_example =
    decode_utf8-append_utf8 0x20AC (65 ∷ []) (inl (omega arith), omega arith)

past_unicode : decode_utf8 (0xF4 ∷ 0x90 ∷ 0x80 ∷ 0x80 ∷ []) ≡ some (0x110000, [])
unfolding decode_utf8 laige_cpp.Json.Utf8.decode4
past_unicode = refl

past_unicode_valid : is_valid_utf8 (0xF4 ∷ 0x90 ∷ 0x80 ∷ 0x80 ∷ []) ≡ true
unfolding is_valid_utf8 laige_cpp.Json.Utf8.valid_from decode_utf8 laige_cpp.Json.Utf8.decode4
past_unicode_valid = refl

overlong : decode_utf8 (0xE0 ∷ 0x80 ∷ 0x80 ∷ []) ≡ none
unfolding decode_utf8 laige_cpp.Json.Utf8.decode3
overlong = refl

decode_utf8_sound_example : Accepted (0xC3 ∷ 0xA9 ∷ 65 ∷ []) 0xE9 (65 ∷ [])
unfolding AreBytes decode_utf8 laige_cpp.Json.Utf8.decode2
decode_utf8_sound_example =
    decode_utf8_sound (0xC3 ∷ 0xA9 ∷ 65 ∷ []) 0xE9 (65 ∷ [])
      (omega arith, (omega arith, (omega arith, omega arith))) refl

-- A letter, a quote, a line feed and U+1F600.
abbrev text : List ℕ
text = 97 ∷ 34 ∷ 10 ∷ 0x1F600 ∷ []

text-AreScalars : AreScalars text
unfolding AreScalars IsScalar
text-AreScalars = (
  (inl (omega arith), omega arith),
  (
    (inl (omega arith), omega arith),
    ((inl (omega arith), omega arith), ((inr (omega arith), omega arith), omega arith)),
  ),
)

parse_string-append_escaped_string_example :
    parse_string (append_escaped_string (encode text) ++ 44 ∷ []) ≡ ok (encode text, 44 ∷ [])
parse_string-append_escaped_string_example =
    parse_string-append_escaped_string text (44 ∷ []) text-AreScalars

parse_string_unquoted_example : parse_string (97 ∷ 34 ∷ []) ≡ parse_string (quote ∷ 97 ∷ 34 ∷ [])
parse_string_unquoted_example = parse_string_unquoted 97 (34 ∷ []) different
  where
    different : 97 ≢ quote
    different = λ e. absurd (omega arith)
