-- ===== src/Json/DocumentTests.antt =====
-- The theorems on numbers and whole documents (src/laige-core/json.cpp) at a concrete input, where the
-- numbers are one-digit ones.
use laige_cpp.Prelude.{
  ℕ, zero, suc, ◌+◌, ◌-◌, ◌≤◌, ◌<◌, ◌≡◌, ◌≢◌, refl, arith, true, ◌==◌, some, List, [], ◌∷◌, ◌++◌,
  length, inl,
}
use laige_cpp.Json.Strings.Texts.{AreScalars, encode}
use laige_cpp.Json.Utf8.{append_utf8}
use laige_cpp.Json.Strings.{append_escaped_string, escape_from}
use laige_cpp.Json.Strings.Escapes.{IsScalar}
use laige_cpp.Json.Values.{
  bool, number, array, object, no_items, item, no_members, member, append_item, find_in, equal,
  same_text,
}
use laige_cpp.Json.Numbers.{scan_number, scan_sign, scan_int, split_digits, scan_frac, scan_exp}
use laige_cpp.Json.Numbers.Grammar.{
  IsToken, token, unsigned, zero_int, digits_int, no_frac, no_exp, Stops, AreDigits,
}
use laige_cpp.Json.Numbers.Sound.{scan_number_iff}
use laige_cpp.Json.Doubles.{Doubles, AreStandard}
use laige_cpp.Json.Plain.{IsText, IsPlain}
use laige_cpp.Json.Outcome.{ok, out_of_fuel}
use laige_cpp.Json.Parser.{
  Json, parse_json, default_options, finish, parse_value, dispatch, skip_whitespace, parse_array,
  consume, parse_number, next_item,
}
use laige_cpp.Json.Printer.{append_value, append_number, first_exact, serialize_json}
use laige_cpp.Json.RoundTrip.{parse_json-serialize_json}
use laige_cpp.Json.RoundTrip.Sizes.{reread, nesting}
use laige_cpp.Json.Bounds.{parse_json_returns, parse_json_bounded}

abbrev read_digit : List ℕ → ℕ
read_digit [] = 0
read_digit (c ∷ cs) = c - 48

abbrev one_digit : Doubles
one_digit = record {
  Number = ℕ;
  strtod = read_digit;
  print = λ p v. (48 + v) ∷ [];
  same = λ x y. x == y;
  zero_value = 0;
}

abbrev IsDigit : ℕ → Type 0
IsDigit v = v < 10

digit-IsToken : (v : ℕ) → v < 10 → IsToken ((48 + v) ∷ [])
unfolding AreDigits
digit-IsToken zero h = token [] _ [] [] unsigned zero_int no_frac no_exp
digit-IsToken (suc v) h =
    token [] _ [] [] unsigned
      (digits_int (48 + suc v) [] (ground arith) (ground arith) (omega arith)) no_frac no_exp

one_digit-AreStandard : AreStandard one_digit IsDigit
one_digit-AreStandard = record {
  prints = λ p v h l m. digit-IsToken v h;
  short = λ p v h l m. omega arith;
  exact = λ v h. ground arith;
  zero_read = λ v e. ground arith;
}

-- {"a":[1,true],"b":{}}.
abbrev document : Json one_digit
document = object (
    member (97 ∷ []) (array (item (number 1) (item (bool true) no_items)))
      (member (98 ∷ []) (object no_members) no_members))

letter-IsText : (c : ℕ) → c < 128 → IsText (c ∷ [])
unfolding AreScalars IsScalar encode append_utf8
letter-IsText c l = record {
  points = c ∷ [];
  scalars = ((inl (omega arith), omega arith), omega arith);
  encoded = ground arith;
}

document-IsPlain : IsPlain one_digit IsDigit document
unfolding IsPlain find_in same_text
document-IsPlain = (
  letter-IsText 97 (omega arith),
  ((omega arith, (tt, tt)), (refl, (letter-IsText 98 (omega arith), (tt, (refl, tt))))),
)

length-document : length (serialize_json one_digit document) ≡ 21
unfolding serialize_json append_value append_number first_exact append_escaped_string escape_from
length-document = refl

parse_json-serialize_json_example :
    (parse_json one_digit default_options (serialize_json one_digit document)
      ≡ ok (reread one_digit document))
    × (equal one_digit.same (reread one_digit document) document ≡ true)
unfolding nesting
parse_json-serialize_json_example =
    parse_json-serialize_json one_digit one_digit-AreStandard default_options document
      document-IsPlain (omega arith) (omega (arith, length-document))

-- The array and the string in it are not closed.
parse_json_returns_example : parse_json one_digit default_options (91 ∷ 34 ∷ 49 ∷ []) ≢ out_of_fuel
parse_json_returns_example = parse_json_returns one_digit default_options (91 ∷ 34 ∷ 49 ∷ [])

-- " [[1]]".
abbrev brackets : List ℕ
brackets = 32 ∷ 91 ∷ 91 ∷ 49 ∷ 93 ∷ 93 ∷ []

abbrev nested : Json one_digit
nested = array (item (array (item (number 1) no_items)) no_items)

brackets_read : parse_json one_digit default_options brackets ≡ ok nested
unfolding parse_json finish parse_value dispatch skip_whitespace parse_array consume parse_number
    scan_number scan_sign scan_int split_digits scan_frac scan_exp next_item append_item
brackets_read = refl

parse_json_bounded_example : (length brackets ≤ 1048576) × (nesting one_digit nested ≤ 32)
parse_json_bounded_example =
    parse_json_bounded one_digit default_options brackets nested brackets_read

-- "-0.5e+7," with the comma left.
abbrev half : List ℕ
half = 45 ∷ 48 ∷ 46 ∷ 53 ∷ 101 ∷ 43 ∷ 55 ∷ []

scan_number_iff_example :
    (scan_number (half ++ 44 ∷ []) ≡ some (half, 44 ∷ [])
      → IsToken half × (half ++ 44 ∷ [] ≡ half ++ 44 ∷ []))
    × (IsToken half → Stops (44 ∷ []) → scan_number (half ++ 44 ∷ []) ≡ some (half, 44 ∷ []))
scan_number_iff_example = scan_number_iff (half ++ 44 ∷ []) half (44 ∷ [])
