-- ===== src/Json/Parser.antt =====
-- The parser of src/laige-core/json.cpp. A parser takes the bytes from `pos` on, and returns what it
-- read with the bytes left; `depth` is the number of open containers.
use laige_cpp.Prelude.{
  ℕ, zero, suc, ◌+◌, ◌*◌, Bool, true, false, ◌||◌, ltb, leb, ◌==◌, if◌then◌else◌, Option, some,
  none, List, [], ◌∷◌, length,
}
use laige_cpp.Json.Outcome.{Outcome, ok, failed, out_of_fuel, ◌>>=◌, read_of}
use laige_cpp.Json.Strings.{parse_string, quote}
use laige_cpp.Json.Values.{
  Value, Items, Members, null, bool, number, string, array, object, no_items, no_members, find_in,
  set_in, append_item,
}
use laige_cpp.Json.Numbers.{scan_number, is_digit, minus}
use laige_cpp.Json.Doubles.{Doubles}

abbrev pub is_space : ℕ → Bool
is_space c = c == 32 || (c == 9 || (c == 10 || c == 13))

unfoldable pub skip_whitespace : List ℕ → List ℕ
skip_whitespace [] = []
skip_whitespace (c ∷ bs) = let rest = skip_whitespace bs in if is_space c then rest else c ∷ bs

-- `consume`: the bytes after a byte, if it is next.
unfoldable pub consume : ℕ → List ℕ → Option (List ℕ)
consume c [] = none
consume c (b ∷ bs) = if b == c then some bs else none

-- The bytes after a literal, if it is next.
unfoldable pub strip : List ℕ → List ℕ → Option (List ℕ)
strip [] bs = some bs
strip (c ∷ cs) [] = none
strip (c ∷ cs) (b ∷ bs) = if b == c then strip cs bs else none

-- "true", "false" and "null".
abbrev pub true_text : List ℕ
true_text = 116 ∷ 114 ∷ 117 ∷ 101 ∷ []

abbrev pub false_text : List ℕ
false_text = 102 ∷ 97 ∷ 108 ∷ 115 ∷ 101 ∷ []

abbrev pub null_text : List ℕ
null_text = 110 ∷ 117 ∷ 108 ∷ 108 ∷ []

-- The bytes '{', '}', '[', ']', ',' and ':'.
abbrev pub left_brace : ℕ
left_brace = 123

abbrev pub right_brace : ℕ
right_brace = 125

abbrev pub left_bracket : ℕ
left_bracket = 91

abbrev pub right_bracket : ℕ
right_bracket = 93

abbrev pub comma : ℕ
comma = 44

abbrev pub colon : ℕ
colon = 58

-- `JsonOptions`; a depth that is not positive rejects every container, like 0.
pub record JsonOptions : Type 0 where
  pub max_document_bytes : ℕ
  pub max_depth : ℕ

abbrev pub default_options : JsonOptions
default_options = record { max_document_bytes = 1048576; max_depth = 32 }

module _ (d : Doubles) where
  abbrev pub Json : Type 0
  Json = Value d.Number

  abbrev pub Parsed : Type 0
  Parsed = Outcome (Json × List ℕ)

  unfoldable pub parse_literal : List ℕ → Json → List ℕ → Parsed
  parse_literal text v bs = elim (strip text bs) [ none ↦ failed | some rest ↦ ok (v, rest) ]

  unfoldable pub parse_number : List ℕ → Parsed
  parse_number bs = read_of (scan_number bs) >>= λ token rest. ok (number (d.strtod token), rest)

  unfoldable pub parse_text : List ℕ → Parsed
  parse_text bs = parse_string bs >>= λ text rest. ok (string text, rest)

  -- The parsers of containers take the parser of what they hold; it takes the depth and what has been
  -- read so far.
  abbrev pub MembersParser : Type 0
  MembersParser = ℕ → Members d.Number → List ℕ → Parsed

  abbrev pub ItemsParser : Type 0
  ItemsParser = ℕ → Items d.Number → List ℕ → Parsed

  -- After the opening brace.
  unfoldable pub parse_object : MembersParser → ℕ → ℕ → List ℕ → Parsed
  parse_object members most depth bs =
      let ts = skip_whitespace bs in
      if leb (depth + 1) most
      then elim (consume right_brace ts) [
        | some rest ↦ ok (object no_members, rest)
        | none ↦ members (depth + 1) no_members ts
      ]
      else failed

  unfoldable pub parse_array : ItemsParser → ℕ → ℕ → List ℕ → Parsed
  parse_array items most depth bs =
      let ts = skip_whitespace bs in
      if leb (depth + 1) most
      then elim (consume right_bracket ts) [
        | some rest ↦ ok (array no_items, rest)
        | none ↦ items (depth + 1) no_items ts
      ]
      else failed

  -- `parseValue` after the white space.
  unfoldable pub dispatch : MembersParser → ItemsParser → ℕ → ℕ → List ℕ → Parsed
  dispatch members items most depth [] = failed
  dispatch members items most depth (c ∷ bs) =
      if c == left_brace
      then parse_object members most depth bs
      else if c == left_bracket
      then parse_array items most depth bs
      else if c == quote
      then parse_text (c ∷ bs)
      else if c == 116
      then parse_literal true_text (bool true) (c ∷ bs)
      else if c == 102
      then parse_literal false_text (bool false) (c ∷ bs)
      else if c == 110
      then parse_literal null_text null (c ∷ bs)
      else if c == minus || is_digit c
      then parse_number (c ∷ bs)
      else failed

  -- The ends of the rounds of the loops: another round, or the closing byte.
  unfoldable pub next_member :
      (Members d.Number → List ℕ → Parsed) → Members d.Number → List ℕ → Parsed
  next_member more ms [] = failed
  next_member more ms (c ∷ bs) =
      if c == comma then more ms bs else if c == right_brace then ok (object ms, bs) else failed

  unfoldable pub next_item : (Items d.Number → List ℕ → Parsed) → Items d.Number → List ℕ → Parsed
  next_item more xs [] = failed
  next_item more xs (c ∷ bs) =
      if c == comma then more xs bs else if c == right_bracket then ok (array xs, bs) else failed

  -- The part of a round of `parseObjectMembers` after the value, where a name that is there fails.
  unfoldable pub add_member :
      (Members d.Number → List ℕ → Parsed) → List ℕ → Json → Members d.Number → List ℕ → Parsed
  add_member more key value ms bs = elim (find_in key ms) [
    | some old ↦ failed
    | none ↦ next_member more (set_in key value ms) (skip_whitespace bs)
  ]

  -- What a call leaves is not a structural part of the bytes, so each call takes a unit of fuel.
  unfoldable mutual
    pub parse_value : ℕ → ℕ → ℕ → List ℕ → Parsed
    parse_value zero most depth bs = out_of_fuel
    parse_value (suc f) most depth bs =
        dispatch (parse_members f most) (parse_items f most) most depth (skip_whitespace bs)

    -- The loop of `parseObjectMembers` with the members so far.
    pub parse_members : ℕ → ℕ → MembersParser
    parse_members zero most depth ms bs = out_of_fuel
    parse_members (suc f) most depth ms bs = parse_string (skip_whitespace bs) >>= λ key ts.
        elim (consume colon (skip_whitespace ts)) [
          | none ↦ failed
          | some us ↦ parse_value f most depth us >>= λ value ws.
              add_member (parse_members f most depth) key value ms ws
        ]

    pub parse_items : ℕ → ℕ → ItemsParser
    parse_items zero most depth xs bs = out_of_fuel
    parse_items (suc f) most depth xs bs = parse_value f most depth bs >>= λ x ts.
        next_item (parse_items f most depth) (append_item xs x) (skip_whitespace ts)

  -- Every call but the last reads at least one byte, or is followed by one that does.
  abbrev pub fuel_for : List ℕ → ℕ
  fuel_for bs = 2 * length bs + 2

  -- The end of `parseJson`: nothing but white space may follow.
  unfoldable pub finish : Outcome (Json × List ℕ) → Outcome Json
  finish failed = failed
  finish out_of_fuel = out_of_fuel
  finish (ok (v, rest)) = elim (skip_whitespace rest) [ [] ↦ ok v | b ∷ bs ↦ failed ]

  unfoldable pub parse_json : JsonOptions → List ℕ → Outcome Json
  parse_json o bs =
      if ltb o.max_document_bytes (length bs)
      then failed
      else finish (parse_value (fuel_for bs) o.max_depth 0 bs)
