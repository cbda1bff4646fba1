-- ===== src/Json/Bounds.antt =====
-- The parser of src/laige-core/json.cpp returns on every text, and what it reads is no deeper than its
-- bound.
pub mod Steps
pub mod Containers
use laige_cpp.Prelude.{
  ℕ, zero, suc, ◌+◌, ◌*◌, ◌≤◌, ◌<◌, ◌≡◌, ◌≢◌, refl, sym, ap, subst, ◌∙◌, arith, max, Bool, true,
  false, ◌&&◌, ◌||◌, ◌==◌, ltb, leb, if◌then◌else◌, Bool-cases, inl, inr, Option, none, some, List,
  [], ◌∷◌, ◌++◌, length, length-append,
}
use laige_cpp.Json.Strings.{parse_string}
use laige_cpp.Json.Values.{
  Value, Items, Members, null, bool, number, string, array, object, no_items, item, no_members,
  member, find_in, set_in, append_item, same_text,
}
use laige_cpp.Json.Numbers.{scan_number}
use laige_cpp.Json.Numbers.Sound.{scan_number_iff}
use laige_cpp.Json.Doubles.{Doubles}
use laige_cpp.Json.Outcome.{Outcome, ok, failed, out_of_fuel, read_of, ◌>>=◌}
use laige_cpp.Json.Parser.{
  Json, Parsed, is_space, skip_whitespace, consume, strip, parse_literal, parse_number, parse_text,
  dispatch, parse_object, parse_array, next_item, next_member, add_member, parse_value, parse_items,
  parse_members, MembersParser, ItemsParser, JsonOptions, fuel_for, finish, parse_json, comma,
  colon, true_text, false_text, null_text,
}
use laige_cpp.Json.RoundTrip.Sizes.{nesting, nesting_items, nesting_members}
use laige_cpp.Json.Bounds.Steps.{
  length-skip_whitespace, consume_left, Within, fails, leaves, weaken, if-Within, read-Within,
  option-Within, then-Within, literal-Within, number-Within, text-Within,
}
use laige_cpp.Json.Bounds.Containers.{value-Within}

module _ (d : Doubles) (most : ℕ) where
  finish-returns :
      (bs : List ℕ) (r : Outcome (Json d × List ℕ))
      → Within d most 0 (length bs) r
      → finish d r ≢ out_of_fuel
  unfolding finish
  finish-returns bs _ fails = λ e. absurd (ground arith)
  finish-returns bs _ (leaves v rest p q) = elim (skip_whitespace rest) [
    | [] ↦ λ e. absurd (ground arith)
    | c ∷ cs ↦ λ e. absurd (ground arith)
  ]

  ended_same :
      (ts : List ℕ) (w v : Json d)
      → elim ts as (λ x. Outcome (Json d)) [ [] ↦ ok w | c ∷ cs ↦ failed ] ≡ ok v
      → w ≡ v
  ended_same [] w v e = cc
  ended_same (c ∷ cs) w v e = absurd (ground arith)

  finish-nesting :
      (bs : List ℕ) (r : Outcome (Json d × List ℕ)) (v : Json d)
      → Within d most 0 (length bs) r
      → finish d r ≡ ok v
      → nesting d v ≤ most
  unfolding finish
  finish-nesting bs _ v fails e = absurd (ground arith)
  finish-nesting bs _ v (leaves w rest p q) e =
      subst (λ u. nesting d u ≤ most) (ended_same (skip_whitespace rest) w v e) (omega arith)

-- On every text the parser returns a value or a failure: neither its own fuel nor that of its string loop
-- runs out.
pub parse_json_returns :
    (d : Doubles) (o : JsonOptions) (bs : List ℕ) → parse_json d o bs ≢ out_of_fuel
unfolding parse_json
parse_json_returns d o bs = elim (Bool-cases (ltb o.max_document_bytes (length bs))) [
  | inl e ↦ rw e (λ h. absurd (ground arith))
  | inr e ↦ rw e (
      finish-returns d o.max_depth bs _
        (value-Within d o.max_depth (fuel_for d bs) 0 bs (omega arith) (omega arith)))
]

-- A document that is read is no longer and nests no deeper than the options allow.
pub parse_json_bounded :
    (d : Doubles) (o : JsonOptions) (bs : List ℕ) (v : Json d)
    → parse_json d o bs ≡ ok v
    → (length bs ≤ o.max_document_bytes) × (nesting d v ≤ o.max_depth)
unfolding parse_json
parse_json_bounded d o bs v h = elim (Bool-cases (ltb o.max_document_bytes (length bs))) [
  | inl e ↦ absurd (ground arith)
  | inr e ↦ (
    ground arith,
    finish-nesting d o.max_depth bs _ v
        (value-Within d o.max_depth (fuel_for d bs) 0 bs (omega arith) (omega arith))
        (ground arith),
  )
]
