-- ===== src/Json/Printer.antt =====
-- The serializer of src/laige-core/json.cpp.
pub mod Shape
use laige_cpp.Prelude.{
  ℕ, zero, suc, ◌+◌, Bool, true, false, ◌||◌, leb, ◌==◌, if◌then◌else◌, List, [], ◌∷◌, ◌++◌, length,
}
use laige_cpp.Json.Strings.{append_escaped_string}
use laige_cpp.Json.Values.{
  Value, Items, Members, null, bool, number, string, array, object, no_items, item, no_members,
  member,
}
use laige_cpp.Json.Doubles.{Doubles}
use laige_cpp.Json.Parser.{
  Json, true_text, false_text, null_text, left_brace, right_brace, left_bracket, right_bracket,
  comma, colon,
}

-- `","` between elements.
abbrev pub separator : Bool → List ℕ
separator first = if first then [] else comma ∷ []

module _ (d : Doubles) where
  -- The loop of `appendNumber` from a precision on, with the rounds left; 17 digits at its end.
  unfoldable pub first_exact : ℕ → ℕ → d.Number → List ℕ
  first_exact zero p v = d.print 17 v
  first_exact (suc rounds) p v =
      let later = first_exact rounds (p + 1) v in
      let text = d.print p v in
      if length text == 0 || leb 32 (length text)
      then later
      else if d.same (d.strtod text) v
      then text
      else later

  unfoldable pub append_number : d.Number → List ℕ
  append_number v = if d.same v d.zero_value then 48 ∷ [] else first_exact 17 1 v

  unfoldable mutual
    pub append_value : Json d → List ℕ
    append_value null = null_text
    append_value (bool b) = if b then true_text else false_text
    append_value (number v) = append_number v
    append_value (string s) = append_escaped_string s
    append_value (array xs) = left_bracket ∷ (append_items true xs ++ right_bracket ∷ [])
    append_value (object ms) = left_brace ∷ (append_members true ms ++ right_brace ∷ [])

    pub append_items : Bool → Items d.Number → List ℕ
    append_items first no_items = []
    append_items first (item x xs) = separator first ++ (append_value x ++ append_items false xs)

    pub append_members : Bool → Members d.Number → List ℕ
    append_members first no_members = []
    append_members first (member key value ms) =
        separator first
        ++ (append_escaped_string key ++ (colon ∷ (append_value value ++ append_members false ms)))

  unfoldable pub serialize_json : Json d → List ℕ
  serialize_json v = append_value v
