-- ===== src/Json/RoundTrip/Steps.antt =====
-- One call of each parser of src/laige-core/json.cpp on what its serializer writes.
use laige_cpp.Prelude.{
  ℕ, suc, ◌+◌, ◌≤◌, ◌≡◌, refl, sym, subst, ◌∙◌, arith, true, false, ◌||◌, ◌==◌, le→leb, none, List,
  [], ◌∷◌, ◌++◌, append_assoc,
}
use laige_cpp.Json.Strings.{append_escaped_string, quote, parse_string}
use laige_cpp.Json.Strings.Texts.{parse_string-append_escaped_string}
use laige_cpp.Json.Values.{
  Items, Members, number, string, array, object, no_items, no_members, find_in, set_in, append_item,
}
use laige_cpp.Json.Numbers.{minus, is_digit}
use laige_cpp.Json.Numbers.Grammar.{IsToken, Stops, scan_number-append}
use laige_cpp.Json.Plain.{IsText}
use laige_cpp.Json.Doubles.{Doubles}
use laige_cpp.Json.Outcome.{ok, ◌>>=◌}
use laige_cpp.Json.Parser.{
  Json, Parsed, is_space, skip_whitespace, consume, parse_number, parse_text, dispatch,
  parse_object, parse_array, next_item, next_member, add_member, parse_value, parse_items,
  parse_members, right_bracket, right_brace, comma, colon, left_brace, left_bracket, MembersParser,
  ItemsParser,
}
use laige_cpp.Json.Printer.Shape.{Begins}

pub skip-Begins : (bs rest : List ℕ) → Begins bs → skip_whitespace (bs ++ rest) ≡ bs ++ rest
unfolding skip_whitespace
skip-Begins bs rest b = rw (b.same, b.no_space) refl

pub parse-text :
    (d : Doubles) (s rest : List ℕ)
    → IsText s
    → parse_text d (append_escaped_string s ++ rest) ≡ ok (string s, rest)
unfolding parse_text
parse-text d s rest t =
    rw (t.encoded, parse_string-append_escaped_string t.points rest t.scalars) refl

pub parse-number :
    (d : Doubles) (t rest : List ℕ)
    → IsToken t
    → Stops rest
    → parse_number d (t ++ rest) ≡ ok (number (d.strtod t), rest)
unfolding parse_number
parse-number d t rest h s = rw (scan_number-append t rest h s) refl

pub dispatch-number :
    (d : Doubles) (members : MembersParser d) (items : ItemsParser d) (most depth c : ℕ)
    (bs : List ℕ)
    → (c == minus || is_digit c) ≡ true
    → dispatch d members items most depth (c ∷ bs) ≡ parse_number d (c ∷ bs)
unfolding dispatch
dispatch-number d members items most depth c bs h = ground arith

pub closing-Stops :
    (c : ℕ) (rest : List ℕ)
    → (c == comma || (c == right_bracket || c == right_brace)) ≡ true
    → Stops (c ∷ rest)
unfolding Stops
closing-Stops c rest h = (ground arith, ground arith)

pub regroup : (a b rest : List ℕ) (c : ℕ) → ((a ++ b) ++ c ∷ []) ++ rest ≡ a ++ (b ++ c ∷ rest)
regroup a b rest c = simp append_assoc

skip-text :
    (s rest : List ℕ)
    → skip_whitespace (append_escaped_string s ++ rest) ≡ append_escaped_string s ++ rest
unfolding skip_whitespace append_escaped_string
skip-text s rest = refl

parse_string-text :
    (s rest : List ℕ) → IsText s → parse_string (append_escaped_string s ++ rest) ≡ ok (s, rest)
parse_string-text s rest t =
    rw t.encoded (parse_string-append_escaped_string t.points rest t.scalars)

skip_byte : (c : ℕ) (cs : List ℕ) → is_space c ≡ false → skip_whitespace (c ∷ cs) ≡ c ∷ cs
unfolding skip_whitespace
skip_byte c cs h = rw h refl

consume_other :
    (b c : ℕ) (cs : List ℕ)
    → is_space c ≡ false
    → (c == b) ≡ false
    → consume b (skip_whitespace (c ∷ cs)) ≡ none
unfolding consume
consume_other b c cs s h = rw (skip_byte c cs s, h) refl

-- One round of each parser, where the parts are known.
module _ (d : Doubles) (most : ℕ) where
  array_byte :
      (items : ItemsParser d) (depth c : ℕ) (cs : List ℕ)
      → depth + 1 ≤ most
      → is_space c ≡ false
      → (c == right_bracket) ≡ false
      → parse_array d items most depth (c ∷ cs) ≡ items (depth + 1) no_items (c ∷ cs)
  unfolding parse_array
  array_byte items depth c cs n s b =
      rw (le→leb (depth + 1) most n, consume_other right_bracket c cs s b, skip_byte c cs s) refl

  array_call :
      (f depth : ℕ) (bs : List ℕ)
      → parse_value d (suc f) most depth (left_bracket ∷ bs)
        ≡ parse_array d (parse_items d f most) most depth bs
  unfolding parse_value dispatch skip_whitespace
  array_call f depth bs = refl

  object_call :
      (f depth : ℕ) (bs : List ℕ)
      → parse_value d (suc f) most depth (left_brace ∷ bs)
        ≡ parse_object d (parse_members d f most) most depth bs
  unfolding parse_value dispatch skip_whitespace
  object_call f depth bs = refl

  pub array_step :
      (f depth : ℕ) (bs rest : List ℕ)
      → depth + 1 ≤ most
      → Begins bs
      → parse_value d (suc f) most depth (left_bracket ∷ (bs ++ rest))
        ≡ parse_items d f most (depth + 1) no_items (bs ++ rest)
  array_step f depth bs rest n b =
      array_call f depth (bs ++ rest)
      ∙ subst
          (λ t.
            parse_array d (parse_items d f most) most depth (t ++ rest)
            ≡ parse_items d f most (depth + 1) no_items (t ++ rest))
          (sym b.same)
          (array_byte (parse_items d f most) depth b.first (b.others ++ rest) n b.no_space
            b.no_bracket)

  object_byte :
      (members : MembersParser d) (depth c : ℕ) (cs : List ℕ)
      → depth + 1 ≤ most
      → is_space c ≡ false
      → (c == right_brace) ≡ false
      → parse_object d members most depth (c ∷ cs) ≡ members (depth + 1) no_members (c ∷ cs)
  unfolding parse_object
  object_byte members depth c cs n s b =
      rw (le→leb (depth + 1) most n, consume_other right_brace c cs s b, skip_byte c cs s) refl

  pub object_step :
      (f depth : ℕ) (key rest : List ℕ)
      → depth + 1 ≤ most
      → parse_value d (suc f) most depth (left_brace ∷ (append_escaped_string key ++ rest))
        ≡ parse_members d f most (depth + 1) no_members (append_escaped_string key ++ rest)
  unfolding append_escaped_string
  object_step f depth key rest n =
      object_call f depth _ ∙ object_byte (parse_members d f most) depth quote _ n refl refl

  pub empty_array :
      (f depth : ℕ) (rest : List ℕ)
      → depth + 1 ≤ most
      → parse_value d (suc f) most depth (left_bracket ∷ (right_bracket ∷ rest))
        ≡ ok (array no_items, rest)
  unfolding parse_value dispatch parse_array skip_whitespace consume
  empty_array f depth rest n = rw (le→leb (depth + 1) most n) refl

  pub empty_object :
      (f depth : ℕ) (rest : List ℕ)
      → depth + 1 ≤ most
      → parse_value d (suc f) most depth (left_brace ∷ (right_brace ∷ rest))
        ≡ ok (object no_members, rest)
  unfolding parse_value dispatch parse_object skip_whitespace consume
  empty_object f depth rest n = rw (le→leb (depth + 1) most n) refl

  pub item_step :
      (f depth : ℕ) (acc : Items d.Number) (x : Json d) (bs rest : List ℕ) {r : Parsed d}
      → parse_value d f most depth bs ≡ ok (x, rest)
      → next_item d (parse_items d f most depth) (append_item acc x) (skip_whitespace rest) ≡ r
      → parse_items d (suc f) most depth acc bs ≡ r
  unfolding parse_items
  item_step f depth acc x bs rest e h = rw (e, parse_items) h

  pub member_step :
      (f depth : ℕ) (acc : Members d.Number) (key : List ℕ) (v : Json d) (bs rest : List ℕ)
      {r : Parsed d}
      → IsText key
      → find_in key acc ≡ none
      → parse_value d f most depth bs ≡ ok (v, rest)
      → next_member d (parse_members d f most depth) (set_in key v acc) (skip_whitespace rest) ≡ r
      → parse_members d (suc f) most depth acc (append_escaped_string key ++ colon ∷ bs) ≡ r
  unfolding parse_members add_member consume
  member_step f depth acc key v bs rest t n e h =
      rw
        (
          skip-text key (colon ∷ bs),
          parse_string-text key (colon ∷ bs) t,
          ◌>>=◌,
          skip_byte colon bs refl,
          e,
          add_member,
          n,
        )
        h
