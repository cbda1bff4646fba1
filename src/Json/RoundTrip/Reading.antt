-- ===== src/Json/RoundTrip/Reading.antt =====
-- The parser of src/laige-core/json.cpp on the texts of values, items and members.
use laige_cpp.Prelude.{
  ℕ, zero, suc, ◌+◌, ◌≤◌, ◌≡◌, refl, sym, ap, subst, ◌∙◌, arith, Bool, true, false, if◌then◌else◌,
  List, [], ◌∷◌, ◌++◌, append_assoc,
}
use laige_cpp.Json.Strings.{append_escaped_string}
use laige_cpp.Json.Values.{
  Items, Members, null, bool, number, string, array, object, no_items, item, no_members, member,
  set_in, append_item,
}
use laige_cpp.Json.Numbers.Grammar.{Stops}
use laige_cpp.Json.Plain.{IsText, IsPlain, ArePlain, HavePlain}
use laige_cpp.Json.Doubles.{Doubles, AreStandard}
use laige_cpp.Json.Outcome.{ok}
use laige_cpp.Json.Parser.{
  Json, Parsed, skip_whitespace, parse_number, dispatch, next_item, next_member, parse_value,
  parse_items, parse_members, right_bracket, right_brace, comma, colon, left_brace, left_bracket,
  MembersParser, ItemsParser,
}
use laige_cpp.Json.Printer.{append_number, append_value, append_items, append_members}
use laige_cpp.Json.Printer.Shape.{
  IsToken-first, Denotes, append_number-Denotes, append_value-Begins,
}
use laige_cpp.Json.Values.Joins.{
  join, join_end, join-set_in, joined, joined_end, joined-append_item, Apart, Apart-set_in,
  Apart-no_members, no_members_found,
}
use laige_cpp.Json.RoundTrip.Steps.{
  skip-Begins, parse-text, parse-number, dispatch-number, closing-Stops, regroup, array_step,
  object_step, empty_array, empty_object, item_step, member_step,
}
use laige_cpp.Json.RoundTrip.Sizes.{
  reread, reread_items, reread_members, nesting, nesting_items, nesting_members, rounds,
  rounds_items, rounds_members,
}
use laige_cpp.Json.Parser.{parse_literal, strip, null_text, true_text, false_text}
use laige_cpp.Json.Printer.Shape.{number-Begins, NumberFirst}

split_item : (a b rest : List ℕ) → (a ++ b) ++ rest ≡ a ++ (b ++ rest)
split_item a b rest = append_assoc a b rest

split_member :
    (k a b rest : List ℕ) (c : ℕ) → (k ++ (c ∷ (a ++ b))) ++ rest ≡ k ++ (c ∷ (a ++ (b ++ rest)))
split_member k a b rest c = simp append_assoc

end_of : (a rest : List ℕ) (c : ℕ) → (a ++ c ∷ []) ++ rest ≡ a ++ (c ∷ rest)
end_of a rest c = append_assoc a (c ∷ []) rest

dispatch-token :
    (d : Doubles) (members : MembersParser d) (items : ItemsParser d) (most depth : ℕ)
    (t rest : List ℕ)
    → NumberFirst t
    → dispatch d members items most depth (t ++ rest) ≡ parse_number d (t ++ rest)
dispatch-token d members items most depth t rest n =
    subst (λ u. dispatch d members items most depth (u ++ rest) ≡ parse_number d (u ++ rest))
      (sym n.same) (dispatch-number d members items most depth n.first (n.others ++ rest) n.starts)

module _ (d : Doubles) {Finite : d.Number → Type 0} (std : AreStandard d Finite) (most : ℕ) where
  reads_number :
      (v : d.Number) (f depth : ℕ) (rest : List ℕ)
      → Finite v
      → Stops rest
      → parse_value d (suc f) most depth (append_number d v ++ rest)
        ≡ ok (number (d.strtod (append_number d v)), rest)
  unfolding parse_value Denotes
  reads_number v f depth rest h s =
      let (t, e) = append_number-Denotes d std v h in
      rw (skip-Begins (append_number d v) rest (number-Begins d std (append_number d v) t)) (
        dispatch-token d (parse_members d f most) (parse_items d f most) most depth
          (append_number d v) rest (IsToken-first (append_number d v) t)
        ∙ parse-number d (append_number d v) rest t s)

  reads_text :
      (t : List ℕ) (f depth : ℕ) (rest : List ℕ)
      → IsText t
      → parse_value d (suc f) most depth (append_escaped_string t ++ rest) ≡ ok (string t, rest)
  unfolding parse_value dispatch skip_whitespace append_escaped_string
  reads_text t f depth rest h = parse-text d t rest h

  reads_null :
      (f depth : ℕ) (rest : List ℕ)
      → parse_value d (suc f) most depth (null_text ++ rest) ≡ ok (null, rest)
  unfolding parse_value dispatch skip_whitespace parse_literal strip
  reads_null f depth rest = refl

  reads_bool :
      (b : Bool) (f depth : ℕ) (rest : List ℕ)
      → parse_value d (suc f) most depth ((if b then true_text else false_text) ++ rest)
        ≡ ok (bool b, rest)
  unfolding parse_value dispatch skip_whitespace parse_literal strip
  reads_bool true f depth rest = refl
  reads_bool false f depth rest = refl

  end_items :
      (more : Items d.Number → List ℕ → Parsed d) (acc : Items d.Number) (rest : List ℕ)
      → next_item d more acc (skip_whitespace (right_bracket ∷ rest)) ≡ ok (array acc, rest)
  unfolding next_item skip_whitespace
  end_items more acc rest = refl

  comma_items :
      (more : Items d.Number → List ℕ → Parsed d) (acc : Items d.Number) (rest : List ℕ)
      → next_item d more acc (skip_whitespace (comma ∷ rest)) ≡ more acc rest
  unfolding next_item skip_whitespace
  comma_items more acc rest = refl

  end_members :
      (more : Members d.Number → List ℕ → Parsed d) (acc : Members d.Number) (rest : List ℕ)
      → next_member d more acc (skip_whitespace (right_brace ∷ rest)) ≡ ok (object acc, rest)
  unfolding next_member skip_whitespace
  end_members more acc rest = refl

  comma_members :
      (more : Members d.Number → List ℕ → Parsed d) (acc : Members d.Number) (rest : List ℕ)
      → next_member d more acc (skip_whitespace (comma ∷ rest)) ≡ more acc rest
  unfolding next_member skip_whitespace
  comma_members more acc rest = refl

  items_stop :
      (xs : Items d.Number) (rest : List ℕ)
      → Stops (append_items d false xs ++ right_bracket ∷ rest)
  unfolding append_items
  items_stop no_items rest = closing-Stops right_bracket rest refl
  items_stop (item x xs) rest = closing-Stops comma _ refl

  members_stop :
      (ms : Members d.Number) (rest : List ℕ)
      → Stops (append_members d false ms ++ right_brace ∷ rest)
  unfolding append_members
  members_stop no_members rest = closing-Stops right_brace rest refl
  members_stop (member key v ms) rest = closing-Stops comma _ refl

  mutual
    unfolding append_item set_in append_value append_items append_members IsPlain reread nesting
        rounds joined join Apart

    pub reads_value :
        (v : Json d) (f depth : ℕ) (rest : List ℕ)
        → IsPlain d Finite v
        → depth + nesting d v ≤ most
        → rounds d v ≤ f
        → Stops rest
        → parse_value d f most depth (append_value d v ++ rest) ≡ ok (reread d v, rest)
    reads_value null zero depth rest g n r s = absurd (omega arith)
    reads_value (bool b) zero depth rest g n r s = absurd (omega arith)
    reads_value (number v) zero depth rest g n r s = absurd (omega arith)
    reads_value (string t) zero depth rest g n r s = absurd (omega arith)
    reads_value (array xs) zero depth rest g n r s = absurd (omega arith)
    reads_value (object ms) zero depth rest g n r s = absurd (omega arith)
    reads_value null (suc f) depth rest g n r s = reads_null f depth rest
    reads_value (bool b) (suc f) depth rest g n r s = reads_bool b f depth rest
    reads_value (number v) (suc f) depth rest g n r s = reads_number v f depth rest g s
    reads_value (string t) (suc f) depth rest g n r s = reads_text t f depth rest g
    reads_value (array no_items) (suc f) depth rest g n r s =
        empty_array d most f depth rest (omega arith)
    reads_value (array (item x xs)) (suc zero) depth rest g n r s = absurd (omega arith)
    reads_value (array (item x xs)) (suc (suc f)) depth rest (g, gs) n r s =
        ap (λ t. parse_value d (suc (suc f)) most depth (left_bracket ∷ t))
          (regroup (append_value d x) (append_items d false xs) rest right_bracket)
        ∙ (array_step d most (suc f) depth (append_value d x) _ (omega arith)
              (append_value-Begins d std x g)
            ∙ item_step d most f (depth + 1) no_items (reread d x) _ _
                (reads_value x f (depth + 1) _ g (omega arith) (omega arith) (items_stop xs rest))
                (reads_items xs f (depth + 1) (item (reread d x) no_items) rest gs (omega arith)
                  (omega arith)))
    reads_value (object no_members) (suc f) depth rest g n r s =
        empty_object d most f depth rest (omega arith)
    reads_value (object (member key v ms)) (suc zero) depth rest g n r s = absurd (omega arith)
    reads_value (object (member key v ms)) (suc (suc f)) depth rest (t, (g, (e, gs))) n r s =
        ap (λ u. parse_value d (suc (suc f)) most depth (left_brace ∷ u))
          (end_of (append_members d true (member key v ms)) rest right_brace
            ∙ split_member (append_escaped_string key) (append_value d v)
                (append_members d false ms) _ colon)
        ∙ (object_step d most (suc f) depth key _ (omega arith)
            ∙ member_step d most f (depth + 1) no_members key (reread d v) _ _ t
                (no_members_found key)
                (reads_value v f (depth + 1) _ g (omega arith) (omega arith) (members_stop ms rest))
                (reads_members ms f (depth + 1) (member key (reread d v) no_members) rest gs
                  (Apart-set_in key (reread d v) no_members ms (no_members_found key) e
                    (Apart-no_members ms))
                  (omega arith) (omega arith)))

    reads_items :
        (xs : Items d.Number) (f depth : ℕ) (acc : Items d.Number) (rest : List ℕ)
        → ArePlain d Finite xs
        → depth + nesting_items d xs ≤ most
        → rounds_items d xs ≤ f
        → next_item d
            (parse_items d f most depth)
            acc
            (skip_whitespace (append_items d false xs ++ right_bracket ∷ rest))
          ≡ ok (array (joined acc (reread_items d xs)), rest)
    reads_items no_items f depth acc rest g n r =
        end_items (parse_items d f most depth) acc rest
        ∙ ap (λ ys. ok (array ys, rest)) (sym (joined_end acc))
    reads_items (item x xs) zero depth acc rest g n r = absurd (omega arith)
    reads_items (item x xs) (suc f) depth acc rest (g, gs) n r =
        comma_items (parse_items d (suc f) most depth) acc _
        ∙ (ap (parse_items d (suc f) most depth acc)
              (split_item (append_value d x) (append_items d false xs) _)
            ∙ (item_step d most f depth acc (reread d x) _ _
                  (reads_value x f depth _ g (omega arith) (omega arith) (items_stop xs rest))
                  (reads_items xs f depth (append_item acc (reread d x)) rest gs (omega arith)
                    (omega arith))
                ∙ ap (λ ys. ok (array ys, rest))
                    (joined-append_item acc (reread d x) (reread_items d xs))))

    reads_members :
        (ms : Members d.Number) (f depth : ℕ) (acc : Members d.Number) (rest : List ℕ)
        → HavePlain d Finite ms
        → Apart acc ms
        → depth + nesting_members d ms ≤ most
        → rounds_members d ms ≤ f
        → next_member d
            (parse_members d f most depth)
            acc
            (skip_whitespace (append_members d false ms ++ right_brace ∷ rest))
          ≡ ok (object (join acc (reread_members d ms)), rest)
    reads_members no_members f depth acc rest g a n r =
        end_members (parse_members d f most depth) acc rest
        ∙ ap (λ ns. ok (object ns, rest)) (sym (join_end acc))
    reads_members (member key v ms) zero depth acc rest g a n r = absurd (omega arith)
    reads_members (member key v ms) (suc f) depth acc rest (t, (g, (e, gs))) (h, a) n r =
        comma_members (parse_members d (suc f) most depth) acc _
        ∙ (ap (parse_members d (suc f) most depth acc) (
              split_member (append_escaped_string key) (append_value d v)
                (append_members d false ms) _ colon)
            ∙ (member_step d most f depth acc key (reread d v) _ _ t h
                  (reads_value v f depth _ g (omega arith) (omega arith) (members_stop ms rest))
                  (reads_members ms f depth (set_in key (reread d v) acc) rest gs
                    (Apart-set_in key (reread d v) acc ms h e a) (omega arith) (omega arith))
                ∙ ap (λ ns. ok (object ns, rest))
                    (join-set_in key (reread d v) acc (reread_members d ms) h)))
