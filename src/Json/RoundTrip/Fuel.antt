-- ===== src/Json/RoundTrip/Fuel.antt =====
-- The calls that the parser of src/laige-core/json.cpp takes for a text are at most twice its bytes.
use laige_cpp.Prelude.{
  ℕ, ◌+◌, ◌*◌, ◌≤◌, ◌≡◌, sym, subst, arith, Bool, true, false, List, [], ◌∷◌, ◌++◌, length,
  length-append,
}
use laige_cpp.Json.Strings.{append_escaped_string}
use laige_cpp.Json.Values.{
  Items, Members, null, bool, number, string, array, object, no_items, item, no_members, member,
}
use laige_cpp.Json.Plain.{IsPlain, ArePlain, HavePlain}
use laige_cpp.Json.Doubles.{Doubles, AreStandard}
use laige_cpp.Json.Parser.{Json, colon, right_bracket, right_brace}
use laige_cpp.Json.Printer.{append_value, append_items, append_members, separator}
use laige_cpp.Json.Printer.Shape.{Begins, append_value-Begins}
use laige_cpp.Json.RoundTrip.Sizes.{rounds, rounds_items, rounds_members}

length-Begins : (bs : List ℕ) → Begins bs → 1 ≤ length bs
length-Begins bs b = subst (λ t. 1 ≤ length t) (sym b.same) (omega arith)

length-closed : (a : List ℕ) (b c : ℕ) → length (b ∷ (a ++ c ∷ [])) ≡ length a + 2
length-closed a b c = rw (length-append a (c ∷ [])) (omega arith)

length-item :
    (first : Bool) (a b : List ℕ) → length a + length b ≤ length (separator first ++ (a ++ b))
length-item true a b = rw (length-append a b) (omega arith)
length-item false a b = rw (length-append a b) (omega arith)

length-member :
    (first : Bool) (k a b : List ℕ)
    → length a + length b ≤ length (separator first ++ (k ++ (colon ∷ (a ++ b))))
length-member true k a b = rw (length-append k (colon ∷ (a ++ b)), length-append a b) (omega arith)
length-member false k a b = rw (length-append k (colon ∷ (a ++ b)), length-append a b) (omega arith)

module _ (d : Doubles) {Finite : d.Number → Type 0} (std : AreStandard d Finite) where
  mutual
    unfolding append_value append_items append_members IsPlain rounds

    pub rounds-length :
        (v : Json d) → IsPlain d Finite v → rounds d v + 1 ≤ 2 * length (append_value d v)
    rounds-length null h = omega arith
    rounds-length (bool true) h = omega arith
    rounds-length (bool false) h = omega arith
    rounds-length (number v) h =
        let l = length-Begins _ (append_value-Begins d std (number v) h) in omega arith
    rounds-length (string s) h =
        let l = length-Begins _ (append_value-Begins d std (string s) h) in omega arith
    rounds-length (array xs) h =
        let l = length-closed (append_items d true xs) 91 right_bracket in
        let r = rounds_items-length true xs h in omega arith
    rounds-length (object ms) h =
        let l = length-closed (append_members d true ms) 123 right_brace in
        let r = rounds_members-length true ms h in omega arith

    rounds_items-length :
        (first : Bool) (xs : Items d.Number)
        → ArePlain d Finite xs
        → rounds_items d xs ≤ 2 * length (append_items d first xs) + 1
    rounds_items-length first no_items h = omega arith
    rounds_items-length first (item x xs) (h, hs) =
        let l = length-item first (append_value d x) (append_items d false xs) in
        let r = rounds-length x h in let rs = rounds_items-length false xs hs in omega arith

    rounds_members-length :
        (first : Bool) (ms : Members d.Number)
        → HavePlain d Finite ms
        → rounds_members d ms ≤ 2 * length (append_members d first ms) + 1
    rounds_members-length first no_members h = omega arith
    rounds_members-length first (member key v ms) (t, (h, (e, hs))) =
        let l =
          length-member first (append_escaped_string key) (append_value d v)
            (append_members d false ms) in
        let r = rounds-length v h in let rs = rounds_members-length false ms hs in omega arith
