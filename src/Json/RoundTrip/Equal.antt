-- ===== src/Json/RoundTrip/Equal.antt =====
-- What a text of the serializer reads as is equal, by `operator==` of src/laige-core/json.cpp, to the value
-- that was written.
use laige_cpp.Prelude.{
  ℕ, suc, ◌≡◌, refl, ap, arith, true, false, Bool-cases, inl, inr, none, some, List, [], ◌∷◌,
}
use laige_cpp.Json.Values.{
  Value, Items, Members, null, bool, number, string, array, object, no_items, item, no_members,
  member, find_in, set_in, same_text, equal, equal_items, equal_members, count_members,
}
use laige_cpp.Json.Values.Joins.{join, join-set_in, Apart, Apart-set_in, Apart-no_members}
use laige_cpp.Json.Plain.{IsPlain, ArePlain, HavePlain}
use laige_cpp.Json.Doubles.{Doubles, AreStandard}
use laige_cpp.Json.Parser.{Json}
use laige_cpp.Json.Printer.Shape.{Denotes, append_number-Denotes}
use laige_cpp.Json.RoundTrip.Sizes.{reread, reread_items, reread_members}

same_text_refl : (s : List ℕ) → same_text s s ≡ true
unfolding same_text
same_text_refl [] = refl
same_text_refl (x ∷ xs) = rw (same_text_refl xs) (ground arith)

module _ {N : Type 0} where
  find_in-join :
      (key : List ℕ) (v : Value N) (pre ms : Members N)
      → find_in key pre ≡ none
      → find_in key (join pre (member key v ms)) ≡ some v
  unfolding find_in join
  find_in-join key v no_members ms e = rw (same_text_refl key) refl
  find_in-join key v (member k w pre) ms e = elim (Bool-cases (same_text k key)) [
    | inl t ↦ absurd (ground arith)
    | inr t ↦ rw t (find_in-join key v pre ms (ground arith))
  ]

module _ (d : Doubles) {Finite : d.Number → Type 0} (std : AreStandard d Finite) where
  count-reread : (ms : Members d.Number) → count_members (reread_members d ms) ≡ count_members ms
  unfolding count_members reread
  count-reread no_members = refl
  count-reread (member key v ms) = ap suc (count-reread ms)

  mutual
    unfolding equal reread IsPlain Denotes Apart join

    pub equal-reread : (v : Json d) → IsPlain d Finite v → equal d.same (reread d v) v ≡ true
    equal-reread null h = refl
    equal-reread (bool true) h = refl
    equal-reread (bool false) h = refl
    equal-reread (number v) h = (append_number-Denotes d std v h).1
    equal-reread (string s) h = same_text_refl s
    equal-reread (array xs) h = items-reread xs h
    equal-reread (object ms) h =
        rw (count-reread ms, members-reread ms no_members h (Apart-no_members ms)) (ground arith)

    items-reread :
        (xs : Items d.Number)
        → ArePlain d Finite xs
        → equal_items d.same (reread_items d xs) xs ≡ true
    items-reread no_items h = refl
    items-reread (item x xs) (h, hs) = rw (equal-reread x h, items-reread xs hs) refl

    members-reread :
        (ms pre : Members d.Number)
        → HavePlain d Finite ms
        → Apart pre ms
        → equal_members d.same (reread_members d ms) (join pre ms) ≡ true
    members-reread no_members pre h a = refl
    members-reread (member key v ms) pre (t, (h, (e, hs))) (f, a) =
        rw (find_in-join key v pre ms f, equal-reread v h, ← join-set_in key v pre ms f)
          (members-reread ms (set_in key v pre) hs (Apart-set_in key v pre ms f e a))
