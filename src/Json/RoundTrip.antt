-- ===== src/Json/RoundTrip.antt =====
-- What the serializer of src/laige-core/json.cpp writes, its parser reads back.
pub mod Steps
pub mod Sizes
pub mod Reading
pub mod Fuel
pub mod Equal
use laige_cpp.Prelude.{
  ℕ, zero, suc, ◌+◌, ◌*◌, ◌≤◌, ◌≡◌, refl, sym, ap, subst, ◌∙◌, arith, true, le→ltb, List, [], ◌∷◌,
  ◌++◌, length, append-nil,
}
use laige_cpp.Json.Values.{equal}
use laige_cpp.Json.Plain.{IsPlain}
use laige_cpp.Json.Numbers.Grammar.{Stops}
use laige_cpp.Json.Doubles.{Doubles, AreStandard}
use laige_cpp.Json.Outcome.{ok}
use laige_cpp.Json.Parser.{
  Json, JsonOptions, parse_value, parse_json, fuel_for, finish, skip_whitespace,
}
use laige_cpp.Json.Printer.{append_value, serialize_json}
use laige_cpp.Json.RoundTrip.Sizes.{reread, nesting, rounds}
use laige_cpp.Json.RoundTrip.Reading.{reads_value}
use laige_cpp.Json.RoundTrip.Fuel.{rounds-length}
use laige_cpp.Json.RoundTrip.Equal.{equal-reread}

module _ (d : Doubles) {Finite : d.Number → Type 0} (std : AreStandard d Finite) where
  reads_document :
      (o : JsonOptions) (v : Json d)
      → IsPlain d Finite v
      → nesting d v ≤ o.max_depth
      → length (append_value d v) ≤ o.max_document_bytes
      → parse_json d o (append_value d v) ≡ ok (reread d v)
  unfolding parse_json finish skip_whitespace Stops
  reads_document o v g n l =
      let e =
        reads_value d std o.max_depth v (fuel_for d (append_value d v)) 0 [] g (omega arith)
          (omega (arith, rounds-length d std v g)) (refl, refl) in
      rw
        (
          le→ltb o.max_document_bytes (length (append_value d v)) l,
          subst
              (λ t.
                parse_value d (fuel_for d (append_value d v)) o.max_depth 0 t ≡ ok (reread d v, []))
              (append-nil (append_value d v)) e,
        )
        refl

  -- The text of a value that is plain (finite numbers, UTF-8 strings, distinct names), nests within the
  -- depth bound and whose text is within the size bound, is read back as that value with each number
  -- replaced by what its text reads as; the two are equal by `operator==`. This rests on what the C
  -- library documents of doubles.
  pub parse_json-serialize_json :
      (o : JsonOptions) (v : Json d)
      → IsPlain d Finite v
      → nesting d v ≤ o.max_depth
      → length (serialize_json d v) ≤ o.max_document_bytes
      → (parse_json d o (serialize_json d v) ≡ ok (reread d v))
        × (equal d.same (reread d v) v ≡ true)
  unfolding serialize_json
  parse_json-serialize_json o v g n l = (reads_document o v g n l, equal-reread d std v g)
