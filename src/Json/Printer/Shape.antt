-- ===== src/Json/Printer/Shape.antt =====
-- What the serializer (src/laige-core/json.cpp) writes first, and how long it is.
use laige_cpp.Prelude.{
  ℕ, zero, suc, ◌+◌, ◌≤◌, ◌≡◌, refl, arith, Bool, true, false, ◌||◌, ◌==◌, if◌then◌else◌, List, [],
  ◌∷◌, ◌++◌,
}
use laige_cpp.Json.Strings.{append_escaped_string, quote}
use laige_cpp.Json.Values.{null, bool, number, string, array, object}
use laige_cpp.Json.Numbers.{minus, is_digit}
use laige_cpp.Json.Numbers.Grammar.{
  IsToken, token, unsigned, negative, zero_int, digits_int, no_frac, no_exp,
}
use laige_cpp.Json.Plain.{IsPlain}
use laige_cpp.Json.Doubles.{Doubles, AreStandard}
use laige_cpp.Json.Parser.{Json, is_space, right_bracket, right_brace}
use laige_cpp.Json.Printer.{first_exact, append_number, append_value}

-- A first byte that begins a value: no white space and no closing bracket.
pub record Begins (bs : List ℕ) : Type 0 where
  pub first : ℕ
  pub others : List ℕ
  pub same : bs ≡ first ∷ others
  pub no_space : is_space first ≡ false
  pub no_bracket : (first == right_bracket) ≡ false
  pub no_brace : (first == right_brace) ≡ false

pub record NumberFirst (bs : List ℕ) : Type 0 where
  pub first : ℕ
  pub others : List ℕ
  pub same : bs ≡ first ∷ others
  pub starts : (first == minus || is_digit first) ≡ true

pub IsToken-first : (t : List ℕ) → IsToken t → NumberFirst t
IsToken-first _ (token _ _ f p unsigned zero_int h k) = record {
  first = 48;
  others = f ++ p;
  same = refl;
  starts = refl;
}
IsToken-first _ (token _ _ f p unsigned (digits_int c cs e z a) h k) = record {
  first = c;
  others = cs ++ (f ++ p);
  same = refl;
  starts = ground arith;
}
IsToken-first _ (token _ whole f p negative i h k) = record {
  first = minus;
  others = whole ++ (f ++ p);
  same = refl;
  starts = refl;
}

if-holds :
    (P : List ℕ → Type 0) (b : Bool) {x y : List ℕ}
    → (b ≡ true → P x)
    → P y
    → P (if b then x else y)
if-holds P true h k = h refl
if-holds P false h k = k

module _ (d : Doubles) {Finite : d.Number → Type 0} (std : AreStandard d Finite) where
  -- A number of the grammar that reads as a given double.
  unfoldable pub Denotes : d.Number → List ℕ → Type 0
  Denotes v t = IsToken t × (d.same (d.strtod t) v ≡ true)

  first_exact-Denotes :
      (rounds p : ℕ) (v : d.Number)
      → Finite v
      → 1 ≤ p
      → p + rounds ≤ 18
      → Denotes v (first_exact d rounds p v)
  unfolding first_exact Denotes
  first_exact-Denotes zero p v h l m =
      (std.prints 17 v h (omega arith) (omega arith), std.exact v h)
  first_exact-Denotes (suc r) p v h l m =
      let later = first_exact-Denotes r (p + 1) v h (omega arith) (omega arith) in
      if-holds (Denotes v) _ (λ e. later)
        (if-holds (Denotes v) _ (λ e. (std.prints p v h l (omega arith), e)) later)

  -- What is written for a finite number is a number of the grammar that reads as an equal one.
  pub append_number-Denotes : (v : d.Number) → Finite v → Denotes v (append_number d v)
  unfolding append_number Denotes
  append_number-Denotes v h =
      if-holds (Denotes v) _
        (λ e. (token [] _ [] [] unsigned zero_int no_frac no_exp, std.zero_read v e))
        (first_exact-Denotes 17 1 v h (omega arith) (omega arith))

  pub number-Begins : (t : List ℕ) → IsToken t → Begins t
  number-Begins t h =
      let f = IsToken-first t h in
      record {
        first = f.first;
        others = f.others;
        same = f.same;
        no_space = ground (arith, f.starts);
        no_bracket = ground (arith, f.starts);
        no_brace = ground (arith, f.starts);
      }

  pub append_value-Begins : (v : Json d) → IsPlain d Finite v → Begins (append_value d v)
  unfolding append_value IsPlain Denotes append_escaped_string
  append_value-Begins null h = record {
    first = 110;
    others = _;
    same = refl;
    no_space = refl;
    no_bracket = refl;
    no_brace = refl;
  }
  append_value-Begins (bool true) h = record {
    first = 116;
    others = _;
    same = refl;
    no_space = refl;
    no_bracket = refl;
    no_brace = refl;
  }
  append_value-Begins (bool false) h = record {
    first = 102;
    others = _;
    same = refl;
    no_space = refl;
    no_bracket = refl;
    no_brace = refl;
  }
  append_value-Begins (number v) h = number-Begins (append_number d v) (append_number-Denotes v h).0
  append_value-Begins (string s) h = record {
    first = quote;
    others = _;
    same = refl;
    no_space = refl;
    no_bracket = refl;
    no_brace = refl;
  }
  append_value-Begins (array xs) h = record {
    first = 91;
    others = _;
    same = refl;
    no_space = refl;
    no_bracket = refl;
    no_brace = refl;
  }
  append_value-Begins (object ms) h = record {
    first = 123;
    others = _;
    same = refl;
    no_space = refl;
    no_bracket = refl;
    no_brace = refl;
  }
