-- ===== src/Json/Bounds/Steps.antt =====
-- One step of the parser of src/laige-core/json.cpp: what it leaves, and how deep what it read is.
use laige_cpp.Prelude.{
  ℕ, ◌+◌, ◌≤◌, ◌<◌, ◌≡◌, refl, sym, subst, arith, Bool, true, false, ◌==◌, if◌then◌else◌,
  Bool-cases, inl, inr, Option, none, some, List, [], ◌∷◌, length, length-append,
}
use laige_cpp.Json.Strings.{parse_string}
use laige_cpp.Json.Strings.Progress.{Consumes, refuses, reads, parse_string-Consumes}
use laige_cpp.Json.Values.{number, string}
use laige_cpp.Json.Numbers.{scan_number}
use laige_cpp.Json.Numbers.Sound.{scan_number_iff}
use laige_cpp.Json.Doubles.{Doubles}
use laige_cpp.Json.Outcome.{Outcome, ok, failed, read_of, ◌>>=◌}
use laige_cpp.Json.Parser.{
  Json, Parsed, skip_whitespace, consume, strip, parse_literal, parse_number, parse_text,
}
use laige_cpp.Json.RoundTrip.Sizes.{nesting}

pub length-skip_whitespace : (bs : List ℕ) → length (skip_whitespace bs) ≤ length bs
unfolding skip_whitespace
length-skip_whitespace [] = omega arith
length-skip_whitespace (c ∷ bs) = let l = length-skip_whitespace bs in ground arith

pub consume_left : (c : ℕ) (bs rest : List ℕ) → consume c bs ≡ some rest → length rest < length bs
unfolding consume
consume_left c [] rest e = absurd (ground arith)
consume_left c (b ∷ bs) rest e = ground arith

strip_left : (text bs rest : List ℕ) → strip text bs ≡ some rest → length rest ≤ length bs
unfolding strip
strip_left [] bs rest e = ground arith
strip_left (c ∷ cs) [] rest e = absurd (ground arith)
strip_left (c ∷ cs) (b ∷ bs) rest e = elim (Bool-cases (b == c)) [
  | inl t ↦ let l = strip_left cs bs rest (ground arith) in omega arith
  | inr t ↦ absurd (ground arith)
]

scan_number_left : (bs t rest : List ℕ) → scan_number bs ≡ some (t, rest) → length rest ≤ length bs
scan_number_left bs t rest e =
    let (h, same) = (scan_number_iff bs t rest).0 e in
    subst (λ u. length rest ≤ length u) (sym same) (omega (arith, length-append t rest))

module _ (d : Doubles) (most : ℕ) where
  -- A failure, or a value that leaves at most some bytes and nests to the bound at most.
  pub data Within (depth n : ℕ) : Parsed d → Type 0 where
    fails : Within depth n failed
    leaves :
        (v : Json d) (rest : List ℕ)
        → length rest ≤ n
        → depth + nesting d v ≤ most
        → Within depth n (ok (v, rest))

  pub weaken : (depth n m : ℕ) {r : Parsed d} → Within depth n r → n ≤ m → Within depth m r
  weaken depth n m fails l = fails
  weaken depth n m (leaves v rest p q) l = leaves v rest (omega arith) q

  pub if-Within :
      (depth n : ℕ) (b : Bool) {x y : Parsed d}
      → (b ≡ true → Within depth n x)
      → Within depth n y
      → Within depth n (if b then x else y)
  if-Within depth n true h k = h refl
  if-Within depth n false h k = k

  pub read-Within :
      {A : Type 0} (depth n : ℕ) (o : Option (A × List ℕ)) (k : A → List ℕ → Parsed d)
      → ((a : A) (rest : List ℕ) → o ≡ some (a, rest) → Within depth n (k a rest))
      → Within depth n (read_of o >>= k)
  read-Within depth n none k h = fails
  read-Within depth n (some (a, rest)) k h = h a rest refl

  pub option-Within :
      (depth n : ℕ) (o : Option (List ℕ)) (x : Parsed d) (k : List ℕ → Parsed d)
      → Within depth n x
      → ((rest : List ℕ) → o ≡ some rest → Within depth n (k rest))
      → Within depth n (elim o [ none ↦ x | some rest ↦ k rest ])
  option-Within depth n none x k h l = h
  option-Within depth n (some rest) x k h l = l rest refl

  pub then-Within :
      (inner m depth n : ℕ) (r : Parsed d) (k : Json d → List ℕ → Parsed d)
      → Within inner m r
      → ((v : Json d) (rest : List ℕ)
          → length rest ≤ m
          → inner + nesting d v ≤ most
          → Within depth n (k v rest))
      → Within depth n (r >>= k)
  then-Within inner m depth n _ k fails h = fails
  then-Within inner m depth n _ k (leaves v rest p q) h = h v rest p q

  pub literal-Within :
      (depth : ℕ) (text : List ℕ) (v : Json d) (bs : List ℕ)
      → depth + nesting d v ≤ most
      → Within depth (length bs) (parse_literal d text v bs)
  unfolding parse_literal
  literal-Within depth text v bs l =
      option-Within depth (length bs) (strip text bs) failed (λ rest. ok (v, rest)) fails
        (λ rest e. leaves v rest (strip_left text bs rest e) l)

  pub number-Within :
      (depth : ℕ) (bs : List ℕ) → depth ≤ most → Within depth (length bs) (parse_number d bs)
  unfolding parse_number nesting
  number-Within depth bs l =
      read-Within depth (length bs) (scan_number bs) _
        (λ t rest e. leaves (number (d.strtod t)) rest (scan_number_left bs t rest e) (omega arith))

  consumed-Within :
      (depth n m : ℕ) {o : Outcome (List ℕ × List ℕ)} (k : List ℕ → List ℕ → Parsed d)
      → Consumes m o
      → ((t rest : List ℕ) → length rest < m → Within depth n (k t rest))
      → Within depth n (o >>= k)
  consumed-Within depth n m k refuses h = fails
  consumed-Within depth n m k (reads t rest fewer) h = h t rest fewer

  pub string-Within :
      (depth n : ℕ) (bs : List ℕ) (k : List ℕ → List ℕ → Parsed d)
      → ((t rest : List ℕ) → length rest < length bs → Within depth n (k t rest))
      → Within depth n (parse_string bs >>= k)
  string-Within depth n bs k h = consumed-Within depth n (length bs) k (parse_string-Consumes bs) h

  pub text-Within :
      (depth : ℕ) (bs : List ℕ) → depth ≤ most → Within depth (length bs) (parse_text d bs)
  unfolding parse_text nesting
  text-Within depth bs l =
      string-Within depth (length bs) bs _
        (λ t rest fewer. leaves (string t) rest (omega arith) (omega arith))
