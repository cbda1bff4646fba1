-- ===== src/Json/Outcome.antt =====
-- The outcomes of the parsers of src/laige-core/json.cpp: what was read with the bytes left, or a failure.
use laige_cpp.Prelude.{ℕ, Option, none, some, List}

-- `out_of_fuel` has no counterpart in the program.
pub data Outcome (A : Type 0) : Type 0 where
  ok : A → Outcome A
  failed out_of_fuel : Outcome A

infixl 1 ◌>>=◌
abbrev pub ◌>>=◌ : {A B : Type 0} → Outcome (A × List ℕ) → (A → List ℕ → Outcome B) → Outcome B
ok (a, rest) >>= k = k a rest
failed >>= k = failed
out_of_fuel >>= k = out_of_fuel

abbrev pub read_of : {A : Type 0} → Option A → Outcome A
read_of none = failed
read_of (some a) = ok a
