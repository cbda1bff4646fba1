-- ===== src/Systems/Deps.antt =====
-- src/laige-sim/systems.cpp: the names that a system depends on. A C string is the list of its chars up to
-- the NUL, and a null pointer is `none`.
pub mod Laws
pub mod RoundTrip
use laige_cpp.Prelude.{
  ℕ, zero, suc, ◌≡◌, ◌≢◌, ◌↔◌, Bool, true, false, ◌&&◌, ◌||◌, leb, ◌==◌, if◌then◌else◌, Option,
  some, none, List, [], ◌∷◌, ◌++◌, length,
}

pub data DepSpecError : Type 0 where
  spec_ok empty_token duplicate_token too_many : DepSpecError

abbrev pub comma_char : ℕ
comma_char = 44

-- Space, tab, CR or LF.
abbrev pub is_blank : ℕ → Bool
is_blank c = c == 32 || c == 9 || c == 13 || c == 10

unfoldable pub skip_blanks : List ℕ → List ℕ
skip_blanks [] = []
skip_blanks (c ∷ cs) = if is_blank c then skip_blanks cs else c ∷ cs

-- What `spec` passes on its way to the comma or the end, and what it then points to.
unfoldable pub up_to_comma : List ℕ → List ℕ
up_to_comma [] = []
up_to_comma (c ∷ cs) = if c == comma_char then [] else c ∷ up_to_comma cs

unfoldable pub from_comma : List ℕ → List ℕ
from_comma [] = []
from_comma (c ∷ cs) = if c == comma_char then c ∷ cs else from_comma cs

abbrev pub trim_onto : ℕ → List ℕ → List ℕ
trim_onto c [] = if is_blank c then [] else c ∷ []
trim_onto c (d ∷ ds) = c ∷ d ∷ ds

-- A token without the blanks at its end.
unfoldable pub trim_end : List ℕ → List ℕ
trim_end [] = []
trim_end (c ∷ cs) = trim_onto c (trim_end cs)

-- `tokenMatchesName`, and the comparisons by `strcmp` and by length and `memcmp`.
unfoldable pub same_chars : List ℕ → List ℕ → Bool
same_chars [] [] = true
same_chars [] (y ∷ ys) = false
same_chars (x ∷ xs) [] = false
same_chars (x ∷ xs) (y ∷ ys) = x == y && same_chars xs ys

-- Whether a token is among those that were read.
unfoldable pub listed : List ℕ → List (List ℕ) → Bool
listed t [] = false
listed t (x ∷ xs) = same_chars x t || listed t xs

-- What a round of the loop of `parseDepSpec` does: it returns, or it goes on behind a comma.
pub data TokenRound : Type 0 where
  stop : DepSpecError → List (List ℕ) → TokenRound
  go_on : List (List ℕ) → List ℕ → TokenRound

abbrev pub after_token : List (List ℕ) → List ℕ → TokenRound
after_token names [] = stop spec_ok names
after_token names (c ∷ rest) = go_on names rest

abbrev pub max_system_dependencies : ℕ
max_system_dependencies = 16

unfoldable pub take_token : Bool → List (List ℕ) → List ℕ → List ℕ → TokenRound
take_token after_comma names [] [] = stop (if after_comma then empty_token else spec_ok) names
take_token after_comma names [] (c ∷ rest) = stop empty_token names
take_token after_comma names (t ∷ ts) rest =
    if listed (t ∷ ts) names
    then stop duplicate_token names
    else if leb max_system_dependencies (length names)
    then stop too_many names
    else after_token (names ++ (t ∷ ts) ∷ []) rest

-- The token at the start of a text.
abbrev pub token_of : List ℕ → List ℕ
token_of spec = trim_end (up_to_comma (skip_blanks spec))

abbrev pub ParsedSpec : Type 0
ParsedSpec = DepSpecError × List (List ℕ)

abbrev pub finish_round : (List (List ℕ) → List ℕ → ParsedSpec) → TokenRound → ParsedSpec
finish_round next (stop e read) = (e, read)
finish_round next (go_on read rest) = next read rest

-- The loop, on fuel: the error, and the names of `out`.
unfoldable pub parse_tokens : ℕ → Bool → List (List ℕ) → List ℕ → ParsedSpec
parse_tokens zero after_comma names spec = (spec_ok, names)
parse_tokens (suc fuel) after_comma names spec =
    finish_round (λ read rest. parse_tokens fuel true read rest)
      (take_token after_comma names (token_of spec) (from_comma (skip_blanks spec)))

unfoldable pub parse_dep_spec : Option (List ℕ) → ParsedSpec
parse_dep_spec none = (spec_ok, [])
parse_dep_spec (some spec) = parse_tokens (suc (length spec)) false [] spec
