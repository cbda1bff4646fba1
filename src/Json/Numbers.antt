-- ===== src/Json/Numbers.antt =====
-- The number grammar of src/laige-core/include/laige/json.h and the scanner of `parseNumber`.
pub mod Grammar
pub mod Sound
use laige_cpp.Prelude.{
  ℕ, ◌≤◌, ◌≡◌, Bool, true, false, not, ◌&&◌, ◌||◌, leb, ◌==◌, if◌then◌else◌, Option, none, some,
  List, [], ◌∷◌, ◌++◌,
}

-- The bytes '-', '+', '.', '0', 'e' and 'E'.
abbrev pub minus : ℕ
minus = 45

abbrev pub plus : ℕ
plus = 43

abbrev pub point : ℕ
point = 46

abbrev pub zero_digit : ℕ
zero_digit = 48

abbrev pub is_digit : ℕ → Bool
is_digit c = leb 48 c && leb c 57

abbrev pub is_exponent : ℕ → Bool
is_exponent c = c == 101 || c == 69

-- Whether the next byte passes a test.
abbrev pub next_is : (ℕ → Bool) → List ℕ → Bool
next_is p [] = false
next_is p (c ∷ bs) = p c

-- The loop over digits: those read, and the bytes left.
unfoldable pub split_digits : List ℕ → List ℕ × List ℕ
split_digits [] = ([], [])
split_digits (c ∷ bs) =
    let (ds, rest) = split_digits bs in if is_digit c then (c ∷ ds, rest) else ([], c ∷ bs)

-- The parts of a token: each returns the bytes it read and those left, or fails.
unfoldable pub scan_sign : List ℕ → List ℕ × List ℕ
scan_sign [] = ([], [])
scan_sign (c ∷ bs) = if c == minus then (c ∷ [], bs) else ([], c ∷ bs)

unfoldable pub scan_int : List ℕ → Option (List ℕ × List ℕ)
scan_int [] = none
scan_int (c ∷ bs) =
    if not (is_digit c)
    then none
    else if c == zero_digit
    then (if next_is is_digit bs then none else some (c ∷ [], bs))
    else some (split_digits (c ∷ bs))

-- At least one digit.
unfoldable pub scan_digits : List ℕ → Option (List ℕ × List ℕ)
scan_digits bs = if next_is is_digit bs then some (split_digits bs) else none

abbrev pub after : List ℕ → Option (List ℕ × List ℕ) → Option (List ℕ × List ℕ)
after read none = none
after read (some (more, rest)) = some (read ++ more, rest)

unfoldable pub scan_frac : List ℕ → Option (List ℕ × List ℕ)
scan_frac [] = some ([], [])
scan_frac (c ∷ bs) = if c == point then after (c ∷ []) (scan_digits bs) else some ([], c ∷ bs)

unfoldable pub scan_exp_sign : List ℕ → List ℕ × List ℕ
scan_exp_sign [] = ([], [])
scan_exp_sign (c ∷ bs) = if c == plus || c == minus then (c ∷ [], bs) else ([], c ∷ bs)

unfoldable pub scan_exp : List ℕ → Option (List ℕ × List ℕ)
scan_exp [] = some ([], [])
scan_exp (c ∷ bs) =
    if is_exponent c
    then (let (sign, rest) = scan_exp_sign bs in after (c ∷ sign) (scan_digits rest))
    else some ([], c ∷ bs)

infixl 5 ◌>>=◌
abbrev pub ◌>>=◌ :
    Option (List ℕ × List ℕ)
    → (List ℕ → List ℕ → Option (List ℕ × List ℕ))
    → Option (List ℕ × List ℕ)
none >>= k = none
some (read, rest) >>= k = k read rest

-- The token at the front and the bytes after it.
unfoldable pub scan_number : List ℕ → Option (List ℕ × List ℕ)
scan_number bs =
    let (sign, bs1) = scan_sign bs in
    scan_int bs1 >>= λ whole bs2. scan_frac bs2 >>= λ frac bs3.
    scan_exp bs3 >>= λ power rest. some (sign ++ (whole ++ (frac ++ power)), rest)
