-- ===== src/Json/Numbers/Grammar.antt =====
-- The number grammar of src/laige-core/include/laige/json.h, and that the scanner reads it.
use laige_cpp.Prelude.{
  ℕ, ◌≤◌, ◌≡◌, refl, arith, true, false, ◌||◌, ◌==◌, some, List, [], ◌∷◌, ◌++◌, append_assoc,
}
use laige_cpp.Json.Numbers.{
  minus, plus, point, zero_digit, is_digit, is_exponent, next_is, split_digits, scan_sign, scan_int,
  scan_digits, scan_frac, scan_exp_sign, scan_exp, scan_number,
}

unfoldable pub AreDigits : List ℕ → Type 0
AreDigits [] = 0 ≤ 0
AreDigits (c ∷ cs) = (is_digit c ≡ true) × AreDigits cs

-- sign: nothing or '-'.
pub data IsSign : List ℕ → Type 0 where
  unsigned : IsSign []
  negative : IsSign (minus ∷ [])

-- int = '0' | [1-9] DIGIT*.
pub data IsInt : List ℕ → Type 0 where
  zero_int : IsInt (zero_digit ∷ [])
  digits_int :
      (c : ℕ) (cs : List ℕ)
      → is_digit c ≡ true
      → (c == zero_digit) ≡ false
      → AreDigits cs
      → IsInt (c ∷ cs)

-- DIGIT+.
pub data AreSomeDigits : List ℕ → Type 0 where
  digits : (c : ℕ) (cs : List ℕ) → is_digit c ≡ true → AreDigits cs → AreSomeDigits (c ∷ cs)

-- [ '.' DIGIT+ ].
pub data IsFrac : List ℕ → Type 0 where
  no_frac : IsFrac []
  frac : (cs : List ℕ) → AreSomeDigits cs → IsFrac (point ∷ cs)

-- [ '+' | '-' ].
pub data IsExpSign : List ℕ → Type 0 where
  no_sign : IsExpSign []
  exp_sign : (c : ℕ) → (c == plus || c == minus) ≡ true → IsExpSign (c ∷ [])

-- [ ('e' | 'E') sign DIGIT+ ].
pub data IsExp : List ℕ → Type 0 where
  no_exp : IsExp []
  exp :
      (c : ℕ) (sign cs : List ℕ)
      → is_exponent c ≡ true
      → IsExpSign sign
      → AreSomeDigits cs
      → IsExp (c ∷ (sign ++ cs))

-- number = [ '-' ] int [ frac ] [ exp ].
pub data IsToken : List ℕ → Type 0 where
  token :
      (sign whole fraction power : List ℕ)
      → IsSign sign
      → IsInt whole
      → IsFrac fraction
      → IsExp power
      → IsToken (sign ++ (whole ++ (fraction ++ power)))

-- The bytes after a number do not go on with it.
unfoldable pub Stops : List ℕ → Type 0
Stops rest =
    (next_is is_digit rest ≡ false) × (next_is (λ c. c == point || is_exponent c) rest ≡ false)

split_digits-append :
    (ds rest : List ℕ)
    → AreDigits ds
    → next_is is_digit rest ≡ false
    → split_digits (ds ++ rest) ≡ (ds, rest)
unfolding split_digits AreDigits
split_digits-append [] [] h n = refl
split_digits-append [] (c ∷ rest) h n = ground arith
split_digits-append (d ∷ ds) rest (e, h) n = rw (split_digits-append ds rest h n, e)

scan_digits-append :
    (ds rest : List ℕ)
    → AreSomeDigits ds
    → next_is is_digit rest ≡ false
    → scan_digits (ds ++ rest) ≡ some (ds, rest)
unfolding scan_digits AreDigits
scan_digits-append _ rest (digits c cs e h) n =
    rw (e, split_digits-append (c ∷ cs) rest (e, h) n) refl

scan_sign-append :
    (sign bs : List ℕ)
    → IsSign sign
    → next_is (λ c. c == minus) bs ≡ false
    → scan_sign (sign ++ bs) ≡ (sign, bs)
unfolding scan_sign
scan_sign-append _ [] unsigned n = refl
scan_sign-append _ (c ∷ bs) unsigned n = rw n refl
scan_sign-append _ bs negative n = refl

scan_int-append :
    (whole rest : List ℕ)
    → IsInt whole
    → next_is is_digit rest ≡ false
    → scan_int (whole ++ rest) ≡ some (whole, rest)
unfolding scan_int AreDigits
scan_int-append _ rest zero_int n = rw n refl
scan_int-append _ rest (digits_int c cs e z h) n =
    rw (e, z, split_digits-append (c ∷ cs) rest (e, h) n) refl

scan_frac-append :
    (fraction rest : List ℕ)
    → IsFrac fraction
    → next_is is_digit rest ≡ false
    → next_is (λ c. c == point) rest ≡ false
    → scan_frac (fraction ++ rest) ≡ some (fraction, rest)
unfolding scan_frac
scan_frac-append _ [] no_frac n m = refl
scan_frac-append _ (c ∷ rest) no_frac n m = rw m refl
scan_frac-append _ rest (frac cs h) n m = rw (scan_digits-append cs rest h n) refl

scan_exp_sign-append :
    (sign ds rest : List ℕ)
    → IsExpSign sign
    → AreSomeDigits ds
    → scan_exp_sign (sign ++ (ds ++ rest)) ≡ (sign, ds ++ rest)
unfolding scan_exp_sign
scan_exp_sign-append _ _ rest no_sign (digits c cs e h) = ground arith
scan_exp_sign-append _ _ rest (exp_sign c e) h = rw e refl

scan_exp-append :
    (power rest : List ℕ)
    → IsExp power
    → next_is is_digit rest ≡ false
    → next_is is_exponent rest ≡ false
    → scan_exp (power ++ rest) ≡ some (power, rest)
unfolding scan_exp
scan_exp-append _ [] no_exp n m = refl
scan_exp-append _ (c ∷ rest) no_exp n m = rw m refl
scan_exp-append _ rest (exp c sign cs e s h) n m =
    rw
      (
        e,
        append_assoc sign cs rest,
        scan_exp_sign-append sign cs rest s h,
        scan_digits-append cs rest h n,
      )
      refl

-- What the next byte of a part followed by others is not.
int-next : (whole bs : List ℕ) → IsInt whole → next_is (λ c. c == minus) (whole ++ bs) ≡ false
int-next _ bs zero_int = refl
int-next _ bs (digits_int c cs e z h) = ground arith

frac-next :
    (fraction bs : List ℕ)
    → IsFrac fraction
    → next_is is_digit bs ≡ false
    → next_is is_digit (fraction ++ bs) ≡ false
frac-next _ bs no_frac n = n
frac-next _ bs (frac cs h) n = refl

exp-next :
    (power rest : List ℕ)
    → IsExp power
    → next_is is_digit rest ≡ false
    → next_is is_digit (power ++ rest) ≡ false
exp-next _ rest no_exp n = n
exp-next _ rest (exp c sign cs e s h) n = ground arith

exp-point :
    (power rest : List ℕ)
    → IsExp power
    → next_is (λ c. c == point) rest ≡ false
    → next_is (λ c. c == point) (power ++ rest) ≡ false
exp-point _ rest no_exp n = n
exp-point _ rest (exp c sign cs e s h) n = ground arith

Stops-parts :
    (rest : List ℕ)
    → Stops rest
    → (next_is is_digit rest ≡ false)
      × (next_is (λ c. c == point) rest ≡ false)
      × (next_is is_exponent rest ≡ false)
unfolding Stops
Stops-parts [] s = (refl, refl, refl)
Stops-parts (c ∷ rest) s = ground arith

-- Every number of the grammar is read as a whole, where the bytes after it do not go on with it.
pub scan_number-append :
    (t rest : List ℕ) → IsToken t → Stops rest → scan_number (t ++ rest) ≡ some (t, rest)
unfolding scan_number
scan_number-append _ rest (token sign whole fraction power g i f e) s =
    let (n, m, k) = Stops-parts rest s in
    let tail = power ++ rest in
    rw
      (
        append_assoc sign (whole ++ (fraction ++ power)) rest,
        append_assoc whole (fraction ++ power) rest,
        append_assoc fraction power rest,
        scan_sign-append sign (whole ++ (fraction ++ tail)) g (int-next whole (fraction ++ tail) i),
        scan_int-append whole (fraction ++ tail) i
            (frac-next fraction tail f (exp-next power rest e n)),
        scan_frac-append fraction tail f (exp-next power rest e n) (exp-point power rest e m),
        scan_exp-append power rest e n k,
      )
      refl
