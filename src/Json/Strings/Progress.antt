-- ===== src/Json/Strings/Progress.antt =====
-- Every round of the loop of `parseString` (src/laige-core/json.cpp) reads at least one byte, so that
-- it returns on as much fuel as there are bytes.
use laige_cpp.Prelude.{
  ℕ, zero, suc, ◌+◌, ◌*◌, Bool, true, false, if◌then◌else◌, ◌==◌, ◌≤◌, ◌<◌, ◌≡◌, refl, arith,
  Option, some, none, List, [], ◌∷◌, ◌++◌, length,
}
use laige_cpp.Json.Utf8.{decode_utf8, decode2, decode3, decode4}
use laige_cpp.Json.Hex.{parse_hex4, parse_digits, hex_value}
use laige_cpp.Json.Outcome.{Outcome, ok, failed}
use laige_cpp.Json.Strings.{
  Round, parse_low, parse_unicode, parse_escape, parse_raw, parse_char, parse_chars, prepend, plain,
  quote, backslash, letter_u, skip_quote, parse_string,
}

-- Nothing, or fewer bytes left.
unfoldable Shrinks : {A : Type 0} → Option (A × List ℕ) → ℕ → Type 0
Shrinks none n = 0 ≤ 0
Shrinks (some (a, rest)) n = length rest < n

decode2-Shrinks : (b : ℕ) (bs : List ℕ) → Shrinks (decode2 b bs) (length bs)
unfolding Shrinks decode2
decode2-Shrinks b [] = omega arith
decode2-Shrinks b (b1 ∷ bs) = ground arith

decode3-Shrinks : (b : ℕ) (bs : List ℕ) → Shrinks (decode3 b bs) (length bs)
unfolding Shrinks decode3
decode3-Shrinks b [] = omega arith
decode3-Shrinks b (b1 ∷ []) = omega arith
decode3-Shrinks b (b1 ∷ b2 ∷ bs) = ground arith

decode4-Shrinks : (b : ℕ) (bs : List ℕ) → Shrinks (decode4 b bs) (length bs)
unfolding Shrinks decode4
decode4-Shrinks b [] = omega arith
decode4-Shrinks b (b1 ∷ []) = omega arith
decode4-Shrinks b (b1 ∷ b2 ∷ []) = omega arith
decode4-Shrinks b (b1 ∷ b2 ∷ b3 ∷ bs) = ground arith

weaken : {A : Type 0} (o : Option (A × List ℕ)) (n m : ℕ) → Shrinks o n → n ≤ m → Shrinks o m
unfolding Shrinks
weaken none n m h p = h
weaken (some (a, rest)) n m h p = omega arith

bind-Shrinks :
    {A B : Type 0} (o : Option A) (f : A → Option (B × List ℕ)) (n : ℕ)
    → ((x : A) → o ≡ some x → Shrinks (f x) n)
    → Shrinks (elim o [ none ↦ none | some x ↦ f x ]) n
unfolding Shrinks
bind-Shrinks none f n h = omega arith
bind-Shrinks (some x) f n h = h x refl

left :
    {A : Type 0} (o : Option (A × List ℕ)) (a : A) (rest : List ℕ) (n : ℕ)
    → Shrinks o n
    → o ≡ some (a, rest)
    → length rest < n
unfolding Shrinks
left none a rest n h e = absurd (ground arith)
left (some (b, r)) a rest n h e = ground arith

digits-Shrinks : (n v : ℕ) (bs : List ℕ) → Shrinks (parse_digits (suc n) v bs) (length bs)
unfolding Shrinks parse_digits
digits-Shrinks n v [] = omega arith
digits-Shrinks zero v (c ∷ bs) = ground arith
digits-Shrinks (suc n) v (c ∷ bs) =
    bind-Shrinks (hex_value c) (λ x. parse_digits (suc n) (v * 16 + x) bs) (suc (length bs))
      (λ x e.
        weaken (parse_digits (suc n) (v * 16 + x) bs) (length bs) (suc (length bs))
          (digits-Shrinks n (v * 16 + x) bs) (omega arith))

hex4-Shrinks : (bs : List ℕ) → Shrinks (parse_hex4 bs) (length bs)
unfolding parse_hex4
hex4-Shrinks bs = digits-Shrinks 3 0 bs

none-Shrinks : (A : Type 0) (n : ℕ) → Shrinks {A = A} none n
unfolding Shrinks
none-Shrinks A n = omega arith

some-Shrinks :
    {A : Type 0} (a : A) (rest : List ℕ) (n : ℕ) → length rest < n → Shrinks (some (a, rest)) n
unfolding Shrinks
some-Shrinks a rest n p = p

if-Shrinks :
    {A : Type 0} (b : Bool) (x y : Option (A × List ℕ)) (n : ℕ)
    → Shrinks x n
    → Shrinks y n
    → Shrinks (if b then x else y) n
if-Shrinks true x y n p q = p
if-Shrinks false x y n p q = q

low-Shrinks : (hi : ℕ) (bs : List ℕ) → Shrinks (parse_low hi bs) (length bs)
unfolding parse_low
low-Shrinks hi [] = none-Shrinks _ _
low-Shrinks hi (b1 ∷ []) = none-Shrinks _ _
low-Shrinks hi (b1 ∷ b2 ∷ bs) = if-Shrinks _ _ _ _ (none-Shrinks _ _) (
    bind-Shrinks (parse_hex4 bs) _ _ (λ (x : ℕ × List ℕ) e. if-Shrinks _ _ _ _ (none-Shrinks _ _) (
      some-Shrinks _ x.1 _
        (omega (arith, left (parse_hex4 bs) x.0 x.1 (length bs) (hex4-Shrinks bs) e)))))

unicode-Shrinks : (bs : List ℕ) → Shrinks (parse_unicode bs) (length bs)
unfolding parse_unicode
unicode-Shrinks bs = bind-Shrinks (parse_hex4 bs) _ _ (λ (x : ℕ × List ℕ) e.
    let fewer = left (parse_hex4 bs) x.0 x.1 (length bs) (hex4-Shrinks bs) e in
    if-Shrinks _ _ _ _ (weaken _ (length x.1) _ (low-Shrinks x.0 x.1) (omega arith))
      (if-Shrinks _ _ _ _ (none-Shrinks _ _) (some-Shrinks _ x.1 _ fewer)))

utf8-Shrinks : (bs : List ℕ) → Shrinks (decode_utf8 bs) (length bs)
unfolding decode_utf8
utf8-Shrinks [] = none-Shrinks _ _
utf8-Shrinks (b ∷ bs) = if-Shrinks _ _ _ _ (some-Shrinks b bs _ (omega arith)) (
    if-Shrinks _ _ _ _ (weaken _ (length bs) _ (decode2-Shrinks b bs) (omega arith)) (
      if-Shrinks _ _ _ _ (weaken _ (length bs) _ (decode3-Shrinks b bs) (omega arith)) (
        if-Shrinks _ _ _ _ (weaken _ (length bs) _ (decode4-Shrinks b bs) (omega arith))
          (none-Shrinks _ _))))

raw-Shrinks : (bs : List ℕ) → Shrinks (parse_raw bs) (length bs)
unfolding parse_raw
raw-Shrinks bs = bind-Shrinks (decode_utf8 bs) _ _ (λ (x : ℕ × List ℕ) e.
    if-Shrinks _ _ _ _ (none-Shrinks _ _)
      (some-Shrinks _ x.1 _ (left (decode_utf8 bs) x.0 x.1 (length bs) (utf8-Shrinks bs) e)))

next :
    (e c b : ℕ) (bs : List ℕ) (y : Round)
    → Shrinks y (suc (length bs))
    → Shrinks (if e == c then plain b bs else y) (suc (length bs))
next e c b bs y p =
    if-Shrinks (e == c) (plain b bs) y _ (some-Shrinks (some (b ∷ [])) bs _ (omega arith)) p

escape-Shrinks : (bs : List ℕ) → Shrinks (parse_escape bs) (length bs)
unfolding parse_escape
escape-Shrinks [] = none-Shrinks _ _
escape-Shrinks (e ∷ bs) = next e quote quote bs _ (
    next e backslash backslash bs _ (
      next e 47 47 bs _ (
        next e 98 0x08 bs _ (
          next e 102 0x0C bs _ (
            next e 110 0x0A bs _ (
              next e 114 0x0D bs _ (
                next e 116 0x09 bs _ (
                  if-Shrinks (e == letter_u) _ _ _
                    (weaken _ (length bs) (suc (length bs)) (unicode-Shrinks bs) (omega arith))
                    (none-Shrinks _ _)))))))))

char-Shrinks : (bs : List ℕ) → Shrinks (parse_char bs) (length bs)
unfolding parse_char
char-Shrinks [] = none-Shrinks _ _
char-Shrinks (c ∷ bs) = if-Shrinks _ _ _ _ (some-Shrinks none bs _ (omega arith)) (
    if-Shrinks _ _ _ _ (weaken _ (length bs) _ (escape-Shrinks bs) (omega arith))
      (raw-Shrinks (c ∷ bs)))

-- A failure, or what leaves fewer bytes; never the end of the fuel.
pub data Consumes {A : Type 0} (n : ℕ) : Outcome (A × List ℕ) → Type 0 where
  refuses : Consumes n failed
  reads : (a : A) (rest : List ℕ) → length rest < n → Consumes n (ok (a, rest))

widen : {A : Type 0} (n m : ℕ) {o : Outcome (A × List ℕ)} → Consumes n o → n ≤ m → Consumes m o
widen n m refuses p = refuses
widen n m (reads a rest q) p = reads a rest (omega arith)

prepend-Consumes :
    (piece : List ℕ) (n : ℕ) {o : Outcome (List ℕ × List ℕ)}
    → Consumes n o
    → Consumes n (prepend piece o)
prepend-Consumes piece n refuses = refuses
prepend-Consumes piece n (reads decoded rest q) = reads (piece ++ decoded) rest q

abbrev read_on : ℕ → Round → Outcome (List ℕ × List ℕ)
read_on n r = elim r [
  | none ↦ failed
  | some (none, rest) ↦ ok ([], rest)
  | some (some piece, rest) ↦ prepend piece (parse_chars n rest)
]

read_on-Consumes :
    (n m : ℕ) (r : Round)
    → Shrinks r m
    → ((rest : List ℕ) → length rest < m → Consumes (length rest) (parse_chars n rest))
    → Consumes m (read_on n r)
unfolding Shrinks
read_on-Consumes n m none p h = refuses
read_on-Consumes n m (some (none, rest)) p h = reads [] rest p
read_on-Consumes n m (some (some piece, rest)) p h =
    prepend-Consumes piece m (widen (length rest) m (h rest p) (omega arith))

chars-Consumes : (n : ℕ) (bs : List ℕ) → length bs < n → Consumes (length bs) (parse_chars n bs)
unfolding parse_chars
chars-Consumes zero bs l = absurd (omega arith)
chars-Consumes (suc n) bs l =
    read_on-Consumes n (length bs) (parse_char bs) (char-Shrinks bs)
      (λ rest fewer. chars-Consumes n rest (omega arith))

length-skip_quote : (bs : List ℕ) → length (skip_quote bs) ≤ length bs
unfolding skip_quote
length-skip_quote [] = omega arith
length-skip_quote (c ∷ bs) = ground arith

-- Every string is read or fails, and what follows it is shorter.
pub parse_string-Consumes : (bs : List ℕ) → Consumes (length bs) (parse_string bs)
unfolding parse_string
parse_string-Consumes bs =
    widen (length (skip_quote bs)) (length bs)
      (chars-Consumes (suc (length (skip_quote bs))) (skip_quote bs) (omega arith))
      (length-skip_quote bs)
