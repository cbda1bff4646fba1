-- ===== src/Json/Numbers/Sound.antt =====
-- What the scanner of `parseNumber` reads is a number of the grammar.
use laige_cpp.Prelude.{
  ℕ, ◌≡◌, refl, sym, ap, subst, ◌∙◌, arith, Bool, true, false, ◌||◌, ◌==◌, if◌then◌else◌,
  Bool-cases, inl, inr, ==→eq, Option, none, some, List, [], ◌∷◌, ◌++◌, append_assoc,
}
use laige_cpp.Json.Numbers.{
  minus, plus, point, zero_digit, is_digit, is_exponent, next_is, split_digits, scan_sign, scan_int,
  scan_digits, scan_frac, scan_exp_sign, scan_exp, scan_number, after, ◌>>=◌,
}
use laige_cpp.Json.Numbers.Grammar.{
  AreDigits, IsSign, unsigned, negative, IsInt, zero_int, digits_int, AreSomeDigits, digits, IsFrac,
  no_frac, frac, IsExpSign, no_sign, exp_sign, IsExp, no_exp, exp, IsToken, token, Stops,
  scan_number-append,
}

-- Bytes of a kind, read off the front.
pub data Reads (P : List ℕ → Type 0) (bs : List ℕ) : Option (List ℕ × List ℕ) → Type 0 where
  failed : Reads P bs none
  reads : (read rest : List ℕ) → P read → bs ≡ read ++ rest → Reads P bs (some (read, rest))

Reads-if :
    {P : List ℕ → Type 0} {bs : List ℕ} (b : Bool) {x y : Option (List ℕ × List ℕ)}
    → (b ≡ true → Reads P bs x)
    → (b ≡ false → Reads P bs y)
    → Reads P bs (if b then x else y)
Reads-if true h k = h refl
Reads-if false h k = k refl

split_digits_sound :
    (bs : List ℕ)
    → AreDigits (split_digits bs).0 × (bs ≡ (split_digits bs).0 ++ (split_digits bs).1)
unfolding split_digits AreDigits
split_digits_sound [] = (omega arith, refl)
split_digits_sound (c ∷ bs) =
    let (all, same) = split_digits_sound bs in
    elim (Bool-cases (is_digit c)) [
      | inl e ↦ rw e ((e, all), ap (λ (xs : List ℕ). c ∷ xs) same)
      | inr e ↦ rw e (omega arith, refl)
    ]

scan_digits-Reads : (bs : List ℕ) → Reads AreSomeDigits bs (scan_digits bs)
unfolding scan_digits split_digits
scan_digits-Reads [] = failed
scan_digits-Reads (c ∷ bs) =
    let (all, same) = split_digits_sound bs in
    Reads-if (is_digit c)
      (λ e. rw e (
        reads (c ∷ (split_digits bs).0) (split_digits bs).1 (digits c _ e all)
          (ap (λ (xs : List ℕ). c ∷ xs) same)))
      (λ e. failed)

after-Reads :
    {P Q : List ℕ → Type 0} (read bs : List ℕ) (o : Option (List ℕ × List ℕ))
    → Reads P bs o
    → ((more : List ℕ) → P more → Q (read ++ more))
    → Reads Q (read ++ bs) (after read o)
after-Reads read bs none r k = failed
after-Reads read _ (some _) (reads more rest p e) k =
    reads (read ++ more) rest (k more p) (rw e (sym (append_assoc read more rest)))

scan_frac-Reads : (bs : List ℕ) → Reads IsFrac bs (scan_frac bs)
unfolding scan_frac
scan_frac-Reads [] = reads [] [] no_frac refl
scan_frac-Reads (c ∷ bs) =
    Reads-if (c == point)
      (λ e. rw (==→eq c point e) (
        after-Reads (point ∷ []) bs (scan_digits bs) (scan_digits-Reads bs)
          (λ more p. frac more p)))
      (λ e. reads [] (c ∷ bs) no_frac refl)

scan_exp_sign_sound :
    (bs : List ℕ)
    → IsExpSign (scan_exp_sign bs).0 × (bs ≡ (scan_exp_sign bs).0 ++ (scan_exp_sign bs).1)
unfolding scan_exp_sign
scan_exp_sign_sound [] = (no_sign, refl)
scan_exp_sign_sound (c ∷ bs) = elim (Bool-cases (c == plus || c == minus)) [
  | inl e ↦ rw e (exp_sign c e, refl)
  | inr e ↦ rw e (no_sign, refl)
]

scan_exp-Reads : (bs : List ℕ) → Reads IsExp bs (scan_exp bs)
unfolding scan_exp
scan_exp-Reads [] = reads [] [] no_exp refl
scan_exp-Reads (c ∷ bs) =
    let sign = (scan_exp_sign bs).0 in
    let rest = (scan_exp_sign bs).1 in
    let (s, same) = scan_exp_sign_sound bs in
    Reads-if (is_exponent c)
      (λ e.
        subst (λ x. Reads IsExp (c ∷ x) (after (c ∷ sign) (scan_digits rest))) (sym same)
          (after-Reads (c ∷ sign) rest (scan_digits rest) (scan_digits-Reads rest)
            (λ more p. exp c sign more e s p)))
      (λ e. reads [] (c ∷ bs) no_exp refl)

scan_sign_sound :
    (bs : List ℕ) → IsSign (scan_sign bs).0 × (bs ≡ (scan_sign bs).0 ++ (scan_sign bs).1)
unfolding scan_sign
scan_sign_sound [] = (unsigned, refl)
scan_sign_sound (c ∷ bs) = elim (Bool-cases (c == minus)) [
  | inl e ↦ rw (e, ==→eq c minus e) (negative, refl)
  | inr e ↦ rw e (unsigned, refl)
]

scan_int-Reads : (bs : List ℕ) → Reads IsInt bs (scan_int bs)
unfolding scan_int split_digits
scan_int-Reads [] = failed
scan_int-Reads (c ∷ bs) =
    let (all, same) = split_digits_sound bs in
    elim (Bool-cases (is_digit c)) [
      | inr e ↦ rw e failed
      | inl e ↦ rw e (
          Reads-if (c == zero_digit)
            (λ z.
              Reads-if (next_is is_digit bs) (λ n. failed)
                (λ n. reads (c ∷ []) bs (rw (==→eq c zero_digit z) zero_int) refl))
            (λ z.
              reads (c ∷ (split_digits bs).0) (split_digits bs).1 (digits_int c _ e z all)
                (ap (λ (xs : List ℕ). c ∷ xs) same)))
    ]

bind-Reads :
    {P Q : List ℕ → Type 0} {bs : List ℕ} (all : List ℕ) (o : Option (List ℕ × List ℕ))
    (k : List ℕ → List ℕ → Option (List ℕ × List ℕ))
    → Reads P bs o
    → ((read rest : List ℕ) → P read → bs ≡ read ++ rest → Reads Q all (k read rest))
    → Reads Q all (o >>= k)
bind-Reads all none k failed h = failed
bind-Reads all (some _) k (reads read rest p e) h = h read rest p e

-- Whatever is read, the bytes are those of a number of the grammar with the bytes left.
scan_number-Reads : (bs : List ℕ) → Reads IsToken bs (scan_number bs)
unfolding scan_number
scan_number-Reads bs =
    let sign = (scan_sign bs).0 in
    let (g, e1) = scan_sign_sound bs in
    bind-Reads bs _ _ (scan_int-Reads (scan_sign bs).1) λ whole bs2 i e2.
      bind-Reads bs _ _ (scan_frac-Reads bs2) λ fraction bs3 f e3.
        bind-Reads bs _ _ (scan_exp-Reads bs3) λ power rest x e4.
          reads (sign ++ (whole ++ (fraction ++ power))) rest
            (token sign whole fraction power g i f x) (e1 ∙ simp (e2, e3, e4, append_assoc))

-- The scanner reads exactly the numbers of the grammar: what it reads is one, with the bytes left
-- after it, and each one is read as a whole where the bytes after it do not go on with it.
pub scan_number_iff :
    (bs t rest : List ℕ)
    → (scan_number bs ≡ some (t, rest) → IsToken t × (bs ≡ t ++ rest))
      × (IsToken t → Stops rest → scan_number (t ++ rest) ≡ some (t, rest))
scan_number_iff bs t rest = (λ e. inverse _ (scan_number-Reads bs) e, scan_number-append t rest)
  where
    inverse :
        (o : Option (List ℕ × List ℕ))
        → Reads IsToken bs o
        → o ≡ some (t, rest)
        → IsToken t × (bs ≡ t ++ rest)
    inverse none failed e = cc
    inverse (some _) (reads read left p same) e = (subst IsToken (cc) p, cc)
