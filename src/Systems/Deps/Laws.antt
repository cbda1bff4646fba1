-- ===== src/Systems/Deps/Laws.antt =====
-- What `parseDepSpec` (src/laige-sim/systems.cpp) accepts.
use laige_cpp.Prelude.{
  ℕ, zero, suc, ◌≤◌, ◌≡◌, ◌≢◌, refl, sym, ap, ◌∙◌, inl, inr, arith, Bool, true, false, ◌||◌, leb,
  ◌==◌, Bool-cases, Option, some, none, List, [], ◌∷◌, ◌++◌, length, length-append,
}
use laige_cpp.Systems.Deps.{
  spec_ok, comma_char, is_blank, skip_blanks, up_to_comma, from_comma, trim_onto, trim_end,
  same_chars, listed, TokenRound, ParsedSpec, finish_round, stop, go_on, after_token, take_token,
  parse_tokens, parse_dep_spec, token_of, max_system_dependencies,
}

pub same_chars_refl : (s : List ℕ) → same_chars s s ≡ true
unfolding same_chars
same_chars_refl [] = refl
same_chars_refl (x ∷ xs) = rw (same_chars_refl xs) (ground arith)

pub same_chars→eq : (s t : List ℕ) → same_chars s t ≡ true → s ≡ t
unfolding same_chars
same_chars→eq [] [] h = refl
same_chars→eq [] (y ∷ ys) h = absurd (ground arith)
same_chars→eq (x ∷ xs) [] h = absurd (ground arith)
same_chars→eq (x ∷ xs) (y ∷ ys) h =
    let e : x ≡ y = ground arith in let es = same_chars→eq xs ys (ground arith) in rw (e, es) refl

-- Each name is there once.
unfoldable pub AreDistinct : List (List ℕ) → Type 0
AreDistinct [] = 0 ≤ 0
AreDistinct (x ∷ xs) = (listed x xs ≡ false) × AreDistinct xs

-- It does not start with a blank.
unfoldable pub IsSolid : List ℕ → Type 0
IsSolid [] = 0 ≤ 0
IsSolid (c ∷ cs) = is_blank c ≡ false

-- A token: not empty, with no comma, and no blank at its ends.
unfoldable pub IsToken : List ℕ → Type 0
IsToken t = (t ≢ []) × (up_to_comma t ≡ t) × IsSolid t × (trim_end t ≡ t)

unfoldable pub AreTokens : List (List ℕ) → Type 0
AreTokens [] = 0 ≤ 0
AreTokens (t ∷ ts) = IsToken t × AreTokens ts

pub listed_append :
    (t : List ℕ) (xs ys : List (List ℕ)) → listed t (xs ++ ys) ≡ (listed t xs || listed t ys)
unfolding listed
listed_append t [] ys = refl
listed_append t (x ∷ xs) ys = rw (listed_append t xs ys) (ground arith)

pub same_chars_sym : (s t : List ℕ) → same_chars s t ≡ same_chars t s
unfolding same_chars
same_chars_sym [] [] = refl
same_chars_sym [] (y ∷ ys) = refl
same_chars_sym (x ∷ xs) [] = refl
same_chars_sym (x ∷ xs) (y ∷ ys) = rw (same_chars_sym xs ys) (ground arith)

pub AreDistinct-snoc :
    (xs : List (List ℕ)) (t : List ℕ)
    → AreDistinct xs
    → listed t xs ≡ false
    → AreDistinct (xs ++ t ∷ [])
unfolding AreDistinct listed
AreDistinct-snoc [] t d h = (refl, omega arith)
AreDistinct-snoc (x ∷ xs) t d h = (
  rw (listed_append x xs (t ∷ []), d.0, same_chars_sym t x) (ground arith),
  AreDistinct-snoc xs t d.1 (ground arith),
)

pub AreTokens-snoc :
    (xs : List (List ℕ)) (t : List ℕ) → AreTokens xs → IsToken t → AreTokens (xs ++ t ∷ [])
unfolding AreTokens
AreTokens-snoc [] t d h = (h, omega arith)
AreTokens-snoc (x ∷ xs) t d h = (d.0, AreTokens-snoc xs t d.1 h)

pub up_to_comma-step :
    (c : ℕ) (cs : List ℕ) → (c == comma_char) ≡ false → up_to_comma (c ∷ cs) ≡ c ∷ up_to_comma cs
unfolding up_to_comma
up_to_comma-step c cs n = rw n refl

up_to_comma_idem : (s : List ℕ) → up_to_comma (up_to_comma s) ≡ up_to_comma s
unfolding up_to_comma
up_to_comma_idem [] = refl
up_to_comma_idem (c ∷ cs) = elim (Bool-cases (c == comma_char)) [
  | inl t ↦ rw t refl
  | inr t ↦ rw t (up_to_comma-step c (up_to_comma cs) t ∙ ap (◌∷◌ c) (up_to_comma_idem cs))
]

trim_onto_trimmed : (c : ℕ) (s : List ℕ) → trim_end s ≡ s → trim_end (trim_onto c s) ≡ trim_onto c s
unfolding trim_end
trim_onto_trimmed c [] h = elim (Bool-cases (is_blank c)) [
  | inl t ↦ rw t refl
  | inr t ↦ rw t (rw t refl)
]
trim_onto_trimmed c (d ∷ ds) h = ap (trim_onto c) h

trim_end_idem : (s : List ℕ) → trim_end (trim_end s) ≡ trim_end s
unfolding trim_end
trim_end_idem [] = refl
trim_end_idem (c ∷ cs) = trim_onto_trimmed c (trim_end cs) (trim_end_idem cs)

up_to_comma-trim_onto :
    (c : ℕ) (s : List ℕ)
    → (c == comma_char) ≡ false
    → up_to_comma s ≡ s
    → up_to_comma (trim_onto c s) ≡ trim_onto c s
unfolding up_to_comma
up_to_comma-trim_onto c [] n h = elim (Bool-cases (is_blank c)) [
  | inl t ↦ rw t refl
  | inr t ↦ rw t (rw n refl)
]
up_to_comma-trim_onto c (d ∷ ds) n h = rw n (ap (◌∷◌ c) h)

tail : List ℕ → List ℕ
tail [] = []
tail (c ∷ cs) = cs

-- A text without a comma has none in its tail, nor at its head.
pub no_comma_parts :
    (c : ℕ) (cs : List ℕ)
    → up_to_comma (c ∷ cs) ≡ c ∷ cs
    → ((c == comma_char) ≡ false) × (up_to_comma cs ≡ cs)
unfolding up_to_comma tail
no_comma_parts c cs h = elim (Bool-cases (c == comma_char)) [
  | inl t ↦ absurd (ground (arith, h))
  | inr t ↦ (t, ap tail (sym (up_to_comma-step c cs t) ∙ h))
]

up_to_comma-trim_end : (s : List ℕ) → up_to_comma s ≡ s → up_to_comma (trim_end s) ≡ trim_end s
unfolding trim_end up_to_comma
up_to_comma-trim_end [] h = refl
up_to_comma-trim_end (c ∷ cs) h =
    let parts = no_comma_parts c cs h in
    up_to_comma-trim_onto c (trim_end cs) parts.0 (up_to_comma-trim_end cs parts.1)

skip_blanks-IsSolid : (s : List ℕ) → IsSolid (skip_blanks s)
unfolding skip_blanks IsSolid
skip_blanks-IsSolid [] = omega arith
skip_blanks-IsSolid (c ∷ cs) = elim (Bool-cases (is_blank c)) [
  | inl t ↦ rw t (skip_blanks-IsSolid cs)
  | inr t ↦ rw t t
]

up_to_comma-IsSolid : (s : List ℕ) → IsSolid s → IsSolid (up_to_comma s)
unfolding up_to_comma IsSolid
up_to_comma-IsSolid [] h = h
up_to_comma-IsSolid (c ∷ cs) h = elim (Bool-cases (c == comma_char)) [
  | inl t ↦ rw t (omega arith)
  | inr t ↦ rw t h
]

trim_onto-IsSolid : (c : ℕ) (s : List ℕ) → is_blank c ≡ false → IsSolid (trim_onto c s)
unfolding IsSolid
trim_onto-IsSolid c [] h = rw h h
trim_onto-IsSolid c (d ∷ ds) h = h

trim_end-IsSolid : (s : List ℕ) → IsSolid s → IsSolid (trim_end s)
unfolding trim_end IsSolid
trim_end-IsSolid [] h = h
trim_end-IsSolid (c ∷ cs) h = trim_onto-IsSolid c (trim_end cs) h

pub token_of-IsToken : (spec : List ℕ) → token_of spec ≢ [] → IsToken (token_of spec)
unfolding IsToken
token_of-IsToken spec h = (
  h,
  up_to_comma-trim_end _ (up_to_comma_idem (skip_blanks spec)),
  trim_end-IsSolid _ (up_to_comma-IsSolid _ (skip_blanks-IsSolid spec)),
  trim_end_idem _,
)

-- What `out` holds when no error was met.
pub record IsRead (names : List (List ℕ)) : Type 0 where
  pub tokens : AreTokens names
  pub distinct : AreDistinct names
  pub few : length names ≤ max_system_dependencies

IsRead-snoc :
    (names : List (List ℕ)) (t : List ℕ)
    → IsRead names
    → IsToken t
    → listed t names ≡ false
    → leb max_system_dependencies (length names) ≡ false
    → IsRead (names ++ t ∷ [])
IsRead-snoc names t v h new room = record {
  tokens = AreTokens-snoc names t v.tokens h;
  distinct = AreDistinct-snoc names t v.distinct new;
  few = ground (arith, length-append names (t ∷ []), v.few);
}

-- What a round answers keeps it.
TokenRoundIsRead : TokenRound → Type 0
TokenRoundIsRead (stop e names) = e ≡ spec_ok → IsRead names
TokenRoundIsRead (go_on names rest) = IsRead names

after_token-IsRead :
    {names : List (List ℕ)} (rest : List ℕ)
    → IsRead names
    → TokenRoundIsRead (after_token names rest)
unfolding TokenRoundIsRead
after_token-IsRead [] v = λ e. v
after_token-IsRead (c ∷ rest) v = v

pub cons-ne-nil : (c : ℕ) (cs : List ℕ) → c ∷ cs ≢ []
cons-ne-nil c cs p = absurd (omega (arith, ap length p))

take_token-IsRead :
    (after : Bool) (names : List (List ℕ)) (t rest : List ℕ)
    → IsRead names
    → (t ≢ [] → IsToken t)
    → TokenRoundIsRead (take_token after names t rest)
unfolding take_token TokenRoundIsRead
take_token-IsRead after names [] [] v h = λ e. v
take_token-IsRead after names [] (c ∷ rest) v h = λ e. v
take_token-IsRead after names (t ∷ ts) rest v h = elim (Bool-cases (listed (t ∷ ts) names)) [
  | inl e ↦ rw e (λ e. v)
  | inr e ↦ elim (Bool-cases (leb max_system_dependencies (length names))) [
    | inl f ↦ rw (e, f) (λ e. v)
    | inr f ↦
        rw (e, f)
          (after_token-IsRead rest (IsRead-snoc names (t ∷ ts) v (h (λ p. cons-ne-nil t ts p)) e f))
  ]
]

finish_round-IsRead :
    (next : List (List ℕ) → List ℕ → ParsedSpec) (r : TokenRound)
    → TokenRoundIsRead r
    → ((names : List (List ℕ)) (rest : List ℕ)
        → IsRead names
        → (next names rest).0 ≡ spec_ok
        → IsRead (next names rest).1)
    → (finish_round next r).0 ≡ spec_ok
    → IsRead (finish_round next r).1
unfolding TokenRoundIsRead
finish_round-IsRead next (stop e names) h keeps p = h p
finish_round-IsRead next (go_on names rest) h keeps p = keeps names rest h p

parse_tokens-IsRead :
    (fuel : ℕ) (after : Bool) (names : List (List ℕ)) (spec : List ℕ)
    → IsRead names
    → (parse_tokens fuel after names spec).0 ≡ spec_ok
    → IsRead (parse_tokens fuel after names spec).1
unfolding parse_tokens
parse_tokens-IsRead zero after names spec v p = v
parse_tokens-IsRead (suc fuel) after names spec v p =
    finish_round-IsRead (λ read rest. parse_tokens fuel true read rest) _
      (take_token-IsRead after names (token_of spec) (from_comma (skip_blanks spec)) v
        (token_of-IsToken spec))
      (λ names rest v. parse_tokens-IsRead fuel true names rest v) p

-- If a spec has no error, the names that are read are tokens, each there once, and at most sixteen.
pub parse_dep_spec-IsRead :
    (spec : Option (List ℕ)) → (parse_dep_spec spec).0 ≡ spec_ok → IsRead (parse_dep_spec spec).1
unfolding parse_dep_spec AreTokens AreDistinct
parse_dep_spec-IsRead none p = record {
  tokens = omega arith;
  distinct = omega arith;
  few = omega arith;
}
parse_dep_spec-IsRead (some spec) p =
    parse_tokens-IsRead (suc (length spec)) false [] spec
      record { tokens = omega arith; distinct = omega arith; few = omega arith } p
