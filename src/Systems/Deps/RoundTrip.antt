-- ===== src/Systems/Deps/RoundTrip.antt =====
-- A list of names, written with commas and any blanks, is read back by `parseDepSpec`
-- (src/laige-sim/systems.cpp).
use laige_cpp.Prelude.{
  ℕ, zero, suc, ◌≤◌, ◌<◌, ◌≡◌, ◌≢◌, refl, sym, ap, ap₂, subst, ◌∙◌, arith, Bool, true, false, ◌==◌,
  leb, some, List, [], ◌∷◌, ◌++◌, length, length-append, append_assoc, append-nil,
}
use laige_cpp.Systems.Deps.{
  spec_ok, comma_char, is_blank, skip_blanks, up_to_comma, from_comma, trim_onto, trim_end, listed,
  finish_round, after_token, take_token, token_of, parse_tokens, parse_dep_spec,
  max_system_dependencies,
}
use laige_cpp.Systems.Deps.Laws.{
  same_chars_sym, listed_append, IsToken, AreDistinct, IsSolid, up_to_comma-step, no_comma_parts,
}

unfoldable pub AreBlanks : List ℕ → Type 0
AreBlanks [] = 0 ≤ 0
AreBlanks (c ∷ cs) = (is_blank c ≡ true) × AreBlanks cs

-- A name as a spec spells it: with blanks on both sides.
pub record Piece : Type 0 where
  pub before : List ℕ
  pub name : List ℕ
  pub after : List ℕ

pub record IsPiece (p : Piece) : Type 0 where
  pub blank_before : AreBlanks p.before
  pub token : IsToken p.name
  pub blank_after : AreBlanks p.after

unfoldable pub ArePieces : List Piece → Type 0
ArePieces [] = 0 ≤ 0
ArePieces (p ∷ ps) = IsPiece p × ArePieces ps

unfoldable pub names_of : List Piece → List (List ℕ)
names_of [] = []
names_of (p ∷ ps) = p.name ∷ names_of ps

abbrev pub spell_onto : Piece → List ℕ → List ℕ
spell_onto p rest = p.before ++ (p.name ++ (p.after ++ rest))

-- The pieces, with a comma before each but the first.
unfoldable pub spell_rest : List Piece → List ℕ
spell_rest [] = []
spell_rest (p ∷ ps) = comma_char ∷ spell_onto p (spell_rest ps)

unfoldable pub spell : List Piece → List ℕ
spell [] = []
spell (p ∷ ps) = spell_onto p (spell_rest ps)

skip_blanks-append : (bs s : List ℕ) → AreBlanks bs → skip_blanks (bs ++ s) ≡ skip_blanks s
unfolding skip_blanks AreBlanks
skip_blanks-append [] s h = refl
skip_blanks-append (c ∷ cs) s h = rw h.0 (skip_blanks-append cs s h.1)

skip_blanks-token : (t s : List ℕ) → t ≢ [] → IsSolid t → skip_blanks (t ++ s) ≡ t ++ s
unfolding skip_blanks IsSolid
skip_blanks-token [] s n h = absurd (n refl)
skip_blanks-token (c ∷ cs) s n h = rw h refl

blank-comma : (c : ℕ) → is_blank c ≡ true → (c == comma_char) ≡ false
blank-comma c h = ground arith

-- What stands before a comma or the end.
EndsPiece : List ℕ → Type 0
EndsPiece [] = 0 ≤ 0
EndsPiece (c ∷ cs) = c ≡ comma_char

up_to_comma-end : (rest : List ℕ) → EndsPiece rest → up_to_comma rest ≡ []
unfolding up_to_comma EndsPiece
up_to_comma-end [] h = refl
up_to_comma-end (c ∷ cs) h = ground (arith, h)

from_comma-end : (rest : List ℕ) → EndsPiece rest → from_comma rest ≡ rest
unfolding from_comma EndsPiece
from_comma-end [] h = refl
from_comma-end (c ∷ cs) h = ground (arith, h)

from_comma-append : (t s : List ℕ) → up_to_comma t ≡ t → from_comma (t ++ s) ≡ from_comma s
unfolding from_comma
from_comma-append [] s h = refl
from_comma-append (c ∷ cs) s h =
    let parts = no_comma_parts c cs h in rw parts.0 (from_comma-append cs s parts.1)

up_to_comma-append : (t s : List ℕ) → up_to_comma t ≡ t → up_to_comma (t ++ s) ≡ t ++ up_to_comma s
up_to_comma-append [] s h = refl
up_to_comma-append (c ∷ cs) s h =
    let parts = no_comma_parts c cs h in
    up_to_comma-step c (cs ++ s) parts.0 ∙ ap (◌∷◌ c) (up_to_comma-append cs s parts.1)

AreBlanks-no_comma : (bs : List ℕ) → AreBlanks bs → up_to_comma bs ≡ bs
unfolding AreBlanks up_to_comma
AreBlanks-no_comma [] h = refl
AreBlanks-no_comma (c ∷ cs) h =
    up_to_comma-step c cs (blank-comma c h.0) ∙ ap (◌∷◌ c) (AreBlanks-no_comma cs h.1)

trim_end-blanks : (bs : List ℕ) → AreBlanks bs → trim_end bs ≡ []
unfolding AreBlanks trim_end
trim_end-blanks [] h = refl
trim_end-blanks (c ∷ cs) h = rw (trim_end-blanks cs h.1, h.0) refl

trim_end-append : (t bs : List ℕ) → AreBlanks bs → trim_end (t ++ bs) ≡ trim_end t
unfolding trim_end
trim_end-append [] bs h = trim_end-blanks bs h
trim_end-append (c ∷ cs) bs h = ap (trim_onto c) (trim_end-append cs bs h)

-- What the code computes of a piece before the rest of a spec.
module _ (p : Piece) (rest : List ℕ) (h : IsPiece p) (ends : EndsPiece rest) where
  skipped : skip_blanks (spell_onto p rest) ≡ p.name ++ (p.after ++ rest)
  unfolding IsToken
  skipped =
      skip_blanks-append p.before _ h.blank_before ∙ skip_blanks-token p.name _ h.token.0 h.token.2

  token_of-spell : token_of (spell_onto p rest) ≡ p.name
  unfolding IsToken
  token_of-spell =
      ap (λ s. trim_end (up_to_comma s)) skipped
      ∙ ap trim_end (
          up_to_comma-append p.name _ h.token.1
          ∙ ap (◌++◌ p.name) (
              up_to_comma-append p.after rest (AreBlanks-no_comma p.after h.blank_after)
              ∙ ap (◌++◌ p.after) (up_to_comma-end rest ends)
              ∙ append-nil p.after))
      ∙ trim_end-append p.name p.after h.blank_after
      ∙ h.token.3

  from_comma-spell : from_comma (skip_blanks (spell_onto p rest)) ≡ rest
  unfolding IsToken
  from_comma-spell =
      ap from_comma skipped
      ∙ from_comma-append p.name _ h.token.1
      ∙ from_comma-append p.after rest (AreBlanks-no_comma p.after h.blank_after)
      ∙ from_comma-end rest ends

spell_rest-EndsPiece : (ps : List Piece) → EndsPiece (spell_rest ps)
unfolding EndsPiece spell_rest
spell_rest-EndsPiece [] = omega arith
spell_rest-EndsPiece (p ∷ ps) = refl

-- A round that reads a new name goes on behind it.
take_token-new :
    (after : Bool) (names : List (List ℕ)) (t rest : List ℕ)
    → t ≢ []
    → listed t names ≡ false
    → suc (length names) ≤ max_system_dependencies
    → take_token after names t rest ≡ after_token (names ++ t ∷ []) rest
unfolding take_token
take_token-new after names [] rest n new few = absurd (n refl)
take_token-new after names (c ∷ cs) rest n new few =
    let room : leb max_system_dependencies (length names) ≡ false = ground arith in
    rw (new, room) refl

parse_tokens-round :
    (fuel : ℕ) (after : Bool) (names : List (List ℕ)) (spec t rest : List ℕ)
    → token_of spec ≡ t
    → from_comma (skip_blanks spec) ≡ rest
    → t ≢ []
    → listed t names ≡ false
    → suc (length names) ≤ max_system_dependencies
    → parse_tokens (suc fuel) after names spec
      ≡ finish_round
          (λ read rest. parse_tokens fuel true read rest)
          (after_token (names ++ t ∷ []) rest)
unfolding parse_tokens
parse_tokens-round fuel after names spec t rest e f n new few =
    ap (finish_round (λ read rest. parse_tokens fuel true read rest))
      (ap₂ (take_token after names) e f ∙ take_token-new after names t rest n new few)

AreDistinct-split :
    (xs : List (List ℕ)) (t : List ℕ) (ys : List (List ℕ))
    → AreDistinct (xs ++ t ∷ ys)
    → listed t xs ≡ false
unfolding AreDistinct listed
AreDistinct-split [] t ys d = refl
AreDistinct-split (x ∷ xs) t ys d =
    ground
      (arith, AreDistinct-split xs t ys d.1, d.0, listed_append x xs (t ∷ ys), same_chars_sym x t)

snoc_assoc :
    (xs : List (List ℕ)) (t : List ℕ) (ys : List (List ℕ)) → (xs ++ t ∷ []) ++ ys ≡ xs ++ t ∷ ys
snoc_assoc xs t ys = append_assoc xs (t ∷ []) ys

abbrev pub ReadsPieces : ℕ → Type 0
ReadsPieces fuel =
    (after : Bool) (names : List (List ℕ)) (p : Piece) (ps : List Piece)
    → length ps < fuel
    → ArePieces (p ∷ ps)
    → AreDistinct (names ++ names_of (p ∷ ps))
    → length (names ++ names_of (p ∷ ps)) ≤ max_system_dependencies
    → parse_tokens fuel after names (spell_onto p (spell_rest ps))
      ≡ (spec_ok, names ++ names_of (p ∷ ps))

-- Behind a name, the loop reads the others.
after_token-pieces :
    (fuel : ℕ)
    → ReadsPieces fuel
    → (names : List (List ℕ)) (t : List ℕ) (ps : List Piece) → length ps ≤ fuel
    → ArePieces ps
    → AreDistinct (names ++ t ∷ names_of ps)
    → length (names ++ t ∷ names_of ps) ≤ max_system_dependencies
    → finish_round
        (λ read rest. parse_tokens fuel true read rest)
        (after_token (names ++ t ∷ []) (spell_rest ps))
      ≡ (spec_ok, names ++ t ∷ names_of ps)
unfolding names_of spell_rest
after_token-pieces fuel next names t [] l v d few = refl
after_token-pieces fuel next names t (q ∷ qs) l v d few =
    let e = snoc_assoc names t (names_of (q ∷ qs)) in
    next true (names ++ t ∷ []) q qs (omega arith) v (subst AreDistinct (sym e) d)
      (subst (λ (ts : List (List ℕ)). length ts ≤ max_system_dependencies) (sym e) few)
    ∙ ap (λ ts. (spec_ok, ts)) e

parse_tokens-pieces : (fuel : ℕ) → ReadsPieces fuel
unfolding ArePieces names_of IsToken
parse_tokens-pieces zero after names p ps l v d few = absurd (omega arith)
parse_tokens-pieces (suc fuel) after names p ps l v d few =
    let ends = spell_rest-EndsPiece ps in
    parse_tokens-round fuel after names _ _ _ (token_of-spell p (spell_rest ps) v.0 ends)
      (from_comma-spell p (spell_rest ps) v.0 ends) v.0.token.0
      (AreDistinct-split names p.name (names_of ps) d)
      (omega (arith, length-append names (p.name ∷ names_of ps), few))
    ∙ after_token-pieces fuel (parse_tokens-pieces fuel) names p.name ps (omega arith) v.1 d few

length-spell_rest : (ps : List Piece) → length ps ≤ length (spell_rest ps)
unfolding spell_rest
length-spell_rest [] = omega arith
length-spell_rest (p ∷ ps) = omega (
  arith,
  length-append p.before (p.name ++ (p.after ++ spell_rest ps)),
  length-append p.name (p.after ++ spell_rest ps),
  length-append p.after (spell_rest ps),
  length-spell_rest ps,
)

length-spell_onto : (p : Piece) (rest : List ℕ) → length rest ≤ length (spell_onto p rest)
length-spell_onto p rest = omega (
  arith,
  length-append p.before (p.name ++ (p.after ++ rest)),
  length-append p.name (p.after ++ rest),
  length-append p.after rest,
)

-- At most sixteen different names, written with commas between them and any blanks around them, are
-- read back in their order, without an error.
pub parse_dep_spec-spell :
    (ps : List Piece)
    → ArePieces ps
    → AreDistinct (names_of ps)
    → length (names_of ps) ≤ max_system_dependencies
    → parse_dep_spec (some (spell ps)) ≡ (spec_ok, names_of ps)
unfolding parse_dep_spec spell ArePieces names_of parse_tokens skip_blanks up_to_comma from_comma
    trim_end take_token
parse_dep_spec-spell [] v d few = refl
parse_dep_spec-spell (p ∷ ps) v d few =
    parse_tokens-pieces (suc (length (spell (p ∷ ps)))) false [] p ps
      (omega (arith, length-spell_rest ps, length-spell_onto p (spell_rest ps))) v d few
