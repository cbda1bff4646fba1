-- ===== src/Json/Utf8/Laws.antt =====
-- What the UTF-8 decoder accepts, and its round trip with the encoder (src/laige-core/json.cpp).
use laige_cpp.Prelude.{
  ℕ, ◌+◌, ◌*◌, ◌%◌, ◌≤◌, ◌<◌, ◌≡◌, ◌⊎◌, inl, inr, refl, ◌∙◌, arith, ltb, Bool-cases, ltb→lt, ltb→le,
  lt→ltb, some, List, [], ◌∷◌, ◌++◌,
}
use laige_cpp.Json.Utf8.{decode_utf8, decode2, decode3, decode4, append_utf8}

-- Not a surrogate, and below 0x140000: the code points that the decoder yields.
unfoldable pub IsDecodable : ℕ → Type 0
IsDecodable cp = (cp < 0xD800 ⊎ 0xDFFF < cp) × (cp < 0x140000)

pub decode-one : (cp : ℕ) (rest : List ℕ) → cp < 0x80 → decode_utf8 (cp ∷ rest) ≡ some (cp, rest)
unfolding decode_utf8
decode-one cp rest p = ground arith

-- The two low bits of a byte's top, and the rest of it.
unfoldable pub IsTail : ℕ → Type 0
IsTail b = 0x80 ≤ b × (b < 0xC0)

decode-two :
    (cp b0 b1 : ℕ) (rest : List ℕ)
    → 0xC2 ≤ b0
    → b0 ≤ 0xDF
    → IsTail b1
    → b0 % 32 * 64 + b1 % 64 ≡ cp
    → decode_utf8 (b0 ∷ b1 ∷ rest) ≡ some (cp, rest)
unfolding decode_utf8 decode2 IsTail
decode-two cp b0 b1 rest p q r e = ground arith

decode-three :
    (b0 b1 b2 : ℕ) (rest : List ℕ)
    → 0xE0 ≤ b0
    → b0 ≤ 0xEF
    → decode_utf8 (b0 ∷ b1 ∷ b2 ∷ rest) ≡ decode3 b0 (b1 ∷ b2 ∷ rest)
unfolding decode_utf8
decode-three b0 b1 b2 rest p q = ground arith

decode3-some :
    (cp b0 b1 b2 : ℕ) (rest : List ℕ)
    → IsTail b1
    → IsTail b2
    → b0 % 16 * 4096 + b1 % 64 * 64 + b2 % 64 ≡ cp
    → 0x800 ≤ cp
    → cp < 0xD800 ⊎ 0xDFFF < cp
    → decode3 b0 (b1 ∷ b2 ∷ rest) ≡ some (cp, rest)
unfolding decode3 IsTail
decode3-some cp b0 b1 b2 rest p q e l (inl s) = ground arith
decode3-some cp b0 b1 b2 rest p q e l (inr s) = ground arith

decode4-some :
    (cp b0 b1 b2 b3 : ℕ) (rest : List ℕ)
    → IsTail b1
    → IsTail b2
    → IsTail b3
    → b0 % 8 * 262144 + b1 % 64 * 4096 + b2 % 64 * 64 + b3 % 64 ≡ cp
    → 0x10000 ≤ cp
    → decode4 b0 (b1 ∷ b2 ∷ b3 ∷ rest) ≡ some (cp, rest)
unfolding decode4 IsTail
decode4-some cp b0 b1 b2 b3 rest p q r e l = ground arith

decode-four :
    (b0 b1 b2 b3 : ℕ) (rest : List ℕ)
    → 0xF0 ≤ b0
    → b0 ≤ 0xF4
    → decode_utf8 (b0 ∷ b1 ∷ b2 ∷ b3 ∷ rest) ≡ decode4 b0 (b1 ∷ b2 ∷ b3 ∷ rest)
unfolding decode_utf8
decode-four b0 b1 b2 b3 rest p q = ground arith

-- A code point that is not a surrogate and below 0x140000 is read back from what the encoder
-- writes, and the bytes after it are left.
pub decode_utf8-append_utf8 :
    (cp : ℕ) (rest : List ℕ)
    → IsDecodable cp
    → decode_utf8 (append_utf8 cp ++ rest) ≡ some (cp, rest)
unfolding append_utf8 IsDecodable IsTail
decode_utf8-append_utf8 cp rest (s, p) = elim (Bool-cases (ltb cp 0x80)) [
  | inl e ↦ rw e (decode-one cp rest (ltb→lt cp 0x80 e))
  | inr e ↦ rw e (elim (Bool-cases (ltb cp 0x800)) [
    | inl f ↦ rw f (
        decode-two cp _ _ rest (omega (arith, ltb→le cp 0x80 e)) (omega (arith, ltb→lt cp 0x800 f))
          (omega arith, omega arith) (omega (arith, ltb→lt cp 0x800 f)))
    | inr f ↦ rw f (elim (Bool-cases (ltb cp 0x10000)) [
      | inl g ↦ rw g (
          decode-three _ _ _ rest (omega arith) (omega (arith, ltb→lt cp 0x10000 g))
          ∙ decode3-some cp _ _ _ rest (omega arith, omega arith) (omega arith, omega arith)
              (omega (arith, ltb→lt cp 0x10000 g)) (ltb→le cp 0x800 f) s)
      | inr g ↦ rw g (
          decode-four _ _ _ _ rest (omega arith) (omega arith)
          ∙ decode4-some cp _ _ _ _ rest (omega arith, omega arith) (omega arith, omega arith)
              (omega arith, omega arith) (omega arith) (ltb→le cp 0x10000 g))
    ])
  ])
]

pub append_utf8_ascii : (cp : ℕ) → cp < 0x80 → append_utf8 cp ≡ cp ∷ []
unfolding append_utf8
append_utf8_ascii cp p = rw (lt→ltb cp 0x80 p) refl

-- The encoder writes at least one byte, and one that is not ASCII first for what is not.
pub append_utf8_head :
    (cp : ℕ) → (b : ℕ) × ((bs : List ℕ) × ((append_utf8 cp ≡ b ∷ bs) × (0x80 ≤ cp → 0x80 ≤ b)))
unfolding append_utf8
append_utf8_head cp = elim (Bool-cases (ltb cp 0x80)) [
  | inl e ↦ rw e (_, (_, (refl, λ l. absurd (omega (arith, ltb→lt cp 0x80 e)))))
  | inr e ↦ rw e (elim (Bool-cases (ltb cp 0x800)) [
    | inl f ↦ rw f (_, (_, (refl, λ l. omega arith)))
    | inr f ↦ rw f (elim (Bool-cases (ltb cp 0x10000)) [
      | inl g ↦ rw g (_, (_, (refl, λ l. omega arith)))
      | inr g ↦ rw g (_, (_, (refl, λ l. omega arith)))
    ])
  ])
]
