-- ===== src/Json/Utf8/Sound.antt =====
-- What the UTF-8 decoder of src/laige-core/json.cpp accepts is what the encoder writes.
use laige_cpp.Prelude.{
  ℕ, ◌+◌, ◌*◌, ◌%◌, ◌≤◌, ◌<◌, ◌≡◌, ◌⊎◌, inl, inr, refl, sym, ap, ap₂, ◌∙◌, arith, lt→ltb, le→ltb,
  some, List, [], ◌∷◌, ◌++◌,
}
use laige_cpp.Json.Utf8.{decode_utf8, decode2, decode3, decode4, append_utf8}
use laige_cpp.Json.Utf8.Laws.{IsDecodable, IsTail, append_utf8_ascii}

-- A list of bytes.
unfoldable pub AreBytes : List ℕ → Type 0
AreBytes [] = 0 ≤ 0
AreBytes (b ∷ bs) = b < 256 × AreBytes bs

decode2-inv :
    (b0 b1 cp : ℕ) (t rest : List ℕ)
    → b1 < 256
    → decode2 b0 (b1 ∷ t) ≡ some (cp, rest)
    → (t ≡ rest) × (IsTail b1 × (b0 % 32 * 64 + b1 % 64 ≡ cp))
unfolding decode2 IsTail
decode2-inv b0 b1 cp t rest p h = ground arith

decode3-inv :
    (b0 b1 b2 cp : ℕ) (t rest : List ℕ)
    → b1 < 256
    → b2 < 256
    → decode3 b0 (b1 ∷ b2 ∷ t) ≡ some (cp, rest)
    → (t ≡ rest)
      × (IsTail b1
          × (IsTail b2
              × ((b0 % 16 * 4096 + b1 % 64 * 64 + b2 % 64 ≡ cp)
                  × ((0x800 ≤ cp) × (cp < 0xD800 ⊎ 0xDFFF < cp)))))
unfolding decode3 IsTail
decode3-inv b0 b1 b2 cp t rest p q h = ground arith

decode4-inv :
    (b0 b1 b2 b3 cp : ℕ) (t rest : List ℕ)
    → b1 < 256
    → b2 < 256
    → b3 < 256
    → decode4 b0 (b1 ∷ b2 ∷ b3 ∷ t) ≡ some (cp, rest)
    → (t ≡ rest)
      × (IsTail b1
          × (IsTail b2
              × (IsTail b3
                  × ((b0 % 8 * 262144 + b1 % 64 * 4096 + b2 % 64 * 64 + b3 % 64 ≡ cp)
                      × (0x10000 ≤ cp)))))
unfolding decode4 IsTail
decode4-inv b0 b1 b2 b3 cp t rest p q r h = ground arith

cons : {a b : ℕ} {xs ys : List ℕ} → a ≡ b → xs ≡ ys → a ∷ xs ≡ b ∷ ys
cons p q = ap₂ ◌∷◌ p q

-- The encoder's bytes, by the size of the code point.
encode2 :
    (cp b0 b1 : ℕ)
    → 0xC2 ≤ b0
    → b0 ≤ 0xDF
    → IsTail b1
    → b0 % 32 * 64 + b1 % 64 ≡ cp
    → b0 ∷ b1 ∷ [] ≡ append_utf8 cp
unfolding append_utf8 IsTail
encode2 cp b0 b1 p q r e =
    rw (le→ltb cp 0x80 (omega arith), lt→ltb cp 0x800 (omega arith))
      (cons (omega arith) (cons (omega arith) refl))

encode3 :
    (cp b0 b1 b2 : ℕ)
    → 0xE0 ≤ b0
    → b0 ≤ 0xEF
    → IsTail b1
    → IsTail b2
    → b0 % 16 * 4096 + b1 % 64 * 64 + b2 % 64 ≡ cp
    → 0x800 ≤ cp
    → b0 ∷ b1 ∷ b2 ∷ [] ≡ append_utf8 cp
unfolding append_utf8 IsTail
encode3 cp b0 b1 b2 p q r s e l =
    rw (le→ltb cp 0x80 (omega arith), le→ltb cp 0x800 l, lt→ltb cp 0x10000 (omega arith))
      (cons (omega arith) (cons (omega arith) (cons (omega arith) refl)))

encode4 :
    (cp b0 b1 b2 b3 : ℕ)
    → 0xF0 ≤ b0
    → b0 ≤ 0xF4
    → IsTail b1
    → IsTail b2
    → IsTail b3
    → b0 % 8 * 262144 + b1 % 64 * 4096 + b2 % 64 * 64 + b3 % 64 ≡ cp
    → 0x10000 ≤ cp
    → b0 ∷ b1 ∷ b2 ∷ b3 ∷ [] ≡ append_utf8 cp
unfolding append_utf8 IsTail
encode4 cp b0 b1 b2 b3 p q r s t e l =
    rw (le→ltb cp 0x80 (omega arith), le→ltb cp 0x800 (omega arith), le→ltb cp 0x10000 l)
      (cons (omega arith) (cons (omega arith) (cons (omega arith) (cons (omega arith) refl))))

-- What the decoder accepts starts with the encoder's bytes for the code point that it yields: no
-- overlong form, no surrogate and nothing from 0x140000 on.
unfoldable pub Accepted : List ℕ → ℕ → List ℕ → Type 0
Accepted bs cp rest = (bs ≡ append_utf8 cp ++ rest) × IsDecodable cp

accepted2 :
    (b0 cp : ℕ) (bs rest : List ℕ)
    → 0xC2 ≤ b0
    → b0 ≤ 0xDF
    → AreBytes bs
    → decode2 b0 bs ≡ some (cp, rest)
    → Accepted (b0 ∷ bs) cp rest
unfolding Accepted AreBytes IsDecodable IsTail decode2
accepted2 b0 cp [] rest p q v h = absurd (ground arith)
accepted2 b0 cp (b1 ∷ t) rest p q (v, vs) h =
    let (same, (tail, e)) = decode2-inv b0 b1 cp t rest v h in
    (ap₂ ◌++◌ (encode2 cp b0 b1 p q tail e) same, (inl (omega arith), omega arith))

accepted3 :
    (b0 cp : ℕ) (bs rest : List ℕ)
    → 0xE0 ≤ b0
    → b0 ≤ 0xEF
    → AreBytes bs
    → decode3 b0 bs ≡ some (cp, rest)
    → Accepted (b0 ∷ bs) cp rest
unfolding Accepted AreBytes IsDecodable IsTail decode3
accepted3 b0 cp [] rest p q v h = absurd (ground arith)
accepted3 b0 cp (b1 ∷ []) rest p q v h = absurd (ground arith)
accepted3 b0 cp (b1 ∷ b2 ∷ t) rest p q (v, (w, vs)) h =
    let (same, (tail1, (tail2, (e, (l, s))))) = decode3-inv b0 b1 b2 cp t rest v w h in
    (ap₂ ◌++◌ (encode3 cp b0 b1 b2 p q tail1 tail2 e l) same, (s, omega arith))

accepted4 :
    (b0 cp : ℕ) (bs rest : List ℕ)
    → 0xF0 ≤ b0
    → b0 ≤ 0xF4
    → AreBytes bs
    → decode4 b0 bs ≡ some (cp, rest)
    → Accepted (b0 ∷ bs) cp rest
unfolding Accepted AreBytes IsDecodable IsTail decode4
accepted4 b0 cp [] rest p q v h = absurd (ground arith)
accepted4 b0 cp (b1 ∷ []) rest p q v h = absurd (ground arith)
accepted4 b0 cp (b1 ∷ b2 ∷ []) rest p q v h = absurd (ground arith)
accepted4 b0 cp (b1 ∷ b2 ∷ b3 ∷ t) rest p q (v, (w, (x, vs))) h =
    let (same, (tail1, (tail2, (tail3, (e, l))))) = decode4-inv b0 b1 b2 b3 cp t rest v w x h in
    (
      ap₂ ◌++◌ (encode4 cp b0 b1 b2 b3 p q tail1 tail2 tail3 e l) same,
      (inr (omega arith), omega arith),
    )

-- Which branch the decoder takes on its first byte, and that it accepts in no other way.
branches :
    (b0 cp : ℕ) (bs rest : List ℕ)
    → decode_utf8 (b0 ∷ bs) ≡ some (cp, rest)
    → (b0 < 0x80 × ((b0 ≡ cp) × (bs ≡ rest)))
      ⊎ (((0xC2 ≤ b0) × ((b0 ≤ 0xDF) × (decode2 b0 bs ≡ some (cp, rest))))
          ⊎ (((0xE0 ≤ b0) × ((b0 ≤ 0xEF) × (decode3 b0 bs ≡ some (cp, rest))))
              ⊎ ((0xF0 ≤ b0) × ((b0 ≤ 0xF4) × (decode4 b0 bs ≡ some (cp, rest))))))
unfolding decode_utf8
branches b0 cp bs rest h = ground arith

-- Whatever the decoder accepts of a list of bytes is what the encoder writes for the code point that
-- it yields, with the bytes after it: no overlong form, no surrogate, nothing from 0x140000 on.
pub decode_utf8_sound :
    (bs : List ℕ) (cp : ℕ) (rest : List ℕ)
    → AreBytes bs
    → decode_utf8 bs ≡ some (cp, rest)
    → Accepted bs cp rest
unfolding AreBytes Accepted IsDecodable decode_utf8
decode_utf8_sound [] cp rest v h = absurd (ground arith)
decode_utf8_sound (b0 ∷ bs) cp rest (v, vs) h = elim (branches b0 cp bs rest h) [
  | inl (p, (e, s)) ↦ (
    cons e s ∙ ap (λ (x : List ℕ). x ++ rest) (sym (append_utf8_ascii cp (omega arith))),
    (inl (omega arith), omega arith),
  )
  | inr (inl (p, (q, e))) ↦ accepted2 b0 cp bs rest p q vs e
  | inr (inr (inl (p, (q, e)))) ↦ accepted3 b0 cp bs rest p q vs e
  | inr (inr (inr (p, (q, e)))) ↦ accepted4 b0 cp bs rest p q vs e
]
