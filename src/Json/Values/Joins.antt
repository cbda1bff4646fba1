-- ===== src/Json/Values/Joins.antt =====
-- Members and items put together, and names that are not among members.
use laige_cpp.Prelude.{
  ℕ, ◌≡◌, refl, ap, ◌∙◌, arith, false, Bool-cases, inl, inr, none, List, [], ◌∷◌,
}
use laige_cpp.Json.Values.{
  Value, Items, Members, no_items, item, no_members, member, find_in, set_in, append_item,
  same_text,
}

pub same_text_sym : (xs ys : List ℕ) → same_text xs ys ≡ same_text ys xs
unfolding same_text
same_text_sym [] [] = refl
same_text_sym [] (y ∷ ys) = refl
same_text_sym (x ∷ xs) [] = refl
same_text_sym (x ∷ xs) (y ∷ ys) = rw (same_text_sym xs ys) (ground arith)

module _ {N : Type 0} where
  -- A name that is not among the members.
  pub set_in_new :
      (key name : List ℕ) (v : Value N) (ms : Members N)
      → find_in key ms ≡ none
      → find_in name ms ≡ none
      → same_text key name ≡ false
      → find_in name (set_in key v ms) ≡ none
  unfolding find_in set_in
  set_in_new key name v no_members e f n = rw n refl
  set_in_new key name v (member k w ms) e f n = elim (Bool-cases (same_text k key)) [
    | inl t ↦ absurd (ground arith)
    | inr t ↦ elim (Bool-cases (same_text k name)) [
      | inl u ↦ absurd (ground arith)
      | inr u ↦ rw (t, u) (set_in_new key name v ms (ground arith) (ground arith) n)
    ]
  ]

  unfoldable pub join : Members N → Members N → Members N
  join no_members ns = ns
  join (member k w ms) ns = member k w (join ms ns)

  pub join_end : (ms : Members N) → join ms no_members ≡ ms
  unfolding join
  join_end no_members = refl
  join_end (member k w ms) = ap (λ x. member k w x) (join_end ms)

  pub join-set_in :
      (key : List ℕ) (v : Value N) (ms ns : Members N)
      → find_in key ms ≡ none
      → join (set_in key v ms) ns ≡ join ms (member key v ns)
  unfolding join find_in set_in
  join-set_in key v no_members ns e = refl
  join-set_in key v (member k w ms) ns e = elim (Bool-cases (same_text k key)) [
    | inl t ↦ absurd (ground arith)
    | inr t ↦ rw t (ap (λ x. member k w x) (join-set_in key v ms ns (ground arith)))
  ]

  unfoldable pub joined : Items N → Items N → Items N
  joined no_items ys = ys
  joined (item x xs) ys = item x (joined xs ys)

  pub joined_end : (xs : Items N) → joined xs no_items ≡ xs
  unfolding joined
  joined_end no_items = refl
  joined_end (item x xs) = ap (λ ys. item x ys) (joined_end xs)

  pub joined-append_item :
      (xs : Items N) (x : Value N) (ys : Items N)
      → joined (append_item xs x) ys ≡ joined xs (item x ys)
  unfolding joined append_item
  joined-append_item no_items x ys = refl
  joined-append_item (item w ws) x ys = ap (λ zs. item w zs) (joined-append_item ws x ys)

  -- No name of the second is among the first.
  unfoldable pub Apart : Members N → Members N → Type 0
  Apart ms no_members = Unit
  Apart ms (member key v ns) = (find_in key ms ≡ none) × Apart ms ns

  pub Apart-set_in :
      (key : List ℕ) (v : Value N) (ms ns : Members N)
      → find_in key ms ≡ none
      → find_in key ns ≡ none
      → Apart ms ns
      → Apart (set_in key v ms) ns
  unfolding Apart find_in
  Apart-set_in key v ms no_members e f a = tt
  Apart-set_in key v ms (member k w ns) e f (g, a) = elim (Bool-cases (same_text k key)) [
    | inl t ↦ absurd (ground arith)
    | inr t ↦ (
      set_in_new key k v ms e g (same_text_sym key k ∙ t),
      Apart-set_in key v ms ns e (ground arith) a,
    )
  ]

  pub no_members_found : (key : List ℕ) → find_in {N = N} key no_members ≡ none
  unfolding find_in
  no_members_found key = refl

  pub Apart-no_members : (ms : Members N) → Apart no_members ms
  unfolding Apart
  Apart-no_members no_members = tt
  Apart-no_members (member key v ms) = (no_members_found key, Apart-no_members ms)
