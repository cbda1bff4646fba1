-- ===== src/Ecs/Archetypes/Lookup.antt =====
-- The lookups of src/laige-sim/archetype.cpp: `columnIndexOf`, `findArchetype` and `createArchetype`.
use laige_cpp.Prelude.{
  ℕ, zero, suc, ◌+◌, ◌≤◌, ◌<◌, ◌≡◌, ◌≢◌, ◌↔◌, inl, inr, refl, ap, ◌∙◌, arith, true, false, ◌&&◌,
  Bool-cases, ltb, ◌==◌, if◌then◌else◌, Option, some, none,
}
use laige_cpp.Pools.Words.{inc32}
use laige_cpp.Ecs.Archetypes.{
  Archetype, Storage, middle, column_index, column_index_of, mix_ids, sig_fingerprint, same_ids,
  find_from, find_archetype, new_archetype, create_archetype,
}
use laige_cpp.Ecs.Archetypes.Columns.{IsAscending}
use laige_cpp.Ecs.Archetypes.Invariant.{Rows, Inv}

-- What a search for an id may answer.
data Finds (n : ℕ) (sig : ℕ → ℕ) (id : ℕ) : Option ℕ → Type 0 where
  absent : ((i : ℕ) → i < n → sig i ≢ id) → Finds n sig id none
  found : (i : ℕ) → i < n → sig i ≡ id → Finds n sig id (some i)

column_index-Finds :
    (fuel n lo hi : ℕ) (sig : ℕ → ℕ) (id : ℕ)
    → IsAscending n sig
    → hi ≤ n
    → hi ≤ lo + fuel
    → ((i : ℕ) → i < lo → i < n → sig i < id)
    → ((i : ℕ) → hi ≤ i → i < n → id < sig i)
    → Finds n sig id (column_index fuel sig id lo hi)
unfolding column_index
column_index-Finds zero n lo hi sig id a m f b e =
    absent (λ i p. λ same. absurd (ground (arith, b i, e i)))
column_index-Finds (suc fuel) n lo hi sig id a m f b e = elim (Bool-cases (ltb lo hi)) [
  | inr t ↦ rw t (absent (λ i p. λ same. absurd (ground (arith, b i, e i))))
  | inl t ↦
      let inside : middle lo hi < hi = ground arith in
      let above : lo ≤ middle lo hi = omega arith in
      elim (Bool-cases (ltb (sig (middle lo hi)) id)) [
        | inl u ↦
            rw (t, u)
              (column_index-Finds fuel n (middle lo hi + 1) hi sig id a m (omega arith)
                (λ i p q. ground (arith, a i (middle lo hi))) e)
        | inr u ↦ elim (Bool-cases (ltb id (sig (middle lo hi)))) [
          | inl x ↦
              rw (t, u, x)
                (column_index-Finds fuel n lo (middle lo hi) sig id a (omega arith) (omega arith) b
                  (λ i p q. ground (arith, a (middle lo hi) i)))
          | inr x ↦ rw (t, u, x) (found (middle lo hi) (omega arith) (ground arith))
        ]
      ]
]

Finds-iff :
    (n : ℕ) (sig : ℕ → ℕ) (id i : ℕ) (o : Option ℕ)
    → IsAscending n sig
    → Finds n sig id o
    → (o ≡ some i) ↔ ((i < n) × (sig i ≡ id))
Finds-iff n sig id i _ a (absent h) =
    ((λ e. absurd (ground arith)), λ (p, same). absurd (h i p same))
Finds-iff n sig id i _ a (found j p same) =
    ((λ e. ground arith), λ (q, other). ap some (ground (arith, a i j, a j i)))

-- The column of a component is found in a sorted signature exactly where it stands.
pub column_index_of_iff :
    {V : Type 0} (a : Archetype V) (id i : ℕ)
    → IsAscending a.sig_count a.sig
    → (column_index_of a id ≡ some i) ↔ ((i < a.sig_count) × (a.sig i ≡ id))
unfolding column_index_of
column_index_of_iff a id i s = Finds-iff a.sig_count a.sig id i _ s (
    column_index-Finds a.sig_count a.sig_count 0 a.sig_count a.sig id s (omega arith) (omega arith)
      (λ j p q. absurd (omega arith)) (λ j p q. absurd (omega arith)))

-- Equal signatures have equal fingerprints.
mix_ids-same :
    (left j : ℕ) (s t : ℕ → ℕ) (h : ℕ)
    → same_ids left j s t ≡ true
    → mix_ids left j s h ≡ mix_ids left j t h
unfolding mix_ids same_ids
mix_ids-same zero j s t h e = refl
mix_ids-same (suc left) j s t h e = elim (Bool-cases (s j == t j)) [
  | inl u ↦
      let here : s j ≡ t j = ground arith in
      rw here (mix_ids-same left (j + 1) s t _ (ground arith))
  | inr u ↦ absurd (ground arith)
]

mix_ids-agree :
    (left j : ℕ) (s t : ℕ → ℕ) (h : ℕ)
    → ((i : ℕ) → j ≤ i → i < j + left → s i ≡ t i)
    → mix_ids left j s h ≡ mix_ids left j t h
unfolding mix_ids
mix_ids-agree zero j s t h e = refl
mix_ids-agree (suc left) j s t h e =
    rw (e j (omega arith) (omega arith))
      (mix_ids-agree left (j + 1) s t _ (λ i p q. e i (omega arith) (omega arith)))

module _ {V : Type 0} where
  -- The plain scan: the first archetype of a signature, by its ids only.
  pub scan : ℕ → ℕ → (ℕ → Archetype V) → (ℕ → ℕ) → ℕ → Option ℕ
  scan zero i archetypes sig count = none
  scan (suc left) i archetypes sig count =
      let later = scan left (i + 1) archetypes sig count in
      if (archetypes i).sig_count == count && same_ids count 0 (archetypes i).sig sig
      then some i
      else later

  -- Every stored fingerprint is that of its signature.
  abbrev pub ArePrinted : ℕ → (ℕ → Archetype V) → Type 0
  ArePrinted n archetypes =
      (i : ℕ)
      → i < n
      → (archetypes i).fingerprint ≡ sig_fingerprint (archetypes i).sig (archetypes i).sig_count

  printed_same :
      (a : Archetype V) (sig : ℕ → ℕ) (count : ℕ)
      → a.fingerprint ≡ sig_fingerprint a.sig a.sig_count
      → a.sig_count ≡ count
      → same_ids count 0 a.sig sig ≡ true
      → a.fingerprint ≡ sig_fingerprint sig count
  unfolding sig_fingerprint
  printed_same a sig count h c e =
      h ∙ (ap (λ n. mix_ids n 0 a.sig 2166136261) c ∙ mix_ids-same count 0 a.sig sig 2166136261 e)

  find_from-scan :
      (left i : ℕ) (archetypes : ℕ → Archetype V) (sig : ℕ → ℕ) (count : ℕ)
      → ArePrinted (i + left) archetypes
      → find_from left i archetypes sig count (sig_fingerprint sig count)
        ≡ scan left i archetypes sig count
  unfolding find_from scan sig_fingerprint
  find_from-scan zero i archetypes sig count h = refl
  find_from-scan (suc left) i archetypes sig count h =
      let rest = find_from-scan left (i + 1) archetypes sig count (λ j p. h j (omega arith)) in
      elim (Bool-cases ((archetypes i).sig_count == count)) [
        | inr t ↦ rw (t, rest) (ground arith)
        | inl t ↦ elim (Bool-cases (same_ids count 0 (archetypes i).sig sig)) [
          | inr u ↦ rw (t, u, rest) (ground arith)
          | inl u ↦
              let printed =
                printed_same (archetypes i) sig count (h i (omega arith)) (ground arith) u in
              rw (t, u, rest) (ground (arith, printed))
        ]
      ]

  -- Where each stored fingerprint is that of its signature, the lookup by fingerprint is the plain scan
  -- by ids.
  pub find_archetype-scan :
      (w : Storage V) (sig : ℕ → ℕ) (count : ℕ)
      → ArePrinted w.archetype_count w.archetypes
      → find_archetype sig count w ≡ scan w.archetype_count 0 w.archetypes sig count
  unfolding find_archetype
  find_archetype-scan w sig count h =
      find_from-scan w.archetype_count 0 w.archetypes sig count (λ i p. h i (omega arith))

  new_archetype-Rows :
      (blank : V) (capacity : ℕ) (row_of sig : ℕ → ℕ) (count : ℕ)
      → Rows capacity row_of (new_archetype blank capacity sig count)
  unfolding new_archetype
  new_archetype-Rows blank capacity row_of sig count = record {
    fits = omega arith;
    some_room = ground arith;
    ascending = λ i j p q. absurd (omega arith);
    inside = λ r p. absurd (omega arith);
    synced = λ r p. absurd (omega arith);
  }

  new_empty :
      (blank : V) (capacity : ℕ) (sig : ℕ → ℕ) (count r : ℕ)
      → r < (new_archetype blank capacity sig count).size
      → 1 ≤ 0
  unfolding new_archetype
  new_empty blank capacity sig count r p = omega arith

  -- A new archetype is empty and sorted: while the table has room, the invariant is kept, and the
  -- table is one longer.
  pub create_archetype-Inv :
      (blank : V) (sig : ℕ → ℕ) (count : ℕ) (w : Storage V)
      → Inv w
      → w.archetype_count < 256
      → Inv (create_archetype blank sig count w)
        × ((create_archetype blank sig count w).archetype_count ≡ w.archetype_count + 1)
  unfolding create_archetype
  create_archetype-Inv blank sig count w v room =
      let longer : inc32 w.archetype_count ≡ w.archetype_count + 1 = omega arith in
      (
        record {
          bounded = v.bounded;
          tables = omega arith;
          rows = λ k p. elim (Bool-cases (w.archetype_count == k)) [
            | inl t ↦ rw t (new_archetype-Rows blank w.capacity w.row_of sig count)
            | inr t ↦ rw t (v.rows k (ground (arith, longer)))
          ];
          assigned = λ k r p q. elim (Bool-cases (w.archetype_count == k)) [
            | inl t ↦ absurd (omega (arith, new_empty blank w.capacity sig count r (rw t at q)))
            | inr t ↦ rw t (v.assigned k r (ground (arith, longer)) (rw t at q))
          ];
          stands = λ s k g.
              let su = v.stands s k g in
              let t : (w.archetype_count == k) ≡ false = ground (arith, su.known) in
              record {
                known = omega (arith, su.known, longer);
                live = rw t su.live;
                same = rw t su.same;
              };
        },
        longer,
      )

  -- A new archetype stores the fingerprint of its signature.
  pub create_archetype-ArePrinted :
      (blank : V) (sig : ℕ → ℕ) (count : ℕ) (w : Storage V)
      → ArePrinted w.archetype_count w.archetypes
      → w.archetype_count < 256
      → ArePrinted (w.archetype_count + 1) (create_archetype blank sig count w).archetypes
  unfolding create_archetype new_archetype sig_fingerprint
  create_archetype-ArePrinted blank sig count w h room i p =
      elim (Bool-cases (w.archetype_count == i)) [
        | inl t ↦ rw t (
            mix_ids-agree count 0 sig _ 2166136261
              (λ j u l. let inside : ltb j count ≡ true = ground arith in rw inside refl))
        | inr t ↦ rw t (h i (ground arith))
      ]
