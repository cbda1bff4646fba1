-- ===== src/Systems/Kahn/Ready.antt =====
-- The loops of the topological sort of `World::scheduleSystems` (src/laige-sim/systems.cpp): the search of a
-- system that is ready, and the release of those that wait for it.
use laige_cpp.Prelude.{
  ℕ, zero, suc, ◌+◌, ◌≤◌, ◌<◌, ◌≡◌, inl, inr, refl, sym, subst, ◌∙◌, arith, Bool, true, false, not,
  ◌&&◌, ◌==◌, Bool-cases, ==→eq, ==_self, ltb, leb, if◌then◌else◌, List,
}
use laige_cpp.Systems.Kahn.{
  Placing, has_id, dec16, is_ready, first_ready, release_one, release_from,
}

first_ready-here :
    (left i : ℕ) (st : Placing) → is_ready st i ≡ true → first_ready (suc left) i st ≡ suc i
unfolding first_ready
first_ready-here left i st t = rw t refl

first_ready-later :
    (left i : ℕ) (st : Placing)
    → is_ready st i ≡ false
    → first_ready (suc left) i st ≡ first_ready left (i + 1) st
unfolding first_ready
first_ready-later left i st t = rw t refl

-- What `first_ready` answers from index `i` on: the first that is ready, or that none is.
pub first_ready-found :
    (left i x : ℕ) (st : Placing)
    → first_ready left i st ≡ suc x
    → (x < i + left) × (is_ready st x ≡ true) × ((j : ℕ) → i ≤ j → j < x → is_ready st j ≡ false)
unfolding first_ready
first_ready-found zero i x st e = absurd (omega (arith, e))
first_ready-found (suc left) i x st e = elim (Bool-cases (is_ready st i)) [
  | inl t ↦
      let same : i ≡ x = omega (arith, e, first_ready-here left i st t) in
      (omega arith, subst (λ y. is_ready st y ≡ true) same t, λ j l m. absurd (omega arith))
  | inr t ↦
      let rest = first_ready-found left (i + 1) x st (sym (first_ready-later left i st t) ∙ e) in
      (
        omega arith,
        rest.1,
        λ j l m. elim (Bool-cases (i == j)) [
          | inl s ↦ subst (λ y. is_ready st y ≡ false) (==→eq i j s) t
          | inr s ↦ rest.2 j (ground arith) m
        ],
      )
]

pub first_ready-none :
    (left i : ℕ) (st : Placing)
    → first_ready left i st ≡ 0
    → (j : ℕ) → i ≤ j
    → j < i + left
    → is_ready st j ≡ false
unfolding first_ready
first_ready-none zero i st e j l m = absurd (omega arith)
first_ready-none (suc left) i st e j l m = elim (Bool-cases (is_ready st i)) [
  | inl t ↦ absurd (omega (arith, e, first_ready-here left i st t))
  | inr t ↦ elim (Bool-cases (i == j)) [
    | inl s ↦ subst (λ y. is_ready st y ≡ false) (==→eq i j s) t
    | inr s ↦
        first_ready-none left (i + 1) st (sym (first_ready-later left i st t) ∙ e) j (ground arith)
          (omega arith)
  ]
]

release_step :
    (left j i p : ℕ) (c : Bool)
    → (if (leb (j + 1) i && ltb i (j + 1 + left)) && c
        then dec16 (if j == i && c then dec16 p else p)
        else (if j == i && c then dec16 p else p))
      ≡ (if (leb j i && ltb i (j + suc left)) && c then dec16 p else p)
release_step left j i p true = ground arith
release_step left j i p false = ground arith

module _ (dep_ids : ℕ → List ℕ) where
  release_one-frame :
      (j picked : ℕ) (st : Placing)
      → ((release_one dep_ids j picked st).scheduled ≡ st.scheduled)
        × ((release_one dep_ids j picked st).order ≡ st.order)
        × ((release_one dep_ids j picked st).placed ≡ st.placed)
  release_one-frame j picked st =
      elim (Bool-cases (not (st.scheduled j) && has_id picked (dep_ids j))) [
        | inl t ↦ rw t (refl, refl, refl)
        | inr t ↦ rw t (refl, refl, refl)
      ]

  release_one-pending :
      (j picked i : ℕ) (st : Placing)
      → (release_one dep_ids j picked st).pending i ≡ (
          if j == i && (not (st.scheduled i) && has_id picked (dep_ids i))
          then dec16 (st.pending i)
          else st.pending i)
  release_one-pending j picked i st = elim (Bool-cases (j == i)) [
    | inl t ↦
        let e = ==→eq j i t in
        subst
          (λ i. (release_one dep_ids j picked st).pending i ≡ (
            if j == i && (not (st.scheduled i) && has_id picked (dep_ids i))
            then dec16 (st.pending i)
            else st.pending i))
          e
          (elim (Bool-cases (not (st.scheduled j) && has_id picked (dep_ids j))) [
            | inl u ↦ rw (u, ==_self j) refl
            | inr u ↦ rw (u, ==_self j) refl
          ])
    | inr t ↦ elim (Bool-cases (not (st.scheduled j) && has_id picked (dep_ids j))) [
      | inl u ↦ rw (u, t) refl
      | inr u ↦ rw (u, t) refl
    ]
  ]

  -- The loop that releases writes `pending` only, once for each index.
  pub release_from-frame :
      (left j picked : ℕ) (st : Placing)
      → ((release_from dep_ids left j picked st).scheduled ≡ st.scheduled)
        × ((release_from dep_ids left j picked st).order ≡ st.order)
        × ((release_from dep_ids left j picked st).placed ≡ st.placed)
  unfolding release_from
  release_from-frame zero j picked st = (refl, refl, refl)
  release_from-frame (suc left) j picked st =
      let one = release_one-frame j picked st in
      let rest = release_from-frame left (j + 1) picked (release_one dep_ids j picked st) in
      (rest.0 ∙ one.0, rest.1 ∙ one.1, rest.2 ∙ one.2)

  pub release_from-pending :
      (left j picked i : ℕ) (st : Placing)
      → (release_from dep_ids left j picked st).pending i ≡ (
          if (leb j i && ltb i (j + left)) && (not (st.scheduled i) && has_id picked (dep_ids i))
          then dec16 (st.pending i)
          else st.pending i)
  unfolding release_from
  release_from-pending zero j picked i st =
      let out : (leb j i && ltb i (j + 0)) ≡ false = ground arith in rw out refl
  release_from-pending (suc left) j picked i st =
      release_from-pending left (j + 1) picked i (release_one dep_ids j picked st)
      ∙ rw ((release_one-frame j picked st).0, release_one-pending j picked i st)
          (release_step left j i (st.pending i) (not (st.scheduled i) && has_id picked (dep_ids i)))
