-- ===== src/Systems/Kahn/Complete.antt =====
-- The topological sort of `World::scheduleSystems` (src/laige-sim/systems.cpp) places all systems exactly if
-- some order satisfies the dependencies.

use laige_cpp.Prelude.{
  ℕ, zero, suc, ◌+◌, ◌-◌, ◌≤◌, ◌<◌, ◌≡◌, ◌⊎◌, inl, inr, refl, sym, ap, subst, ◌∙◌, arith, true,
  false, ◌==◌, Bool-cases, ==→eq, List, [], ◌∷◌,
}
use laige_cpp.Prelude.Marks.{
  live_count-all, live_count-full, live_count-le, placed_in, placed_in-position, position,
}
use laige_cpp.Systems.Kahn.{
  Placing, has_id, first_ready, start_placing, if_picked, place_system, place_all, topological_sort,
}
use laige_cpp.Systems.Kahn.Greedy.{all_placed, IsGreedy, AreIds}
use laige_cpp.Systems.Kahn.Rounds.{
  PlacingInv, start_placing-Inv, AreDeps, place_system-Inv, ready_iff,
}
use laige_cpp.Systems.Kahn.Ready.{first_ready-found, first_ready-none}

-- The loop ends with all systems placed, or when none is ready.
record Ends (n : ℕ) (dep_ids : ℕ → List ℕ) (st : Placing) : Type 0 where
  inv : PlacingInv n dep_ids st
  stops : (st.placed ≡ n) ⊎ (first_ready n 0 st ≡ 0)

ℕ-cases : (a : ℕ) → (a ≡ 0) ⊎ ((x : ℕ) × (a ≡ suc x))
ℕ-cases zero = inl refl
ℕ-cases (suc x) = inr (x, refl)

-- A rank under which each system stands above what it depends on.
unfoldable pub IsRank : ℕ → (ℕ → List ℕ) → (ℕ → ℕ) → Type 0
IsRank n dep_ids rank = (i d : ℕ) → i < n → has_id d (dep_ids i) ≡ true → rank (d - 1) < rank i

placed_in_mono :
    (k m : ℕ) (order : ℕ → ℕ) (d : ℕ)
    → k ≤ m
    → placed_in k order d ≡ true
    → placed_in m order d ≡ true
placed_in_mono k zero order d l h =
    let e : k ≡ 0 = omega arith in subst (λ j. placed_in j order d ≡ true) e h
placed_in_mono k (suc m) order d l h = elim (Bool-cases (k == suc m)) [
  | inl t ↦ subst (λ j. placed_in j order d ≡ true) (==→eq k (suc m) t) h
  | inr t ↦ rw (placed_in_mono k m order d (ground arith) h) refl
]

-- What is among the first `k` has its index below `k`, however many entries follow.
position_below :
    (k m : ℕ) (order : ℕ → ℕ) (d : ℕ) → k ≤ m → placed_in k order d ≡ true → position m order d < k
position_below k zero order d l h =
    let e : k ≡ 0 = omega arith in
    let bad : placed_in 0 order d ≡ true = subst (λ j. placed_in j order d ≡ true) e h in
    absurd (ground (arith, bad))
position_below k (suc m) order d l h = elim (Bool-cases (k == suc m)) [
  | inl t ↦
      let e = ==→eq k (suc m) t in
      let there : placed_in (suc m) order d ≡ true = subst (λ j. placed_in j order d ≡ true) e h in
      omega (arith, e, (placed_in-position (suc m) order d there).0)
  | inr t ↦
      let there = placed_in_mono k m order d (ground arith) h in
      rw there (position_below k m order d (ground arith) h)
]

pub all_placed-has_id :
    (k : ℕ) (order : ℕ → ℕ) (ds : List ℕ) (d : ℕ)
    → all_placed k order ds ≡ true
    → has_id d ds ≡ true
    → placed_in k order d ≡ true
all_placed-has_id k order [] d a h = absurd (ground (arith, h))
all_placed-has_id k order (x ∷ xs) d a h = elim (Bool-cases (x == d)) [
  | inl t ↦ subst (λ y. placed_in k order y ≡ true) (==→eq x d t) (ground (arith, a))
  | inr t ↦ all_placed-has_id k order xs d (ground (arith, a)) (ground (arith, h, t))
]

not_all_placed :
    (k : ℕ) (order : ℕ → ℕ) (ds : List ℕ)
    → all_placed k order ds ≡ false
    → (d : ℕ) × ((has_id d ds ≡ true) × (placed_in k order d ≡ false))
not_all_placed k order [] a = absurd (ground (arith, a))
not_all_placed k order (x ∷ xs) a = elim (Bool-cases (placed_in k order x)) [
  | inl t ↦
      let rest = not_all_placed k order xs (ground (arith, a, t)) in
      (rest.0, (ground (arith, rest.1.0), rest.1.1))
  | inr t ↦ (x, (ground arith, t))
]

AreIds-has_id : (n : ℕ) (ds : List ℕ) (d : ℕ) → AreIds n ds → has_id d ds ≡ true → (1 ≤ d) × (d ≤ n)
unfolding AreIds
AreIds-has_id n [] d h on = absurd (ground (arith, on))
AreIds-has_id n (x ∷ xs) d h on = elim (Bool-cases (x == d)) [
  | inl t ↦ let e = ==→eq x d t in omega (arith, e, h.0, h.1)
  | inr t ↦ AreIds-has_id n xs d h.3 (ground (arith, on, t))
]

module _ (n : ℕ) (dep_ids : ℕ → List ℕ) (deps : AreDeps n dep_ids) where
  place_all-picked :
      (left : ℕ) (st : Placing) (x : ℕ)
      → first_ready n 0 st ≡ suc x
      → place_all dep_ids n (suc left) st
        ≡ place_all dep_ids n left (place_system dep_ids n (suc x) st)
  unfolding place_all
  place_all-picked left st x e =
      ap (if_picked st (λ i. place_all dep_ids n left (place_system dep_ids n (suc i) st))) e

  place_all-stuck :
      (left : ℕ) (st : Placing) → first_ready n 0 st ≡ 0 → place_all dep_ids n (suc left) st ≡ st
  unfolding place_all
  place_all-stuck left st e =
      ap (if_picked st (λ i. place_all dep_ids n left (place_system dep_ids n (suc i) st))) e

  place_all-Ends :
      (left : ℕ) (st : Placing)
      → PlacingInv n dep_ids st
      → st.placed + left ≡ n
      → Ends n dep_ids (place_all dep_ids n left st)
  unfolding place_all
  place_all-Ends zero st v e = record { inv = v; stops = inl (omega (arith, e)) }
  place_all-Ends (suc left) st v e = elim (ℕ-cases (first_ready n 0 st)) [
    | inl none_ready ↦
        rw (place_all-stuck left st none_ready) record { inv = v; stops = inr none_ready }
    | inr (x, found) ↦
        let ready = first_ready-found n 0 x st found in
        let next =
          place_system-Inv n dep_ids deps st x v (omega (arith, ready.0)) ready.1
            (λ j l. ready.2 j (omega arith) l) in
        rw (place_all-picked left st x found) (
          place_all-Ends left (place_system dep_ids n (suc x) st) next.0 (omega (arith, next.1, e)))
  ]

  topological_sort-Ends : (order : ℕ → ℕ) → Ends n dep_ids (topological_sort dep_ids n order)
  unfolding start_placing
  topological_sort-Ends order =
      place_all-Ends n (start_placing dep_ids order) (start_placing-Inv n dep_ids order)
        (omega arith)

  -- If none is ready, all that have a rank are placed.
  ranked_placed :
      (st : Placing) (rank : ℕ → ℕ)
      → PlacingInv n dep_ids st
      → first_ready n 0 st ≡ 0
      → IsRank n dep_ids rank
      → (r i : ℕ) → i < n
      → rank i < r
      → placed_in st.placed st.order (suc i) ≡ true
  unfolding IsRank
  ranked_placed st rank v stuck ranks zero i l m = absurd (omega arith)
  ranked_placed st rank v stuck ranks (suc r) i l m =
      elim (Bool-cases (placed_in st.placed st.order (suc i))) [
        | inl t ↦ t
        | inr t ↦
            let idle = first_ready-none n 0 st stuck i (omega arith) (omega arith) in
            let blocked : all_placed st.placed st.order (dep_ids i) ≡ false =
              ground (arith, ready_iff n dep_ids deps st i v l, idle, t) in
            let (d, (on, off)) = not_all_placed st.placed st.order (dep_ids i) blocked in
            let range = AreIds-has_id n (dep_ids i) d (deps.known i l) on in
            let lower : rank (d - 1) < rank i = ranks i d l on in
            let again =
              ranked_placed st rank v stuck ranks r (d - 1) (omega (arith, range))
                (omega (arith, lower)) in
            let e : suc (d - 1) ≡ d = omega (arith, range) in
            absurd (ground (arith, subst (λ y. placed_in st.placed st.order y ≡ true) e again, off))
      ]

  -- With a rank, all systems are placed.
  pub topological_sort_complete :
      (order rank : ℕ → ℕ) → IsRank n dep_ids rank → (topological_sort dep_ids n order).placed ≡ n
  topological_sort_complete order rank ranks =
      let st = topological_sort dep_ids n order in
      let ends = topological_sort-Ends order in
      elim ends.stops [
        | inl all ↦ all
        | inr stuck ↦
            sym ends.inv.counted
            ∙ live_count-all n st.scheduled (λ i l.
              ends.inv.marked i
              ∙ ranked_placed st rank ends.inv stuck ranks (suc (rank i)) i l (omega arith))
      ]

  pub topological_sort_at_most : (order : ℕ → ℕ) → (topological_sort dep_ids n order).placed ≤ n
  topological_sort_at_most order =
      let st = topological_sort dep_ids n order in
      omega (arith, (topological_sort-Ends order).inv.counted, live_count-le n st.scheduled)

  -- All systems are placed: the order is greedy, and has each of them.
  pub topological_sort_order :
      (order : ℕ → ℕ)
      → (topological_sort dep_ids n order).placed ≡ n
      → IsGreedy n dep_ids (topological_sort dep_ids n order).order n
        × ((i : ℕ) → i < n → placed_in n (topological_sort dep_ids n order).order (suc i) ≡ true)
  topological_sort_order order all =
      let st = topological_sort dep_ids n order in
      let inv = (topological_sort-Ends order).inv in
      (
        subst (IsGreedy n dep_ids st.order) all inv.greedy,
        λ i l.
            subst (λ k. placed_in k st.order (suc i) ≡ true) all
              (sym (inv.marked i) ∙ live_count-full n st.scheduled (inv.counted ∙ all) i l),
      )

-- A greedy order that has each system is a rank.
pub IsGreedy-IsRank :
    (n : ℕ) (dep_ids : ℕ → List ℕ) (order : ℕ → ℕ)
    → ((i : ℕ) → i < n → AreIds n (dep_ids i))
    → IsGreedy n dep_ids order n
    → ((i : ℕ) → i < n → placed_in n order (suc i) ≡ true)
    → IsRank n dep_ids (λ i. position n order (suc i))
unfolding IsGreedy IsRank
IsGreedy-IsRank n dep_ids order known v all i d l on =
    let range = AreIds-has_id n (dep_ids i) d (known i l) on in
    let spot = placed_in-position n order (suc i) (all i l) in
    let e : order (position n order (suc i)) - 1 ≡ i = omega (arith, spot.1) in
    let behind =
      subst (λ j. all_placed (position n order (suc i)) order (dep_ids j) ≡ true) e
        (v (position n order (suc i)) spot.0).behind in
    let earlier = all_placed-has_id (position n order (suc i)) order (dep_ids i) d behind on in
    let f : suc (d - 1) ≡ d = omega (arith, range) in
    subst (λ y. position n order y < position n order (suc i)) (sym f)
      (position_below (position n order (suc i)) n order d (omega (arith, spot.0)) earlier)
