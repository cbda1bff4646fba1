-- ===== src/Systems/Kahn/Unique.antt =====
-- The order of the topological sort of `World::scheduleSystems` (src/laige-sim/systems.cpp) is decided by the
-- dependencies.
use laige_cpp.Prelude.{
  ℕ, zero, suc, ◌-◌, ◌≤◌, ◌<◌, ◌≡◌, inl, inr, refl, sym, subst, arith, true, false, ◌==◌, ltb,
  Bool-cases, ==→eq, ==_self, leb, le→leb, List, [], ◌∷◌,
}
use laige_cpp.Prelude.Marks.{placed_in}
use laige_cpp.Systems.Kahn.{has_id}
use laige_cpp.Systems.Kahn.Greedy.{all_placed, IsNext, IsGreedy}

placed_in-same :
    (k : ℕ) (order others : ℕ → ℕ) (d : ℕ)
    → ((j : ℕ) → j < k → order j ≡ others j)
    → placed_in k order d ≡ placed_in k others d
placed_in-same zero order others d h = refl
placed_in-same (suc k) order others d h =
    rw (h k (omega arith), placed_in-same k order others d (λ j l. h j (omega arith))) refl

all_placed-same :
    (k : ℕ) (order others : ℕ → ℕ) (ds : List ℕ)
    → ((j : ℕ) → j < k → order j ≡ others j)
    → all_placed k order ds ≡ all_placed k others ds
all_placed-same k order others [] h = refl
all_placed-same k order others (d ∷ ds) h =
    rw (placed_in-same k order others d h, all_placed-same k order others ds h) refl

-- Behind the same entries, only one id may follow.
next_not_above :
    (n : ℕ) (dep_ids : ℕ → List ℕ) (order others : ℕ → ℕ) (k x y : ℕ)
    → ((j : ℕ) → j < k → order j ≡ others j)
    → IsNext n dep_ids order k x
    → IsNext n dep_ids others k y
    → y ≤ x
next_not_above n dep_ids order others k x y h v w = elim (Bool-cases (ltb x y)) [
  | inl t ↦
      let e : suc (x - 1) ≡ x = omega (arith, v.positive) in
      let lower : suc (x - 1) < y = ground (arith, e) in
      let least = w.least (x - 1) lower in
      absurd (
        ground (
          arith,
          least,
          subst (λ z. placed_in k order z ≡ false) (sym e) v.fresh,
          v.behind,
          placed_in-same k order others (suc (x - 1)) h,
          all_placed-same k order others (dep_ids (x - 1)) h,
        ))
  | inr t ↦ ground arith
]

same_below :
    (n m : ℕ) (dep_ids : ℕ → List ℕ) (order others : ℕ → ℕ)
    → IsGreedy n dep_ids order m
    → IsGreedy n dep_ids others m
    → (k b : ℕ) → b ≤ m
    → k < b
    → order k ≡ others k
unfolding IsGreedy
same_below n m dep_ids order others v w k zero l p = absurd (omega arith)
same_below n m dep_ids order others v w k (suc b) l p = elim (Bool-cases (k == b)) [
  | inl t ↦
      let e = ==→eq k b t in
      let before = λ (j : ℕ) (q : j < k).
        same_below n m dep_ids order others v w j b (omega arith) (omega arith) in
      let le =
        next_not_above n dep_ids order others k (order k) (others k) before (v k (omega arith))
          (w k (omega arith)) in
      let ge =
        next_not_above n dep_ids others order k (others k) (order k) (λ j q. sym (before j q))
          (w k (omega arith)) (v k (omega arith)) in
      omega (arith, le, ge)
  | inr t ↦ same_below n m dep_ids order others v w k b (omega arith) (ground arith)
]

pub IsGreedy-unique :
    (n m : ℕ) (dep_ids : ℕ → List ℕ) (order others : ℕ → ℕ)
    → IsGreedy n dep_ids order m
    → IsGreedy n dep_ids others m
    → (k : ℕ) → k < m
    → order k ≡ others k
IsGreedy-unique n m dep_ids order others v w k l =
    same_below n m dep_ids order others v w k m (omega arith) l

placed_in-suc : (k d : ℕ) → 1 ≤ d → placed_in k suc d ≡ leb d k
placed_in-suc zero d p = ground arith
placed_in-suc (suc k) d p = rw (placed_in-suc k d p) (ground arith)

all_placed-of :
    (k : ℕ) (order : ℕ → ℕ) (ds : List ℕ)
    → ((d : ℕ) → has_id d ds ≡ true → placed_in k order d ≡ true)
    → all_placed k order ds ≡ true
all_placed-of k order [] h = refl
all_placed-of k order (d ∷ ds) h =
    let here = h d (rw (==_self d) refl) in
    rw (here, all_placed-of k order ds (λ e on. h e (rw on (ground arith)))) refl

-- If each system depends on earlier ones, the order of the ids is greedy.
pub IsGreedy-ids :
    (n : ℕ) (dep_ids : ℕ → List ℕ)
    → ((i d : ℕ) → i < n → has_id d (dep_ids i) ≡ true → (1 ≤ d) × (d ≤ i))
    → IsGreedy n dep_ids suc n
unfolding IsGreedy
IsGreedy-ids n dep_ids earlier k l =
    let e : suc k - 1 ≡ k = omega arith in
    record {
      positive = omega arith;
      bounded = omega arith;
      fresh = rw (placed_in-suc k (suc k) (omega arith)) (ground arith);
      behind = rw e (
          all_placed-of k suc (dep_ids k) (λ d on.
            let range = earlier k d l on in rw (placed_in-suc k d range.0) (le→leb d k range.1)));
      least =
          λ i p. rw (placed_in-suc k (suc i) (omega arith), le→leb (suc i) k (omega arith)) refl;
    }
