-- ===== src/Systems/Kahn/Greedy.antt =====
-- What the topological sort of `World::scheduleSystems` (src/laige-sim/systems.cpp) places, and in which order.
use laige_cpp.Prelude.{
  ℕ, zero, suc, ◌-◌, ◌≤◌, ◌<◌, ◌≡◌, inl, inr, refl, ◌∙◌, arith, Bool, true, false, not, ◌&&◌, ◌||◌,
  ◌==◌, Bool-cases, List, [], ◌∷◌, update,
}
use laige_cpp.Prelude.Marks.{placed_in}
use native.Mathlib.Nat.{le_refl}
use laige_cpp.Systems.Kahn.{has_id}

-- The ids of an array of lists: each is one of a system, each is there once, and they are few.
unfoldable pub AreIds : ℕ → List ℕ → Type 0
AreIds n [] = 0 ≤ 0
AreIds n (d ∷ ds) = (1 ≤ d) × (d ≤ n) × (has_id d ds ≡ false) × AreIds n ds

-- Whether all of a list are.
abbrev pub all_placed : ℕ → (ℕ → ℕ) → List ℕ → Bool
all_placed k order [] = true
all_placed k order (d ∷ ds) = placed_in k order d && all_placed k order ds

-- `x` may follow the first `k` of an order: it is an id, not yet there, behind all that it depends on,
-- and the smallest for which this holds.
pub record IsNext (n : ℕ) (dep_ids : ℕ → List ℕ) (order : ℕ → ℕ) (k x : ℕ) : Type 0 where
  pub positive : 1 ≤ x
  pub bounded : x ≤ n
  pub fresh : placed_in k order x ≡ false
  pub behind : all_placed k order (dep_ids (x - 1)) ≡ true
  pub least :
      (i : ℕ)
      → suc i < x
      → (placed_in k order (suc i) || not (all_placed k order (dep_ids i))) ≡ true

unfoldable pub IsGreedy : ℕ → (ℕ → List ℕ) → (ℕ → ℕ) → ℕ → Type 0
IsGreedy n dep_ids order m = (k : ℕ) → k < m → IsNext n dep_ids order k (order k)

pub placed_in-update :
    (k m : ℕ) (order : ℕ → ℕ) (x d : ℕ)
    → k ≤ m
    → placed_in k (update order m x) d ≡ placed_in k order d
placed_in-update zero m order x d l = refl
placed_in-update (suc k) m order x d l =
    ground (arith, placed_in-update k m order x d (omega arith))

pub all_placed-update :
    (k m : ℕ) (order : ℕ → ℕ) (x : ℕ) (ds : List ℕ)
    → k ≤ m
    → all_placed k (update order m x) ds ≡ all_placed k order ds
all_placed-update k m order x [] l = refl
all_placed-update k m order x (d ∷ ds) l =
    rw (placed_in-update k m order x d l, all_placed-update k m order x ds l) refl

module _ {n : ℕ} {dep_ids : ℕ → List ℕ} {order : ℕ → ℕ} where
  IsNext-update :
      (k m x y : ℕ) → k ≤ m → IsNext n dep_ids order k y → IsNext n dep_ids (update order m x) k y
  IsNext-update k m x y l v = record {
    positive = v.positive;
    bounded = v.bounded;
    fresh = placed_in-update k m order x y l ∙ v.fresh;
    behind = all_placed-update k m order x (dep_ids (y - 1)) l ∙ v.behind;
    least = λ i p.
        rw (placed_in-update k m order x (suc i) l, all_placed-update k m order x (dep_ids i) l)
          (v.least i p);
  }

  -- One more entry.
  pub IsGreedy-snoc :
      (m x : ℕ)
      → IsGreedy n dep_ids order m
      → IsNext n dep_ids order m x
      → IsGreedy n dep_ids (update order m x) (suc m)
  unfolding IsGreedy
  IsGreedy-snoc m x v new k l = elim (Bool-cases (m == k)) [
    | inl t ↦
        let e : m ≡ k = ground arith in rw t (rw (← e) (IsNext-update m m x x (le_refl m) new))
    | inr t ↦ rw t (IsNext-update k m x (order k) (ground arith) (v k (ground arith)))
  ]
