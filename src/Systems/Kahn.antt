-- ===== src/Systems/Kahn.antt =====
-- The topological sort of `World::scheduleSystems` (src/laige-sim/systems.cpp). Ids count from 1, and the
-- arrays are functions of the index id - 1.
pub mod Greedy
pub mod Ready
pub mod Rounds
pub mod Complete
pub mod Unique
use laige_cpp.Prelude.{
  ℕ, zero, suc, ◌+◌, ◌-◌, ◌%◌, ◌^◌, Bool, true, false, not, ◌&&◌, ◌||◌, ◌==◌, if◌then◌else◌, List,
  [], ◌∷◌, length, update,
}

-- `pending`, `scheduled`, `out.order` and `placed`.
pub record Placing : Type 0 where
  pub pending : ℕ → ℕ
  pub scheduled : ℕ → Bool
  pub order : ℕ → ℕ
  pub placed : ℕ

abbrev pub has_id : ℕ → List ℕ → Bool
has_id x [] = false
has_id x (d ∷ ds) = d == x || has_id x ds

-- `--pending[j - 1]` on 16 bits.
abbrev pub dec16 : ℕ → ℕ
dec16 a = (a + (2 ^ 16 - 1)) % 2 ^ 16

-- Not scheduled, and waits for none.
abbrev pub is_ready : Placing → ℕ → Bool
is_ready st i = not (st.scheduled i) && st.pending i == 0

-- The smallest such system from index `i` on, or 0; `left` systems are to be seen.
unfoldable pub first_ready : ℕ → ℕ → Placing → ℕ
first_ready zero i st = 0
first_ready (suc left) i st =
    let later = first_ready left (i + 1) st in if is_ready st i then suc i else later

-- `if (picked == 0) break`, and what is done if not.
abbrev pub if_picked : Placing → (ℕ → Placing) → ℕ → Placing
if_picked st next zero = st
if_picked st next (suc i) = next i

module _ (dep_ids : ℕ → List ℕ) where
  unfoldable pub start_placing : (ℕ → ℕ) → Placing
  start_placing order = record {
    pending = λ i. length (dep_ids i);
    scheduled = λ i. false;
    order = order;
    placed = 0;
  }

  -- The systems from index `j` on that depend on `picked` wait for one less.
  abbrev pub release_one : ℕ → ℕ → Placing → Placing
  release_one j picked st =
      if not (st.scheduled j) && has_id picked (dep_ids j)
      then record st { pending = update st.pending j (dec16 (st.pending j)) }
      else st

  unfoldable pub release_from : ℕ → ℕ → ℕ → Placing → Placing
  release_from zero j picked st = st
  release_from (suc left) j picked st = release_from left (j + 1) picked (release_one j picked st)

  unfoldable pub place_system : ℕ → ℕ → Placing → Placing
  place_system n picked st = release_from n 0 picked (record st {
    order = update st.order st.placed picked;
    placed = st.placed + 1;
    scheduled = update st.scheduled (picked - 1) true;
  })

  -- The loop, with `left` systems to place; it ends early when all that are left wait.
  unfoldable pub place_all : ℕ → ℕ → Placing → Placing
  place_all n zero st = st
  place_all n (suc left) st =
      if_picked st (λ i. place_all n left (place_system n (suc i) st)) (first_ready n 0 st)

  abbrev pub topological_sort : ℕ → (ℕ → ℕ) → Placing
  topological_sort n order = place_all n n (start_placing order)
