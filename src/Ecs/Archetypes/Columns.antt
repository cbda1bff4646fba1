-- ===== src/Ecs/Archetypes/Columns.antt =====
-- Slot columns: the search for a row, and what the moves of rows and the loop over `rowOf_` of
-- src/laige-sim/archetype.cpp do.
use laige_cpp.Prelude.{
  ℕ, zero, suc, ◌+◌, ◌≤◌, ◌<◌, ◌≡◌, ◌≢◌, inl, inr, refl, ◌∙◌, arith, Bool-cases, leb, ltb, ◌==◌,
  update,
}
use laige_cpp.Ecs.Archetypes.{insertion_row, middle, sync_rows}

-- The first `n` entries are strictly ascending.
abbrev pub IsAscending : ℕ → (ℕ → ℕ) → Type 0
IsAscending n col = (i j : ℕ) → i < j → j < n → col i < col j

-- `row` is where a slot goes: the rows before it hold slots up to it, the others greater ones.
pub record IsPlace (n : ℕ) (col : ℕ → ℕ) (slot row : ℕ) : Type 0 where
  pub inside : row ≤ n
  pub before : (i : ℕ) → i < row → col i ≤ slot
  pub behind : (i : ℕ) → row ≤ i → i < n → slot < col i

insertion_row_between :
    (fuel n lo hi : ℕ) (col : ℕ → ℕ) (slot : ℕ)
    → IsAscending n col
    → lo ≤ hi
    → hi ≤ n
    → hi ≤ lo + fuel
    → ((i : ℕ) → i < lo → col i ≤ slot)
    → ((i : ℕ) → hi ≤ i → i < n → slot < col i)
    → IsPlace n col slot (insertion_row fuel col slot lo hi)
unfolding insertion_row
insertion_row_between zero n lo hi col slot a l m f b e = record {
  inside = omega arith;
  before = b;
  behind = λ i p q. e i (omega arith) q;
}
insertion_row_between (suc fuel) n lo hi col slot a l m f b e = elim (Bool-cases (ltb lo hi)) [
  | inr t ↦
      rw t (record { inside = omega arith; before = b; behind = λ i p q. e i (ground arith) q })
  | inl t ↦
      let lt : lo < hi = ground arith in
      elim (Bool-cases (leb (col (middle lo hi)) slot)) [
        | inl u ↦
            rw (t, u)
              (insertion_row_between fuel n (middle lo hi + 1) hi col slot a (omega arith) m
                (omega arith) (λ i p. ground (arith, a i (middle lo hi))) e)
        | inr u ↦
            rw (t, u)
              (insertion_row_between fuel n lo (middle lo hi) col slot a (omega arith) (omega arith)
                (omega arith) b (λ i p q. ground (arith, a (middle lo hi) i)))
      ]
]

-- The search over a whole column finds the place.
pub insertion_row-IsPlace :
    (n : ℕ) (col : ℕ → ℕ) (slot : ℕ)
    → IsAscending n col
    → IsPlace n col slot (insertion_row n col slot 0 n)
insertion_row-IsPlace n col slot a =
    insertion_row_between n n 0 n col slot a (omega arith) (omega arith) (omega arith)
      (λ i p. absurd (omega arith)) (λ i p q. absurd (omega arith))

-- The loop over `rowOf_` writes nothing at the slots that it does not meet.
pub sync_rows_other :
    (left r : ℕ) (col row_of : ℕ → ℕ) (s : ℕ)
    → ((j : ℕ) → r ≤ j → j < r + left → col j ≢ s)
    → sync_rows left r col row_of s ≡ row_of s
unfolding sync_rows
sync_rows_other zero r col row_of s h = refl
sync_rows_other (suc left) r col row_of s h =
    let rest =
      sync_rows_other left (r + 1) col (update row_of (col r) r) s
        (λ j p q. h j (omega arith) (omega arith)) in
    ground (arith, h r, rest)

-- And the number of the row at those that it meets.
pub sync_rows_hit :
    (left r : ℕ) (col row_of : ℕ → ℕ) (j : ℕ)
    → IsAscending (r + left) col
    → r ≤ j
    → j < r + left
    → sync_rows left r col row_of (col j) ≡ j
unfolding sync_rows
sync_rows_hit zero r col row_of j a p q = absurd (omega arith)
sync_rows_hit (suc left) r col row_of j a p q = elim (Bool-cases (r == j)) [
  | inl t ↦
      let e : r ≡ j = ground arith in
      sync_rows_other left (r + 1) col (update row_of (col r) r) (col j)
        (λ i u v. λ same. absurd (ground (arith, a r i)))
      ∙ ground arith
  | inr t ↦
      sync_rows_hit left (r + 1) col (update row_of (col r) r) j (λ i k u v. a i k u (omega arith))
        (ground arith) (omega arith)
]
