-- ===== src/Ecs/Archetypes/Moves.antt =====
-- A row taken out of a slot column, and a slot put in at its place (`removeRow` and `attachSlot` of
-- src/laige-sim/archetype.cpp), with the records of the rows.
use laige_cpp.Prelude.{
  ℕ, ◌+◌, ◌-◌, ◌<◌, ◌≡◌, ◌≢◌, ◌⊎◌, inl, inr, refl, ◌∙◌, arith, ◌&&◌, Bool-cases, leb, ltb, ◌==◌,
  if◌then◌else◌, update,
}
use laige_cpp.Ecs.Archetypes.{sync_rows, shift_left, shift_right}
use laige_cpp.Ecs.Archetypes.Columns.{IsAscending, IsPlace, sync_rows_other, sync_rows_hit}

-- Every slot of the first column is one of the second.
abbrev pub AreAmong : ℕ → (ℕ → ℕ) → ℕ → (ℕ → ℕ) → Type 0
AreAmong n col m col' = (r : ℕ) → r < n → (r' : ℕ) × (r' < m) × (col' r' ≡ col r)

-- `rowOf_` knows the row of every slot of a column.
abbrev pub IsSynced : ℕ → (ℕ → ℕ) → (ℕ → ℕ) → Type 0
IsSynced n col row_of = (r : ℕ) → r < n → row_of (col r) ≡ r

-- Where the other rows go, in the slot column and in every other column: after a row is taken out, and
-- after one is put in.
abbrev pub left_row : ℕ → ℕ → ℕ
left_row row r = if ltb r row then r else r - 1

pub shift_left-left_row :
    {A : Type 0} (n row r : ℕ) (f : ℕ → A)
    → row < n
    → r < n
    → r ≢ row
    → (left_row row r < n - 1) × (shift_left row n f (left_row row r) ≡ f r)
shift_left-left_row n row r f l p ne = (ground arith, ground arith)

abbrev pub right_row : ℕ → ℕ → ℕ
right_row row r = if ltb r row then r else r + 1

pub shift_right-right_row :
    {A : Type 0} (n row r : ℕ) (f : ℕ → A)
    → r < n
    → (right_row row r < n + 1) × (shift_right row n f (right_row row r) ≡ f r)
shift_right-right_row n row r f p = (ground arith, ground arith)

module _ (n row : ℕ) (col row_of : ℕ → ℕ) (a : IsAscending n col) where
  abbrev left_col : ℕ → ℕ
  left_col = shift_left row n col

  pub left-IsAscending : row < n → IsAscending (n - 1) left_col
  left-IsAscending l i j p q = ground (arith, a i j, a i (j + 1), a (i + 1) (j + 1))

  pub left-IsSynced :
      row < n
      → IsSynced n col row_of
      → IsSynced (n - 1) left_col (sync_rows (n - 1 - row) row left_col row_of)
  left-IsSynced l s r p = elim (Bool-cases (leb row r)) [
    | inl t ↦
        sync_rows_hit (n - 1 - row) row left_col row_of r
          (λ i j u v. left-IsAscending l i j u (omega arith)) (ground arith) (omega arith)
    | inr t ↦
        sync_rows_other (n - 1 - row) row left_col row_of (left_col r)
          (λ j u v. λ same. absurd (ground (arith, left-IsAscending l r j)))
        ∙ ground (arith, s r)
  ]

  -- What is left: all slots but the one that is taken out.
  pub left-AreAmong : AreAmong (n - 1) left_col n col
  left-AreAmong r p = elim (Bool-cases (leb row r && ltb (r + 1) n)) [
    | inl t ↦ (r + 1, omega arith, rw t refl)
    | inr t ↦ (r, omega arith, rw t refl)
  ]

  pub left_gone : row < n → (r : ℕ) → r < n - 1 → left_col r ≢ col row
  left_gone l r p = λ same. absurd (ground (arith, a row (r + 1), a r row))

module _ (n slot row : ℕ) (col row_of : ℕ → ℕ) (a : IsAscending n col) where
  abbrev right_col : ℕ → ℕ
  right_col = update (shift_right row n col) row slot

  module _ (place : IsPlace n col slot row) (new : (r : ℕ) → r < n → col r ≢ slot) where
    pub right-IsAscending : IsAscending (n + 1) right_col
    right-IsAscending i j p q = ground (
      arith,
      a i j,
      a (i - 1) (j - 1),
      a i (j - 1),
      place.before i,
      place.behind (j - 1),
      new i,
      place.inside,
    )

    pub right-IsSynced :
        IsSynced n col row_of
        → IsSynced (n + 1) right_col (sync_rows (n + 1 - row) row right_col row_of)
    right-IsSynced s r p = elim (Bool-cases (leb row r)) [
      | inl t ↦
          sync_rows_hit (n + 1 - row) row right_col row_of r
            (λ i j u v. right-IsAscending i j u (omega (arith, place.inside))) (ground arith)
            (omega (arith, place.inside))
      | inr t ↦
          sync_rows_other (n + 1 - row) row right_col row_of (right_col r)
            (λ j u v. λ same. absurd (ground (arith, right-IsAscending r j, place.inside)))
          ∙ ground (arith, s r, place.inside)
    ]

    -- What is there: the slots of before, and the new one.
    pub right_from :
        (r : ℕ) → r < n + 1 → (right_col r ≡ slot) ⊎ ((r' : ℕ) × (r' < n) × (right_col r ≡ col r'))
    right_from r p = elim (Bool-cases (row == r)) [
      | inl t ↦ inl (ground arith)
      | inr t ↦ elim (Bool-cases (ltb row r)) [
        | inl u ↦ inr (r - 1, ground arith, ground arith)
        | inr u ↦ inr (r, ground (arith, place.inside), ground arith)
      ]
    ]

    pub right_new : right_col row ≡ slot
    right_new = ground arith
