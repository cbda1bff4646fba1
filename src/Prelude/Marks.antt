-- ===== src/Prelude/Marks.antt =====
-- Flags that are counted, and the entries of an order: what is among them, and where.
use Prim.Native.Nat.{ℕ, zero, suc, ◌+◌, ◌≤◌, ◌<◌}
use mathlib.Core.Path.{◌≡◌, refl, sym, subst}
use mathlib.Core.Logic.{inl, inr}
use mathlib.Core.Bool.{Bool, true, false, ◌||◌}
use native.Mathlib.Omega.{arith}
use laige_cpp.Prelude.Tests.{◌==◌, if◌then◌else◌, Bool-cases, ==→eq, ==_self}
use laige_cpp.Prelude.Lists.{update}

-- How many of the first `n` slots are alive.
abbrev pub live_count : ℕ → (ℕ → Bool) → ℕ
live_count zero alive = 0
live_count (suc n) alive = live_count n alive + (if alive n then 1 else 0)

-- Setting one flag changes the count by that flag.
pub live_count-update :
    (n : ℕ) (alive : ℕ → Bool) (i : ℕ) (b : Bool)
    → (i < n
        → live_count n (update alive i b) + (if alive i then 1 else 0)
          ≡ live_count n alive + (if b then 1 else 0))
      × (n ≤ i → live_count n (update alive i b) ≡ live_count n alive)
live_count-update zero alive i b = (λ h. absurd (omega arith), λ h. refl)
live_count-update (suc n) alive i b = ground (arith, live_count-update n alive i b)

pub live_count-le : (n : ℕ) (alive : ℕ → Bool) → live_count n alive ≤ n
live_count-le zero alive = omega arith
live_count-le (suc n) alive = ground (arith, live_count-le n alive)

pub live_count-none :
    (n : ℕ) (alive : ℕ → Bool) → ((j : ℕ) → j < n → alive j ≡ false) → live_count n alive ≡ 0
live_count-none zero alive h = refl
live_count-none (suc n) alive h =
    ground (arith, h n, live_count-none n alive (λ j l. h j (omega arith)))

pub live_count_ext :
    (n : ℕ) (alive others : ℕ → Bool)
    → ((j : ℕ) → alive j ≡ others j)
    → live_count n alive ≡ live_count n others
live_count_ext zero alive others h = refl
live_count_ext (suc n) alive others h = rw (h n, live_count_ext n alive others h) refl

pub live_count-all :
    (n : ℕ) (alive : ℕ → Bool) → ((i : ℕ) → i < n → alive i ≡ true) → live_count n alive ≡ n
live_count-all zero alive h = refl
live_count-all (suc n) alive h =
    let here = h n (omega arith) in
    rw here (omega (arith, live_count-all n alive (λ i l. h i (omega arith))))

pub live_count-full :
    (n : ℕ) (alive : ℕ → Bool) → live_count n alive ≡ n → (i : ℕ) → i < n → alive i ≡ true
live_count-full zero alive e i l = absurd (omega arith)
live_count-full (suc n) alive e i l = elim (Bool-cases (alive n)) [
  | inl t ↦ elim (Bool-cases (i == n)) [
    | inl s ↦ subst (λ j. alive j ≡ true) (sym (==→eq i n s)) t
    | inr s ↦ live_count-full n alive (ground (arith, e, t)) i (ground arith)
  ]
  | inr t ↦ absurd (ground (arith, e, t, live_count-le n alive))
]

-- Whether an id is among the first `k` of an order.
abbrev pub placed_in : ℕ → (ℕ → ℕ) → ℕ → Bool
placed_in zero order d = false
placed_in (suc k) order d = placed_in k order d || order k == d

-- The index of an entry, among the first `k`.
abbrev pub position : ℕ → (ℕ → ℕ) → ℕ → ℕ
position zero order d = 0
position (suc k) order d =
    let before = position k order d in if placed_in k order d then before else k

pub placed_in-position :
    (m : ℕ) (order : ℕ → ℕ) (d : ℕ)
    → placed_in m order d ≡ true
    → (position m order d < m) × (order (position m order d) ≡ d)
placed_in-position zero order d h = absurd (ground (arith, h))
placed_in-position (suc m) order d h = elim (Bool-cases (placed_in m order d)) [
  | inl t ↦ let rest = placed_in-position m order d t in rw t (omega (arith, rest.0), rest.1)
  | inr t ↦ rw t (omega arith, ground (arith, h, t))
]

pub placed_in-entry : (m : ℕ) (order : ℕ → ℕ) (k : ℕ) → k < m → placed_in m order (order k) ≡ true
placed_in-entry zero order k l = absurd (omega arith)
placed_in-entry (suc m) order k l = elim (Bool-cases (k == m)) [
  | inl t ↦ rw (==→eq k m t, ==_self (order m)) (ground arith)
  | inr t ↦ rw (placed_in-entry m order k (ground arith)) refl
]
