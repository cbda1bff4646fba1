-- ===== src/Systems/Kahn/Rounds.antt =====
-- The invariant of the topological sort of `World::scheduleSystems` (src/laige-sim/systems.cpp).
use laige_cpp.Prelude.{
  ℕ, suc, ◌+◌, ◌-◌, ◌^◌, ◌≤◌, ◌<◌, ◌≡◌, inl, inr, refl, sym, ap, subst, ◌∙◌, arith, Bool, true,
  false, not, ◌&&◌, ◌||◌, ◌==◌, Bool-cases, ==_self, ltb, leb, if◌then◌else◌, List, [], ◌∷◌, length,
  update,
}
use laige_cpp.Prelude.Marks.{live_count-none, live_count, live_count-update, placed_in}
use native.Mathlib.Nat.{le_refl}
use laige_cpp.Systems.Kahn.{
  Placing, has_id, dec16, start_placing, is_ready, release_from, place_system,
}
use laige_cpp.Systems.Kahn.Greedy.{
  AreIds, all_placed, IsNext, IsGreedy, placed_in-update, IsGreedy-snoc,
}
use laige_cpp.Systems.Kahn.Ready.{release_from-frame, release_from-pending}

-- The systems of a list that are not scheduled.
abbrev pub waiting : (ℕ → Bool) → List ℕ → ℕ
waiting scheduled [] = 0
waiting scheduled (d ∷ ds) = (if scheduled (d - 1) then 0 else 1) + waiting scheduled ds

-- Scheduling one more takes it off the lists that it is on.
waiting-update :
    (n : ℕ) (scheduled : ℕ → Bool) (i : ℕ) (ds : List ℕ)
    → AreIds n ds
    → scheduled i ≡ false
    → waiting (update scheduled i true) ds + (if has_id (suc i) ds then 1 else 0)
      ≡ waiting scheduled ds
unfolding AreIds
waiting-update n scheduled i [] h off = refl
waiting-update n scheduled i (d ∷ ds) h off =
    let rest = waiting-update n scheduled i ds h.3 off in
    elim (Bool-cases (d == suc i)) [
      | inl t ↦
          let e : d ≡ suc i = ground arith in
          let alone : has_id (suc i) ds ≡ false = subst (λ x. has_id x ds ≡ false) e h.2 in
          ground (arith, rest, alone, e, off)
      | inr t ↦ ground (arith, rest, h.0, t)
    ]

waiting-le : (scheduled : ℕ → Bool) (ds : List ℕ) → waiting scheduled ds ≤ length ds
waiting-le scheduled [] = omega arith
waiting-le scheduled (d ∷ ds) = ground (arith, waiting-le scheduled ds)

waiting-none : (ds : List ℕ) → waiting (λ i. false) ds ≡ length ds
waiting-none [] = refl
waiting-none (d ∷ ds) = omega (arith, waiting-none ds)

-- How the arrays stand at the head of the loop, with `n` systems.
pub record PlacingInv (n : ℕ) (dep_ids : ℕ → List ℕ) (st : Placing) : Type 0 where
  pub greedy : IsGreedy n dep_ids st.order st.placed
  pub marked : (i : ℕ) → st.scheduled i ≡ placed_in st.placed st.order (suc i)
  pub counted : live_count n st.scheduled ≡ st.placed
  pub waits :
      (i : ℕ) → i < n → st.scheduled i ≡ false → st.pending i ≡ waiting st.scheduled (dep_ids i)

pub start_placing-Inv :
    (n : ℕ) (dep_ids : ℕ → List ℕ) (order : ℕ → ℕ)
    → PlacingInv n dep_ids (start_placing dep_ids order)
unfolding start_placing IsGreedy
start_placing-Inv n dep_ids order = record {
  greedy = λ k l. absurd (omega arith);
  marked = λ i. refl;
  counted = live_count-none n (λ i. false) (λ j l. refl);
  waits = λ i l off. sym (waiting-none (dep_ids i));
}

-- A list of ids waits for none exactly if all of it are placed.
all_placed-waiting :
    (n k : ℕ) (scheduled : ℕ → Bool) (order : ℕ → ℕ) (ds : List ℕ)
    → ((i : ℕ) → scheduled i ≡ placed_in k order (suc i))
    → AreIds n ds
    → (waiting scheduled ds == 0) ≡ all_placed k order ds
unfolding AreIds
all_placed-waiting n k scheduled order [] marks h = refl
all_placed-waiting n k scheduled order (d ∷ ds) marks h =
    let rest = all_placed-waiting n k scheduled order ds marks h.3 in
    let e : suc (d - 1) ≡ d = omega (arith, h.0) in
    let here : scheduled (d - 1) ≡ placed_in k order d = marks (d - 1) ∙ ap (placed_in k order) e in
    elim (Bool-cases (placed_in k order d)) [
      | inl t ↦ rw (here, t) (ground (arith, rest))
      | inr t ↦ rw (here, t) (ground arith)
    ]

-- The dependencies that the sort is given: ids of the systems, each once, and not too many for 16 bits.
pub record AreDeps (n : ℕ) (dep_ids : ℕ → List ℕ) : Type 0 where
  pub known : (i : ℕ) → i < n → AreIds n (dep_ids i)
  pub short : (i : ℕ) → i < n → length (dep_ids i) < 2 ^ 16

not_ready : (new behind : Bool) → (not new && behind) ≡ false → (new || not behind) ≡ true
not_ready true behind e = refl
not_ready false behind e = ground (arith, e)

was_off : (scheduled : ℕ → Bool) (x i : ℕ) → update scheduled x true i ≡ false → scheduled i ≡ false
was_off scheduled x i e = ground (arith, e)

one_less :
    (c : Bool) (p w : ℕ)
    → w + (if c then 1 else 0) ≡ p
    → p < 2 ^ 16
    → (if c then dec16 p else p) ≡ w
one_less true p w e l = omega arith
one_less false p w e l = omega arith

module _ (n : ℕ) (dep_ids : ℕ → List ℕ) (deps : AreDeps n dep_ids) where
  -- To be ready is to be new and behind all that it depends on.
  pub ready_iff :
      (st : Placing) (i : ℕ)
      → PlacingInv n dep_ids st
      → i < n
      → is_ready st i
        ≡ (not (placed_in st.placed st.order (suc i)) && all_placed st.placed st.order (dep_ids i))
  ready_iff st i v l = rw (← (v.marked i)) (elim (Bool-cases (st.scheduled i)) [
    | inl t ↦ rw t refl
    | inr t ↦
        rw (t, v.waits i l t)
          (all_placed-waiting n st.placed st.scheduled st.order (dep_ids i) v.marked
            (deps.known i l))
  ])

  place_system-IsNext :
      (st : Placing) (x : ℕ)
      → PlacingInv n dep_ids st
      → x < n
      → is_ready st x ≡ true
      → ((j : ℕ) → j < x → is_ready st j ≡ false)
      → IsNext n dep_ids st.order st.placed (suc x)
  place_system-IsNext st x v l on first =
      let now = sym (ready_iff st x v l) ∙ on in
      record {
        positive = omega arith;
        bounded = omega arith;
        fresh = ground (arith, now);
        behind = ground (arith, now);
        least = λ i p.
            let before = sym (ready_iff st i v (omega arith)) ∙ first i (omega arith) in
            not_ready (placed_in st.placed st.order (suc i)) _ before;
      }

  -- What one round leaves, for any placing that reads like what it leaves.
  placed-Inv :
      (st new : Placing) (x : ℕ)
      → PlacingInv n dep_ids st
      → x < n
      → st.scheduled x ≡ false
      → IsNext n dep_ids st.order st.placed (suc x)
      → new.order ≡ update st.order st.placed (suc x)
      → new.placed ≡ suc st.placed
      → new.scheduled ≡ update st.scheduled x true
      → ((i : ℕ)
          → i < n
          → new.scheduled i ≡ false
          → new.pending i
            ≡ (if has_id (suc x) (dep_ids i) then dec16 (st.pending i) else st.pending i))
      → PlacingInv n dep_ids new
  placed-Inv st new x v l off next o p m w = record {
    greedy = rw (o, p) (IsGreedy-snoc st.placed (suc x) v.greedy next);
    marked = λ i.
        rw
          (
            m,
            o,
            p,
            placed_in-update st.placed st.placed st.order (suc x) (suc i) (le_refl _),
            ==_self st.placed,
          )
          (ground (arith, v.marked i));
    counted = rw (m, p) (ground (arith, live_count-update n st.scheduled x true, v.counted, off));
    waits = λ i k f.
        let still : st.scheduled i ≡ false =
          was_off st.scheduled x i (ap (λ (s : ℕ → Bool). s i) (sym m) ∙ f) in
        w i k f
        ∙ rw m (
            one_less (has_id (suc x) (dep_ids i)) (st.pending i)
              (waiting (update st.scheduled x true) (dep_ids i))
              (waiting-update n st.scheduled x (dep_ids i) (deps.known i k) off
                ∙ sym (v.waits i k still))
              (omega
                (arith, v.waits i k still, waiting-le st.scheduled (dep_ids i), deps.short i k)));
  }

  pub place_system-Inv :
      (st : Placing) (x : ℕ)
      → PlacingInv n dep_ids st
      → x < n
      → is_ready st x ≡ true
      → ((j : ℕ) → j < x → is_ready st j ≡ false)
      → PlacingInv n dep_ids (place_system dep_ids n (suc x) st)
        × ((place_system dep_ids n (suc x) st).placed ≡ suc st.placed)
  unfolding place_system
  place_system-Inv st x v l on first =
      let mid : Placing = record st {
        order = update st.order st.placed (suc x);
        placed = st.placed + 1;
        scheduled = update st.scheduled (suc x - 1) true;
      } in
      let f = release_from-frame dep_ids n 0 (suc x) mid in
      let more : st.placed + 1 ≡ suc st.placed = omega arith in
      let index : suc x - 1 ≡ x = omega arith in
      let off : st.scheduled x ≡ false = ground (arith, on) in
      (
        placed-Inv st (release_from dep_ids n 0 (suc x) mid) x v l off
            (place_system-IsNext st x v l on first) f.1 (f.2 ∙ more)
            (f.0 ∙ ap (λ y. update st.scheduled y true) index)
            (λ i k g.
              let inside : (leb 0 i && ltb i (0 + n)) ≡ true = ground arith in
              let stays : mid.scheduled i ≡ false = ap (λ (s : ℕ → Bool). s i) (sym f.0) ∙ g in
              release_from-pending dep_ids n 0 (suc x) i mid ∙ rw (inside, stays) refl),
        f.2 ∙ more,
      )
