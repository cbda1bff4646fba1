-- ===== src/Ecs/Entities/Clear.antt =====
-- `clear` of src/laige-sim/entity.cpp keeps the invariant of the world.
use laige_cpp.Prelude.{
  ℕ, zero, suc, ◌+◌, ◌≤◌, ◌<◌, ◌≡◌, ◌⊎◌, refl, sym, ◌∙◌, arith, true, false, ◌&&◌, Bool-cases, inl,
  inr, ◌==◌, if◌then◌else◌,
}
use laige_cpp.Prelude.Marks.{live_count-none}
use laige_cpp.Ecs.Archetypes.Records.{detach-capacity, reset-Inv}
use laige_cpp.Ecs.Entities.{World, release, clear_slot, rejects_clear, clear_from, clear}
use laige_cpp.Ecs.Entities.Invariant.{SlotsInv, WorldInv, recount, release-SlotsInv}

module _ {V : Type 0} where
  release-dead :
      (i j : ℕ) (w : World V) → (release i w).alive j ≡ (if i == j then false else w.alive j)
  unfolding release
  release-dead i j w = refl

  clear_slot-SlotsInv :
      (i : ℕ) (w : World V) → w.alive i ≡ true → SlotsInv w → SlotsInv (clear_slot i w)
  unfolding clear_slot
  clear_slot-SlotsInv i w on v =
      let r = release-SlotsInv i w on v in
      record {
        store = reset-Inv i _ r.store (r.bare i (release-dead i i w ∙ ground arith));
        counted = r.counted;
        stacked = r.stacked;
        distinct = r.distinct;
        bare = λ k e. ground (arith, r.bare k);
        held = r.held;
        numbered = r.numbered;
      }

  cleared :
      (i j : ℕ) (w : World V)
      → (if w.alive i then clear_slot i w else w).alive j ≡ (if i == j then false else w.alive j)
  unfolding clear_slot release
  cleared i j w = elim (Bool-cases (w.alive i)) [ inl t ↦ rw t refl | inr t ↦ rw t (ground arith) ]

  clear_from-SlotsInv : (left i : ℕ) (w : World V) → SlotsInv w → SlotsInv (clear_from left i w)
  unfolding clear_from
  clear_from-SlotsInv zero i w v = v
  clear_from-SlotsInv (suc left) i w v = elim (Bool-cases (w.alive i)) [
    | inl t ↦ rw t (clear_from-SlotsInv left (i + 1) (clear_slot i w) (clear_slot-SlotsInv i w t v))
    | inr t ↦ rw t (clear_from-SlotsInv left (i + 1) w v)
  ]

  slot-frame :
      (i : ℕ) (w : World V)
      → ((if w.alive i then clear_slot i w else w).storage.capacity ≡ w.storage.capacity)
        × ((if w.alive i then clear_slot i w else w).peak_in_use ≡ w.peak_in_use)
  unfolding clear_slot release
  slot-frame i w = elim (Bool-cases (w.alive i)) [
    | inl t ↦ rw t (detach-capacity i w.storage, refl)
    | inr t ↦ rw t (refl, refl)
  ]

  clear_from-frame :
      (left i : ℕ) (w : World V)
      → ((clear_from left i w).storage.capacity ≡ w.storage.capacity)
        × ((clear_from left i w).peak_in_use ≡ w.peak_in_use)
  unfolding clear_from
  clear_from-frame zero i w = (refl, refl)
  clear_from-frame (suc left) i w =
      let (c, p) = clear_from-frame left (i + 1) (if w.alive i then clear_slot i w else w) in
      let (c', p') = slot-frame i w in (c ∙ c', p ∙ p')

  clear_from-dead :
      (left i j : ℕ) (w : World V)
      → (w.alive j ≡ false) ⊎ ((i ≤ j) × (j < i + left))
      → (clear_from left i w).alive j ≡ false
  unfolding clear_from
  clear_from-dead zero i j w h = ground arith
  clear_from-dead (suc left) i j w h =
      clear_from-dead left (i + 1) j (if w.alive i then clear_slot i w else w)
        (rw (cleared i j w) (ground arith))

  in_reach :
      (w : World V)
      → SlotsInv w
      → (j : ℕ) → (w.alive j ≡ false) ⊎ ((0 ≤ j) × (j < 0 + w.storage.capacity))
  in_reach w v j = elim (Bool-cases (w.alive j)) [
    | inl t ↦ inr (omega arith, omega (arith, v.held j t))
    | inr t ↦ inl t
  ]

  -- `clear` keeps the invariant, whatever it answers.
  pub clear-WorldInv : (w : World V) → WorldInv w → WorldInv (clear w).1
  unfolding clear
  clear-WorldInv w v =
      elim (Bool-cases (w.iteration_active && rejects_clear w.storage.archetype_count 0 w)) [
        | inl t ↦ rw t v
        | inr t ↦
            let (same, peak) = clear_from-frame w.storage.capacity 0 w in
            let dead = λ (j : ℕ). clear_from-dead w.storage.capacity 0 j w (in_reach w v.slots j) in
            let none_live =
              live_count-none (clear_from w.storage.capacity 0 w).storage.capacity _
                (λ j h. dead j) in
            rw t (record {
              slots = recount 0 (clear_from-SlotsInv w.storage.capacity 0 w v.slots);
              using = sym none_live;
              fits = omega arith;
              peak_fits = rw (same, peak) v.peak_fits;
            })
      ]
