-- ===== src/Pools/Pool/Invariant.antt =====
-- The invariant of the slot pool, and that every operation keeps it.
use laige_cpp.Prelude.{
  ℕ, zero, suc, ◌+◌, ◌-◌, ◌^◌, ◌≤◌, ◌<◌, ◌≡◌, ◌≢◌, ◌⊎◌, ◌↔◌, refl, sym, arith, true, false,
  Bool-cases, inl, inr, ◌==◌, if◌then◌else◌, some, none,
}
use laige_cpp.Prelude.Marks.{live_count, live_count-none, live_count-update}
use laige_cpp.Pools.Words.{inc32, dec32}
use laige_cpp.Pools.Pool.{Pool, PoolHandle, is_valid, create, free_slot, destroy, clear_from, clear}

-- What the arrays satisfy, whatever the counter `in_use` says.
pub record SlotsInv {A : Type 0} (p : Pool A) : Type 0 where
  pub bounded : p.capacity < 2 ^ 32
  pub counted : p.free_count + live_count p.capacity p.alive ≡ p.capacity
  pub stacked :
      (k : ℕ)
      → k < p.free_count
      → (p.free_stack k < p.capacity) × (p.alive (p.free_stack k) ≡ false)
  pub distinct :
      (j k : ℕ) → j < p.free_count → k < p.free_count → p.free_stack j ≡ p.free_stack k → j ≡ k
  pub raw : (i : ℕ) → p.alive i ≡ false → p.block i ≡ none
  pub held : (i : ℕ) → p.alive i ≡ true → (i < p.capacity) × ((a : A) × (p.block i ≡ some a))

-- Every slot is alive and holds an element, or dead, raw and on the free stack once; the counters
-- count, and stay within the budget.
pub record Inv {A : Type 0} (p : Pool A) : Type 0 where
  pub slots : SlotsInv p
  pub open slots use *
  pub using : p.in_use ≡ live_count p.capacity p.alive
  pub fits : p.in_use ≤ p.peak_in_use
  pub peak_fits : p.peak_in_use ≤ p.capacity

module _ {A : Type 0} where
  free_slot-SlotsInv :
      (i : ℕ) (p : Pool A) → p.alive i ≡ true → SlotsInv p → SlotsInv (free_slot i p)
  unfolding free_slot
  free_slot-SlotsInv i p on v =
      let inside = (v.held i on).0 in
      let count = live_count-update p.capacity p.alive i false in
      let grown : inc32 p.free_count ≡ p.free_count + 1 =
        ground (arith, v.counted, v.bounded, count) in
      record {
        bounded = v.bounded;
        counted = ground (arith, v.counted, count, grown);
        stacked = λ k h. ground (arith, v.stacked k, grown);
        distinct = λ j k h l e. ground (arith, v.distinct j k, v.stacked j, v.stacked k, grown);
        raw = λ k e. ground (arith, v.raw k);
        held = λ k e. ground (arith, v.held k);
      }

  -- The arrays' invariant does not read the three counters of use.
  relabel :
      {p : Pool A} (in_use peak created : ℕ)
      → SlotsInv p
      → SlotsInv (record p { in_use = in_use; peak_in_use = peak; total_created = created })
  relabel in_use peak created v = record {
    bounded = v.bounded;
    counted = v.counted;
    stacked = v.stacked;
    distinct = v.distinct;
    raw = v.raw;
    held = v.held;
  }

  pub free_slot-count :
      (i : ℕ) (p : Pool A)
      → p.alive i ≡ true
      → SlotsInv p
      → live_count p.capacity (free_slot i p).alive + 1 ≡ live_count p.capacity p.alive
  unfolding free_slot
  free_slot-count i p on v =
      ground (arith, live_count-update p.capacity p.alive i false, v.held i on)

  create-count :
      (a : A) (p : Pool A)
      → p.free_count ≢ 0
      → SlotsInv p
      → live_count p.capacity (create a p).1.alive ≡ live_count p.capacity p.alive + 1
  unfolding create
  create-count a p some_free v =
      let t : (p.free_count == 0) ≡ false = ground arith in
      let top : dec32 p.free_count ≡ p.free_count - 1 = ground (arith, v.counted, v.bounded) in
      let slot = p.free_stack (p.free_count - 1) in
      rw (t, top)
        (ground
          (arith, v.stacked (p.free_count - 1), live_count-update p.capacity p.alive slot true))

  create-SlotsInv : (a : A) (p : Pool A) → p.free_count ≢ 0 → SlotsInv p → SlotsInv (create a p).1
  unfolding create
  create-SlotsInv a p some_free v =
      let t : (p.free_count == 0) ≡ false = ground arith in
      let top : dec32 p.free_count ≡ p.free_count - 1 = ground (arith, v.counted, v.bounded) in
      let slot = p.free_stack (p.free_count - 1) in
      let dead = v.stacked (p.free_count - 1) (omega arith) in
      let count = live_count-update p.capacity p.alive slot true in
      rw (t, top)
        (record {
          bounded = v.bounded;
          counted = ground (arith, v.counted, count, dead);
          stacked = λ k h. ground (arith, v.stacked k, v.distinct k (p.free_count - 1));
          distinct = λ j k h l e. ground (arith, v.distinct j k);
          raw = λ k e. ground (arith, v.raw k);
          held = λ k e. elim (Bool-cases (slot == k)) [
            | inl t ↦ (ground (arith, dead), (a, rw t))
            | inr t ↦ let h = v.held k (rw t at e) in (h.0, (h.1.0, rw t h.1.1))
          ];
        })

  -- `create` keeps the invariant.
  pub create-Inv : (a : A) (p : Pool A) → Inv p → Inv (create a p).1
  unfolding create
  create-Inv a p v = elim (Bool-cases (p.free_count == 0)) [
    | inl t ↦ rw t v
    | inr t ↦
        let some_free : p.free_count ≢ 0 = ground arith in
        let count = rw t at (create-count a p some_free v.slots) in
        let grown : inc32 p.in_use ≡ p.in_use + 1 = ground (arith, v.using, v.counted, v.bounded) in
        rw t (record {
          slots = rw t at (create-SlotsInv a p some_free v.slots);
          using = ground (arith, count, grown, v.using);
          fits = ground arith;
          peak_fits = ground (arith, grown, v.using, v.counted, v.peak_fits);
        })
  ]

  pub is_valid_iff :
      (p : Pool A) (h : PoolHandle)
      → (is_valid p h ≡ true) ↔ (
          (h.index < p.capacity)
          × (h.generation ≢ 0)
          × (p.alive h.index ≡ true)
          × (p.generations h.index ≡ h.generation))
  unfolding is_valid
  is_valid_iff p h = ground arith

  -- `destroy` keeps the invariant.
  pub destroy-Inv : (h : PoolHandle) (p : Pool A) → Inv p → Inv (destroy h p).1
  unfolding destroy free_slot
  destroy-Inv h p v = elim (Bool-cases (is_valid p h)) [
    | inl t ↦
        let on = ((is_valid_iff p h).0 t).2 in
        let w = free_slot-SlotsInv h.index p on v.slots in
        let count = free_slot-count h.index p on v.slots in
        rw t (record {
          slots = relabel _ _ _ w;
          using = ground (arith, v.using, count, v.counted, v.bounded);
          fits = ground (arith, v.using, count, v.counted, v.bounded, v.fits);
          peak_fits = v.peak_fits;
        })
    | inr t ↦ rw t v
  ]

  clear_from-SlotsInv : (left i : ℕ) (p : Pool A) → SlotsInv p → SlotsInv (clear_from left i p)
  unfolding clear_from
  clear_from-SlotsInv zero i p v = v
  clear_from-SlotsInv (suc left) i p v = elim (Bool-cases (p.alive i)) [
    | inl t ↦ rw t (clear_from-SlotsInv left (i + 1) (free_slot i p) (free_slot-SlotsInv i p t v))
    | inr t ↦ rw t (clear_from-SlotsInv left (i + 1) p v)
  ]

  pub clear_from_frame :
      (left i : ℕ) (p : Pool A)
      → ((clear_from left i p).capacity ≡ p.capacity)
        × ((clear_from left i p).peak_in_use ≡ p.peak_in_use)
        × ((clear_from left i p).total_created ≡ p.total_created)
  unfolding clear_from free_slot
  clear_from_frame zero i p = (refl, refl, refl)
  clear_from_frame (suc left) i p =
      ground (arith, clear_from_frame left (i + 1) p, clear_from_frame left (i + 1) (free_slot i p))

  pub cleared :
      (i j : ℕ) (p : Pool A)
      → (if p.alive i then free_slot i p else p).alive j ≡ (if i == j then false else p.alive j)
  unfolding free_slot
  cleared i j p = elim (Bool-cases (p.alive i)) [ inl t ↦ rw t | inr t ↦ rw t (ground arith) ]

  swept :
      (left i j : ℕ) (p : Pool A)
      → (p.alive j ≡ false) ⊎ ((i ≤ j) × (j < i + suc left))
      → ((if p.alive i then free_slot i p else p).alive j ≡ false)
        ⊎ ((i + 1 ≤ j) × (j < i + 1 + left))
  swept left i j p h = rw (cleared i j p) (ground arith)

  clear_from-dead :
      (left i j : ℕ) (p : Pool A)
      → (p.alive j ≡ false) ⊎ ((i ≤ j) × (j < i + left))
      → (clear_from left i p).alive j ≡ false
  unfolding clear_from free_slot
  clear_from-dead zero i j p h = ground arith
  clear_from-dead (suc left) i j p h =
      clear_from-dead left (i + 1) j (if p.alive i then free_slot i p else p) (swept left i j p h)

  in_reach :
      (p : Pool A) → SlotsInv p → (j : ℕ) → (p.alive j ≡ false) ⊎ ((0 ≤ j) × (j < 0 + p.capacity))
  in_reach p v j = elim (Bool-cases (p.alive j)) [
    | inl t ↦ inr (omega arith, omega (arith, (v.held j t).0))
    | inr t ↦ inl t
  ]

  -- `clear` keeps the invariant, leaves no slot alive and the whole budget free, and keeps the
  -- counters since construction.
  pub clear-Inv :
      (p : Pool A)
      → Inv p
      → Inv (clear p)
        × ((j : ℕ) → (clear p).alive j ≡ false)
        × ((clear p).free_count ≡ p.capacity)
        × ((clear p).total_created ≡ p.total_created)
  unfolding clear
  clear-Inv p v =
      let frame = clear_from_frame p.capacity 0 p in
      let after = clear_from-SlotsInv p.capacity 0 p v.slots in
      let dead = λ (j : ℕ). clear_from-dead p.capacity 0 j p (in_reach p v.slots j) in
      let none_live = live_count-none (clear_from p.capacity 0 p).capacity _ (λ j h. dead j) in
      (
        record {
          slots = relabel _ _ _ after;
          using = sym none_live;
          fits = omega arith;
          peak_fits = rw (frame.0, frame.1) v.peak_fits;
        },
        dead,
        omega (arith, after.counted, none_live, frame.0),
        frame.2,
      )
