-- ===== src/Ecs/Entities/History.antt =====
-- The worlds that the calls of src/laige-sim/entity.cpp and of the archetype storage reach.
use laige_cpp.Prelude.{
  ℕ, zero, suc, ◌+◌, ◌^◌, ◌≤◌, ◌<◌, ◌≡◌, refl, subst, ◌∙◌, arith, Bool, true, false, ltb,
  Bool-cases, inl, inr,
}
use laige_cpp.Prelude.Marks.{live_count-none}
use laige_cpp.Result.{success}
use laige_cpp.Ecs.Archetypes.Detach.{detach-Inv}
use laige_cpp.Ecs.Archetypes.{detach, Archetype, Storage, attach_slot, create_archetype}
use laige_cpp.Ecs.Archetypes.Attach.{attach_slot-Inv}
use laige_cpp.Ecs.Archetypes.Lookup.{create_archetype-Inv}
use laige_cpp.Ecs.Archetypes.Records.{
  attach_slot-archetype_of, detach-archetype_of, detach-capacity,
}
use laige_cpp.Ecs.Entities.{Entity, World, create, destroy, clear, fill, blank_world, init}
use laige_cpp.Ecs.Entities.Invariant.{WorldInv, create-WorldInv, destroy-WorldInv}
use laige_cpp.Ecs.Entities.Clear.{clear-WorldInv}

module _ {V : Type 0} where
  -- The world once the factory has filled the slots below `i`.
  record IsFilled (capacity i : ℕ) (w : World V) : Type 0 where
    pub same_capacity : w.storage.capacity ≡ capacity
    pub no_archetypes : w.storage.archetype_count ≡ 0
    pub bare : (k : ℕ) → w.storage.archetype_of k ≡ 0
    pub free : w.free_count ≡ i
    pub stack : (k : ℕ) → k < i → w.free_stack k ≡ k
    pub first_generation : (k : ℕ) → k < i → w.generations k ≡ 1
    pub all_dead : (k : ℕ) → w.alive k ≡ false
    pub none_used : w.in_use ≡ 0
    pub no_peak : w.peak_in_use ≡ 0

  fill-IsFilled :
      (capacity left i : ℕ) (w : World V)
      → capacity ≤ 2 ^ 16
      → i + left ≡ capacity
      → IsFilled capacity i w
      → IsFilled capacity capacity (fill left i w)
  unfolding fill
  fill-IsFilled capacity zero i w b e f = let e' : i ≡ capacity = omega arith in rw e' at f
  fill-IsFilled capacity (suc left) i w b e f =
      fill-IsFilled capacity left (i + 1) _ b (omega arith) (record {
        same_capacity = f.same_capacity;
        no_archetypes = f.no_archetypes;
        bare = f.bare;
        free = ground (arith, f.free);
        stack = λ k h. ground (arith, f.stack k);
        first_generation = λ k h. ground (arith, f.first_generation k);
        all_dead = f.all_dead;
        none_used = f.none_used;
        no_peak = f.no_peak;
      })

  IsFilled-WorldInv :
      (capacity : ℕ) (w : World V) → capacity ≤ 2 ^ 16 → IsFilled capacity capacity w → WorldInv w
  IsFilled-WorldInv capacity w b f =
      let none_live = live_count-none w.storage.capacity w.alive (λ j h. f.all_dead j) in
      record {
        slots = record {
          store = record {
            bounded = omega (arith, f.same_capacity);
            tables = omega (arith, f.no_archetypes);
            rows = λ k p. absurd (omega (arith, f.no_archetypes));
            assigned = λ k r p q. absurd (omega (arith, f.no_archetypes));
            stands = λ s k e. absurd (omega (arith, f.bare s));
          };
          counted = ground (arith, f.same_capacity, f.free, none_live);
          stacked = λ k h. ground (arith, f.stack k, f.all_dead k, f.same_capacity, f.free);
          distinct = λ j k h l e. ground (arith, f.stack j, f.stack k, f.free);
          bare = λ i e. f.bare i;
          held = λ i e. absurd (ground (arith, f.all_dead i));
          numbered = λ i l. ground (arith, f.first_generation i, f.same_capacity);
        };
        using = omega (arith, f.none_used, none_live);
        fits = omega (arith, f.none_used, f.no_peak);
        peak_fits = omega (arith, f.no_peak);
      }

  store-WorldInv :
      (w : World V) (s : Storage V)
      → WorldInv w
      → laige_cpp.Ecs.Archetypes.Invariant.Inv s
      → s.capacity ≡ w.storage.capacity
      → ((i : ℕ) → w.alive i ≡ false → s.archetype_of i ≡ w.storage.archetype_of i)
      → WorldInv (record w { storage = s })
  store-WorldInv w s v store same bare = record {
    slots = record {
      store = store;
      counted = rw same v.counted;
      stacked = rw same v.stacked;
      distinct = v.distinct;
      bare = λ i e. bare i e ∙ v.bare i e;
      held = rw same v.held;
      numbered = rw same v.numbered;
    };
    using = rw same v.using;
    fits = v.fits;
    peak_fits = rw same v.peak_fits;
  }

  -- One call: `create`, `destroy`, `clear`, the start or the end of an iteration over some archetypes,
  -- a new archetype, a row for a live entity that has none, or the loss of its row.
  pub data Step (blank : V) (w : World V) : World V → Type 0 where
    creates : Step blank w (create w).1
    destroys : (e : Entity) → Step blank w (destroy e w).1
    clears : Step blank w (clear w).1
    iterates :
        (active : Bool) (matched : ℕ → Bool)
        → Step blank w (record w { iteration_active = active; iteration_archetypes = matched })
    extends :
        (sig : ℕ → ℕ) (count : ℕ)
        → w.storage.archetype_count < 256
        → Step blank w (record w { storage = create_archetype blank sig count w.storage })
    attaches :
        (slot k : ℕ)
        → w.alive slot ≡ true
        → w.storage.archetype_of slot ≡ 0
        → k < w.storage.archetype_count
        → Step blank w (record w { storage = (attach_slot blank slot k w.storage).1 })
    detaches : (slot : ℕ) → Step blank w (record w { storage = detach slot w.storage })

  pub data IsReachable (blank : V) (nothing : Archetype V) (capacity churn_budget : ℕ)
      : World V → Type 0 where
    starts :
        (w : World V)
        → init nothing capacity churn_budget ≡ success w
        → IsReachable blank nothing capacity churn_budget w
    follows :
        (w w' : World V)
        → IsReachable blank nothing capacity churn_budget w
        → Step blank w w'
        → IsReachable blank nothing capacity churn_budget w'

  unwrap : (x w : World V) → success x ≡ success w → x ≡ w
  unwrap x w e = cc

  blank-IsFilled :
      (nothing : Archetype V) (capacity churn_budget : ℕ)
      → IsFilled capacity 0 (blank_world nothing capacity churn_budget)
  blank-IsFilled nothing capacity churn_budget = record {
    same_capacity = refl;
    no_archetypes = refl;
    bare = λ k. refl;
    free = refl;
    stack = λ k h. absurd (omega arith);
    first_generation = λ k h. absurd (omega arith);
    all_dead = λ k. refl;
    none_used = refl;
    no_peak = refl;
  }

  init-WorldInv :
      (nothing : Archetype V) (capacity churn_budget : ℕ) (w : World V)
      → init nothing capacity churn_budget ≡ success w
      → WorldInv w
  unfolding init
  init-WorldInv nothing capacity churn_budget w e = elim (Bool-cases (ltb 65536 capacity)) [
    | inl t ↦ absurd (ground arith)
    | inr t ↦
        let small : capacity ≤ 2 ^ 16 = ground arith in
        subst WorldInv (unwrap _ w (rw t at e)) (
          IsFilled-WorldInv capacity _ small (
            fill-IsFilled capacity capacity 0 (blank_world nothing capacity churn_budget) small
              (omega arith) (blank-IsFilled nothing capacity churn_budget)))
  ]

  iterates-WorldInv :
      (w : World V) (active : Bool) (matched : ℕ → Bool)
      → WorldInv w
      → WorldInv (record w { iteration_active = active; iteration_archetypes = matched })
  iterates-WorldInv w active matched v = record {
    slots = record {
      store = v.store;
      counted = v.counted;
      stacked = v.stacked;
      distinct = v.distinct;
      bare = v.bare;
      held = v.held;
      numbered = v.numbered;
    };
    using = v.using;
    fits = v.fits;
    peak_fits = v.peak_fits;
  }

  Step-WorldInv : (blank : V) (w w' : World V) → WorldInv w → Step blank w w' → WorldInv w'
  unfolding create_archetype
  Step-WorldInv blank w _ v creates = create-WorldInv w v
  Step-WorldInv blank w _ v (destroys e) = destroy-WorldInv e w v
  Step-WorldInv blank w _ v clears = clear-WorldInv w v
  Step-WorldInv blank w _ v (iterates active matched) = iterates-WorldInv w active matched v
  Step-WorldInv blank w _ v (extends sig count room) =
      store-WorldInv w _ v (create_archetype-Inv blank sig count w.storage v.store room).0 refl
        (λ i e. refl)
  Step-WorldInv blank w _ v (attaches slot k on none_yet known) =
      let (row, there, inv) =
        attach_slot-Inv blank slot k w.storage v.store (v.held slot on) known none_yet in
      store-WorldInv w _ v inv
        (attach_slot-archetype_of blank slot k (slot + 1) w.storage (λ e. absurd (omega arith))).1
        (λ i e.
          (attach_slot-archetype_of blank slot k i w.storage (λ same. absurd (ground arith))).0)
  Step-WorldInv blank w _ v (detaches slot) =
      store-WorldInv w _ v (detach-Inv slot w.storage v.store) (detach-capacity slot w.storage)
        (λ i e. rw (detach-archetype_of slot i w.storage) (ground (arith, v.bare i e)))

  -- The invariant holds in every world that is reached from the factory by steps.
  pub IsReachable-WorldInv :
      (blank : V) (nothing : Archetype V) (capacity churn_budget : ℕ) (w : World V)
      → IsReachable blank nothing capacity churn_budget w
      → WorldInv w
  IsReachable-WorldInv blank nothing capacity churn_budget w (starts _ e) =
      init-WorldInv nothing capacity churn_budget w e
  IsReachable-WorldInv blank nothing capacity churn_budget w (follows before _ r s) =
      Step-WorldInv blank before w
        (IsReachable-WorldInv blank nothing capacity churn_budget before r) s
