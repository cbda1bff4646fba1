-- ===== src/Systems/Run/Checks.antt =====
-- The schedules that `World::runSystems` (src/laige-sim/systems.cpp) takes.
use laige_cpp.Prelude.{
  ℕ, zero, suc, ◌+◌, ◌≤◌, ◌<◌, ◌≡◌, ◌≢◌, ◌↔◌, inl, inr, refl, sym, ap, subst, ◌∙◌, arith, true,
  false, ◌||◌, ltb, ◌==◌, Bool-cases, ==→eq,
}
use laige_cpp.Result.{invalid_argument, done, failed}
use laige_cpp.Systems.{IdSet, Systems, SystemSchedule, contains, set_id}
use laige_cpp.Systems.Run.{check_order, run_order, run_systems}

-- The entries from index `k` on are ids, none of them in `seen`, and each is there once.
pub record IsOrder (left k count : ℕ) (seen : IdSet) (order : ℕ → ℕ) : Type 0 where
  pub positive : (j : ℕ) → k ≤ j → j < k + left → 1 ≤ order j
  pub bounded : (j : ℕ) → k ≤ j → j < k + left → order j ≤ count
  pub unseen : (j : ℕ) → k ≤ j → j < k + left → contains seen (order j) ≡ false
  pub distinct : (i j : ℕ) → k ≤ i → i < j → j < k + left → order i ≢ order j

contains-set_id :
    (seen : IdSet) (x y : ℕ) → 1 ≤ x → contains (set_id seen x) y ≡ ((x == y) || contains seen y)
contains-set_id seen x y p = ground arith

-- What holds here and for all later ones.
from_here :
    (P : ℕ → Type 0) (left k : ℕ)
    → P k
    → ((j : ℕ) → k + 1 ≤ j → j < k + 1 + left → P j)
    → (j : ℕ) → k ≤ j
    → j < k + suc left
    → P j
from_here P left k here later j l m = elim (Bool-cases (k == j)) [
  | inl t ↦ subst P (==→eq k j t) here
  | inr t ↦ later j (ground arith) (omega arith)
]

module _ (left k count : ℕ) (seen : IdSet) (order : ℕ → ℕ)
    (t : (order k == 0 || (ltb count (order k) || contains seen (order k))) ≡ false) where
  positive_here : 1 ≤ order k
  positive_here = ground (arith, t)

  rest_unseen :
      IsOrder left (k + 1) count (set_id seen (order k)) order
      → (j : ℕ) → k + 1 ≤ j
      → j < k + 1 + left
      → (order k ≢ order j) × (contains seen (order j) ≡ false)
  rest_unseen v j l m =
      let e = sym (contains-set_id seen (order k) (order j) positive_here) ∙ v.unseen j l m in
      (λ same. ground (arith, e, same), ground (arith, e))

  IsOrder-cons :
      IsOrder left (k + 1) count (set_id seen (order k)) order
      → IsOrder (suc left) k count seen order
  IsOrder-cons v = record {
    positive = from_here (λ j. 1 ≤ order j) left k positive_here v.positive;
    bounded = from_here (λ j. order j ≤ count) left k (ground (arith, t)) v.bounded;
    unseen =
        from_here (λ j. contains seen (order j) ≡ false) left k (ground (arith, t))
          (λ j l m. (rest_unseen v j l m).1);
    distinct = λ i j l m o. elim (Bool-cases (k == i)) [
      | inl u ↦
          let same : k ≡ i = ==→eq k i u in
          subst (λ h. order h ≢ order j) same
            (rest_unseen v j (omega (arith, same)) (omega arith)).0
      | inr u ↦ v.distinct i j (ground arith) m (omega arith)
    ];
  }

  IsOrder-tail :
      IsOrder (suc left) k count seen order
      → IsOrder left (k + 1) count (set_id seen (order k)) order
  IsOrder-tail v = record {
    positive = λ j l m. v.positive j (omega arith) (omega arith);
    bounded = λ j l m. v.bounded j (omega arith) (omega arith);
    unseen = λ j l m.
        contains-set_id seen (order k) (order j) positive_here
        ∙ (let old = v.unseen j (omega arith) (omega arith) in
            let new : (order k == order j) ≡ false =
              ground (arith, v.distinct k j (omega arith) (omega arith) (omega arith)) in
            rw new old);
    distinct = λ i j l m o. v.distinct i j (omega arith) m (omega arith);
  }

check_order_iff :
    (left k count : ℕ) (seen : IdSet) (order : ℕ → ℕ)
    → (check_order left k count seen order ≡ true) ↔ IsOrder left k count seen order
unfolding check_order
check_order_iff zero k count seen order = (
  λ e. record {
    positive = λ j l m. absurd (omega arith);
    bounded = λ j l m. absurd (omega arith);
    unseen = λ j l m. absurd (omega arith);
    distinct = λ i j l m o. absurd (omega arith);
  },
  λ v. refl,
)
check_order_iff (suc left) k count seen order =
    elim (Bool-cases (order k == 0 || (ltb count (order k) || contains seen (order k)))) [
      | inl t ↦ rw t (
        λ e. absurd (ground (arith, e)),
        λ v. absurd (
            ground (
              arith,
              t,
              v.positive k (omega arith) (omega arith),
              v.bounded k (omega arith) (omega arith),
              v.unseen k (omega arith) (omega arith),
            )),
      )
      | inr t ↦
          let rest = check_order_iff left (k + 1) count (set_id seen (order k)) order in
          rw t (
            λ e. IsOrder-cons left k count seen order t (rest.0 e),
            λ v. rest.1 (IsOrder-tail left k count seen order t v),
          )
    ]

-- What `run_systems` takes: a schedule for as many systems as there are, with each id once.
pub record IsCurrent {W : Type 0} (schedule : SystemSchedule) (s : Systems W) : Type 0 where
  pub current : schedule.system_count ≡ s.system_count
  pub ids :
      (k : ℕ) → k < s.system_count → (1 ≤ schedule.order k) × (schedule.order k ≤ s.system_count)
  pub once : (j k : ℕ) → j < k → k < s.system_count → schedule.order j ≢ schedule.order k

check_order-IsCurrent :
    {W : Type 0} (schedule : SystemSchedule) (s : Systems W)
    → schedule.system_count ≡ s.system_count
    → (check_order schedule.system_count 0 schedule.system_count (λ id. false) schedule.order
        ≡ true)
      ↔ IsCurrent schedule s
check_order-IsCurrent schedule s e =
    let iff =
      check_order_iff schedule.system_count 0 schedule.system_count (λ id. false) schedule.order in
    (
      λ t.
          let v = iff.0 t in
          record {
            current = e;
            ids = λ k l. (
              v.positive k (omega arith) (omega (arith, e)),
              omega (arith, e, v.bounded k (omega arith) (omega (arith, e))),
            );
            once = λ j k l m. v.distinct j k (omega arith) l (omega (arith, e));
          },
      λ c. iff.1 record {
        positive = λ j l m. (c.ids j (omega (arith, e))).0;
        bounded = λ j l m. omega (arith, e, (c.ids j (omega (arith, e))).1);
        unseen = λ j l m. ground arith;
        distinct = λ i j l m o. c.once i j m (omega (arith, e));
      },
    )

module _ {W : Type 0} where
  run_order_none :
      (n : ℕ) (order : ℕ → ℕ) (sw : Systems W × W) → n ≡ 0 → run_order n 0 order sw ≡ sw
  unfolding run_order
  run_order_none n order sw e = ap (λ (m : ℕ). run_order m 0 order sw) e

  no_systems :
      (schedule : SystemSchedule) (s : Systems W)
      → schedule.system_count ≡ s.system_count
      → schedule.system_count ≡ 0
      → IsCurrent schedule s
  no_systems schedule s e z = record {
    current = e;
    ids = λ k l. absurd (omega (arith, e, z, l));
    once = λ j k l m. absurd (omega (arith, e, z, m));
  }

  -- A schedule for as many systems as there are, with each id once, runs the systems in its order; any
  -- other is refused, and runs none.
  pub run_systems_lem :
      (schedule : SystemSchedule) (s : Systems W) (w : W)
      → (IsCurrent schedule s
          → run_systems schedule (s, w)
            ≡ (done, run_order schedule.system_count 0 schedule.order (s, w)))
        × (¬ IsCurrent schedule s → run_systems schedule (s, w) ≡ (failed invalid_argument, (s, w)))
  unfolding run_systems run_order
  run_systems_lem schedule s w = elim (Bool-cases (schedule.system_count == s.system_count)) [
    | inl t ↦
        let iff = check_order-IsCurrent schedule s (==→eq _ _ t) in
        elim (Bool-cases (schedule.system_count == 0)) [
          | inl u ↦
              let e = ==→eq schedule.system_count 0 u in
              rw (t, u)
                (
                  λ now. ap (λ sw. (done, sw)) (sym (run_order_none _ schedule.order (s, w) e)),
                  λ never. absurd (never (no_systems schedule s (==→eq _ _ t) e)),
                )
          | inr u ↦
              elim (Bool-cases (
                check_order schedule.system_count 0 schedule.system_count (λ id. false)
                  schedule.order)) [
                    | inl c ↦ rw (t, u, c) (λ now. refl, λ never. absurd (never (iff.0 c)))
                    | inr c ↦
                        rw (t, u, c) (λ now. absurd (ground (arith, c, iff.1 now)), λ never. refl)
                  ]
        ]
    | inr t ↦ rw t (λ now. absurd (ground (arith, t, now.current)), λ never. refl)
  ]
