-- ===== src/Systems/Schedule/Writers.antt =====
-- The check of `World::scheduleSystems` (src/laige-sim/systems.cpp) for two systems that write one component.
use laige_cpp.Prelude.{
  ℕ, zero, suc, ◌+◌, ◌≤◌, ◌<◌, ◌≡◌, ◌≢◌, ◌↔◌, inl, inr, refl, subst, arith, Bool, true, false, ◌&&◌,
  ◌==◌, Bool-cases, ==→eq,
}
use laige_cpp.Systems.{Systems, contains}
use laige_cpp.Systems.Schedule.{second_writer, has_double_writer}

module _ {W : Type 0} where
  abbrev pub writes : Systems W → ℕ → ℕ → Bool
  writes s i c = contains (s.systems i).write_components c

  -- The systems that write component `c`, if there are two: not so.
  unfoldable pub IsSingle : Systems W → ℕ → Type 0
  IsSingle s c = (i j : ℕ) → i < j → j < s.system_count → (writes s i c && writes s j c) ≡ false

  -- From index `i` on, no two of `left` systems write the component; and none does, if one before does.
  record WritersFrom (left i : ℕ) (s : Systems W) (c first : ℕ) : Type 0 where
    after : (j : ℕ) → first ≢ 0 → i ≤ j → j < i + left → writes s j c ≡ false
    single : (j k : ℕ) → i ≤ j → j < k → k < i + left → (writes s j c && writes s k c) ≡ false

  writer_idle :
      (left i : ℕ) (s : Systems W) (c first : ℕ)
      → writes s i c ≡ false
      → (WritersFrom left (i + 1) s c first → WritersFrom (suc left) i s c first)
        × (WritersFrom (suc left) i s c first → WritersFrom left (i + 1) s c first)
  writer_idle left i s c first off = (
    λ v. record {
      after = λ j p l m. elim (Bool-cases (i == j)) [
        | inl t ↦ subst (λ k. writes s k c ≡ false) (==→eq i j t) off
        | inr t ↦ v.after j p (ground arith) (omega arith)
      ];
      single = λ j k l m o. elim (Bool-cases (i == j)) [
        | inl t ↦ subst (λ h. (writes s h c && writes s k c) ≡ false) (==→eq i j t) (rw off refl)
        | inr t ↦ v.single j k (ground arith) m (omega arith)
      ];
    },
    λ v. record {
      after = λ j p l m. v.after j p (omega arith) (omega arith);
      single = λ j k l m o. v.single j k (omega arith) m (omega arith);
    },
  )

  writer_first :
      (left i : ℕ) (s : Systems W) (c first : ℕ)
      → writes s i c ≡ true
      → first ≡ 0
      → (WritersFrom left (i + 1) s c (suc i) → WritersFrom (suc left) i s c first)
        × (WritersFrom (suc left) i s c first → WritersFrom left (i + 1) s c (suc i))
  writer_first left i s c first on e = (
    λ v. record {
      after = λ j p l m. absurd (p e);
      single = λ j k l m o. elim (Bool-cases (i == j)) [
        | inl t ↦
            let same : i ≡ j = ==→eq i j t in
            rw (v.after k (λ q. absurd (omega (arith, q))) (omega (arith, same)) (omega arith))
              (ground arith)
        | inr t ↦ v.single j k (ground arith) m (omega arith)
      ];
    },
    λ v. record {
      after = λ j p l m. ground (arith, v.single i j (omega arith) (omega arith) (omega arith), on);
      single = λ j k l m o. v.single j k (omega arith) m (omega arith);
    },
  )

  second_writer_iff :
      (left i : ℕ) (s : Systems W) (c first : ℕ)
      → (second_writer left i s c first ≡ 0) ↔ WritersFrom left i s c first
  unfolding second_writer
  second_writer_iff zero i s c first = (
    λ e. record {
      after = λ j p l m. absurd (omega arith);
      single = λ j k l m o. absurd (omega arith);
    },
    λ v. refl,
  )
  second_writer_iff (suc left) i s c first = elim (Bool-cases (writes s i c)) [
    | inl on ↦ elim (Bool-cases (first == 0)) [
      | inl t ↦
          let rest = second_writer_iff left (i + 1) s c (suc i) in
          let step = writer_first left i s c first on (==→eq first 0 t) in
          rw (on, t) (λ e. step.0 (rest.0 e), λ v. rest.1 (step.1 v))
      | inr t ↦
          rw (on, t)
            (
              λ e. absurd (omega (arith, e)),
              λ v. absurd (
                  ground
                    (arith, on, v.after i (λ e. ground (arith, e, t)) (omega arith) (omega arith))),
            )
    ]
    | inr off ↦
        let rest = second_writer_iff left (i + 1) s c first in
        let step = writer_idle left i s c first off in
        rw off (λ e. step.0 (rest.0 e), λ v. rest.1 (step.1 v))
  ]

  pub has_double_writer_iff :
      (left c : ℕ) (s : Systems W)
      → (has_double_writer left c s ≡ false) ↔ ((d : ℕ) → c ≤ d → d < c + left → IsSingle s d)
  unfolding has_double_writer IsSingle
  has_double_writer_iff zero c s = (λ e d l m. absurd (omega arith), λ v. refl)
  has_double_writer_iff (suc left) c s =
      let here = second_writer_iff s.system_count 0 s c 0 in
      let rest = has_double_writer_iff left (c + 1) s in
      elim (Bool-cases (second_writer s.system_count 0 s c 0 == 0)) [
        | inl t ↦
            let two = here.0 (==→eq _ 0 t) in
            rw t (
              λ e d l m. elim (Bool-cases (c == d)) [
                | inl u ↦
                    subst (IsSingle s) (==→eq c d u)
                      (λ i j o p. two.single i j (omega arith) o (omega arith))
                | inr u ↦ rest.0 e d (ground arith) (omega arith)
              ],
              λ v. rest.1 (λ d l m. v d (omega arith) (omega arith)),
            )
        | inr t ↦ rw t (
          λ e. absurd (ground (arith, e)),
          λ v. absurd (
              ground (
                arith,
                t,
                here.1 record {
                  after = λ j p l m. absurd (p refl);
                  single = λ j k l m o. v c (omega arith) (omega arith) j k m (omega arith);
                },
              )),
        )
      ]
