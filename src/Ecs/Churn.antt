-- ===== src/Ecs/Churn.antt =====
-- The churn of a frame (`checkChurnBudget` of src/laige-sim/guardrails.cpp): each counted add is followed by
-- the check.
use laige_cpp.Prelude.{
  ℕ, zero, suc, ◌+◌, ◌%◌, ◌^◌, ◌<◌, ◌≡◌, refl, arith, not, ◌&&◌, ltb, ◌==◌, if◌then◌else◌,
}
use laige_cpp.Ecs.Guardrails.{Guardrails, begin_frame, check_churn_budget}

-- `++frameAdds_` with the check, as in `addComponent`.
unfoldable pub count_add : Guardrails → Guardrails
count_add g = check_churn_budget (record g { frame_adds = (g.frame_adds + 1) % 2 ^ 64 })

pub count_adds : ℕ → Guardrails → Guardrails
count_adds zero g = g
count_adds (suc n) g = count_add (count_adds n g)

-- A frame after some adds.
record Counted (n : ℕ) (g h : Guardrails) : Type 0 where
  pub budget : h.churn_per_frame_budget ≡ g.churn_per_frame_budget
  pub adds : h.frame_adds ≡ n
  pub removes : h.frame_removes ≡ 0
  pub warned :
      h.churn_warned ≡ (not (g.churn_per_frame_budget == 0) && ltb g.churn_per_frame_budget n)
  pub warns :
      h.churn_warns
      ≡ g.churn_warns
        + (if not (g.churn_per_frame_budget == 0) && ltb g.churn_per_frame_budget n then 1 else 0)

count_add-Counted :
    (n : ℕ) (g h : Guardrails)
    → n + 1 < 2 ^ 64
    → g.churn_warns + 1 < 2 ^ 32
    → Counted n g h
    → Counted (suc n) g (count_add h)
unfolding count_add check_churn_budget
count_add-Counted n g h l s c = record {
  budget = ground (arith, c.budget);
  adds = ground (arith, c.adds);
  removes = ground (arith, c.removes);
  warned = ground (arith, c.budget, c.adds, c.removes, c.warned);
  warns = ground (arith, c.budget, c.adds, c.removes, c.warned, c.warns);
}

count_adds-Counted :
    (n : ℕ) (g : Guardrails)
    → n < 2 ^ 64
    → g.churn_warns + 1 < 2 ^ 32
    → Counted n g (count_adds n (begin_frame g))
unfolding count_adds begin_frame
count_adds-Counted zero g l s = record {
  budget = refl;
  adds = refl;
  removes = refl;
  warned = ground arith;
  warns = ground arith;
}
count_adds-Counted (suc n) g l s =
    count_add-Counted n g (count_adds n (begin_frame g)) (omega arith) s
      (count_adds-Counted n g (omega arith) s)

-- The adds of a frame are warned of once if there are more than the budget, which is not 0, and else not
-- at all. This needs the counts not to wrap.
pub count_adds-begin_frame :
    (n : ℕ) (g : Guardrails)
    → n < 2 ^ 64
    → g.churn_warns + 1 < 2 ^ 32
    → (count_adds n (begin_frame g)).churn_warns
      ≡ g.churn_warns
        + (if not (g.churn_per_frame_budget == 0) && ltb g.churn_per_frame_budget n then 1 else 0)
count_adds-begin_frame n g l s = (count_adds-Counted n g l s).warns
