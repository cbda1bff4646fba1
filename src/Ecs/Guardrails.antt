-- ===== src/Ecs/Guardrails.antt =====
-- src/laige-sim/guardrails.cpp: the warnings on the number of entities and on the churn of a frame. The
-- three levels have the numbers 0, 1 and 2; a warning is counted, and its text left out.
use laige_cpp.Prelude.{
  arith, refl, ◌≢◌, List, [], ◌∷◌, ◌∙◌, ℕ, zero, suc, ◌+◌, ◌*◌, ◌/◌, ◌%◌, ◌^◌, ◌≤◌, ◌<◌, ◌≡◌, Bool,
  true, false, not, ◌&&◌, ◌||◌, ltb, leb, ◌==◌, if◌then◌else◌, update,
}
use laige_cpp.Pools.Words.{inc32}

pub record Guardrails : Type 0 where
  pub churn_per_frame_budget : ℕ
  pub entity_threshold : ℕ → ℕ
  pub entity_budget_warned : ℕ → Bool
  pub churn_warned : Bool
  pub frame_adds : ℕ
  pub frame_removes : ℕ
  pub entity_budget_warns : ℕ → ℕ
  pub churn_warns : ℕ

-- `kEntityBudgetLevels`.
abbrev pub entity_budget_level : ℕ → ℕ
entity_budget_level zero = 25
entity_budget_level (suc zero) = 50
entity_budget_level (suc (suc i)) = 100

-- A new world's, by `World::create` and `initEntityBudgetThresholds`.
unfoldable pub init_guardrails : ℕ → ℕ → Guardrails
init_guardrails capacity churn_budget = record {
  churn_per_frame_budget = churn_budget;
  entity_threshold = λ i. capacity * entity_budget_level i % 2 ^ 32 / 100;
  entity_budget_warned = λ i. false;
  churn_warned = false;
  frame_adds = 0;
  frame_removes = 0;
  entity_budget_warns = λ i. 0;
  churn_warns = 0;
}

unfoldable pub begin_frame : Guardrails → Guardrails
begin_frame g = record g {
  frame_adds = 0;
  frame_removes = 0;
  entity_budget_warned = λ i. if ltb i 3 then false else g.entity_budget_warned i;
  churn_warned = false;
}

-- One round of `checkEntityBudget`.
unfoldable pub check_level : ℕ → ℕ → Guardrails → Guardrails
check_level in_use i g =
    if not (g.entity_threshold i == 0)
      && (in_use == g.entity_threshold i && not (g.entity_budget_warned i))
    then record g {
      entity_budget_warned = update g.entity_budget_warned i true;
      entity_budget_warns = update g.entity_budget_warns i (inc32 (g.entity_budget_warns i));
    }
    else g

unfoldable pub check_entity_budget : ℕ → Guardrails → Guardrails
check_entity_budget in_use g = check_level in_use 2 (check_level in_use 1 (check_level in_use 0 g))

-- `checkChurnBudget`, which follows each counted add or remove.
unfoldable pub check_churn_budget : Guardrails → Guardrails
check_churn_budget g =
    if g.churn_per_frame_budget == 0 || g.churn_warned
    then g
    else if leb ((g.frame_adds + g.frame_removes) % 2 ^ 64) g.churn_per_frame_budget
    then g
    else record g { churn_warned = true; churn_warns = inc32 g.churn_warns }

-- The checks of the creations of a frame, by the number of entities after each.
unfoldable pub check_all : List ℕ → Guardrails → Guardrails
check_all [] g = g
check_all (n ∷ ns) g = check_all ns (check_entity_budget n g)

abbrev pub among : ℕ → List ℕ → Bool
among x [] = false
among x (n ∷ ns) = n == x || among x ns

-- Whether a number of entities is the threshold of a level.
abbrev pub reaches : Guardrails → ℕ → ℕ → Bool
reaches g i n = not (g.entity_threshold i == 0) && n == g.entity_threshold i

level_here :
    (n i : ℕ) (g : Guardrails)
    → (g.entity_budget_warned i ≡ false → g.entity_budget_warns i + 1 < 2 ^ 32)
    → ((check_level n i g).entity_threshold i ≡ g.entity_threshold i)
      × ((check_level n i g).entity_budget_warned i ≡ (g.entity_budget_warned i || reaches g i n))
      × ((check_level n i g).entity_budget_warns i
          ≡ g.entity_budget_warns i
            + (if not (g.entity_budget_warned i) && reaches g i n then 1 else 0))
unfolding check_level
level_here n i g s = ground arith

level_other :
    (n j i : ℕ) (g : Guardrails)
    → j ≢ i
    → ((check_level n j g).entity_threshold i ≡ g.entity_threshold i)
      × ((check_level n j g).entity_budget_warned i ≡ g.entity_budget_warned i)
      × ((check_level n j g).entity_budget_warns i ≡ g.entity_budget_warns i)
unfolding check_level
level_other n j i g ne = ground arith

-- What one check does to a level.
record Checked (n i : ℕ) (g h : Guardrails) : Type 0 where
  pub same_threshold : h.entity_threshold i ≡ g.entity_threshold i
  pub warned : h.entity_budget_warned i ≡ (g.entity_budget_warned i || reaches g i n)
  pub warns :
      h.entity_budget_warns i
      ≡ g.entity_budget_warns i + (if not (g.entity_budget_warned i) && reaches g i n then 1 else 0)

one_check :
    (n i : ℕ) (g : Guardrails)
    → i < 3
    → (g.entity_budget_warned i ≡ false → g.entity_budget_warns i + 1 < 2 ^ 32)
    → Checked n i g (check_entity_budget n g)
unfolding check_entity_budget
one_check n zero g l s =
    let (t, w, c) = level_here n 0 g s in
    let (t1, w1, c1) = level_other n 1 0 (check_level n 0 g) (λ e. absurd (omega arith)) in
    let (t2, w2, c2) =
      level_other n 2 0 (check_level n 1 (check_level n 0 g)) (λ e. absurd (omega arith)) in
    record { same_threshold = t2 ∙ (t1 ∙ t); warned = w2 ∙ (w1 ∙ w); warns = c2 ∙ (c1 ∙ c) }
one_check n (suc zero) g l s =
    let (t, w, c) = level_other n 0 1 g (λ e. absurd (omega arith)) in
    let (t1, w1, c1) = level_here n 1 (check_level n 0 g) (rw (w, c) s) in
    let (t2, w2, c2) =
      level_other n 2 1 (check_level n 1 (check_level n 0 g)) (λ e. absurd (omega arith)) in
    record {
      same_threshold = t2 ∙ (t1 ∙ t);
      warned = w2 ∙ (w1 ∙ rw (t, w) refl);
      warns = c2 ∙ (c1 ∙ rw (t, w, c) refl);
    }
one_check n (suc (suc zero)) g l s =
    let (t, w, c) = level_other n 0 2 g (λ e. absurd (omega arith)) in
    let (t1, w1, c1) = level_other n 1 2 (check_level n 0 g) (λ e. absurd (omega arith)) in
    let (t2, w2, c2) = level_here n 2 (check_level n 1 (check_level n 0 g)) (rw (w1, w, c1, c) s) in
    record {
      same_threshold = t2 ∙ (t1 ∙ t);
      warned = w2 ∙ rw (t1, t, w1, w) refl;
      warns = c2 ∙ rw (t1, t, w1, w, c1, c) refl;
    }
one_check n (suc (suc (suc i))) g l s = absurd (omega arith)

check_all-warns :
    (ns : List ℕ) (i : ℕ) (g : Guardrails)
    → i < 3
    → (g.entity_budget_warned i ≡ false → g.entity_budget_warns i + 1 < 2 ^ 32)
    → (check_all ns g).entity_budget_warns i
      ≡ g.entity_budget_warns i
        + (if not (g.entity_budget_warned i)
              && (not (g.entity_threshold i == 0) && among (g.entity_threshold i) ns)
            then 1
            else 0)
unfolding check_all
check_all-warns [] i g l s = ground arith
check_all-warns (n ∷ ns) i g l s =
    let c = one_check n i g l s in
    check_all-warns ns i (check_entity_budget n g) l
      (rw (c.warned, c.warns) (λ e. ground (arith, s)))
    ∙ rw (c.warned, c.warns, c.same_threshold) (ground arith)

-- In a frame, a level is warned of once if the number of entities reached its threshold, which is not
-- 0, and else not at all. This needs the count of its warnings not to wrap.
pub check_all-begin_frame :
    (ns : List ℕ) (i : ℕ) (g : Guardrails)
    → i < 3
    → g.entity_budget_warns i + 1 < 2 ^ 32
    → (check_all ns (begin_frame g)).entity_budget_warns i
      ≡ g.entity_budget_warns i
        + (if not (g.entity_threshold i == 0) && among (g.entity_threshold i) ns then 1 else 0)
unfolding begin_frame
check_all-begin_frame ns i g l s =
    let t : ltb i 3 ≡ true = ground arith in
    check_all-warns ns i (begin_frame g) l (λ e. s) ∙ rw t refl

-- With a capacity that a world may have, the thresholds are the percentages, rounded down, and rise with
-- the level up to the capacity.
pub init_guardrails-thresholds :
    (capacity churn_budget i : ℕ)
    → capacity ≤ 65536
    → i < 3
    → ((init_guardrails capacity churn_budget).entity_threshold i
        ≡ capacity * entity_budget_level i / 100)
      × ((init_guardrails capacity churn_budget).entity_threshold i
          ≤ (init_guardrails capacity churn_budget).entity_threshold (i + 1))
      × ((init_guardrails capacity churn_budget).entity_threshold 2 ≡ capacity)
unfolding init_guardrails
init_guardrails-thresholds capacity churn_budget zero b l = (omega arith, omega arith, omega arith)
init_guardrails-thresholds capacity churn_budget (suc zero) b l =
    (omega arith, omega arith, omega arith)
init_guardrails-thresholds capacity churn_budget (suc (suc zero)) b l =
    (omega arith, omega arith, omega arith)
init_guardrails-thresholds capacity churn_budget (suc (suc (suc i))) b l = absurd (omega arith)
