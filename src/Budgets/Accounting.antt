-- ===== src/Budgets/Accounting.antt =====
-- `BudgetAccounting` of EvoNN-Shared/src/evonn_shared/budgets.py: which counters it accepts.
use evo_nn_research.Prelude.{
  ◌≡◌, ◌↔◌, refl, true, List, [], ◌∷◌, ◌++◌, ℤ, pos, pos_part, neg_part, ◌+ℤ◌, ◌≤ℤ◌, +ℤ_parts,
  arith, ◌+◌, ◌<◌, is_some,
}
use evo_nn_research.Contract.{human_text, run_id, violation_of, optional}
use evo_nn_research.Budgets.{
  nonneg, BudgetAccounting, accounting_field_errors, validate_accounting, accounting_errors,
}

-- `a < b`
infix 50 ◌<ℤ◌
abbrev pub ◌<ℤ◌ : ℤ → ℤ → Type 0
a <ℤ b = pos_part a + neg_part b < pos_part b + neg_part a

-- Every field passes its own validator.
pub record HasValidFields (b : BudgetAccounting) : Type 0 where
  pub count : pos 0 ≤ℤ b.evaluation_count
  pub actual : pos 0 ≤ℤ b.actual_evaluations
  pub cached : pos 0 ≤ℤ b.cached_evaluations
  pub failed : pos 0 ≤ℤ b.failed_evaluations
  pub invalid : pos 0 ≤ℤ b.invalid_evaluations
  pub resume_id : optional (λ t. violation_of (run_id t)) b.resumed_from_run_id ≡ []
  pub resumed : pos 0 ≤ℤ b.resumed_evaluations
  pub semantics : violation_of (human_text b.evaluation_semantics) ≡ []

-- The counters agree with each other.
pub record IsBalanced (b : BudgetAccounting) : Type 0 where
  pub failed : b.failed_evaluations ≤ℤ b.actual_evaluations
  pub resumed : b.resumed_evaluations ≤ℤ b.cached_evaluations
  pub covered : b.actual_evaluations +ℤ b.cached_evaluations ≤ℤ b.evaluation_count
  pub resume_id : (is_some b.resumed_from_run_id ≡ true) ↔ (pos 0 <ℤ b.resumed_evaluations)
  pub coverage :
      (b.partial_run ≡ true) ↔ (b.actual_evaluations +ℤ b.cached_evaluations <ℤ b.evaluation_count)

append-eq-nil {ℓ} : {A : Type ℓ} (xs ys : List A) → (xs ++ ys ≡ []) ↔ ((xs ≡ []) × (ys ≡ []))
append-eq-nil [] ys = (λ h. (refl, h), λ h. h.1)
append-eq-nil (x ∷ xs) ys = (λ h. (cc, cc), λ h. cc)

nonneg_iff : (x : ℤ) → (violation_of (nonneg x) ≡ []) ↔ (pos 0 ≤ℤ x)
nonneg_iff x = ground arith

field_errors_iff : (b : BudgetAccounting) → (accounting_field_errors b ≡ []) ↔ HasValidFields b
unfolding accounting_field_errors
field_errors_iff b = ground arith

validate_iff :
    (b : BudgetAccounting)
    → HasValidFields b
    → (violation_of (validate_accounting b) ≡ []) ↔ IsBalanced b
unfolding validate_accounting
validate_iff b v = ground (arith, +ℤ_parts b.actual_evaluations b.cached_evaluations)

-- An accounting record is accepted exactly when its fields are valid and its counters are
-- balanced: failed evaluations are actual ones, resumed ones are cached, actual and cached together
-- do not exceed the declared count, a resume id is given exactly when something was resumed, and
-- the run is called partial exactly when the count is not covered.
pub accounting_errors_iff :
    (b : BudgetAccounting) → (accounting_errors b ≡ []) ↔ (HasValidFields b × IsBalanced b)
unfolding accounting_errors
accounting_errors_iff b = ground (arith, field_errors_iff b, validate_iff b)
