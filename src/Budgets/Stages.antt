-- ===== src/Budgets/Stages.antt =====
-- `EvaluationBudget` of EvoNN-Shared/src/evonn_shared/budgets.py: what its stages add up to.
use mathlib.Core.List.{cons≢nil}
use evo_nn_research.Prelude.{
  ◌⊎◌, inl, inr, ℕ, ◌≡◌, ◌≢◌, ◌↔◌, refl, true, List, [], ◌∷◌, map, ℤ, pos, ◌≤ℤ◌, +ℤ_parts,
  eq_of_parts, arith, all_distinct, ok, All,
}
use evo_nn_research.Contract.{human_text, violation_of}
use evo_nn_research.Budgets.{
  EvaluationStage, stage_errors, EvaluationBudget, sum_evaluations, errors_of_all,
  evaluation_errors,
}

list_cases : (ss : List EvaluationStage) → (ss ≡ []) ⊎ (ss ≢ [])
list_cases [] = inl refl
list_cases (s ∷ ss) = inr cons≢nil

-- A declared evaluation budget that is sound: a positive total, well-formed stages with different
-- names, and, if there is any stage, counts that add up to the total.
pub record IsSound (b : EvaluationBudget) : Type 0 where
  pub total_positive : pos 1 ≤ℤ b.total
  pub stages_valid : All (λ s. (human_text s.name ≡ ok s.name) × (pos 0 ≤ℤ s.evaluations)) b.stages
  pub names_distinct : all_distinct (map (λ s. s.name) b.stages) ≡ true
  pub exact : b.stages ≢ [] → sum_evaluations b.stages ≡ b.total

human_text_returns : (t : List ℕ) → (violation_of (human_text t) ≡ []) ↔ (human_text t ≡ ok t)
unfolding human_text
human_text_returns t = ground arith

stage_errors_iff :
    (s : EvaluationStage)
    → (stage_errors s ≡ []) ↔ ((human_text s.name ≡ ok s.name) × (pos 0 ≤ℤ s.evaluations))
unfolding stage_errors
stage_errors_iff s = ground (arith, human_text_returns s.name)

stages_errors_iff :
    (ss : List EvaluationStage)
    → (errors_of_all stage_errors ss ≡ [])
      ↔ All (λ s. (human_text s.name ≡ ok s.name) × (pos 0 ≤ℤ s.evaluations)) ss
stages_errors_iff [] = (λ _. tt, λ _. refl)
stages_errors_iff (s ∷ ss) = ground (arith, stage_errors_iff s, stages_errors_iff ss)

-- An evaluation budget is accepted exactly when it is sound.
pub evaluation_errors_iff : (b : EvaluationBudget) → (evaluation_errors b ≡ []) ↔ IsSound b
unfolding evaluation_errors
evaluation_errors_iff b =
    ground (arith, stages_errors_iff b.stages, eq_of_parts (sum_evaluations b.stages) b.total)

sum_nonneg :
    (ss : List EvaluationStage)
    → All (λ s. (human_text s.name ≡ ok s.name) × (pos 0 ≤ℤ s.evaluations)) ss
    → pos 0 ≤ℤ sum_evaluations ss
sum_nonneg [] h = omega arith
sum_nonneg (s ∷ ss) h =
    omega (arith, +ℤ_parts s.evaluations (sum_evaluations ss), h.0.1, sum_nonneg ss h.1)

stages-le :
    (bound : ℤ) (ss : List EvaluationStage)
    → All (λ s. (human_text s.name ≡ ok s.name) × (pos 0 ≤ℤ s.evaluations)) ss
    → sum_evaluations ss ≤ℤ bound
    → All (λ s. s.evaluations ≤ℤ bound) ss
stages-le bound [] h k = tt
stages-le bound (s ∷ ss) h k = (
  omega (arith, +ℤ_parts s.evaluations (sum_evaluations ss), sum_nonneg ss h.1),
  stages-le bound ss h.1 (omega (arith, +ℤ_parts s.evaluations (sum_evaluations ss), h.0.1)),
)

-- No stage of an accepted evaluation budget is larger than the declared total.
pub stages-le-total :
    (b : EvaluationBudget) → evaluation_errors b ≡ [] → All (λ s. s.evaluations ≤ℤ b.total) b.stages
stages-le-total b h = stages_of b ((evaluation_errors_iff b).0 h)
  where
    stages_of : (b : EvaluationBudget) → IsSound b → All (λ s. s.evaluations ≤ℤ b.total) b.stages
    stages_of b v = elim (list_cases b.stages) [
      | inl e ↦ rw e tt
      | inr n ↦ stages-le b.total b.stages v.stages_valid (rw (v.exact n) (omega arith))
    ]
