-- ===== src/Budgets.antt =====
-- The budget declarations and the accounting contract of
-- EvoNN-Shared/src/evonn_shared/budgets.py. A record holds what a model is built from; `*_errors`
-- lists the violations that its construction reports, in the order of the fields.
-- Strict mode's type tests (`type(value) is float` and the like) are the types of the fields.
pub mod Accounting
pub mod Stages
pub mod Execution
use evo_nn_research.Prelude.{
  ℕ, Bool, true, false, not, ◌||◌, List, [], ◌∷◌, ◌++◌, map, Option, none, some, Text, Float, ℤ,
  pos, ◌+ℤ◌, ltb_ℤ, eqb_ℤ, ◌==◌, if◌then◌else◌, is_some, is_finite, is_positive, is_nonneg,
  all_distinct, Result, ok, guard, reject_if, ◌>>=◌, ◌>>◌,
}
use evo_nn_research.Contract.{
  Violation, Checked, not_finite, not_positive, not_nonnegative, stage_names_repeat,
  stage_sum_differs, no_fidelity_stage, failed_exceeds_actual, actual_exceeds_count,
  resumed_exceeds_cached, coverage_exceeds_count, resume_id_mismatch, partial_mismatch, human_text,
  canonical_id, run_id, finite_value, utf8_sorted_unique, violation_of, then_model, optional,
}

-- `Field(ge=0)` and `Field(gt=0)` on an `int`.
abbrev pub nonneg : ℤ → Checked ℤ
nonneg x = do reject_if (ltb_ℤ x (pos 0)) not_nonnegative; ok x

abbrev pub positive : ℤ → Checked ℤ
positive x = do guard (ltb_ℤ (pos 0) x) not_positive; ok x

-- The concatenation of the errors of nested models.
abbrev pub errors_of_all {ℓ} : {A : Type ℓ} → (A → List Violation) → List A → List Violation
errors_of_all check [] = []
errors_of_all check (x ∷ xs) = check x ++ errors_of_all check xs

pub data LadderTier : Type 0 where
  tier_a tier_b tier_c tier_d tier_e : LadderTier

pub record EvaluationStage : Type 0 where
  pub name : Text
  pub evaluations : ℤ

unfoldable pub stage_errors : EvaluationStage → List Violation
stage_errors s = violation_of (human_text s.name) ++ violation_of (nonneg s.evaluations)

pub record EvaluationBudget : Type 0 where
  pub total : ℤ
  pub stages : List EvaluationStage

-- `sum(stage.evaluations for stage in self.stages)`
abbrev pub sum_evaluations : List EvaluationStage → ℤ
sum_evaluations [] = pos 0
sum_evaluations (s ∷ ss) = s.evaluations +ℤ sum_evaluations ss

abbrev pub is_empty {ℓ} : {A : Type ℓ} → List A → Bool
is_empty [] = true
is_empty (x ∷ xs) = false

unfoldable pub evaluation_errors : EvaluationBudget → List Violation
evaluation_errors b =
    then_model (violation_of (positive b.total) ++ errors_of_all stage_errors b.stages) (do
      guard (all_distinct (map (λ s. s.name) b.stages)) stage_names_repeat
      guard (is_empty b.stages || eqb_ℤ (sum_evaluations b.stages) b.total) stage_sum_differs)

pub record WallClockBudget : Type 0 where
  pub target_seconds : Float

unfoldable pub wall_clock_errors : WallClockBudget → List Violation
wall_clock_errors b =
    violation_of
      (do guard (is_positive b.target_seconds) not_positive; finite_value b.target_seconds)

-- `Field(ge=0)` on a `float`, and `_finite`.
abbrev pub nonneg_finite : Float → Checked Float
nonneg_finite x = do guard (is_nonneg x) not_nonnegative; finite_value x

pub record TrainingBudget : Type 0 where
  pub unit : Text
  pub per_candidate : Float
  pub total_cap : Float

unfoldable pub training_errors : TrainingBudget → List Violation
training_errors b =
    violation_of (human_text b.unit)
    ++ (violation_of (nonneg_finite b.per_candidate) ++ violation_of (nonneg_finite b.total_cap))

pub record HardwareEnvelope : Type 0 where
  pub device_class : Text
  pub cpu_count : ℤ
  pub accelerator_type : Option Text
  pub memory_ceiling_bytes : Option ℤ
  pub worker_count : ℤ

unfoldable pub hardware_errors : HardwareEnvelope → List Violation
hardware_errors b =
    violation_of (human_text b.device_class)
    ++ (violation_of (positive b.cpu_count)
        ++ (optional (λ t. violation_of (human_text t)) b.accelerator_type
            ++ (optional (λ n. violation_of (positive n)) b.memory_ceiling_bytes
                ++ violation_of (positive b.worker_count))))

pub record ModelArtifactBudget : Type 0 where
  pub parameter_cap : Option ℤ
  pub model_bytes_cap : Option ℤ
  pub memory_target_bytes : Option ℤ
  pub latency_target_seconds : Option Float

-- `_validate_latency`: one message for both tests.
abbrev pub latency : Float → Checked Float
latency x = do guard (is_positive x) not_positive; guard (is_finite x) not_positive; ok x

unfoldable pub artifact_errors : ModelArtifactBudget → List Violation
artifact_errors b =
    optional (λ n. violation_of (positive n)) b.parameter_cap
    ++ (optional (λ n. violation_of (positive n)) b.model_bytes_cap
        ++ (optional (λ n. violation_of (positive n)) b.memory_target_bytes
            ++ optional (λ x. violation_of (latency x)) b.latency_target_seconds))

pub record BenchmarkSurfaceBudget : Type 0 where
  pub pack_id : Text
  pub benchmark_count : ℤ
  pub ladder_tier : LadderTier
  pub reductions : List Text
  pub subsets : List Text

unfoldable pub surface_errors : BenchmarkSurfaceBudget → List Violation
surface_errors b =
    violation_of (canonical_id b.pack_id)
    ++ (violation_of (positive b.benchmark_count)
        ++ (violation_of (utf8_sorted_unique b.reductions)
            ++ violation_of (utf8_sorted_unique b.subsets)))

pub record FidelityStage : Type 0 where
  pub name : Text
  pub description : Text

unfoldable pub fidelity_stage_errors : FidelityStage → List Violation
fidelity_stage_errors s =
    violation_of (human_text s.name) ++ violation_of (human_text s.description)

pub record FidelityBudget : Type 0 where
  pub regime : Text
  pub stages : List FidelityStage
  pub promotion_rule : Text

unfoldable pub fidelity_errors : FidelityBudget → List Violation
unfolding fidelity_stage_errors
fidelity_errors b =
    then_model
      (violation_of (human_text b.regime)
        ++ (errors_of_all fidelity_stage_errors b.stages
            ++ violation_of (human_text b.promotion_rule)))
      (do
        reject_if (is_empty b.stages) no_fidelity_stage
        guard (all_distinct (map (λ s. s.name) b.stages)) stage_names_repeat)

pub record BudgetDeclaration : Type 0 where
  pub evaluation : EvaluationBudget
  pub wall_clock : WallClockBudget
  pub training : TrainingBudget
  pub hardware : HardwareEnvelope
  pub model_artifact : ModelArtifactBudget
  pub benchmark_surface : BenchmarkSurfaceBudget
  pub fidelity : FidelityBudget

unfoldable pub declaration_errors : BudgetDeclaration → List Violation
declaration_errors b =
    evaluation_errors b.evaluation
    ++ (wall_clock_errors b.wall_clock
        ++ (training_errors b.training
            ++ (hardware_errors b.hardware
                ++ (artifact_errors b.model_artifact
                    ++ (surface_errors b.benchmark_surface ++ fidelity_errors b.fidelity)))))

pub record BudgetAccounting : Type 0 where
  pub evaluation_count : ℤ
  pub actual_evaluations : ℤ
  pub cached_evaluations : ℤ
  pub failed_evaluations : ℤ
  pub invalid_evaluations : ℤ
  pub resumed_from_run_id : Option Text
  pub resumed_evaluations : ℤ
  pub partial_run : Bool
  pub evaluation_semantics : Text

-- `a != b` on `bool`
abbrev pub bool_ne : Bool → Bool → Bool
bool_ne true b = not b
bool_ne false b = b

-- The field validators, in the order of the fields.
unfoldable pub accounting_field_errors : BudgetAccounting → List Violation
accounting_field_errors b =
    violation_of (nonneg b.evaluation_count)
    ++ (violation_of (nonneg b.actual_evaluations)
        ++ (violation_of (nonneg b.cached_evaluations)
            ++ (violation_of (nonneg b.failed_evaluations)
                ++ (violation_of (nonneg b.invalid_evaluations)
                    ++ (optional (λ t. violation_of (run_id t)) b.resumed_from_run_id
                        ++ (violation_of (nonneg b.resumed_evaluations)
                            ++ violation_of (human_text b.evaluation_semantics)))))))

-- `_validate_accounting`
unfoldable pub validate_accounting : BudgetAccounting → Checked (Unit {0})
validate_accounting b = do
  reject_if (ltb_ℤ b.actual_evaluations b.failed_evaluations) failed_exceeds_actual
  reject_if (ltb_ℤ b.evaluation_count b.actual_evaluations) actual_exceeds_count
  reject_if (ltb_ℤ b.cached_evaluations b.resumed_evaluations) resumed_exceeds_cached
  let covered = b.actual_evaluations +ℤ b.cached_evaluations
  reject_if (ltb_ℤ b.evaluation_count covered) coverage_exceeds_count
  reject_if (bool_ne (is_some b.resumed_from_run_id) (ltb_ℤ (pos 0) b.resumed_evaluations))
      resume_id_mismatch
  reject_if (bool_ne b.partial_run (ltb_ℤ covered b.evaluation_count)) partial_mismatch

unfoldable pub accounting_errors : BudgetAccounting → List Violation
accounting_errors b = then_model (accounting_field_errors b) (validate_accounting b)
