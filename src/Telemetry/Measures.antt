-- ===== src/Telemetry/Measures.antt =====
-- The measurements, results and summaries of EvoNN-Shared/src/evonn_shared/telemetry.py.
use evo_nn_research.Prelude.{
  Bool, false, not, ◌&&◌, ◌||◌, List, [], ◌∷◌, ◌++◌, Option, none, some, Text, Float, nan, infinity,
  finite, ℤ, pos, ◌+ℤ◌, ltb_ℤ, eqb_ℤ, ltb, is_some, is_finite, ok, raise, guard, reject_if, ◌>>◌,
}
use evo_nn_research.Contract.{
  Violation, Checked, human_text, canonical_id, finite_value, utf8_sorted_unique, violation_of,
  then_model, optional, unavailable_has_value, value_missing, value_not_nonnegative,
  ok_result_invalid, other_result_invalid, coverage_sum_differs,
}
use evo_nn_research.Budgets.{nonneg}
use evo_nn_research.Telemetry.{
  TaskKind, MetricDirection, ResultStatus, ok_status, MeasurementProvenance, unavailable,
  FairnessSeverity, artifact_path, digest,
}

pub record ArtifactReference : Type 0 where
  pub path : Text
  pub sha256 : Text

unfoldable pub reference_errors : ArtifactReference → List Violation
reference_errors r = violation_of (artifact_path r.path) ++ violation_of (digest r.sha256)

pub record IntegerMeasurement : Type 0 where
  pub value : Option ℤ
  pub provenance : MeasurementProvenance

pub record FloatMeasurement : Type 0 where
  pub value : Option Float
  pub provenance : MeasurementProvenance

-- `value < 0` on a `float`: false of a NaN and of both zeros.
abbrev pub is_below_zero : Float → Bool
is_below_zero (finite s m e) = s && ltb 0 m
is_below_zero (infinity s) = s
is_below_zero nan = false

-- `_validate_measurement_state`, given the last test on a value that is present.
unfoldable pub measurement_state {ℓ} :
    {A : Type ℓ} → (A → Bool) → Option A → MeasurementProvenance → Checked (Unit {0})
measurement_state is_bad value unavailable = reject_if (is_some value) unavailable_has_value
measurement_state is_bad none _ = raise value_missing
measurement_state is_bad (some a) _ = reject_if (is_bad a) value_not_nonnegative

unfoldable pub integer_errors : IntegerMeasurement → List Violation
integer_errors n = violation_of (measurement_state (λ a. ltb_ℤ a (pos 0)) n.value n.provenance)

unfoldable pub float_errors : FloatMeasurement → List Violation
float_errors n =
    violation_of
      (measurement_state (λ x. is_below_zero x || not (is_finite x)) n.value n.provenance)

pub record MetricValue : Type 0 where
  pub name : Text
  pub direction : MetricDirection
  pub value : Option Float

unfoldable pub metric_errors : MetricValue → List Violation
metric_errors v =
    violation_of (human_text v.name) ++ optional (λ x. violation_of (finite_value x)) v.value

pub record BenchmarkResult : Type 0 where
  pub benchmark_id : Text
  pub outcome_id : Text
  pub task_kind : TaskKind
  pub metric : MetricValue
  pub status : ResultStatus
  pub reason : Option Text
  pub parameter_count : IntegerMeasurement
  pub train_seconds : FloatMeasurement
  pub model_bytes : IntegerMeasurement
  pub peak_memory_bytes : IntegerMeasurement
  pub evaluation_count : ℤ

unfoldable pub result_field_errors : BenchmarkResult → List Violation
result_field_errors r =
    violation_of (canonical_id r.benchmark_id)
    ++ (violation_of (canonical_id r.outcome_id)
        ++ (metric_errors r.metric
            ++ (optional (λ t. violation_of (human_text t)) r.reason
                ++ (integer_errors r.parameter_count
                    ++ (float_errors r.train_seconds
                        ++ (integer_errors r.model_bytes
                            ++ (integer_errors r.peak_memory_bytes
                                ++ violation_of (nonneg r.evaluation_count))))))))

-- `_validate_outcome`
unfoldable pub validate_outcome : BenchmarkResult → Checked (Unit {0})
validate_outcome r = elim r.status [
  | ok_status ↦ reject_if (not (is_some r.metric.value) || is_some r.reason) ok_result_invalid
  | _ ↦ reject_if (is_some r.metric.value || not (is_some r.reason)) other_result_invalid
]

unfoldable pub result_errors : BenchmarkResult → List Violation
result_errors r = then_model (result_field_errors r) (validate_outcome r)

pub record Coverage : Type 0 where
  pub benchmark_count : ℤ
  pub result_count : ℤ
  pub ok_count : ℤ
  pub failed : ℤ
  pub skipped : ℤ
  pub unsupported : ℤ

unfoldable pub coverage_errors : Coverage → List Violation
coverage_errors c =
    then_model
      (violation_of (nonneg c.benchmark_count)
        ++ (violation_of (nonneg c.result_count)
            ++ (violation_of (nonneg c.ok_count)
                ++ (violation_of (nonneg c.failed)
                    ++ (violation_of (nonneg c.skipped) ++ violation_of (nonneg c.unsupported))))))
      (guard (eqb_ℤ (c.ok_count +ℤ c.failed +ℤ c.skipped +ℤ c.unsupported) c.result_count)
        coverage_sum_differs)

pub record BestResult : Type 0 where
  pub benchmark_id : Text
  pub outcome_id : Text
  pub metric_name : Text
  pub direction : MetricDirection
  pub value : Float

unfoldable pub best_errors : BestResult → List Violation
best_errors b =
    violation_of (canonical_id b.benchmark_id)
    ++ (violation_of (canonical_id b.outcome_id)
        ++ (violation_of (human_text b.metric_name) ++ violation_of (finite_value b.value)))

pub record AggregateMetric : Type 0 where
  pub name : Text
  pub direction : MetricDirection
  pub value : Float
  pub benchmark_count : ℤ

unfoldable pub aggregate_errors : AggregateMetric → List Violation
aggregate_errors a =
    violation_of (human_text a.name)
    ++ (violation_of (finite_value a.value) ++ violation_of (nonneg a.benchmark_count))

pub record FairnessFlag : Type 0 where
  pub code_name : Text
  pub severity : FairnessSeverity
  pub message : Text
  pub benchmark_ids : List Text

-- The loop of `_validate_ids`.
unfoldable pub all_canonical : List Text → Checked (Unit {0})
all_canonical [] = ok tt
all_canonical (t ∷ ts) = do canonical_id t; all_canonical ts

unfoldable pub flag_errors : FairnessFlag → List Violation
flag_errors f =
    violation_of (human_text f.code_name)
    ++ (violation_of (human_text f.message)
        ++ violation_of (do all_canonical f.benchmark_ids; utf8_sorted_unique f.benchmark_ids))
