-- ===== src/Telemetry/Results.antt =====
-- Results and summaries of EvoNN-Shared/src/evonn_shared/telemetry.py: which of them are accepted.
use evo_nn_research.Prelude.{
  ◌≡◌, ◌≢◌, ◌↔◌, ◌⊎◌, true, [], none, some, pos, ◌≤ℤ◌, ◌+ℤ◌, +ℤ_parts, eq_of_parts, arith, is_some,
  Float, is_finite, is_nonneg,
}
use evo_nn_research.Contract.{violation_of}
use evo_nn_research.Telemetry.{ok_status, unavailable}
use evo_nn_research.Telemetry.Measures.{
  BenchmarkResult, result_field_errors, validate_outcome, result_errors, Coverage, coverage_errors,
  FloatMeasurement, float_errors, measurement_state,
}

-- The result has a metric value and no reason for its absence.
pub record IsScored (r : BenchmarkResult) : Type 0 where
  pub status : r.status ≡ ok_status
  pub value : is_some r.metric.value ≡ true
  pub reason : r.reason ≡ none

-- The result has a reason and no metric value.
pub record IsExplained (r : BenchmarkResult) : Type 0 where
  pub status : r.status ≢ ok_status
  pub value : r.metric.value ≡ none
  pub reason : is_some r.reason ≡ true

validate_outcome_iff :
    (r : BenchmarkResult) → (violation_of (validate_outcome r) ≡ []) ↔ (IsScored r ⊎ IsExplained r)
unfolding validate_outcome
validate_outcome_iff r = ground arith

-- A benchmark result is accepted exactly when its fields are valid and it either has the status ok,
-- a metric value and no reason, or another status, no metric value and a reason.
pub result_errors_iff :
    (r : BenchmarkResult)
    → (result_errors r ≡ []) ↔ ((result_field_errors r ≡ []) × (IsScored r ⊎ IsExplained r))
unfolding result_errors
result_errors_iff r = ground (arith, validate_outcome_iff r)

-- The counts of the four states are parts of the count of results.
pub record IsPartition (c : Coverage) : Type 0 where
  pub benchmarks : pos 0 ≤ℤ c.benchmark_count
  pub ok_count : pos 0 ≤ℤ c.ok_count
  pub failed : pos 0 ≤ℤ c.failed
  pub skipped : pos 0 ≤ℤ c.skipped
  pub unsupported : pos 0 ≤ℤ c.unsupported
  pub total : c.ok_count +ℤ c.failed +ℤ c.skipped +ℤ c.unsupported ≡ c.result_count

-- A coverage is accepted exactly when no count is negative and the counts of the four states add
-- up to the count of results.
pub coverage_errors_iff : (c : Coverage) → (coverage_errors c ≡ []) ↔ IsPartition c
unfolding coverage_errors
coverage_errors_iff c = ground (
  arith,
  +ℤ_parts c.ok_count c.failed,
  +ℤ_parts (c.ok_count +ℤ c.failed) c.skipped,
  +ℤ_parts (c.ok_count +ℤ c.failed +ℤ c.skipped) c.unsupported,
  eq_of_parts (c.ok_count +ℤ c.failed +ℤ c.skipped +ℤ c.unsupported) c.result_count,
)

-- A float measurement is accepted exactly when it is unavailable and has no value, or is measured
-- or estimated and has a finite value that is not negative.
pub float_errors_iff :
    (n : FloatMeasurement)
    → (float_errors n ≡ []) ↔ (
        ((n.provenance ≡ unavailable) × (n.value ≡ none))
        ⊎ ((n.provenance ≢ unavailable)
            × (x : Float) × (n.value ≡ some x)
            × (is_finite x ≡ true)
            × (is_nonneg x ≡ true)))
unfolding float_errors measurement_state
float_errors_iff n = ground arith
