-- ===== src/Exports.antt =====
-- The results document of EvoNN-Shared/src/evonn_shared/exports.py and the checks between its parts.
pub mod Semantics
pub mod Totals
use evo_nn_research.Prelude.{
  ℕ, suc, ◌+◌, ◌^◌, Bool, true, false, not, ◌&&◌, ◌||◌, List, [], ◌∷◌, ◌++◌, map, Option, none,
  some, Text, ℤ, pos, ◌+ℤ◌, ltb_ℤ, eqb_ℤ, ◌==◌, length, text_eq, text_lt, text_in, lookup,
  if◌then◌else◌, Result, ok, raise, guard, reject_if, ◌>>=◌, ◌>>◌,
}
use evo_nn_research.Contract.{
  Violation, Checked, canonical_id, run_id, violation_of, then_model, seed_too_large, pack_mismatch,
  total_mismatch, workers_mismatch, device_mismatch, records_not_sorted, records_repeat,
  coverage_mismatch, distinct_mismatch, declared_mismatch, evaluations_mismatch, semantics_differ,
}
use evo_nn_research.Budgets.{
  BudgetDeclaration, BudgetAccounting, declaration_errors, accounting_errors, nonneg, errors_of_all,
}
use evo_nn_research.Telemetry.{
  SystemId, TaskKind, classification, regression, language_modeling, forecasting, MetricDirection,
  max, min, ResultStatus, ok_status, failed, skipped, unsupported, RuntimeMetadata, runtime_errors,
  SeedingMetadata, seeding_errors,
}
use evo_nn_research.Telemetry.Measures.{BenchmarkResult, result_errors, Coverage, coverage_errors}

-- `_RunIdentity`, less the `schema_version`, which has one value.
pub record RunIdentity : Type 0 where
  pub system : SystemId
  pub run_id : Text
  pub pack_id : Text
  pub seed : ℤ

unfoldable pub identity_errors : RunIdentity → List Violation
identity_errors r =
    violation_of (run_id r.run_id)
    ++ (violation_of (canonical_id r.pack_id)
        ++ violation_of (do nonneg r.seed; guard (ltb_ℤ r.seed (pos (2 ^ 256))) seed_too_large))

pub record Results : Type 0 where
  pub identity : RunIdentity
  pub budget : BudgetDeclaration
  pub accounting : BudgetAccounting
  pub runtime : RuntimeMetadata
  pub seeding : SeedingMetadata
  pub records : List BenchmarkResult
  pub coverage : Coverage

-- `_validate_document_echoes`
unfoldable pub validate_echoes :
    RunIdentity → BudgetDeclaration → BudgetAccounting → RuntimeMetadata → Checked (Unit {0})
validate_echoes identity budget accounting runtime = do
  guard (text_eq identity.pack_id budget.benchmark_surface.pack_id) pack_mismatch
  guard (eqb_ℤ budget.evaluation.total accounting.evaluation_count) total_mismatch
  guard (eqb_ℤ runtime.worker_topology.worker_count budget.hardware.worker_count) workers_mismatch
  guard (text_eq runtime.device_class budget.hardware.device_class) device_mismatch

-- The key of a record, and the order by the UTF-8 encodings of both parts.
abbrev pub Key : Type 0
Key = Text × Text

abbrev pub key_of : BenchmarkResult → Key
key_of r = (r.benchmark_id, r.outcome_id)

unfoldable pub key_lt : Key → Key → Bool
key_lt (a, b) (c, d) = text_lt a c || (text_eq a c && text_lt b d)

unfoldable pub insert_key : Key → List Key → List Key
insert_key k [] = k ∷ []
insert_key k (j ∷ js) = if key_lt j k then j ∷ insert_key k js else k ∷ j ∷ js

unfoldable pub sorted_keys : List Key → List Key
sorted_keys [] = []
sorted_keys (k ∷ ks) = insert_key k (sorted_keys ks)

abbrev pub key_eq : Key → Key → Bool
key_eq (a, b) (c, d) = text_eq a c && text_eq b d

abbrev pub keys_eq : List Key → List Key → Bool
keys_eq [] [] = true
keys_eq [] (j ∷ js) = false
keys_eq (k ∷ ks) [] = false
keys_eq (k ∷ ks) (j ∷ js) = key_eq k j && keys_eq ks js

abbrev pub key_in : Key → List Key → Bool
key_in k [] = false
key_in k (j ∷ js) = key_eq j k || key_in k js

-- `len(keys) == len(set(keys))`
unfoldable pub distinct_keys : List Key → Bool
distinct_keys [] = true
distinct_keys (k ∷ ks) = not (key_in k ks) && distinct_keys ks

abbrev pub status_eq : ResultStatus → ResultStatus → Bool
status_eq ok_status ok_status = true
status_eq failed failed = true
status_eq skipped skipped = true
status_eq unsupported unsupported = true
status_eq _ _ = false

-- `Counter(record.status for record in results.records)[status]`
unfoldable pub count_status : ResultStatus → List BenchmarkResult → ℕ
count_status s [] = 0
count_status s (r ∷ rs) =
    let rest = count_status s rs in if status_eq r.status s then suc rest else rest

-- `len({record.benchmark_id for record in results.records})`
unfoldable pub distinct_benchmarks : List BenchmarkResult → ℕ
distinct_benchmarks [] = 0
distinct_benchmarks (r ∷ rs) =
    let rest = distinct_benchmarks rs in
    if text_in r.benchmark_id (map (λ s. s.benchmark_id) rs) then rest else suc rest

-- `sum(record.evaluation_count for record in results.records)`
unfoldable pub sum_evaluation_counts : List BenchmarkResult → ℤ
sum_evaluation_counts [] = pos 0
sum_evaluation_counts (r ∷ rs) = r.evaluation_count +ℤ sum_evaluation_counts rs

pub record Meaning : Type 0 where
  pub task_kind : TaskKind
  pub name : Text
  pub direction : MetricDirection

abbrev pub meaning : BenchmarkResult → Meaning
meaning r = record { task_kind = r.task_kind; name = r.metric.name; direction = r.metric.direction }

abbrev pub task_eq : TaskKind → TaskKind → Bool
task_eq classification classification = true
task_eq regression regression = true
task_eq language_modeling language_modeling = true
task_eq forecasting forecasting = true
task_eq _ _ = false

abbrev pub direction_eq : MetricDirection → MetricDirection → Bool
direction_eq max max = true
direction_eq min min = true
direction_eq _ _ = false

abbrev pub meaning_eq : Meaning → Meaning → Bool
meaning_eq a b =
    task_eq a.task_kind b.task_kind && text_eq a.name b.name && direction_eq a.direction b.direction

-- The loop over the records with the dictionary `semantics`.
unfoldable pub check_semantics : List (Text × Meaning) → List BenchmarkResult → Checked (Unit {0})
check_semantics semantics [] = ok tt
check_semantics semantics (r ∷ rs) = elim (lookup r.benchmark_id semantics) [
  | none ↦ check_semantics ((r.benchmark_id, meaning r) ∷ semantics) rs
  | some old ↦ do guard (meaning_eq (meaning r) old) semantics_differ; check_semantics semantics rs
]

-- `_validate_results_records`
unfoldable pub validate_records : Results → Checked (Unit {0})
validate_records d = do
  let keys = map key_of d.records
  guard (keys_eq keys (sorted_keys keys)) records_not_sorted
  guard (distinct_keys keys) records_repeat
  guard
      (eqb_ℤ (pos (length d.records)) d.coverage.result_count
        && eqb_ℤ (pos (count_status ok_status d.records)) d.coverage.ok_count
        && eqb_ℤ (pos (count_status failed d.records)) d.coverage.failed
        && eqb_ℤ (pos (count_status skipped d.records)) d.coverage.skipped
        && eqb_ℤ (pos (count_status unsupported d.records)) d.coverage.unsupported)
      coverage_mismatch
  guard (eqb_ℤ d.coverage.benchmark_count (pos (distinct_benchmarks d.records))) distinct_mismatch
  guard (eqb_ℤ d.coverage.benchmark_count d.budget.benchmark_surface.benchmark_count)
      declared_mismatch
  guard (eqb_ℤ (sum_evaluation_counts d.records) d.accounting.actual_evaluations)
      evaluations_mismatch
  check_semantics [] d.records

unfoldable pub document_errors : Results → List Violation
document_errors d =
    then_model
      (identity_errors d.identity
        ++ (declaration_errors d.budget
            ++ (accounting_errors d.accounting
                ++ (runtime_errors d.runtime
                    ++ (seeding_errors d.seeding
                        ++ (errors_of_all result_errors d.records
                            ++ coverage_errors d.coverage))))))
      (do validate_echoes d.identity d.budget d.accounting d.runtime; validate_records d)
