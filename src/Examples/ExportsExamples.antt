-- ===== src/Examples/ExportsExamples.antt =====
-- A results document with two records, for EvoNN-Shared/src/evonn_shared/exports.py.
use evo_nn_research.Prelude.{
  ◌≡◌, refl, inl, inr, true, false, [], ◌∷◌, none, codes, pos, ◌≤ℤ◌, ◌+ℤ◌, finite, is_utf8,
  all_distinct, text_lt,
}
use evo_nn_research.Contract.{
  human_text, human_texts, is_space, is_control, canonical_id, matches_canonical_id, id_tail,
  run_id, matches_run_id, utf8_sorted_unique, sorted, insert_sorted, finite_value, semantics_differ,
  coverage_mismatch,
}
use evo_nn_research.Budgets.{
  LadderTier, BudgetAccounting, declaration_errors, evaluation_errors, stage_errors,
  wall_clock_errors, training_errors, hardware_errors, artifact_errors, surface_errors,
  fidelity_errors, fidelity_stage_errors, accounting_errors, accounting_field_errors,
  validate_accounting,
}
use evo_nn_research.Budgets.Execution.{declared}
use evo_nn_research.Telemetry.{
  artifact_path, split_from, is_special, seeding_errors, seeding_field_errors, validate_state,
  topology_errors, runtime_errors, digest, matches_sha256, prism, numpy_fallback, regression,
}
use evo_nn_research.Telemetry.Measures.{
  BenchmarkResult, result_errors, result_field_errors, validate_outcome, metric_errors,
  integer_errors, float_errors, measurement_state, coverage_errors,
}
use evo_nn_research.Exports.{
  Results, meaning, identity_errors, validate_echoes, key_lt, insert_key, sorted_keys,
  distinct_keys, count_status, distinct_benchmarks, sum_evaluation_counts, check_semantics,
  validate_records, document_errors,
}
use evo_nn_research.Exports.Semantics.{same_meaning}
use evo_nn_research.Exports.Totals.{evaluations-le-budget}
use evo_nn_research.Examples.TelemetryExamples.{scored, seeded}

program : Unit {0}
unfolding human_text human_texts is_space is_control canonical_id matches_canonical_id id_tail
    run_id matches_run_id utf8_sorted_unique sorted insert_sorted finite_value is_utf8 all_distinct
    text_lt declaration_errors evaluation_errors stage_errors wall_clock_errors training_errors
    hardware_errors artifact_errors surface_errors fidelity_errors fidelity_stage_errors
    accounting_errors accounting_field_errors validate_accounting declared artifact_path split_from
    is_special seeding_errors seeding_field_errors validate_state topology_errors runtime_errors
    digest matches_sha256 result_errors result_field_errors validate_outcome metric_errors
    integer_errors float_errors measurement_state coverage_errors identity_errors validate_echoes
    key_lt insert_key sorted_keys distinct_keys count_status distinct_benchmarks
    sum_evaluation_counts check_semantics validate_records document_errors ◌+ℤ◌
program = tt

abbrev accounting : BudgetAccounting
accounting = record {
  evaluation_count = pos 64;
  actual_evaluations = pos 8;
  cached_evaluations = pos 0;
  failed_evaluations = pos 0;
  invalid_evaluations = pos 0;
  resumed_from_run_id = none;
  resumed_evaluations = pos 0;
  partial_run = true;
  evaluation_semantics = codes "one fit";
}

abbrev second : BenchmarkResult
second = record scored { outcome_id = codes "second" }

abbrev document : Results
document = record {
  identity = record {
    system = prism;
    run_id = codes "run-2";
    pack_id = codes "wine_only";
    seed = pos 7;
  };
  budget =
      declared
        (record {
          pack_name = codes "wine_only";
          benchmarks = codes "wine" ∷ [];
          ladder_tier = LadderTier.tier_a;
        })
        64 (finite false 1 (pos 3)) (codes "cpu") (finite false 64 (pos 0));
  accounting = accounting;
  runtime = record {
    backend = numpy_fallback;
    backend_version = codes "2.4.4";
    device_class = codes "cpu";
    precision_mode = codes "float32";
    worker_topology = record {
      worker_count = pos 1;
      process_count = pos 1;
      threads_per_worker = pos 1;
    };
    host_fingerprint = codes "0123456789abcdef0123456789abcdef0123456789abcdef0123456789abcdef";
  };
  seeding = seeded;
  records = scored ∷ second ∷ [];
  coverage = record {
    benchmark_count = pos 1;
    result_count = pos 2;
    ok_count = pos 2;
    failed = pos 0;
    skipped = pos 0;
    unsupported = pos 0;
  };
}

document_runs :
    (document_errors document ≡ [])
    × (document_errors
          (record document { records = scored ∷ record second { task_kind = regression } ∷ [] })
        ≡ semantics_differ ∷ [])
    × (document_errors (record document { records = scored ∷ [] }) ≡ coverage_mismatch ∷ [])
unfolding program
document_runs = (refl, refl, refl)

same_meaning_example : meaning scored ≡ meaning second
same_meaning_example =
    same_meaning document scored second document_runs.0 (inl refl) (inr (inl refl)) refl

evaluations-le-budget_example :
    sum_evaluation_counts document.records ≤ℤ document.budget.evaluation.total
evaluations-le-budget_example = evaluations-le-budget document document_runs.0
