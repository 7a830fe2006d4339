-- ===== src/Examples/TelemetryExamples.antt =====
-- Inputs for the contract models of EvoNN-Shared/src/evonn_shared/telemetry.py.
use evo_nn_research.Prelude.{
  All, ◌≡◌, ◌↔◌, ◌⊎◌, refl, true, false, List, [], ◌∷◌, ◌++◌, none, some, Text, codes, pos, finite,
  is_utf8, ok, raise, ◌+ℤ◌,
}
use evo_nn_research.Contract.{
  human_text, is_space, is_control, canonical_id, matches_canonical_id, id_tail, run_id,
  matches_run_id, path_not_relative, path_not_normal, seeded_incomplete, seed_source_not_allowed,
  finite_value,
}
use evo_nn_research.Telemetry.{
  artifact_path, split_from, is_special, SeedingMetadata, seeding_errors, seeding_field_errors,
  validate_state, direct, prism, contenders, benchmark_disjoint, free_prior, ok_status, measured,
  unavailable, classification, max,
}
use evo_nn_research.Telemetry.Measures.{
  BenchmarkResult, FloatMeasurement, IntegerMeasurement, Coverage, result_errors,
  result_field_errors, validate_outcome, metric_errors, integer_errors, float_errors,
  measurement_state, coverage_errors,
}
use evo_nn_research.Telemetry.Paths.{
  IsSafePath, IsName, join_slash, artifact_path_iff, resolve, resolve-below,
}
use evo_nn_research.Telemetry.Seeding.{IsSeeded, IsUnseeded, seeding_errors_iff}
use evo_nn_research.Telemetry.Results.{IsScored, IsExplained, result_errors_iff}

program : Unit {0}
unfolding artifact_path split_from is_special is_utf8 human_text is_space is_control canonical_id
    matches_canonical_id id_tail run_id matches_run_id seeding_errors seeding_field_errors
    validate_state result_errors result_field_errors validate_outcome metric_errors integer_errors
    float_errors measurement_state coverage_errors finite_value
program = tt

abbrev pub seed_path : Text
seed_path = codes "seeds/best.json"

artifact_path_runs :
    (artifact_path seed_path ≡ ok seed_path)
    × (artifact_path (codes "seeds/../best.json") ≡ raise path_not_normal)
    × (artifact_path (codes "seeds//best.json") ≡ raise path_not_normal)
    × (artifact_path (codes "/best.json") ≡ raise path_not_relative)
    × (artifact_path [] ≡ raise path_not_relative)
unfolding program
artifact_path_runs = (refl, refl, refl, refl, refl)

artifact_path_iff_example : (artifact_path seed_path ≡ ok seed_path) ↔ IsSafePath seed_path
artifact_path_iff_example = artifact_path_iff seed_path

resolve-below_example :
    (first : Text) × (rest : List Text) × (seed_path ≡ join_slash first rest)
    × All IsName (first ∷ rest)
    × (resolve (codes "run" ∷ []) seed_path ≡ (codes "run" ∷ []) ++ first ∷ rest)
resolve-below_example = resolve-below (codes "run" ∷ []) seed_path artifact_path_runs.0

abbrev pub seeded : SeedingMetadata
seeded = record {
  seeding_enabled = true;
  seeding_ladder = direct;
  seed_source_system = some prism;
  seed_source_run_id = some (codes "run-1");
  seed_artifact_path = some seed_path;
  seed_target_family = some (codes "mlp");
  seed_selected_family = some (codes "mlp");
  seed_rank = some (pos 1);
  seed_overlap_policy = benchmark_disjoint;
  seed_cost_accounting = some free_prior;
  seed_source_evaluations = some (pos 64);
}

seeding_runs :
    (seeding_errors seeded ≡ [])
    × (seeding_errors (record seeded { seed_rank = none }) ≡ seeded_incomplete ∷ [])
    × (seeding_errors (record seeded { seed_source_system = some contenders })
        ≡ seed_source_not_allowed ∷ [])
unfolding program
seeding_runs = (refl, refl, refl)

seeding_errors_iff_example :
    (seeding_errors seeded ≡ [])
    ↔ ((seeding_field_errors seeded ≡ []) × (IsUnseeded seeded ⊎ IsSeeded seeded))
seeding_errors_iff_example = seeding_errors_iff seeded

abbrev pub count : IntegerMeasurement
count = record { value = some (pos 120); provenance = measured }

abbrev pub seconds : FloatMeasurement
seconds = record { value = some (finite false 3 (pos 1)); provenance = measured }

abbrev pub scored : BenchmarkResult
scored = record {
  benchmark_id = codes "wine";
  outcome_id = codes "best";
  task_kind = classification;
  metric = record {
    name = codes "accuracy";
    direction = max;
    value = some (finite false 1 (pos 0));
  };
  status = ok_status;
  reason = none;
  parameter_count = count;
  train_seconds = seconds;
  model_bytes = count;
  peak_memory_bytes = record { value = none; provenance = unavailable };
  evaluation_count = pos 4;
}

scored_accepted : result_errors scored ≡ []
unfolding program
scored_accepted = refl

result_errors_iff_example :
    (result_errors scored ≡ [])
    ↔ ((result_field_errors scored ≡ []) × (IsScored scored ⊎ IsExplained scored))
result_errors_iff_example = result_errors_iff scored

abbrev covered : Coverage
covered = record {
  benchmark_count = pos 8;
  result_count = pos 8;
  ok_count = pos 5;
  failed = pos 2;
  skipped = pos 0;
  unsupported = pos 1;
}

covered_accepted : coverage_errors covered ≡ []
unfolding program ◌+ℤ◌
covered_accepted = refl
