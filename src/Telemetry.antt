-- ===== src/Telemetry.antt =====
-- The telemetry contracts of EvoNN-Shared/src/evonn_shared/telemetry.py, with the validators of each
-- model in the order of its fields. Strict mode's type tests are the types of the fields.
pub mod Paths
pub mod Seeding
pub mod Measures
pub mod Results
use evo_nn_research.Prelude.{
  ℕ, Bool, true, false, not, ◌&&◌, ◌||◌, List, [], ◌∷◌, ◌++◌, Option, none, some, Text, codes,
  Float, nan, infinity, finite, ℤ, pos, ◌+ℤ◌, ltb_ℤ, eqb_ℤ, ◌==◌, ltb, leb, if◌then◌else◌, is_some,
  is_finite, is_utf8, all, any, length, text_eq, text_in, Result, ok, raise, guard, reject_if,
  ◌>>=◌, ◌>>◌,
}
use evo_nn_research.Contract.{
  Violation, Checked, human_text, canonical_id, run_id, finite_value, utf8_sorted_unique,
  violation_of, then_model, optional, is_digit, processes_exceed_workers, not_digest,
  rank_not_positive, source_evaluations_negative, unseeded_ladder, unseeded_overlap,
  unseeded_provenance, seeded_ladder, seeded_incomplete, seed_source_not_allowed, path_not_utf8,
  path_not_relative, path_not_normal, unavailable_has_value, value_missing, value_not_nonnegative,
  ok_result_invalid, other_result_invalid, coverage_sum_differs,
}
use evo_nn_research.Budgets.{nonneg, positive, is_empty}

pub data SystemId : Type 0 where
  prism topograph stratograph primordia contenders evonn evonn2 hybrid : SystemId

pub data BackendClass : Type 0 where
  mlx_native numpy_fallback sklearn_contender torch_optional unsupported_backend : BackendClass

pub data TaskKind : Type 0 where
  classification regression language_modeling forecasting : TaskKind

pub data MetricDirection : Type 0 where
  max min : MetricDirection

pub data ResultStatus : Type 0 where
  ok_status failed skipped unsupported : ResultStatus

pub data MeasurementProvenance : Type 0 where
  measured estimated unavailable : MeasurementProvenance

pub data SeedingLadder : Type 0 where
  no_ladder direct staged : SeedingLadder

pub data SeedOverlapPolicy : Type 0 where
  benchmark_disjoint benchmark_overlapping family_overlapping unknown : SeedOverlapPolicy

pub data SeedCostAccounting : Type 0 where
  free_prior charged_prior reported_prior : SeedCostAccounting

pub data FairnessSeverity : Type 0 where
  info warning blocker : FairnessSeverity

pub record WorkerTopology : Type 0 where
  pub worker_count : ℤ
  pub process_count : ℤ
  pub threads_per_worker : ℤ

unfoldable pub topology_errors : WorkerTopology → List Violation
topology_errors t =
    then_model
      (violation_of (positive t.worker_count)
        ++ (violation_of (positive t.process_count)
            ++ violation_of (positive t.threads_per_worker)))
      (reject_if (ltb_ℤ t.worker_count t.process_count) processes_exceed_workers)

-- `_SHA256_PATTERN.fullmatch(value)`
unfoldable pub matches_sha256 : Text → Bool
matches_sha256 value =
    length value == 64 && all (λ c. is_digit c || (leb b'a' c && leb c b'f')) value

unfoldable pub digest : Text → Checked Text
digest value = do guard (matches_sha256 value) not_digest; ok value

pub record RuntimeMetadata : Type 0 where
  pub backend : BackendClass
  pub backend_version : Text
  pub device_class : Text
  pub precision_mode : Text
  pub worker_topology : WorkerTopology
  pub host_fingerprint : Text

unfoldable pub runtime_errors : RuntimeMetadata → List Violation
runtime_errors r =
    violation_of (human_text r.backend_version)
    ++ (violation_of (human_text r.device_class)
        ++ (violation_of (human_text r.precision_mode)
            ++ (topology_errors r.worker_topology ++ violation_of (digest r.host_fingerprint))))

-- `value.split("/")`, with the component that is being read.
unfoldable pub split_from : Text → Text → List Text
split_from component [] = component ∷ []
split_from component (c ∷ cs) =
    if c == b'/' then component ∷ split_from [] cs else split_from (component ++ c ∷ []) cs

abbrev pub split_slash : Text → List Text
split_slash = split_from []

-- `component in ("", ".", "..")`
unfoldable pub is_special : Text → Bool
is_special [] = true
is_special (c ∷ []) = c == b'.'
is_special (c ∷ d ∷ []) = c == b'.' && d == b'.'
is_special (c ∷ d ∷ e ∷ cs) = false

abbrev pub starts_with_slash : Text → Bool
starts_with_slash [] = false
starts_with_slash (c ∷ cs) = c == b'/'

-- `_artifact_path`
unfoldable pub artifact_path : Text → Checked Text
artifact_path value = do
  guard (is_utf8 value) path_not_utf8
  reject_if
      (is_empty value
        || any (λ c. c == 0) value
        || any (λ c. c == 0x5c) value
        || starts_with_slash value)
      path_not_relative
  reject_if (any is_special (split_slash value)) path_not_normal
  ok value

pub record SeedingMetadata : Type 0 where
  pub seeding_enabled : Bool
  pub seeding_ladder : SeedingLadder
  pub seed_source_system : Option SystemId
  pub seed_source_run_id : Option Text
  pub seed_artifact_path : Option Text
  pub seed_target_family : Option Text
  pub seed_selected_family : Option Text
  pub seed_rank : Option ℤ
  pub seed_overlap_policy : SeedOverlapPolicy
  pub seed_cost_accounting : Option SeedCostAccounting
  pub seed_source_evaluations : Option ℤ

unfoldable pub seeding_field_errors : SeedingMetadata → List Violation
seeding_field_errors s =
    optional (λ t. violation_of (run_id t)) s.seed_source_run_id
    ++ (optional (λ t. violation_of (artifact_path t)) s.seed_artifact_path
        ++ (optional (λ t. violation_of (human_text t)) s.seed_target_family
            ++ (optional (λ t. violation_of (human_text t)) s.seed_selected_family
                ++ (optional (λ n. violation_of (reject_if (ltb_ℤ n (pos 1)) rank_not_positive))
                      s.seed_rank
                    ++ optional
                        (λ n.
                          violation_of (reject_if (ltb_ℤ n (pos 0)) source_evaluations_negative))
                        s.seed_source_evaluations))))

-- Which entries of the tuple `provenance` are present.
abbrev pub provenance : SeedingMetadata → List Bool
provenance s =
    is_some s.seed_source_system
    ∷ is_some s.seed_source_run_id
    ∷ is_some s.seed_artifact_path
    ∷ is_some s.seed_target_family
    ∷ is_some s.seed_selected_family
    ∷ is_some s.seed_rank
    ∷ is_some s.seed_cost_accounting
    ∷ is_some s.seed_source_evaluations
    ∷ []

-- `self.seed_source_system in allowed_sources`
abbrev pub is_allowed_source : Option SystemId → Bool
is_allowed_source (some prism) = true
is_allowed_source (some topograph) = true
is_allowed_source (some stratograph) = true
is_allowed_source (some primordia) = true
is_allowed_source _ = false

abbrev pub is_no_ladder : SeedingLadder → Bool
is_no_ladder no_ladder = true
is_no_ladder _ = false

abbrev pub is_unknown : SeedOverlapPolicy → Bool
is_unknown unknown = true
is_unknown _ = false

-- `_validate_state`
unfoldable pub validate_state : SeedingMetadata → Checked (Unit {0})
validate_state s = elim s.seeding_enabled [
  | false ↦ do
    guard (is_no_ladder s.seeding_ladder) unseeded_ladder
    guard (is_unknown s.seed_overlap_policy) unseeded_overlap
    reject_if (any (λ present. present) (provenance s)) unseeded_provenance
  | true ↦ do
    reject_if (is_no_ladder s.seeding_ladder) seeded_ladder
    reject_if (any (λ present. not present) (provenance s)) seeded_incomplete
    guard (is_allowed_source s.seed_source_system) seed_source_not_allowed
]

unfoldable pub seeding_errors : SeedingMetadata → List Violation
seeding_errors s = then_model (seeding_field_errors s) (validate_state s)
