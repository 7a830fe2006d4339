-- ===== src/Catalog.antt =====
-- The benchmark and pack models of EvoNN-Shared/src/evonn_shared/catalog.py, with the validators of
-- each model in the order of its fields. A `schema_version` has one value and is left out; strict
-- mode's type tests are the types of the fields.
pub mod Packs
use evo_nn_research.Prelude.{
  ℕ, suc, ◌%◌, Bool, true, false, not, ◌||◌, List, [], ◌∷◌, ◌++◌, map, Option, none, some, Text,
  codes, Float, ℤ, pos, negsuc, ltb_ℤ, ◌==◌, any, length, is_finite, text_in, all_distinct, Result,
  ok, raise, guard, reject_if, ◌>>=◌, ◌>>◌,
}
use evo_nn_research.Contract.{
  Violation, Checked, human_text, canonical_id, utf8_sorted_unique, sorted, texts_eq, violation_of,
  then_model, optional, ceiling_not_finite, unbounded_policy, bounded_policy, shape_empty,
  shape_not_positive, contenders_empty, symmetry_unknown, modalities_empty, modalities_not_sorted,
  modalities_repeat, pack_empty, pack_repeats, budget_not_divisible,
}
use evo_nn_research.Budgets.{LadderTier, positive, is_empty, errors_of_all}
use evo_nn_research.Telemetry.{
  SystemId, prism, topograph, stratograph, primordia, contenders, evonn, evonn2, hybrid, TaskKind,
  MetricDirection, digest,
}
use evo_nn_research.Telemetry.Measures.{all_canonical}

pub data BenchmarkStatus : Type 0 where
  planned implemented experimental disabled : BenchmarkStatus

pub data InputModality : Type 0 where
  tabular image text_input sequence : InputModality

pub data CeilingTiePolicy : Type 0 where
  not_evidence best_observed : CeilingTiePolicy

pub record PrimaryMetric : Type 0 where
  pub name : Text
  pub direction : MetricDirection

pub record MetricCeiling : Type 0 where
  pub value : Option Float
  pub tie_policy : CeilingTiePolicy

abbrev pub is_best_observed : CeilingTiePolicy → Bool
is_best_observed best_observed = true
is_best_observed not_evidence = false

-- `_validate_state`
unfoldable pub validate_ceiling : MetricCeiling → Checked (Unit {0})
validate_ceiling c = elim c.value [
  | none ↦ guard (is_best_observed c.tie_policy) unbounded_policy
  | some x ↦ reject_if (is_best_observed c.tie_policy) bounded_policy
]

unfoldable pub ceiling_errors : MetricCeiling → List Violation
ceiling_errors c =
    then_model (optional (λ x. violation_of (guard (is_finite x) ceiling_not_finite)) c.value)
      (validate_ceiling c)

pub record BenchmarkSpec : Type 0 where
  pub id : Text
  pub display_name : Text
  pub status : BenchmarkStatus
  pub task_kind : TaskKind
  pub input_modality : InputModality
  pub input_shape : List ℤ
  pub output_dim : ℤ
  pub primary_metric : PrimaryMetric
  pub ceiling : MetricCeiling
  pub budget_epochs : ℤ
  pub runtime_class : Text
  pub required_contenders : List Text
  pub tags : List Text

-- `_validate_input_shape`
unfoldable pub input_shape : List ℤ → Checked (List ℤ)
input_shape value = do
  reject_if (is_empty value) shape_empty
  reject_if (any (λ d. not (ltb_ℤ (pos 0) d)) value) shape_not_positive
  ok value

-- `_validate_identifier_sets` of a field that may be empty.
unfoldable pub identifier_set : List Text → Checked (List Text)
identifier_set value = do all_canonical value; utf8_sorted_unique value

-- `_validate_identifier_sets` of the contenders, and `_validate_minimum_contenders`.
unfoldable pub contender_set : List Text → Checked (List Text)
contender_set value = do reject_if (is_empty value) contenders_empty; identifier_set value

unfoldable pub spec_errors : BenchmarkSpec → List Violation
spec_errors b =
    violation_of (canonical_id b.id)
    ++ (violation_of (human_text b.display_name)
        ++ (violation_of (input_shape b.input_shape)
            ++ (violation_of (positive b.output_dim)
                ++ (violation_of (canonical_id b.primary_metric.name)
                    ++ (ceiling_errors b.ceiling
                        ++ (violation_of (positive b.budget_epochs)
                            ++ (violation_of (canonical_id b.runtime_class)
                                ++ (violation_of (contender_set b.required_contenders)
                                    ++ violation_of (identifier_set b.tags)))))))))

pub record CanonicalIdEntry : Type 0 where
  pub id : Text
  pub definition_sha256 : Text

unfoldable pub entry_errors : CanonicalIdEntry → List Violation
entry_errors e = violation_of (canonical_id e.id) ++ violation_of (digest e.definition_sha256)

-- `CanonicalIdRegistry`: the validator of the field runs if every entry is valid.
unfoldable pub registry_errors : List CanonicalIdEntry → List Violation
registry_errors entries =
    then_model (errors_of_all entry_errors entries)
      (do utf8_sorted_unique (map (λ e. e.id) entries); ok tt)

pub data RuntimeClass : Type 0 where
  fast medium slow : RuntimeClass

pub data Suitability : Type 0 where
  smoke daily overnight special_study : Suitability

pub record BenchmarkPack : Type 0 where
  pub pack_name : Text
  pub ladder_tier : LadderTier
  pub benchmarks : List Text
  pub evaluation_count : ℤ
  pub symmetry : Text
  pub modalities : List InputModality
  pub expected_local_runtime_class : RuntimeClass
  pub minimum_contenders : List Text
  pub suitability : Suitability
  pub full_fidelity_local_safe : Bool

abbrev pub system_value : SystemId → Text
system_value prism = codes "prism"
system_value topograph = codes "topograph"
system_value stratograph = codes "stratograph"
system_value primordia = codes "primordia"
system_value contenders = codes "contenders"
system_value evonn = codes "evonn"
system_value evonn2 = codes "evonn2"
system_value hybrid = codes "hybrid"

abbrev pub systems : List SystemId
systems = prism ∷ topograph ∷ stratograph ∷ primordia ∷ contenders ∷ evonn ∷ evonn2 ∷ hybrid ∷ []

-- `_validate_symmetry`
unfoldable pub symmetry : Text → Checked Text
symmetry value = do
  guard (text_in value (codes "symmetric" ∷ map (λ s. codes "leaning-" ++ system_value s) systems))
      symmetry_unknown
  ok value

abbrev pub modality_value : InputModality → Text
modality_value tabular = codes "tabular"
modality_value image = codes "image"
modality_value text_input = codes "text"
modality_value sequence = codes "sequence"

-- `_validate_modalities`, by the values, which differ.
unfoldable pub modality_set : List InputModality → Checked (List InputModality)
modality_set value = do
  reject_if (is_empty value) modalities_empty
  let values = map modality_value value
  guard (texts_eq values (sorted values)) modalities_not_sorted
  guard (all_distinct values) modalities_repeat
  ok value

-- `_validate_benchmarks`
unfoldable pub pack_benchmarks : List Text → Checked (List Text)
pack_benchmarks value = do
  reject_if (is_empty value) pack_empty
  all_canonical value
  guard (all_distinct value) pack_repeats
  ok value

-- `count % divisor == 0`
abbrev pub divides : ℕ → ℤ → Bool
divides divisor (pos n) = n % divisor == 0
divides divisor (negsuc n) = suc n % divisor == 0

unfoldable pub pack_errors : BenchmarkPack → List Violation
pack_errors p =
    then_model
      (violation_of (canonical_id p.pack_name)
        ++ (violation_of (pack_benchmarks p.benchmarks)
            ++ (violation_of (positive p.evaluation_count)
                ++ (violation_of (symmetry p.symmetry)
                    ++ (violation_of (modality_set p.modalities)
                        ++ violation_of (contender_set p.minimum_contenders))))))
      (guard (divides (length p.benchmarks) p.evaluation_count) budget_not_divisible)
