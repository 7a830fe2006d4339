-- ===== src/Telemetry/Seeding.antt =====
-- `SeedingMetadata` of EvoNN-Shared/src/evonn_shared/telemetry.py: the two states of a run.
use evo_nn_research.Prelude.{
  ◌≡◌, ◌↔◌, ◌⊎◌, inl, inr, true, false, [], Option, none, some, arith, is_some, Bool-cases,
}
use evo_nn_research.Contract.{violation_of}
use evo_nn_research.Telemetry.{
  SystemId, prism, topograph, stratograph, primordia, SeedingLadder, no_ladder, direct, staged,
  unknown, SeedingMetadata, seeding_field_errors, is_allowed_source, is_no_ladder, validate_state,
  seeding_errors,
}

-- What is known of a seed: everything, and the system is one that is searched.
pub record IsSeeded (s : SeedingMetadata) : Type 0 where
  pub enabled : s.seeding_enabled ≡ true
  pub ladder : (s.seeding_ladder ≡ direct) ⊎ (s.seeding_ladder ≡ staged)
  pub run : is_some s.seed_source_run_id ≡ true
  pub path : is_some s.seed_artifact_path ≡ true
  pub target_family : is_some s.seed_target_family ≡ true
  pub selected_family : is_some s.seed_selected_family ≡ true
  pub rank : is_some s.seed_rank ≡ true
  pub cost : is_some s.seed_cost_accounting ≡ true
  pub evaluations : is_some s.seed_source_evaluations ≡ true
  pub from_research :
      ((s.seed_source_system ≡ some prism) ⊎ (s.seed_source_system ≡ some topograph))
      ⊎ ((s.seed_source_system ≡ some stratograph) ⊎ (s.seed_source_system ≡ some primordia))

-- What is known of a seed: nothing.
pub record IsUnseeded (s : SeedingMetadata) : Type 0 where
  pub disabled : s.seeding_enabled ≡ false
  pub ladder : s.seeding_ladder ≡ no_ladder
  pub overlap : s.seed_overlap_policy ≡ unknown
  pub no_system : s.seed_source_system ≡ none
  pub no_run : s.seed_source_run_id ≡ none
  pub no_path : s.seed_artifact_path ≡ none
  pub no_target : s.seed_target_family ≡ none
  pub no_selected : s.seed_selected_family ≡ none
  pub no_rank : s.seed_rank ≡ none
  pub no_cost : s.seed_cost_accounting ≡ none
  pub no_evaluations : s.seed_source_evaluations ≡ none

ladder_iff : (l : SeedingLadder) → (is_no_ladder l ≡ false) ↔ ((l ≡ direct) ⊎ (l ≡ staged))
ladder_iff no_ladder = ground arith
ladder_iff direct = ground arith
ladder_iff staged = ground arith

no_ladder_iff : (l : SeedingLadder) → (is_no_ladder l ≡ true) ↔ (l ≡ no_ladder)
no_ladder_iff no_ladder = ground arith
no_ladder_iff direct = ground arith
no_ladder_iff staged = ground arith

allowed_iff :
    (o : Option SystemId)
    → (is_allowed_source o ≡ true) ↔ (
        ((o ≡ some prism) ⊎ (o ≡ some topograph)) ⊎ ((o ≡ some stratograph) ⊎ (o ≡ some primordia)))
allowed_iff o = ground arith

validate-IsUnseeded :
    (s : SeedingMetadata)
    → s.seeding_enabled ≡ false
    → (violation_of (validate_state s) ≡ []) ↔ IsUnseeded s
unfolding validate_state
validate-IsUnseeded s off = ground (arith, no_ladder_iff s.seeding_ladder)

validate-IsSeeded :
    (s : SeedingMetadata)
    → s.seeding_enabled ≡ true
    → (violation_of (validate_state s) ≡ []) ↔ IsSeeded s
unfolding validate_state
validate-IsSeeded s on =
    ground (arith, ladder_iff s.seeding_ladder, allowed_iff s.seed_source_system)

validate_iff :
    (s : SeedingMetadata) → (violation_of (validate_state s) ≡ []) ↔ (IsUnseeded s ⊎ IsSeeded s)
validate_iff s = elim (Bool-cases s.seeding_enabled) [
  | inl on ↦ ground (arith, validate-IsSeeded s on)
  | inr off ↦ ground (arith, validate-IsUnseeded s off)
]

-- Seeding metadata is accepted exactly when its fields are valid and the run is either unseeded,
-- with the ladder none, the overlap policy unknown and no provenance at all, or seeded from prism,
-- topograph, stratograph or primordia, with the ladder direct or staged and a complete provenance.
pub seeding_errors_iff :
    (s : SeedingMetadata)
    → (seeding_errors s ≡ []) ↔ ((seeding_field_errors s ≡ []) × (IsUnseeded s ⊎ IsSeeded s))
unfolding seeding_errors
seeding_errors_iff s = ground (arith, validate_iff s)
