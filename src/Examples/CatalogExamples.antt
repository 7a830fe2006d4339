-- ===== src/Examples/CatalogExamples.antt =====
-- Inputs for the catalog models of EvoNN-Shared/src/evonn_shared/catalog.py.
use evo_nn_research.Prelude.{
  ℕ, zero, suc, ◌*◌, ◌<◌, ◌≡◌, refl, true, false, List, [], ◌∷◌, some, Text, codes, pos, finite,
  is_utf8, length, all_distinct, text_lt, none, ◌≤◌, ◌+◌, ◌^◌, ◌⊎◌, ok, raise, float_of,
  float_limit, excess_bits, nearest,
}
use evo_nn_research.Contract.{
  human_text, human_texts, is_space, is_control, canonical_id, matches_canonical_id, id_tail,
  utf8_sorted_unique, sorted, insert_sorted, budget_not_divisible, symmetry_unknown,
}
use evo_nn_research.Budgets.{LadderTier, BudgetDeclaration, declaration_errors}
use evo_nn_research.Budgets.Execution.{execution_budget, overflow_error}
use evo_nn_research.Telemetry.{digest, matches_sha256}
use evo_nn_research.Telemetry.Measures.{all_canonical}
use evo_nn_research.Catalog.{
  MetricCeiling, not_evidence, ceiling_errors, validate_ceiling, CanonicalIdEntry, entry_errors,
  registry_errors, BenchmarkPack, tabular, text_input, fast, daily, symmetry, modality_set,
  pack_benchmarks, contender_set, identifier_set, pack_errors,
}
use evo_nn_research.Catalog.Packs.{run_pack, pack_shares, pack_executes}

program : Unit {0}
unfolding human_text human_texts is_space is_control canonical_id matches_canonical_id id_tail
    utf8_sorted_unique sorted insert_sorted digest matches_sha256 all_canonical ceiling_errors
    validate_ceiling entry_errors registry_errors symmetry modality_set pack_benchmarks
    contender_set identifier_set pack_errors is_utf8 all_distinct text_lt
program = tt

abbrev accuracy_ceiling : MetricCeiling
accuracy_ceiling = record { value = some (finite false 1 (pos 0)); tie_policy = not_evidence }

abbrev ones : ℕ → Text
ones zero = []
ones (suc n) = b'1' ∷ ones n

abbrev two_entries : List CanonicalIdEntry
two_entries =
    record { id = codes "adult"; definition_sha256 = ones 64 }
    ∷ record { id = codes "wine"; definition_sha256 = ones 64 }
    ∷ []

two_entries_accepted : registry_errors two_entries ≡ []
unfolding program
two_entries_accepted = refl

abbrev core_pack : BenchmarkPack
core_pack = record {
  pack_name = codes "tier_b_core";
  ladder_tier = LadderTier.tier_b;
  benchmarks = codes "wine" ∷ codes "adult" ∷ [];
  evaluation_count = pos 64;
  symmetry = codes "leaning-prism";
  modalities = tabular ∷ text_input ∷ [];
  expected_local_runtime_class = fast;
  minimum_contenders = codes "random_forest" ∷ [];
  suitability = daily;
  full_fidelity_local_safe = true;
}

core_pack_runs :
    (pack_errors core_pack ≡ [])
    × (pack_errors (record core_pack { evaluation_count = pos 63 }) ≡ budget_not_divisible ∷ [])
    × (pack_errors (record core_pack { symmetry = codes "leaning-left" }) ≡ symmetry_unknown ∷ [])
unfolding program
core_pack_runs = (refl, refl, refl)

pack_shares_example :
    (all_distinct core_pack.benchmarks ≡ true)
    × (share : ℕ) × (0 < share)
    × (core_pack.evaluation_count ≡ pos (share * length core_pack.benchmarks))
pack_shares_example = pack_shares core_pack core_pack_runs.0

pack_executes_example :
    ((64 < float_limit)
      × (d : BudgetDeclaration) × (execution_budget
            (run_pack core_pack)
            64
            (finite false 1 (pos 3))
            (codes "cpu")
          ≡ ok d)
      × (d.evaluation.total ≡ pos 64)
      × (d.wall_clock.target_seconds ≡ finite false 1 (pos 3))
      × (d.hardware.device_class ≡ codes "cpu")
      × (declaration_errors d ≡ []))
    ⊎ ((float_limit ≤ 64)
        × (execution_budget (run_pack core_pack) 64 (finite false 1 (pos 3)) (codes "cpu")
            ≡ raise overflow_error))
unfolding program
pack_executes_example =
    pack_executes core_pack 64 (finite false 1 (pos 3)) (codes "cpu") core_pack_runs.0 refl refl
      refl refl

-- Rounding to 53 bits: exact, to the even neighbour, and to the nearer one; then no float.
float_of_runs :
    (float_of 64 ≡ some (finite false 64 (pos 0)))
    × (float_of (2 ^ 53 + 1) ≡ some (finite false (2 ^ 52) (pos 1)))
    × (float_of (2 ^ 53 + 3) ≡ some (finite false (2 ^ 52 + 2) (pos 1)))
    × (float_of (2 ^ 60 + 65) ≡ some (finite false (2 ^ 52) (pos 8)))
    × (float_of (2 ^ 1024) ≡ none)
unfolding float_of excess_bits nearest float_limit
float_of_runs = (refl, refl, refl, refl, refl)
