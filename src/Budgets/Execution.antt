-- ===== src/Budgets/Execution.antt =====
-- `execution_budget` of EvoNN-Shared/src/evonn_shared/runtime_budget.py: the budget that a run
-- declares, and that the contract of budgets.py accepts it.
use evo_nn_research.Prelude.{
  ℕ, ◌≡◌, refl, true, false, List, [], ◌∷◌, none, some, Text, codes, Float, pos, finite, is_finite,
  is_positive, arith, ◌<◌, ◌≤◌, ◌*◌, ok, raise, Result, ℤ, ◌⊎◌, inl, inr, float_limit, float_of,
  float_of-cases, sum_pos, length,
}
use evo_nn_research.Contract.{
  human_text, canonical_id, utf8_sorted_unique, human_texts, sorted, finite_value, is_space,
  is_control,
}
use evo_nn_research.Prelude.{all_distinct, is_utf8}
use evo_nn_research.Budgets.{
  LadderTier, BudgetDeclaration, stage_errors, evaluation_errors, wall_clock_errors,
  training_errors, hardware_errors, artifact_errors, surface_errors, fidelity_stage_errors,
  fidelity_errors, declaration_errors,
}

abbrev pub max_engine_evaluations : ℕ
max_engine_evaluations = 256

-- What `execution_budget` reads of a parity pack.
pub record Pack : Type 0 where
  pub pack_name : Text
  pub benchmarks : List Text
  pub ladder_tier : LadderTier

abbrev pub full : Text
full = codes "full"

-- The declaration, with `float(total)`.
unfoldable pub declared : Pack → ℕ → Float → Text → (total_cap : Float) → BudgetDeclaration
declared pack total timeout device total_cap = record {
  evaluation = record {
    total = pos total;
    stages = record { name = full; evaluations = pos total } ∷ [];
  };
  wall_clock = record { target_seconds = timeout };
  training = record {
    unit =
        codes
          "bounded fit/eval passes; model-specific iteration limits in config and attempt telemetry";
    per_candidate = finite false 1 (pos 0);
    total_cap = total_cap;
  };
  hardware = record {
    device_class = device;
    cpu_count = pos 1;
    accelerator_type = none;
    memory_ceiling_bytes = none;
    worker_count = pos 1;
  };
  model_artifact = record {
    parameter_cap = none;
    model_bytes_cap = some (pos (256 * 1024 * 1024));
    memory_target_bytes = none;
    latency_target_seconds = none;
  };
  benchmark_surface = record {
    pack_id = pack.pack_name;
    benchmark_count = pos (length pack.benchmarks);
    ladder_tier = pack.ladder_tier;
    reductions = [];
    subsets = [];
  };
  fidelity = record {
    regime = codes "full benchmark splits; bounded system-specific training";
    stages =
        record { name = full; description = codes "historical full train/validation split" } ∷ [];
    promotion_rule = codes "none; explicit training allocation and inheritance in attempt ledger";
  };
}

pub data ExecutionError : Type 0 where
  overflow_error : ExecutionError

unfoldable pub execution_budget : Pack → ℕ → Float → Text → Result ExecutionError BudgetDeclaration
execution_budget pack total timeout device = elim (float_of total) [
  | none ↦ raise overflow_error
  | some total_cap ↦ ok (declared pack total timeout device total_cap)
]

module _ (pack : Pack) (total : ℕ) (timeout : Float) (device : Text) (m : ℕ) (e : ℤ) where
  evaluation_accepted :
      0 < total
      → evaluation_errors (declared pack total timeout device (finite false m e)).evaluation ≡ []
  unfolding declared evaluation_errors stage_errors human_text is_space is_control is_utf8
      all_distinct
  evaluation_accepted h = ground (arith, sum_pos total 0)

  training_accepted :
      training_errors (declared pack total timeout device (finite false m e)).training ≡ []
  unfolding declared training_errors human_text is_space is_control is_utf8 finite_value
  training_accepted = refl

  fidelity_accepted :
      fidelity_errors (declared pack total timeout device (finite false m e)).fidelity ≡ []
  unfolding declared fidelity_errors fidelity_stage_errors human_text is_space is_control is_utf8
      all_distinct
  fidelity_accepted = refl

  -- A declaration is accepted by the budget contract: for a positive number of
  -- evaluations, a positive finite timeout, a device name that is a human text, and a pack that
  -- has a canonical name and at least one benchmark.
  declared_accepted :
      0 < total
      → is_positive timeout ≡ true
      → is_finite timeout ≡ true
      → human_text device ≡ ok device
      → canonical_id pack.pack_name ≡ ok pack.pack_name
      → 0 < length pack.benchmarks
      → declaration_errors (declared pack total timeout device (finite false m e)) ≡ []
  unfolding declared declaration_errors wall_clock_errors hardware_errors artifact_errors
      surface_errors finite_value utf8_sorted_unique human_texts sorted all_distinct
  declared_accepted h p f d n b =
      ground (arith, evaluation_accepted h, training_accepted, fidelity_accepted)

-- The budget that a run declares has the number of evaluations, the timeout and the device that were
-- given, and is accepted by the budget contract, where its number of evaluations is below the limit
-- of the floats: for a positive number of evaluations, a positive finite timeout,
-- a device name that is a human text, and a pack that has a canonical name and at least one
-- benchmark. Otherwise the number cannot be converted.
pub execution_budget_accepted :
    (pack : Pack) (total : ℕ) (timeout : Float) (device : Text)
    → 0 < total
    → is_positive timeout ≡ true
    → is_finite timeout ≡ true
    → human_text device ≡ ok device
    → canonical_id pack.pack_name ≡ ok pack.pack_name
    → 0 < length pack.benchmarks
    → ((total < float_limit)
        × (d : BudgetDeclaration) × (execution_budget pack total timeout device ≡ ok d)
        × (d.evaluation.total ≡ pos total)
        × (d.wall_clock.target_seconds ≡ timeout)
        × (d.hardware.device_class ≡ device)
        × (declaration_errors d ≡ []))
      ⊎ ((float_limit ≤ total)
          × (execution_budget pack total timeout device ≡ raise overflow_error))
unfolding execution_budget declared
execution_budget_accepted pack total timeout device h p f t n b = elim (float_of-cases total) [
  | inl (small, m, e, converted) ↦ inl (
    small,
    declared pack total timeout device (finite false m e),
    rw (converted, execution_budget) refl,
    refl,
    refl,
    refl,
    declared_accepted pack total timeout device m e h p f t n b,
  )
  | inr (large, overflows) ↦ inr (large, rw (overflows, execution_budget) refl)
]
