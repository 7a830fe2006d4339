-- ===== src/Examples/ContractExamples.antt =====
-- Inputs for the contract models of EvoNN-Shared/src/evonn_shared/budgets.py and runtime_budget.py.
use evo_nn_research.Prelude.{
  ◌≡◌, ◌↔◌, refl, true, List, [], ◌∷◌, some, Text, codes, pos, all_distinct, is_utf8, text_lt, ok,
  raise, ◌+ℤ◌,
}
use evo_nn_research.Contract.{
  canonical_id, matches_canonical_id, id_tail, human_text, human_texts, is_space, is_control,
  utf8_sorted_unique, sorted, insert_sorted, not_canonical_id, not_sorted, has_duplicates, run_id,
  matches_run_id,
}
use evo_nn_research.Contract.Identifiers.{IsIdentifier, canonical_id_iff}
use evo_nn_research.Contract.Sorting.{IsIncreasing, utf8_sorted_unique_iff}
use evo_nn_research.Budgets.{
  EvaluationBudget, evaluation_errors, stage_errors, BudgetAccounting, accounting_errors,
  accounting_field_errors, validate_accounting,
}
use evo_nn_research.Budgets.Accounting.{HasValidFields, IsBalanced, accounting_errors_iff}
use evo_nn_research.Budgets.Stages.{IsSound, evaluation_errors_iff}

program : Unit {0}
unfolding canonical_id matches_canonical_id id_tail human_text human_texts is_space is_control
    is_utf8 utf8_sorted_unique sorted insert_sorted text_lt all_distinct run_id matches_run_id
program = tt

canonical_id_runs :
    (canonical_id (codes "core_16") ≡ ok (codes "core_16"))
    × (canonical_id (codes "core__16") ≡ raise not_canonical_id)
    × (canonical_id (codes "core_") ≡ raise not_canonical_id)
unfolding program
canonical_id_runs = (refl, refl, refl)

canonical_id_iff_example :
    (canonical_id (codes "core_16") ≡ ok (codes "core_16")) ↔ IsIdentifier (codes "core_16")
canonical_id_iff_example = canonical_id_iff (codes "core_16")

abbrev two_texts : List Text
two_texts = codes "adult" ∷ codes "wine" ∷ []

sorted_unique_runs :
    (utf8_sorted_unique two_texts ≡ ok two_texts)
    × (utf8_sorted_unique (codes "wine" ∷ codes "adult" ∷ []) ≡ raise not_sorted)
    × (utf8_sorted_unique (codes "wine" ∷ codes "wine" ∷ []) ≡ raise has_duplicates)
unfolding program
sorted_unique_runs = (refl, refl, refl)

utf8_sorted_unique_iff_example :
    (utf8_sorted_unique two_texts ≡ ok two_texts)
    ↔ ((human_texts two_texts ≡ ok tt) × IsIncreasing two_texts)
utf8_sorted_unique_iff_example = utf8_sorted_unique_iff two_texts

abbrev resumed_run : BudgetAccounting
resumed_run = record {
  evaluation_count = pos 64;
  actual_evaluations = pos 40;
  cached_evaluations = pos 20;
  failed_evaluations = pos 3;
  invalid_evaluations = pos 5;
  resumed_from_run_id = some (codes "run-1");
  resumed_evaluations = pos 20;
  partial_run = true;
  evaluation_semantics = codes "one fit";
}

resumed_run_accepted : accounting_errors resumed_run ≡ []
unfolding program accounting_errors accounting_field_errors validate_accounting ◌+ℤ◌
resumed_run_accepted = refl

accounting_errors_iff_example :
    (accounting_errors resumed_run ≡ []) ↔ (HasValidFields resumed_run × IsBalanced resumed_run)
accounting_errors_iff_example = accounting_errors_iff resumed_run

abbrev staged : EvaluationBudget
staged = record {
  total = pos 64;
  stages =
      record { name = codes "proxy"; evaluations = pos 16 }
      ∷ record { name = codes "full"; evaluations = pos 48 }
      ∷ [];
}

staged_accepted : evaluation_errors staged ≡ []
unfolding program evaluation_errors stage_errors ◌+ℤ◌
staged_accepted = refl

evaluation_errors_iff_example : (evaluation_errors staged ≡ []) ↔ IsSound staged
evaluation_errors_iff_example = evaluation_errors_iff staged
