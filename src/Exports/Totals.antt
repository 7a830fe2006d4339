-- ===== src/Exports/Totals.antt =====
-- The counters of a results document of EvoNN-Shared/src/evonn_shared/exports.py, against its budget.
use evo_nn_research.Prelude.{
  ◌≡◌, refl, true, List, [], ◌∷◌, ℤ, pos, ◌≤ℤ◌, ◌+ℤ◌, +ℤ_parts, eqb_ℤ, arith, ok, raise, Result,
  ◌>>◌, ◌++◌, text_eq_iff,
}
use evo_nn_research.Contract.{Violation, violation_of, then_model}
use evo_nn_research.Budgets.{accounting_errors}
use evo_nn_research.Budgets.Accounting.{accounting_errors_iff}
use evo_nn_research.Exports.{
  Results, document_errors, validate_echoes, validate_records, sum_evaluation_counts,
  distinct_benchmarks,
}

ℤ-eq : (x y : ℤ) → eqb_ℤ x y ≡ true → x ≡ y
ℤ-eq x y h = ground arith

then_model-parts :
    (es : List Violation) (model : Result Violation (Unit {0}))
    → then_model es model ≡ []
    → (es ≡ []) × (violation_of model ≡ [])
then_model-parts [] model h = (refl, h)
then_model-parts (e ∷ es) model h = absurd (ground arith)

append-parts : (xs ys : List Violation) → xs ++ ys ≡ [] → (xs ≡ []) × (ys ≡ [])
append-parts [] ys h = (refl, h)
append-parts (x ∷ xs) ys h = absurd (ground arith)

bind-parts :
    (first next : Result Violation (Unit {0}))
    → violation_of (first >> next) ≡ []
    → (violation_of first ≡ []) × (violation_of next ≡ [])
bind-parts (ok u) next h = (refl, h)
bind-parts (raise e) next h = absurd (ground arith)

document_facts :
    (d : Results)
    → document_errors d ≡ []
    → (violation_of (validate_echoes d.identity d.budget d.accounting d.runtime) ≡ [])
      × (violation_of (validate_records d) ≡ [])
      × (accounting_errors d.accounting ≡ [])
unfolding document_errors
document_facts d h =
    let (fields, model) = then_model-parts _ _ h in
    let (echoes, records) = bind-parts _ _ model in
    let accounting = (append-parts _ _ (append-parts _ _ (append-parts _ _ fields).1).1).0 in
    (echoes, records, accounting)

echoes_facts :
    (d : Results)
    → violation_of (validate_echoes d.identity d.budget d.accounting d.runtime) ≡ []
    → (d.identity.pack_id ≡ d.budget.benchmark_surface.pack_id)
      × (d.budget.evaluation.total ≡ d.accounting.evaluation_count)
unfolding validate_echoes
echoes_facts d h = ground (
  arith,
  text_eq_iff d.identity.pack_id d.budget.benchmark_surface.pack_id,
  ℤ-eq d.budget.evaluation.total d.accounting.evaluation_count,
)

records_facts :
    (d : Results)
    → violation_of (validate_records d) ≡ []
    → (sum_evaluation_counts d.records ≡ d.accounting.actual_evaluations)
      × (pos (distinct_benchmarks d.records) ≡ d.budget.benchmark_surface.benchmark_count)
unfolding validate_records
records_facts d h = ground (
  arith,
  ℤ-eq (sum_evaluation_counts d.records) d.accounting.actual_evaluations,
  ℤ-eq d.coverage.benchmark_count (pos (distinct_benchmarks d.records)),
  ℤ-eq d.coverage.benchmark_count d.budget.benchmark_surface.benchmark_count,
)

-- In an accepted results document the records together count no more evaluations than the budget
-- declares.
pub evaluations-le-budget :
    (d : Results)
    → document_errors d ≡ []
    → sum_evaluation_counts d.records ≤ℤ d.budget.evaluation.total
evaluations-le-budget d h =
    let (echoes, records, accounting) = document_facts d h in
    let (fields, balanced) = (accounting_errors_iff d.accounting).0 accounting in
    within (sum_evaluation_counts d.records) d.budget.evaluation.total
      d.accounting.actual_evaluations d.accounting.cached_evaluations d.accounting.evaluation_count
      (records_facts d records).0 (echoes_facts d echoes).1 fields.cached balanced.covered
  where
    within :
        (sum total actual cached count : ℤ)
        → sum ≡ actual
        → total ≡ count
        → pos 0 ≤ℤ cached
        → actual +ℤ cached ≤ℤ count
        → sum ≤ℤ total
    within sum total actual cached count e f g h =
        rw (e, f) (omega (arith, g, h, +ℤ_parts actual cached))
