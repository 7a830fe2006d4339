-- ===== src/RunStore/Store.antt =====
-- The methods of `RunStore` in EvoNN-Shared/src/evonn_shared/run_store.py.
use evo_nn_research.Prelude.{
  ℕ, suc, ◌+◌, List, [], ◌∷◌, Option, none, some, Text, Float, ◌==◌, text_eq, Result, ok, raise,
  guard, ◌>>=◌, ◌>>◌,
}
use evo_nn_research.Contract.{canonical_id}
use evo_nn_research.Canonical.{Primitives}
use evo_nn_research.RunStore.Rows.{
  EvaluationRow, RunRow, Tables, StoreError, not_one_run, sequence_out_of_order, not_chained,
  digest_mismatch, count_mismatch, tip_mismatch, checked, digested, genesis_digest,
  evaluation_digest, validate_rows, run_record, by_sequence,
}
use evo_nn_research.RunStore.Database.{
  Connection, Statement, Faults, view, insert_evaluation, update_runs, transaction,
}

-- `ORDER BY sequence DESC LIMIT 1`
unfoldable pub last_row : List EvaluationRow → Option EvaluationRow
last_row [] = none
last_row (r ∷ []) = some r
last_row (r ∷ s ∷ ss) = last_row (s ∷ ss)

-- The sequence number and the digest that the next row continues from.
unfoldable pub next_link : Option EvaluationRow → ℕ × Text
next_link none = (0, genesis_digest)
next_link (some r) = (r.sequence + 1, r.row_sha256)

-- `run`
unfoldable pub run : Tables → Result StoreError RunRow
run t = elim t.runs [
  | [] ↦ raise not_one_run
  | r ∷ rest ↦ elim rest [ [] ↦ run_record r | _ ∷ _ ↦ raise not_one_run ]
]

-- `evaluations`
unfoldable pub evaluations : Tables → Result StoreError (List EvaluationRow)
evaluations t = do let rows = by_sequence t.evaluations; validate_rows rows; ok rows

-- The row and its external tip are one logical record.
abbrev pub append_statements : EvaluationRow → List Statement
append_statements row = insert_evaluation row ∷ update_runs (row.sequence + 1) row.row_sha256 ∷ []

module _ (p : Primitives) where
  -- The row that `append_evaluation` builds.
  unfoldable pub new_row : Tables → Text → Text → Text → Float → Result StoreError EvaluationRow
  new_row t benchmark_id contender_id metric_name metric_value = do
    let (sequence, previous) = next_link (last_row (by_sequence t.evaluations))
    benchmark ← checked (canonical_id benchmark_id)
    contender ← checked (canonical_id contender_id)
    metric ← checked (canonical_id metric_name)
    digest ←
        digested
          (evaluation_digest p sequence benchmark_id contender_id metric_name metric_value previous)
    ok (record {
      sequence = sequence;
      benchmark_id = benchmark;
      contender_id = contender;
      metric_name = metric;
      metric_value = metric_value;
      previous_sha256 = previous;
      row_sha256 = digest;
    })

  -- `append_evaluation`: the connection afterwards, on every path, and the new row.
  unfoldable pub append_evaluation :
      Faults
      → Connection
      → Text
      → Text
      → Text
      → Float
      → Result StoreError EvaluationRow × Connection
  append_evaluation fails c benchmark_id contender_id metric_name metric_value =
      elim (new_row (view c) benchmark_id contender_id metric_name metric_value) [
        | raise e ↦ (raise e, c)
        | ok row ↦
            let (done, d) = transaction fails (append_statements row) c in (do done; ok row, d)
      ]

  -- The loop of `verify_evaluation_chain`: the number of rows and the digest of the last.
  unfoldable pub verify_from : ℕ → Text → List EvaluationRow → Result StoreError (ℕ × Text)
  verify_from index previous [] = ok (index, previous)
  verify_from index previous (r ∷ rs) = do
    guard (r.sequence == index) sequence_out_of_order
    guard (text_eq r.previous_sha256 previous) not_chained
    recomputed ← digested (
        evaluation_digest p r.sequence r.benchmark_id r.contender_id r.metric_name r.metric_value
          r.previous_sha256)
    guard (text_eq recomputed r.row_sha256) digest_mismatch
    verify_from (suc index) r.row_sha256 rs

  -- `verify_evaluation_chain`
  unfoldable pub verify_evaluation_chain : Tables → Result StoreError ℕ
  verify_evaluation_chain t = do
    recorded ← run t
    rows ← evaluations t
    (count, tip) ← verify_from 0 genesis_digest rows
    guard (count == recorded.evaluation_count) count_mismatch
    guard (text_eq tip recorded.evaluation_tip_sha256) tip_mismatch
    ok count
