-- ===== src/RunStore.antt =====
-- The per-run store of EvoNN-Shared/src/evonn_shared/run_store.py. `Rows` holds the tables and the
-- digests, `Database` the statements and transactions of the connection, `Store` the methods of
-- `RunStore`, and `Lock` the writer lock.
mod Rows
mod Database
mod Store
mod Links
pub mod Evidence
pub mod Transactions
pub mod Chain
pub mod Tampering
pub mod Crash
pub mod Lock
pub mod Opening
pub use Rows.{
  EvaluationRow, RunRow, ArtifactRow, Tables, StoreError, invalid, digest_failed, not_one_run,
  bad_schema, constraint_violated, database_error, sequence_out_of_order, not_chained,
  digest_mismatch, count_mismatch, tip_mismatch, IsSha256Hex, genesis_digest, hex_digest,
}
unfoldable pub use Rows.{
  evaluation_digest, validate_row, validate_rows, run_record, insert_by_sequence, by_sequence,
  is_hex_digest, evaluation_value,
}
pub use Database.{
  Connection, Statement, Faults, view, bracketed, begin, insert_evaluation, update_runs, commit,
  rollback,
}
unfoldable pub use Database.{is_bigint, changed, execute, execute_all, transaction, crash}
pub use Store.{append_statements}
unfoldable pub use Store.{
  last_row, next_link, new_row, append_evaluation, verify_from, verify_evaluation_chain,
  evaluations, run,
}
