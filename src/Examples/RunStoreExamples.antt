-- ===== src/Examples/RunStoreExamples.antt =====
-- Inputs for EvoNN-Shared/src/evonn_shared/run_store.py, under a checksum in place of SHA-256.
use evo_nn_research.Prelude.{
  ◌≡◌, refl, true, false, [], ◌∷◌, map, none, some, codes, Float, finite, negsuc, ok, raise, ◌⊎◌,
  Result,
}
use evo_nn_research.Contract.{
  not_canonical_id, canonical_id, matches_canonical_id, id_tail, run_id, matches_run_id,
}
use evo_nn_research.RunStore.{
  EvaluationRow, Tables, StoreError, Connection, Faults, database_error, is_bigint, changed,
  genesis_digest, is_hex_digest, evaluation_digest, evaluation_value, validate_row, validate_rows,
  run_record, by_sequence, insert_by_sequence, last_row, next_link, new_row, append_evaluation,
  verify_from, verify_evaluation_chain, evaluations, run, execute, execute_all, transaction, crash,
  begin, insert_evaluation, update_runs, commit, invalid,
}
use evo_nn_research.RunStore.Evidence.{KeepsAscii}
use evo_nn_research.RunStore.Chain.{append-verified}
use evo_nn_research.RunStore.Tampering.{
  RowsSaySame, RowsCollide, verified_rows, negate_zeros, verify-negated_zeros,
}
use evo_nn_research.RunStore.Crash.{append_raises, crash-verified}
use evo_nn_research.Examples.Toy.{toy, toy-IsSha256Hex, encoder}

toy-KeepsAscii : KeepsAscii toy
toy-KeepsAscii t h = refl

program : Unit {0}
unfolding is_bigint changed encoder canonical_id matches_canonical_id id_tail run_id matches_run_id
    evaluation_digest evaluation_value validate_row validate_rows run_record by_sequence
    insert_by_sequence last_row next_link new_row append_evaluation verify_from
    verify_evaluation_chain evaluations run execute execute_all transaction is_hex_digest crash
program = tt

abbrev fresh_tables : Tables
fresh_tables = record {
  runs =
      record {
        schema_version = codes "1.0.0";
        run_id = codes "run-7";
        evaluation_count = 0;
        evaluation_tip_sha256 = genesis_digest;
      }
      ∷ [];
  evaluations = [];
  artifacts = [];
  metadata = [];
}

abbrev fresh : Connection
fresh = record { committed = fresh_tables; working = none }

abbrev half : Float
half = finite false 1 (negsuc 0)

-- DuckDB refuses no statement, or refuses every update.
abbrev healthy : Faults
healthy s = false

abbrev failing_updates : Faults
failing_updates (update_runs count tip) = true
failing_updates _ = false

abbrev append_half : Connection → Result StoreError EvaluationRow × Connection
append_half c = append_evaluation toy healthy c (codes "wine") (codes "mlp") (codes "accuracy") half

abbrev row_or : Result StoreError EvaluationRow → EvaluationRow
row_or (ok r) = r
row_or (raise e) = record {
  sequence = 0;
  benchmark_id = [];
  contender_id = [];
  metric_name = [];
  metric_value = half;
  previous_sha256 = [];
  row_sha256 = [];
}

abbrev first_row : EvaluationRow
first_row = row_or (append_half fresh).0

abbrev one_row : Connection
one_row = (append_half fresh).1

fresh_verified : verify_evaluation_chain toy fresh_tables ≡ ok 0
unfolding program
fresh_verified = refl

appended : append_half fresh ≡ (ok first_row, one_row)
unfolding program
appended = refl

one_row_verified : verify_evaluation_chain toy one_row.committed ≡ ok 1
unfolding program
one_row_verified = refl

append-verified_example :
    (first_row.sequence ≡ 0)
    × (one_row.working ≡ none)
    × (verify_evaluation_chain toy one_row.committed ≡ ok 1)
append-verified_example =
    append-verified toy toy-IsSha256Hex healthy fresh 0 (codes "wine") (codes "mlp")
      (codes "accuracy") half first_row one_row fresh_verified appended

append_invalid :
    append_evaluation toy healthy fresh (codes "Wine") (codes "mlp") (codes "accuracy") half
    ≡ (raise (invalid not_canonical_id), fresh)
unfolding program
append_invalid = refl

-- The update fails after the insertion.
update_fails :
    append_evaluation toy failing_updates fresh (codes "wine") (codes "mlp") (codes "accuracy") half
    ≡ (raise database_error, fresh)
unfolding program
update_fails = refl

append_raises_example : fresh ≡ fresh
append_raises_example =
    append_raises toy failing_updates fresh (codes "wine") (codes "mlp") (codes "accuracy") half
      database_error fresh update_fails

abbrev during : Connection
during = record {
  committed = fresh_tables;
  working = some (record one_row.committed { runs = fresh_tables.runs });
}

new_row_fresh :
    new_row toy fresh_tables (codes "wine") (codes "mlp") (codes "accuracy") half ≡ ok first_row
unfolding program
new_row_fresh = refl

inserted : execute_all healthy (begin ∷ insert_evaluation first_row ∷ []) fresh ≡ (ok tt, during)
unfolding program
inserted = refl

crash-verified_example :
    (verify_evaluation_chain toy (crash during).committed ≡ ok 0)
    ⊎ ((verify_evaluation_chain toy (crash during).committed ≡ ok 1)
        × (update_runs 1 first_row.row_sha256 ∷ commit ∷ [] ≡ []))
crash-verified_example =
    crash-verified toy toy-IsSha256Hex healthy fresh 0 (codes "wine") (codes "mlp")
      (codes "accuracy") half first_row refl fresh_verified new_row_fresh
      (begin ∷ insert_evaluation first_row ∷ []) (update_runs 1 first_row.row_sha256 ∷ commit ∷ [])
      during (unfold program in refl) inserted

verified_rows_example :
    RowsSaySame toy
      (by_sequence one_row.committed.evaluations)
      (by_sequence one_row.committed.evaluations)
    ⊎ RowsCollide toy
        (by_sequence one_row.committed.evaluations)
        (by_sequence one_row.committed.evaluations)
verified_rows_example =
    verified_rows toy toy-KeepsAscii toy-IsSha256Hex one_row.committed one_row.committed 1 1
      one_row_verified one_row_verified refl

verify-negated_zeros_example :
    verify_evaluation_chain toy
      (record one_row.committed { evaluations = map negate_zeros one_row.committed.evaluations })
    ≡ verify_evaluation_chain toy one_row.committed
verify-negated_zeros_example = verify-negated_zeros toy one_row.committed
