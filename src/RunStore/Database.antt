-- ===== src/RunStore/Database.antt =====
-- The connection of EvoNN-Shared/src/evonn_shared/run_store.py to DuckDB: the statements that the
-- store executes, `_transaction`, and what a crash leaves. DuckDB is modelled by its documented
-- transactions: a statement inside one changes a working copy, `COMMIT` publishes the copy, and
-- `ROLLBACK`, like the death of the process, drops it. A statement outside one commits at once. Which
-- statements DuckDB refuses for reasons of its own is a parameter.
use evo_nn_research.Prelude.{
  ℕ, Bool, ◌||◌, List, [], ◌∷◌, ◌++◌, map, Option, none, some, Text, ◌==◌, text_eq, any, Result, ok,
  raise, guard, ltb, ◌^◌, if◌then◌else◌, reject_if, ◌>>◌,
}
use evo_nn_research.RunStore.Rows.{
  EvaluationRow, RunRow, Tables, StoreError, constraint_violated, database_error, out_of_range,
  transaction_active, no_transaction,
}

pub record Connection : Type 0 where
  pub committed : Tables
  pub working : Option Tables

pub data Statement : Type 0 where
  begin commit rollback : Statement
  insert_evaluation : EvaluationRow → Statement
  update_runs : (count : ℕ) (tip : Text) → Statement

-- What a query reads.
abbrev pub view : Connection → Tables
view c = elim c.working [ none ↦ c.committed | some t ↦ t ]

abbrev store_tables : Connection → Tables → Connection
store_tables c t = elim c.working [
  | none ↦ record c { committed = t }
  | some _ ↦ record c { working = some t }
]

-- The statements at which DuckDB reports an error of its own, such as a full disk.
abbrev pub Faults : Type 0
Faults = Statement → Bool

-- `BIGINT`, of a number that is not negative.
unfoldable pub is_bigint : ℕ → Bool
is_bigint n = ltb n (2 ^ 63)

-- `PRIMARY KEY` on the sequence and `UNIQUE` on the row digest.
abbrev clashes : EvaluationRow → List EvaluationRow → Bool
clashes r = any (λ s. s.sequence == r.sequence || text_eq s.row_sha256 r.row_sha256)

-- What a statement that reads and writes rows makes of the tables.
unfoldable pub changed : Faults → Statement → Tables → Result StoreError Tables
changed fails (insert_evaluation r) t = do
  reject_if (fails (insert_evaluation r)) database_error
  guard (is_bigint r.sequence) out_of_range
  reject_if (clashes r t.evaluations) constraint_violated
  ok (record t { evaluations = t.evaluations ++ r ∷ [] })
changed fails (update_runs count tip) t = do
  reject_if (fails (update_runs count tip)) database_error
  guard (is_bigint count) out_of_range
  ok (record t {
    runs =
        map (λ (u : RunRow). record u { evaluation_count = count; evaluation_tip_sha256 = tip })
          t.runs;
  })
changed fails _ t = ok t

abbrev change : Connection → Result StoreError Tables → Result StoreError (Unit {0}) × Connection
change c (ok t) = (ok tt, store_tables c t)
change c (raise e) = (raise e, c)

-- `connection.execute(statement)`: the connection afterwards, on every path. A `COMMIT` that fails
-- ends the transaction, and a `ROLLBACK` of one that is open does not fail.
unfoldable pub execute : Faults → Statement → Connection → Result StoreError (Unit {0}) × Connection
execute fails begin c = elim c.working [
  | some _ ↦ (raise transaction_active, c)
  | none ↦
      if fails begin
      then (raise database_error, c)
      else (ok tt, record c { working = some c.committed })
]
execute fails commit c = elim c.working [
  | none ↦ (raise no_transaction, c)
  | some t ↦
      if fails commit
      then (raise database_error, record c { working = none })
      else (ok tt, record { committed = t; working = none })
]
execute fails rollback c = elim c.working [
  | none ↦ (raise no_transaction, c)
  | some _ ↦ (ok tt, record c { working = none })
]
execute fails (insert_evaluation r) c = change c (changed fails (insert_evaluation r) (view c))
execute fails (update_runs count tip) c = change c (changed fails (update_runs count tip) (view c))

unfoldable pub execute_all :
    Faults → List Statement → Connection → Result StoreError (Unit {0}) × Connection
execute_all fails [] c = (ok tt, c)
execute_all fails (s ∷ ss) c =
    let (done, d) = execute fails s c in
    elim done [ ok _ ↦ execute_all fails ss d | raise e ↦ (raise e, d) ]

-- The statements of `_transaction` around a body that raises nothing.
abbrev pub bracketed : List Statement → List Statement
bracketed body = begin ∷ (body ++ commit ∷ [])

-- `with _transaction(connection): body`: an exception rolls back and is raised again, unless the
-- rollback raises.
unfoldable pub transaction :
    Faults → List Statement → Connection → Result StoreError (Unit {0}) × Connection
transaction fails body c =
    let (started, opened) = execute fails begin c in
    elim started [
      | raise e ↦ (raise e, opened)
      | ok _ ↦
          let (done, d) = execute_all fails (body ++ commit ∷ []) opened in
          elim done [
            | ok _ ↦ (ok tt, d)
            | raise e ↦
                let (undone, back) = execute fails rollback d in
                elim undone [ ok _ ↦ (raise e, back) | raise e' ↦ (raise e', back) ]
          ]
    ]

-- The process dies, and the database file is opened again.
unfoldable pub crash : Connection → Connection
crash c = record c { working = none }
