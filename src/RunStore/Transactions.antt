-- ===== src/RunStore/Transactions.antt =====
-- The transaction of `append_evaluation` in EvoNN-Shared/src/evonn_shared/run_store.py: what it leaves
-- when it returns and when it raises.
use evo_nn_research.Prelude.{◌+◌, ◌≡◌, [], ◌∷◌, ◌++◌, map, Option, none, some, arith, ok, raise}
use evo_nn_research.RunStore.{
  EvaluationRow, RunRow, Tables, StoreError, Connection, Faults, view, changed, execute,
  execute_all, transaction, append_statements,
}

-- The row that an append adds to a verified store, and what the store becomes.
abbrev pub extended : Tables → EvaluationRow → Tables
extended t r = record t {
  runs =
      map
        (λ (u : RunRow). record u {
          evaluation_count = r.sequence + 1;
          evaluation_tip_sha256 = r.row_sha256;
        })
        t.runs;
  evaluations = t.evaluations ++ r ∷ [];
}

abbrev in_state : Tables → Option Tables → Connection
in_state t w = record { committed = t; working = w }

returns_in :
    (fails : Faults) (r : EvaluationRow) (t : Tables) (w : Option Tables) (d : Connection)
    → transaction fails (append_statements r) (in_state t w) ≡ (ok tt, d)
    → d ≡ in_state (extended (view (in_state t w)) r) none
unfolding transaction execute_all execute changed
returns_in fails r t none d h = ground arith
returns_in fails r t (some w) d h = ground arith

-- A transaction that returns leaves the extended tables, committed.
pub transaction_returns :
    (fails : Faults) (r : EvaluationRow) (c d : Connection)
    → transaction fails (append_statements r) c ≡ (ok tt, d)
    → d ≡ record { committed = extended (view c) r; working = none }
transaction_returns fails r c d h = returns_in fails r c.committed c.working d h

raises_in :
    (fails : Faults) (r : EvaluationRow) (t : Tables) (w : Option Tables) (e : StoreError)
    (d : Connection)
    → transaction fails (append_statements r) (in_state t w) ≡ (raise e, d)
    → d ≡ in_state t w
unfolding transaction execute_all execute changed
raises_in fails r t none e d h = ground arith
raises_in fails r t (some w) e d h = ground arith

-- A transaction that raises leaves the connection as it was.
pub transaction_raises :
    (fails : Faults) (r : EvaluationRow) (c : Connection) (e : StoreError) (d : Connection)
    → transaction fails (append_statements r) c ≡ (raise e, d)
    → d ≡ c
transaction_raises fails r c e d h = raises_in fails r c.committed c.working e d h
