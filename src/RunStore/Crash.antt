-- ===== src/RunStore/Crash.antt =====
-- Errors and crashes around `append_evaluation` of EvoNN-Shared/src/evonn_shared/run_store.py.
use evo_nn_research.Prelude.{
  ℕ, suc, ◌≡◌, List, [], ◌∷◌, ◌++◌, none, Text, Float, arith, ◌⊎◌, inl, inr, ok, raise,
  Result-cases,
}
use evo_nn_research.Canonical.{Primitives}
use evo_nn_research.RunStore.{
  EvaluationRow, StoreError, Connection, Faults, Statement, view, bracketed, execute, execute_all,
  transaction, changed, crash, append_statements, append_evaluation, new_row, IsSha256Hex,
  verify_evaluation_chain,
}
use evo_nn_research.RunStore.Transactions.{extended, transaction_raises}
use evo_nn_research.RunStore.Chain.{extended-verified}

-- An append that raises, at whatever statement and for whatever reason, leaves the connection as it
-- was: the committed tables, and no transaction that was not open before.
pub append_raises :
    (p : Primitives) (fails : Faults) (c : Connection) (b k m : Text) (x : Float) (e : StoreError)
    (d : Connection)
    → append_evaluation p fails c b k m x ≡ (raise e, d)
    → d ≡ c
unfolding append_evaluation
append_raises p fails c b k m x e d h = elim (Result-cases (new_row p (view c) b k m x)) [
  | inl (row, built) ↦ elim (Result-cases (transaction fails (append_statements row) c).0) [
    | inl (_, done) ↦ absurd (ground arith)
    | inr (e', raised) ↦ transaction_raises fails row c e' d (ground arith)
  ]
  | inr (e', refused) ↦ ground arith
]

prefix_committed :
    (fails : Faults) (c : Connection) (r : EvaluationRow) (executed rest : List Statement)
    (e : Connection)
    → executed ++ rest ≡ bracketed (append_statements r)
    → execute_all fails executed c ≡ (ok tt, e)
    → ((crash e).committed ≡ c.committed)
      ⊎ (((crash e).committed ≡ extended (view c) r) × (rest ≡ []))
unfolding crash execute execute_all changed
prefix_committed fails c r [] rest e s h = inl (ground arith)
prefix_committed fails c r (a ∷ []) rest e s h = inl (ground arith)
prefix_committed fails c r (a ∷ a' ∷ []) rest e s h = inl (ground arith)
prefix_committed fails c r (a ∷ a' ∷ a'' ∷ []) rest e s h = inl (ground arith)
prefix_committed fails c r (a ∷ a' ∷ a'' ∷ a3 ∷ []) rest e s h = inr (ground arith)
prefix_committed fails c r (a ∷ a' ∷ a'' ∷ a3 ∷ a4 ∷ l) rest e s h = absurd (ground arith)

-- A crash is atomic: whatever part of an append's statements was executed before the process died,
-- the store that is opened again is the store before the append, or, if they all were executed,
-- the store with the new row. Either way its chain is verified.
pub crash-verified :
    (p : Primitives)
    → IsSha256Hex p
    → (fails : Faults) (c : Connection) (n : ℕ) (b k m : Text) (x : Float) (r : EvaluationRow)
    → c.working ≡ none
    → verify_evaluation_chain p c.committed ≡ ok n
    → new_row p c.committed b k m x ≡ ok r
    → (executed rest : List Statement) (e : Connection)
    → executed ++ rest ≡ bracketed (append_statements r)
    → execute_all fails executed c ≡ (ok tt, e)
    → (verify_evaluation_chain p (crash e).committed ≡ ok n)
      ⊎ ((verify_evaluation_chain p (crash e).committed ≡ ok (suc n)) × (rest ≡ []))
crash-verified p hex fails c n b k m x r idle h made executed rest e s x' =
    elim (prefix_committed fails c r executed rest e s x') [
      | inl before ↦ inl (rw before h)
      | inr (after, all) ↦
          let here : view c ≡ c.committed = ground arith in
          inr (rw (after, here) (extended-verified p hex c.committed n b k m x r h made).1, all)
    ]
