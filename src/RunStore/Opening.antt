-- ===== src/RunStore/Opening.antt =====
-- `_open_locked_store` of EvoNN-Shared/src/evonn_shared/run_store.py, once the lock is taken: which
-- stores are opened. The connection to DuckDB succeeds; a file is there or not.
use mathlib.Core.Path.{subst}
use evo_nn_research.Prelude.{
  ◌∙◌, ℕ, ◌≡◌, ◌⊎◌, inl, inr, refl, Bool, true, false, [], ◌∷◌, Option, none, some, Text, codes,
  text_eq, text_eq_iff, text_eq_refl, is_some, Result-cases, returned, Result, ok, raise, guard,
  reject_if, ◌>>=◌, ◌>>◌, arith,
}
use evo_nn_research.Contract.{run_id}
use evo_nn_research.Canonical.{Primitives}
use evo_nn_research.RunStore.{
  RunRow, Tables, StoreError, genesis_digest, run_record, is_hex_digest, run, evaluations,
  verify_from, verify_evaluation_chain, by_sequence, validate_rows,
}

pub data OpenError : Type 0 where
  store_exists orphan_wal store_not_found run_mismatch schema_mismatch : OpenError
  unreadable : StoreError → OpenError

-- The files of a run directory: the tables of `metrics.duckdb`, and whether its log is there.
pub record Directory : Type 0 where
  pub store : Option Tables
  pub wal : Bool

abbrev pub read {ℓ} : {A : Type ℓ} → Result StoreError A → Result OpenError A
read (ok a) = ok a
read (raise e) = raise (unreadable e)

abbrev pub store_schema_version : Text
store_schema_version = codes "1.0.0"

-- The schema statements and the first row of `runs`.
abbrev pub created : Text → Tables
created identifier = record {
  runs =
      record {
        schema_version = store_schema_version;
        run_id = identifier;
        evaluation_count = 0;
        evaluation_tip_sha256 = genesis_digest;
      }
      ∷ [];
  evaluations = [];
  artifacts = [];
  metadata = [];
}

-- The tests before the connection, and the tables that it opens.
unfoldable pub connect : Bool → Text → Directory → Result OpenError Tables
connect create identifier d = elim create [
  | true ↦ do
    reject_if (is_some d.store) store_exists
    reject_if d.wal orphan_wal
    ok (created identifier)
  | false ↦ elim d.store [ none ↦ raise store_not_found | some t ↦ ok t ]
]

-- The tests of the tables that were opened.
unfoldable pub check_opened : Primitives → Text → Tables → Result OpenError (Unit {0})
check_opened p identifier t = do
  recorded ← read (run t)
  guard (text_eq recorded.run_id identifier) run_mismatch
  guard (text_eq recorded.schema_version store_schema_version) schema_mismatch
  read (verify_evaluation_chain p t)
  ok tt

-- `_open_locked_store`
unfoldable pub open_locked_store : Primitives → Bool → Text → Directory → Result OpenError Tables
open_locked_store p create identifier d = do
  t ← connect create identifier d
  check_opened p identifier t
  ok t

-- A store that is open: of the run that was asked for, with a verified chain.
pub record IsOpened (p : Primitives) (identifier : Text) (t : Tables) : Type 0 where
  pub count : ℕ
  pub row : RunRow
  pub verified : verify_evaluation_chain p t ≡ ok count
  pub recorded : run t ≡ ok row
  pub owned : row.run_id ≡ identifier

checked-IsOpened :
    (p : Primitives) (identifier : Text) (t : Tables)
    → check_opened p identifier t ≡ ok tt
    → IsOpened p identifier t
unfolding check_opened
checked-IsOpened p identifier t h = elim (Result-cases (run t)) [
  | inr (e, raises) ↦ absurd (ground arith)
  | inl (row, recorded) ↦ elim (Result-cases (verify_evaluation_chain p t)) [
    | inr (e, raises) ↦ absurd (ground arith)
    | inl (count, verified) ↦ record {
      count = count;
      row = row;
      verified = verified;
      recorded = recorded;
      owned = ground (arith, text_eq_iff row.run_id identifier);
    }
  ]
]

opened_parts :
    (p : Primitives) (create : Bool) (identifier : Text) (d : Directory) (t : Tables)
    → open_locked_store p create identifier d ≡ ok t
    → (connect create identifier d ≡ ok t) × (check_opened p identifier t ≡ ok tt)
unfolding open_locked_store
opened_parts p create identifier d t h =
    let (u, connects, rest) = returned (connect create identifier d) _ h in
    let (v, checks, same) = returned (check_opened p identifier u) _ rest in
    let e : u ≡ t = cc (same) in
    (connects ∙ same, subst (λ x. check_opened p identifier x ≡ ok tt) e checks)

-- A store that opens belongs to the run that was asked for and has a verified chain; its tables are
-- those of the file, or, where the store is created, new ones in a directory without a store.
pub open_locked_store-IsOpened :
    (p : Primitives) (create : Bool) (identifier : Text) (d : Directory) (t : Tables)
    → open_locked_store p create identifier d ≡ ok t
    → IsOpened p identifier t
      × (((create ≡ false) × (d.store ≡ some t))
          ⊎ ((create ≡ true) × (d.store ≡ none) × (d.wal ≡ false) × (t ≡ created identifier)))
unfolding connect
open_locked_store-IsOpened p create identifier d t h =
    let (connects, checks) = opened_parts p create identifier d t h in
    (checked-IsOpened p identifier t checks, ground (arith, connects))

created_checks :
    (p : Primitives) (identifier : Text)
    → run_id identifier ≡ ok identifier
    → check_opened p identifier (created identifier) ≡ ok tt
unfolding check_opened run run_record is_hex_digest verify_evaluation_chain evaluations by_sequence
    validate_rows verify_from
created_checks p identifier h = rw (h, text_eq_refl identifier) refl

-- In a directory without a store and without a log of one, the store of a run with a valid id can be
-- created.
pub created_opens :
    (p : Primitives) (identifier : Text) (d : Directory)
    → run_id identifier ≡ ok identifier
    → d.store ≡ none
    → d.wal ≡ false
    → open_locked_store p true identifier d ≡ ok (created identifier)
unfolding open_locked_store connect
created_opens p identifier d h none_there no_log =
    rw (none_there, no_log, created_checks p identifier h) refl
