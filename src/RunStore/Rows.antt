-- ===== src/RunStore/Rows.antt =====
-- The tables of EvoNN-Shared/src/evonn_shared/run_store.py, their row models and row digests.
-- A negative count or sequence, which the row models refuse, is not represented.
use evo_nn_research.Prelude.{
  ℕ, ◌≡◌, Bool, true, ◌&&◌, ◌||◌, List, [], ◌∷◌, none, some, Text, codes, Float, pos, leb, ltb,
  ◌==◌, if◌then◌else◌, text_eq, all, length, Result, ok, raise, guard, ◌>>◌,
}
use evo_nn_research.Contract.{Violation, canonical_id, run_id}
use evo_nn_research.Canonical.{
  Value, Fields, end, field, str, float, int, mapping, Primitives, canonical_sha256,
}
use evo_nn_research.Canonical as Canonical

pub record EvaluationRow : Type 0 where
  pub sequence : ℕ
  pub benchmark_id : Text
  pub contender_id : Text
  pub metric_name : Text
  pub metric_value : Float
  pub previous_sha256 : Text
  pub row_sha256 : Text

pub record RunRow : Type 0 where
  pub schema_version : Text
  pub run_id : Text
  pub evaluation_count : ℕ
  pub evaluation_tip_sha256 : Text

pub record ArtifactRow : Type 0 where
  pub path : Text
  pub size_bytes : ℕ
  pub sha256 : Text

-- The tables of `_SCHEMA_STATEMENTS`, each as the list of its rows.
pub record Tables : Type 0 where
  pub runs : List RunRow
  pub evaluations : List EvaluationRow
  pub artifacts : List ArtifactRow
  pub metadata : List (Text × Text)

-- What the methods of the store raise.
pub data StoreError : Type 0 where
  invalid : Violation → StoreError
  digest_failed : Canonical.Error → StoreError
  not_one_run bad_schema hex_digest constraint_violated : StoreError
  database_error out_of_range transaction_active no_transaction : StoreError
  sequence_out_of_order not_chained digest_mismatch count_mismatch tip_mismatch : StoreError

abbrev pub checked {ℓ} : {A : Type ℓ} → Result Violation A → Result StoreError A
checked (ok a) = ok a
checked (raise e) = raise (invalid e)

abbrev pub digested {ℓ} : {A : Type ℓ} → Result Canonical.Error A → Result StoreError A
digested (ok a) = ok a
digested (raise e) = raise (digest_failed e)

-- `"0" * 64`
abbrev pub genesis_digest : Text
genesis_digest = codes "0000000000000000000000000000000000000000000000000000000000000000"

-- 64 lowercase hexadecimal characters.
unfoldable pub is_hex_digest : Text → Bool
is_hex_digest t =
    length t == 64 && all (λ c. (leb b'0' c && leb c b'9') || (leb b'a' c && leb c b'f')) t

-- What `hashlib` documents of `hexdigest`.
abbrev pub IsSha256Hex : Primitives → Type 0
IsSha256Hex p = (payload : List ℕ) → is_hex_digest (p.sha256 payload) ≡ true

-- The mapping that `_evaluation_digest` builds.
unfoldable pub evaluation_value : ℕ → Text → Text → Text → Float → Text → Value
evaluation_value sequence benchmark_id contender_id metric_name metric_value previous_sha256 =
    mapping (
      field (some (codes "benchmark_id")) (str benchmark_id) (
        field (some (codes "contender_id")) (str contender_id) (
          field (some (codes "metric_name")) (str metric_name) (
            field (some (codes "metric_value")) (float metric_value) (
              field (some (codes "previous_sha256")) (str previous_sha256)
                (field (some (codes "sequence")) (int (pos sequence)) end))))))

-- `_evaluation_digest`
unfoldable pub evaluation_digest :
    Primitives → ℕ → Text → Text → Text → Float → Text → Result Canonical.Error Text
evaluation_digest p sequence benchmark_id contender_id metric_name metric_value previous_sha256 =
    canonical_sha256 p
      (evaluation_value sequence benchmark_id contender_id metric_name metric_value previous_sha256)
      (codes "evonn.run_store.evaluation/v1") none

-- The validators of `EvaluationRow`.
unfoldable pub validate_row : EvaluationRow → Result StoreError (Unit {0})
validate_row r = do
  checked (canonical_id r.benchmark_id)
  checked (canonical_id r.contender_id)
  checked (canonical_id r.metric_name)
  ok tt

unfoldable pub validate_rows : List EvaluationRow → Result StoreError (Unit {0})
validate_rows [] = ok tt
validate_rows (r ∷ rs) = do validate_row r; validate_rows rs

-- The validators of `RunRecord`.
unfoldable pub run_record : RunRow → Result StoreError RunRow
run_record r = do
  guard (text_eq r.schema_version (codes "1.0.0")) bad_schema
  checked (run_id r.run_id)
  guard (is_hex_digest r.evaluation_tip_sha256) hex_digest
  ok r

-- `ORDER BY sequence`
unfoldable pub insert_by_sequence : EvaluationRow → List EvaluationRow → List EvaluationRow
insert_by_sequence r [] = r ∷ []
insert_by_sequence r (s ∷ ss) =
    if ltb s.sequence r.sequence then s ∷ insert_by_sequence r ss else r ∷ s ∷ ss

unfoldable pub by_sequence : List EvaluationRow → List EvaluationRow
by_sequence [] = []
by_sequence (r ∷ rs) = insert_by_sequence r (by_sequence rs)
