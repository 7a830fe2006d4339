-- ===== src/Checkpoints.antt =====
-- The publication of checkpoints of EvoNN-Shared/src/evonn_shared/checkpoints.py. The directory is
-- there and its files are regular ones; descriptors and their errors are left out.
pub mod Storage
mod Records
pub mod Keeping
pub mod Moves
pub mod Loading
pub mod Publishing
pub mod Commit
pub mod Crash
pub mod Discarding
unfoldable pub use Records.*
use evo_nn_research.Prelude.{
  ℕ, suc, ◌+◌, ◌*◌, ◌≡◌, Bool, true, false, not, ◌&&◌, ◌||◌, List, [], ◌∷◌, ◌++◌, map, Option, none,
  some, Text, codes, lookup, text_eq, ltb, ◌==◌, length, is_some, if◌then◌else◌, Result, ok, raise,
  guard, reject_if, ◌>>=◌, ◌>>◌, all, is_utf8, is_utf8,
}
use evo_nn_research.Contract.{
  Violation, Checked, canonical_id, run_id, violation_of, optional, not_payload_path, sorted,
}
use evo_nn_research.Telemetry.{digest}
use evo_nn_research.Canonical.{Json, jstr, json_dumps, utf8, decimal}
use evo_nn_research.Checkpoints.Storage.{
  Bytes, Files, FileError, Effect, write, rename_exclusive, rename, unlink, perform_all,
}

pub data CheckpointError : Type 0 where
  invalid : Violation → CheckpointError
  invalid_manifest manifest_too_large checkpoint_not_found : CheckpointError
  payload_missing size_differs digest_differs : CheckpointError
  already_committed other_run payload_differs : CheckpointError
  staged_twice not_staged payload_committed_twice payload_not_committed : CheckpointError
  manifest_committed_twice unencodable_name : CheckpointError
  file_error : FileError → CheckpointError

abbrev pub checked {ℓ} : {A : Type ℓ} → Result Violation A → Result CheckpointError A
checked (ok a) = ok a
checked (raise e) = raise (invalid e)

abbrev pub on_files {ℓ} : {A : Type ℓ} → Result FileError A → Result CheckpointError A
on_files (ok a) = ok a
on_files (raise e) = raise (file_error e)

abbrev pub max_manifest_bytes : ℕ
max_manifest_bytes = 1024 * 1024

module _ (f : Format) where
  -- `read_checkpoint_manifest`
  unfoldable pub read_checkpoint_manifest :
      Files → Result CheckpointError (Option CheckpointManifest)
  read_checkpoint_manifest fs = elim (lookup manifest_filename fs) [
    | none ↦ ok none
    | some payload ↦ do
      reject_if (ltb max_manifest_bytes (length payload)) manifest_too_large
      elim (f.validate_json payload) [ none ↦ raise invalid_manifest | some m ↦ ok (some m) ]
  ]

  -- The tests of `load_latest_checkpoint` against the record of the manifest.
  unfoldable pub load_record :
      CheckpointRecord → Files → Result CheckpointError (CheckpointRecord × Bytes)
  load_record r fs = elim (lookup r.payload_path fs) [
    | none ↦ raise payload_missing
    | some payload ↦ do
      guard (length payload == r.size_bytes) size_differs
      guard (text_eq (f.sha256_bytes payload) r.sha256) digest_differs
      ok (r, payload)
  ]

  -- `load_latest_checkpoint`
  unfoldable pub load_latest_checkpoint : Files → Result CheckpointError (CheckpointRecord × Bytes)
  load_latest_checkpoint fs = do
    manifest ← read_checkpoint_manifest fs
    elim manifest [ none ↦ raise checkpoint_not_found | some m ↦ load_record m.latest fs ]

pub record Publication : Type 0 where
  pub run_id : Text
  pub payload : Bytes
  pub staging_name : Text
  pub record_of : CheckpointRecord
  pub staged : Bool
  pub adopted : Bool
  pub payload_committed : Bool
  pub manifest_committed : Bool

module _ (f : Format) where
  -- `_build_record`
  unfoldable pub build_record :
      Option CheckpointManifest → Text → Text → Bytes → Result CheckpointError CheckpointRecord
  build_record previous run checkpoint_id payload = do
    (sequence, previous_sha256) ← elim previous [
      | none ↦ ok (0, none)
      | some m ↦ do
        reject_if (text_eq m.latest.checkpoint_id checkpoint_id) already_committed
        guard (text_eq m.run_id run) other_run
        ok (m.latest.sequence + 1, some m.latest.sha256)
    ]
    ok (record {
      checkpoint_id = checkpoint_id;
      sequence = sequence;
      payload_path = checkpoint_id ++ payload_suffix;
      size_bytes = length payload;
      sha256 = f.sha256_bytes payload;
      previous_sha256 = previous_sha256;
    })

  -- `CheckpointPublication(directory, run_id, checkpoint_id, payload)`; `token` is random.
  unfoldable pub open_publication :
      Text → Text → Bytes → (token : Text) → Files → Result CheckpointError Publication
  open_publication run checkpoint_id payload token fs = do
    checked (run_id run)
    checked (canonical_id checkpoint_id)
    previous ← read_checkpoint_manifest f fs
    r ← build_record previous run checkpoint_id payload
    ok (record {
      run_id = run;
      payload = payload;
      staging_name = b'.' ∷ (r.payload_path ++ codes ".tmp-" ++ token);
      record_of = r;
      staged = false;
      adopted = false;
      payload_committed = false;
      manifest_committed = false;
    })

  -- `stage`: the publication afterwards, and what it does to the directory.
  unfoldable pub stage : Publication → Files → Result CheckpointError (Publication × List Effect)
  stage p fs = do
    reject_if p.staged staged_twice
    elim (lookup p.record_of.payload_path fs) [
      | none ↦ ok (record p { staged = true }, write p.staging_name p.payload ∷ [])
      | some existing ↦ do
        guard
            (text_eq (f.sha256_bytes existing) p.record_of.sha256
              && length existing == p.record_of.size_bytes)
            payload_differs
        ok (record p { staged = true; adopted = true; payload_committed = true }, [])
    ]

-- `commit_payload`
unfoldable pub commit_payload : Publication → Result CheckpointError (Publication × List Effect)
commit_payload p = do
  guard p.staged not_staged
  if p.adopted then ok (p, []) else (do
    reject_if p.payload_committed payload_committed_twice
    ok (
      record p { payload_committed = true },
      rename_exclusive p.staging_name p.record_of.payload_path ∷ [],
    ))

abbrev pub manifest_of : Publication → CheckpointManifest
manifest_of p = record { run_id = p.run_id; latest = p.record_of }

abbrev pub manifest_staging : Text → Text
manifest_staging token = b'.' ∷ (manifest_filename ++ codes ".tmp-" ++ token)

-- `commit_manifest`; `token` is random.
unfoldable pub commit_manifest :
    (token : Text) → Publication → Result CheckpointError (Publication × List Effect)
commit_manifest token p = do
  guard p.payload_committed payload_not_committed
  reject_if p.manifest_committed manifest_committed_twice
  ok (
    record p { manifest_committed = true },
    write (manifest_staging token) (serialize_manifest (manifest_of p))
        ∷ rename (manifest_staging token) manifest_filename
        ∷ [],
  )

-- The tests of `discard_orphaned_staging`: `name.startswith(".") and ".tmp-" in name`.
abbrev starts_with : Text → Text → Bool
starts_with [] text = true
starts_with (c ∷ cs) [] = false
starts_with (c ∷ cs) (d ∷ ds) = c == d && starts_with cs ds

unfoldable pub contains : Text → Text → Bool
contains part [] = starts_with part []
contains part (c ∷ cs) = starts_with part (c ∷ cs) || contains part cs

unfoldable pub is_staging : Text → Bool
is_staging name = starts_with (codes ".") name && contains (codes ".tmp-") name

abbrev pub removals : List Text → List Effect
removals [] = []
removals (name ∷ names) =
    let rest = removals names in if is_staging name then unlink name ∷ rest else rest

abbrev pub names_of : Files → List Text
names_of fs = map (λ (name, content). name) fs

-- `discard_orphaned_staging`: the removals, in the order of UTF-8. A name that is not UTF-8 in the
-- directory reaches Python with lone surrogates, and `encode` raises before the first removal.
unfoldable pub discard_orphaned_staging : Files → Result CheckpointError (List Effect)
discard_orphaned_staging fs = do
  guard (all is_utf8 (names_of fs)) unencodable_name
  ok (removals (sorted (names_of fs)))

-- `publish_checkpoint`: the publication, and its effects in order.
unfoldable pub publish_checkpoint :
    (f : Format) (run checkpoint_id : Text) (payload : Bytes) (token token' : Text) (fs : Files)
    → Result CheckpointError (Publication × List Effect)
publish_checkpoint f run checkpoint_id payload token token' fs = do
  publication ← open_publication f run checkpoint_id payload token fs
  (publication, staging) ← stage f publication fs
  (publication, commit) ← commit_payload publication
  (publication, replacement) ← commit_manifest token' publication
  ok (publication, staging ++ (commit ++ replacement))
