-- ===== src/Checkpoints/Records.antt =====
-- The records and the manifest of EvoNN-Shared/src/evonn_shared/checkpoints.py, and the text of a
-- manifest. `Format` is what Pydantic makes of the bytes of a manifest.
use evo_nn_research.Prelude.{
  ℕ, ◌≡◌, List, [], ◌∷◌, ◌++◌, Option, none, some, Text, codes, text_eq, if◌then◌else◌, ok, raise,
  ◌>>◌,
}
use evo_nn_research.Contract.{
  Violation, Checked, canonical_id, run_id, violation_of, optional, not_payload_path,
}
use evo_nn_research.Telemetry.{digest}
use evo_nn_research.Canonical.{jstr, json_dumps, utf8, decimal}
use evo_nn_research.Checkpoints.Storage.{Bytes}

-- A negative sequence or size, which the model refuses, is not represented.
pub record CheckpointRecord : Type 0 where
  pub checkpoint_id : Text
  pub sequence : ℕ
  pub payload_path : Text
  pub size_bytes : ℕ
  pub sha256 : Text
  pub previous_sha256 : Option Text

pub record CheckpointManifest : Type 0 where
  pub run_id : Text
  pub latest : CheckpointRecord

abbrev pub payload_suffix : Text
payload_suffix = codes ".ckpt"

-- `value.removesuffix(_PAYLOAD_SUFFIX)`, if the suffix is there.
unfoldable pub without_suffix : Text → Option Text
without_suffix [] = none
without_suffix (c ∷ cs) =
    let rest = without_suffix cs in
    if text_eq (c ∷ cs) payload_suffix
    then some []
    else elim rest [ none ↦ none | some stem ↦ some (c ∷ stem) ]

-- `_validate_payload_path`
unfoldable pub payload_path : Text → Checked Text
payload_path value = elim (without_suffix value) [
  | none ↦ raise not_payload_path
  | some stem ↦ do canonical_id stem; ok value
]

unfoldable pub record_errors : CheckpointRecord → List Violation
record_errors r =
    violation_of (canonical_id r.checkpoint_id)
    ++ (violation_of (payload_path r.payload_path)
        ++ (violation_of (digest r.sha256)
            ++ optional (λ t. violation_of (digest t)) r.previous_sha256))

unfoldable pub manifest_errors : CheckpointManifest → List Violation
manifest_errors m = violation_of (run_id m.run_id) ++ record_errors m.latest

abbrev pub manifest_filename : Text
manifest_filename = codes "manifest.json"

abbrev quoted : Text → Text
quoted t = json_dumps (jstr t)

abbrev member : Text → Text → Text
member key text = quoted key ++ b':' ∷ text

abbrev comma : Text → Text → Text
comma a b = a ++ b',' ∷ b

abbrev or_null : Option Text → Text
or_null none = codes "null"
or_null (some t) = quoted t

-- `json.dumps` of the dumped record, with sorted keys.
unfoldable pub dump_record : CheckpointRecord → Text
dump_record r =
    b'{'
    ∷ (comma (member (codes "checkpoint_id") (quoted r.checkpoint_id)) (
          comma (member (codes "payload_path") (quoted r.payload_path)) (
            comma (member (codes "previous_sha256") (or_null r.previous_sha256)) (
              comma (member (codes "sequence") (decimal r.sequence)) (
                comma (member (codes "sha256") (quoted r.sha256))
                  (member (codes "size_bytes") (decimal r.size_bytes))))))
        ++ b'}' ∷ [])

-- `_serialize_manifest`
unfoldable pub serialize_manifest : CheckpointManifest → Bytes
serialize_manifest m =
    utf8 (
      b'{'
      ∷ (comma (member (codes "latest") (dump_record m.latest)) (
            comma (member (codes "run_id") (quoted m.run_id))
              (member (codes "schema_version") (quoted (codes "1.0.0"))))
          ++ b'}' ∷ []))
    ++ 10 ∷ []

-- `CheckpointManifest.model_validate_json` of Pydantic, and `sha256` of the standard library.
pub record Format : Type 0 where
  pub validate_json : Bytes → Option CheckpointManifest
  pub sha256_bytes : Bytes → Text

-- What is documented: Pydantic returns valid models only, and a SHA-256 digest is 64 lower-case
-- hexadecimal digits.
pub record IsFaithful (f : Format) : Type 0 where
  pub digests : (bytes : Bytes) → digest (f.sha256_bytes bytes) ≡ ok (f.sha256_bytes bytes)
  pub validates :
      (bytes : Bytes) (m : CheckpointManifest)
      → f.validate_json bytes ≡ some m
      → manifest_errors m ≡ []

-- Pydantic accepts the model that it dumped.
abbrev pub Accepts : Format → CheckpointManifest → Type 0
Accepts f m = f.validate_json (serialize_manifest m) ≡ some m
