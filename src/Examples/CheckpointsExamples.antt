-- ===== src/Examples/CheckpointsExamples.antt =====
-- Examples for EvoNN-Shared/src/evonn_shared/checkpoints.py: a second checkpoint is published in a
-- directory that has one, and the process dies.
use evo_nn_research.Prelude.{
  raise, ◌⊎◌, all, is_utf8, ◌≡◌, ◌⊎◌, inl, inr, refl, true, false, List, [], ◌∷◌, ◌++◌, none, some,
  Text, codes, lookup, text_eq, arith, ok, length, leb, if◌then◌else◌,
}
use evo_nn_research.Contract.{
  canonical_id, matches_canonical_id, id_tail, run_id, matches_run_id, sorted, insert_sorted,
}
use evo_nn_research.RunStore.{is_hex_digest}
use evo_nn_research.Telemetry.{digest, matches_sha256}
use evo_nn_research.Checkpoints.{
  CheckpointRecord, CheckpointManifest, Format, IsFaithful, Accepts, Publication, payload_path,
  without_suffix, record_errors, manifest_errors, manifest_filename, read_checkpoint_manifest,
  load_record, load_latest_checkpoint, build_record, open_publication, stage, commit_payload,
  commit_manifest, serialize_manifest, dump_record, publish_checkpoint, is_staging, contains,
  discard_orphaned_staging, names_of, unencodable_name,
}
use evo_nn_research.Checkpoints.Storage.{
  Bytes, Files, Effect, write, rename_exclusive, rename, perform, perform_all,
}
use evo_nn_research.Checkpoints.Crash.{publication_atomic, publication_loads, Yields}
use evo_nn_research.Checkpoints.Discarding.{discard_loads}
use evo_nn_research.Examples.Toy.{toy_hash, encoder, toy-IsSha256Hex}

abbrev first_record : CheckpointRecord
first_record = record {
  checkpoint_id = codes "step_1";
  sequence = 0;
  payload_path = codes "step_1.ckpt";
  size_bytes = 2;
  sha256 = toy_hash (1 ∷ 2 ∷ []);
  previous_sha256 = none;
}

abbrev second_record : CheckpointRecord
second_record = record {
  checkpoint_id = codes "step_2";
  sequence = 1;
  payload_path = codes "step_2.ckpt";
  size_bytes = 1;
  sha256 = toy_hash (3 ∷ []);
  previous_sha256 = some (toy_hash (1 ∷ 2 ∷ []));
}

abbrev first_manifest : CheckpointManifest
first_manifest = record { run_id = codes "run-1"; latest = first_record }

abbrev second_manifest : CheckpointManifest
second_manifest = record { run_id = codes "run-1"; latest = second_record }

-- Reads the two manifests, and no other.
abbrev format : Format
format = record {
  validate_json = λ bytes.
      if text_eq bytes (serialize_manifest first_manifest)
      then some first_manifest
      else if text_eq bytes (serialize_manifest second_manifest)
      then some second_manifest
      else none;
  sha256_bytes = toy_hash;
}

program : Unit {0}
unfolding encoder canonical_id matches_canonical_id id_tail run_id matches_run_id digest
    matches_sha256 payload_path without_suffix record_errors manifest_errors
    read_checkpoint_manifest load_record load_latest_checkpoint build_record open_publication stage
    commit_payload commit_manifest serialize_manifest dump_record publish_checkpoint is_staging
    contains discard_orphaned_staging perform perform_all sorted insert_sorted
program = tt

first_valid : manifest_errors first_manifest ≡ []
unfolding program
first_valid = refl

second_valid : manifest_errors second_manifest ≡ []
unfolding program
second_valid = refl

format_validates :
    (bytes : Bytes) (m : CheckpointManifest)
    → format.validate_json bytes ≡ some m
    → manifest_errors m ≡ []
format_validates bytes m h = ground (arith, h, first_valid, second_valid)

format-IsFaithful : IsFaithful format
unfolding digest matches_sha256 is_hex_digest
format-IsFaithful = record {
  digests = λ bytes. ground (arith, toy-IsSha256Hex bytes);
  validates = format_validates;
}

abbrev directory : Files
directory =
    (manifest_filename, serialize_manifest first_manifest)
    ∷ (codes "step_1.ckpt", 1 ∷ 2 ∷ [])
    ∷ (codes ".step_2.ckpt.tmp-00", 9 ∷ [])
    ∷ []

abbrev publication : Publication
publication = record {
  run_id = codes "run-1";
  payload = 3 ∷ [];
  staging_name = codes ".step_2.ckpt.tmp-a1";
  record_of = second_record;
  staged = true;
  adopted = false;
  payload_committed = true;
  manifest_committed = true;
}

abbrev effects : List Effect
effects =
    write (codes ".step_2.ckpt.tmp-a1") (3 ∷ [])
    ∷ rename_exclusive (codes ".step_2.ckpt.tmp-a1") (codes "step_2.ckpt")
    ∷ write (codes ".manifest.json.tmp-b2") (serialize_manifest second_manifest)
    ∷ rename (codes ".manifest.json.tmp-b2") manifest_filename
    ∷ []

loaded : load_latest_checkpoint format directory ≡ ok (first_record, 1 ∷ 2 ∷ [])
unfolding program
loaded = refl

published :
    publish_checkpoint format
      (codes "run-1")
      (codes "step_2")
      (3 ∷ [])
      (codes "a1")
      (codes "b2")
      directory
    ≡ ok (publication, effects)
unfolding program
published = refl

second_accepted : Accepts format second_manifest
unfolding program
second_accepted = refl

second_small : leb (length (serialize_manifest second_manifest)) 1048576 ≡ true
unfolding program
second_small = refl

-- The process dies while it writes the payload.
abbrev torn : Files
torn = directory ++ (codes ".step_2.ckpt.tmp-a1", []) ∷ []

publication_atomic_example :
    (load_latest_checkpoint format torn ≡ ok (first_record, 1 ∷ 2 ∷ []))
    ⊎ Yields format second_record (3 ∷ []) torn
publication_atomic_example =
    publication_atomic format (codes "run-1") (codes "step_2") (3 ∷ []) (codes "a1") (codes "b2")
      directory torn publication effects (first_record, 1 ∷ 2 ∷ []) format-IsFaithful published
      second_accepted second_small loaded (inr (inl (refl, [], refl)))

publication_loads_example :
    (gs : Files) × (perform_all effects directory ≡ ok gs) × Yields format second_record (3 ∷ []) gs
publication_loads_example =
    publication_loads format (codes "run-1") (codes "step_2") (3 ∷ []) (codes "a1") (codes "b2")
      directory publication effects format-IsFaithful published second_accepted second_small refl
      refl

discard_loads_example :
    ((all is_utf8 (names_of directory) ≡ true)
      × (effects : List Effect) × (discard_orphaned_staging directory ≡ ok effects)
      × (gs : Files) × (perform_all effects directory ≡ ok gs)
      × (load_latest_checkpoint format gs ≡ ok (first_record, 1 ∷ 2 ∷ []))
      × ((n : Text) → lookup n gs ≡ (if is_staging n then none else lookup n directory)))
    ⊎ ((all is_utf8 (names_of directory) ≡ false)
        × (discard_orphaned_staging directory ≡ raise unencodable_name))
discard_loads_example =
    discard_loads format directory (first_record, 1 ∷ 2 ∷ []) format-IsFaithful loaded
