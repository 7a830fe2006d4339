-- ===== src/Checkpoints/Loading.antt =====
-- What `load_latest_checkpoint` of EvoNN-Shared/src/evonn_shared/checkpoints.py reads.
use evo_nn_research.Prelude.{
  ltb, length, ◌≡◌, inl, inr, refl, sym, ap, ◌∙◌, true, false, [], ◌∷◌, some, Option-cases, Text,
  lookup, text_eq, ok, arith, ◌==◌, returned,
}
use evo_nn_research.Contract.{canonical_id, matches_canonical_id}
use evo_nn_research.Checkpoints.{
  max_manifest_bytes, CheckpointRecord, CheckpointManifest, Format, IsFaithful, payload_path,
  without_suffix, record_errors, manifest_errors, manifest_filename, read_checkpoint_manifest,
  load_record, load_latest_checkpoint,
}
use evo_nn_research.Checkpoints.Storage.{Bytes, Files}
use evo_nn_research.Checkpoints.Keeping.{is_visible, Keeps}

pub payload_path_visible : (t : Text) → payload_path t ≡ ok t → is_visible t ≡ true
unfolding payload_path without_suffix canonical_id matches_canonical_id
payload_path_visible [] h = refl
payload_path_visible (c ∷ cs) h = ground (arith, h)

manifest_payload_path :
    (m : CheckpointManifest)
    → manifest_errors m ≡ []
    → payload_path m.latest.payload_path ≡ ok m.latest.payload_path
unfolding manifest_errors record_errors payload_path
manifest_payload_path m h = ground (arith, h)

-- What a manifest that was read stands in: a file that Pydantic accepted.
pub was_read :
    (f : Format) (fs : Files) (m : CheckpointManifest)
    → read_checkpoint_manifest f fs ≡ ok (some m)
    → (bytes : Bytes) × (lookup manifest_filename fs ≡ some bytes)
      × (ltb max_manifest_bytes (length bytes) ≡ false)
      × (f.validate_json bytes ≡ some m)
unfolding read_checkpoint_manifest
was_read f fs m h = elim (Option-cases (lookup manifest_filename fs)) [
  | inl gone ↦ absurd (ground (arith, h, gone))
  | inr (bytes, found) ↦ (bytes, found, ground (arith, h, found), ground (arith, h, found))
]

pub was_loaded :
    (f : Format) (r : CheckpointRecord) (fs : Files) (x : CheckpointRecord × Bytes)
    → load_record f r fs ≡ ok x
    → (bytes : Bytes) × (lookup r.payload_path fs ≡ some bytes)
      × ((length bytes == r.size_bytes) ≡ true)
      × (text_eq (f.sha256_bytes bytes) r.sha256 ≡ true)
      × (x ≡ (r, bytes))
unfolding load_record
was_loaded f r fs x h = elim (Option-cases (lookup r.payload_path fs)) [
  | inl gone ↦ absurd (ground (arith, h, gone))
  | inr (bytes, found) ↦
      (bytes, found, ground (arith, h, found), ground (arith, h, found), ground (arith, h, found))
]

reads :
    (f : Format) (fs : Files) (m : CheckpointManifest) (bytes : Bytes)
    → lookup manifest_filename fs ≡ some bytes
    → ltb max_manifest_bytes (length bytes) ≡ false
    → f.validate_json bytes ≡ some m
    → read_checkpoint_manifest f fs ≡ ok (some m)
unfolding read_checkpoint_manifest
reads f fs m bytes a b c = ground (arith, a, b, c)

pub loads :
    (f : Format) (fs : Files) (m : CheckpointManifest) (bytes payload : Bytes)
    → lookup manifest_filename fs ≡ some bytes
    → ltb max_manifest_bytes (length bytes) ≡ false
    → f.validate_json bytes ≡ some m
    → lookup m.latest.payload_path fs ≡ some payload
    → (length payload == m.latest.size_bytes) ≡ true
    → text_eq (f.sha256_bytes payload) m.latest.sha256 ≡ true
    → load_latest_checkpoint f fs ≡ ok (m.latest, payload)
unfolding load_latest_checkpoint load_record
loads f fs m bytes payload a b c d e g =
    let read : read_checkpoint_manifest f fs ≡ ok (some m) = reads f fs m bytes a b c in
    let loaded : load_record f m.latest fs ≡ ok (m.latest, payload) = ground (arith, d, e, g) in
    ground (arith, read, loaded)

pub load-Keeps :
    (f : Format) (fs gs : Files) (x : CheckpointRecord × Bytes)
    → IsFaithful f
    → load_latest_checkpoint f fs ≡ ok x
    → Keeps fs gs
    → load_latest_checkpoint f gs ≡ ok x
unfolding load_latest_checkpoint
load-Keeps f fs gs x faithful h kept =
    let (read_, read, rest) = returned (read_checkpoint_manifest f fs) _ {v = x} h in
    elim (Option-cases read_) [
      | inl gone ↦ absurd (ground (arith, rest, gone))
      | inr (m, got) ↦
          let (bytes, a, b, c) = was_read f fs m (read ∙ ap ok got) in
          let (payload, d, e, g, same) = was_loaded f m.latest fs x (ground (rest, got, arith)) in
          let visible =
            payload_path_visible m.latest.payload_path
              (manifest_payload_path m (faithful.validates bytes m c)) in
          loads f gs m bytes payload (kept manifest_filename bytes refl a) b c
            (kept m.latest.payload_path payload visible d) e g
          ∙ ap ok (sym same)
    ]
