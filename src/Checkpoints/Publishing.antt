-- ===== src/Checkpoints/Publishing.antt =====
-- What the publication of EvoNN-Shared/src/evonn_shared/checkpoints.py is made of: the record that it
-- commits, and its effects on the directory.
use evo_nn_research.Prelude.{
  Bool-cases, ℕ, ◌+◌, ◌≡◌, inl, inr, refl, ap, false, [], ◌∷◌, ◌++◌, Option, none, some, Text,
  codes, text_eq, text_eq_iff, Result, ok, raise, arith, returned, length,
}
use evo_nn_research.Contract.{Violation, canonical_id, run_id, optional}
use evo_nn_research.Telemetry.{digest}
use evo_nn_research.Checkpoints.{
  checked, CheckpointRecord, CheckpointManifest, Format, IsFaithful, Publication, payload_path,
  without_suffix, payload_suffix, record_errors, manifest_errors, read_checkpoint_manifest,
  build_record, open_publication, manifest_of,
}
use evo_nn_research.Checkpoints.Storage.{Bytes, Files}
use evo_nn_research.Checkpoints.Loading.{was_read}

length-suffixed : (t : Text) → length (t ++ payload_suffix) ≡ length t + 5
length-suffixed [] = refl
length-suffixed (c ∷ cs) = omega (arith, length-suffixed cs)

longer : (c : ℕ) (cs : Text) → text_eq (c ∷ (cs ++ payload_suffix)) payload_suffix ≡ false
longer c cs = elim (Bool-cases (text_eq (c ∷ (cs ++ payload_suffix)) payload_suffix)) [
  | inl same ↦
      let e : length (c ∷ (cs ++ payload_suffix)) ≡ length payload_suffix =
        ap length ((text_eq_iff (c ∷ (cs ++ payload_suffix)) payload_suffix).0 same) in
      absurd (omega (arith, e, length-suffixed cs))
  | inr differs ↦ differs
]

without_suffix-append : (t : Text) → without_suffix (t ++ payload_suffix) ≡ some t
unfolding without_suffix
without_suffix-append [] = refl
without_suffix-append (c ∷ cs) = ground (arith, longer c cs, without_suffix-append cs)

payload_path-append :
    (t : Text)
    → canonical_id t ≡ ok t
    → payload_path (t ++ payload_suffix) ≡ ok (t ++ payload_suffix)
unfolding payload_path
payload_path-append t h = ground (arith, h, without_suffix-append t)

-- What the record of a publication says of the payload.
pub record Opened (f : Format) (payload : Bytes) (token : Text) (p : Publication) : Type 0 where
  pub no_errors : manifest_errors (manifest_of p) ≡ []
  pub path_is_valid : payload_path p.record_of.payload_path ≡ ok p.record_of.payload_path
  pub hidden : p.staging_name ≡ b'.' ∷ (p.record_of.payload_path ++ codes ".tmp-" ++ token)
  pub holds : p.payload ≡ payload
  pub digest_of : p.record_of.sha256 ≡ f.sha256_bytes payload
  pub size_of : p.record_of.size_bytes ≡ length payload
  pub not_staged : p.staged ≡ false
  pub not_adopted : p.adopted ≡ false
  pub not_committed : (p.payload_committed ≡ false) × (p.manifest_committed ≡ false)

checked-ok : {A : Type 0} (r : Result Violation A) {a : A} → checked r ≡ ok a → r ≡ ok a
checked-ok (ok b) h = ground (arith, h)
checked-ok (raise e) h = absurd (ground (arith, h))

manifest_digest :
    (m : CheckpointManifest) → manifest_errors m ≡ [] → digest m.latest.sha256 ≡ ok m.latest.sha256
unfolding manifest_errors record_errors digest
manifest_digest m h = ground (arith, h)

run_id_returns : (t : Text) {u : Text} → run_id t ≡ ok u → run_id t ≡ ok t
unfolding run_id
run_id_returns t h = ground (arith, h)

canonical_id_returns : (t : Text) {u : Text} → canonical_id t ≡ ok u → canonical_id t ≡ ok t
unfolding canonical_id
canonical_id_returns t h = ground (arith, h)

previous_valid :
    (f : Format) (fs : Files) (previous : Option CheckpointManifest)
    → IsFaithful f
    → read_checkpoint_manifest f fs ≡ ok previous
    → optional manifest_errors previous ≡ []
previous_valid f fs none faithful read = refl
previous_valid f fs (some m) faithful read =
    let (bytes, _, _, accepted) = was_read f fs m read in faithful.validates bytes m accepted

-- The record that is built for a checkpoint that follows a valid manifest.
build_record-valid :
    (f : Format) (previous : Option CheckpointManifest) (run id : Text) (payload : Bytes)
    (r : CheckpointRecord)
    → IsFaithful f
    → run_id run ≡ ok run
    → canonical_id id ≡ ok id
    → optional manifest_errors previous ≡ []
    → build_record f previous run id payload ≡ ok r
    → (record_errors r ≡ [])
      × (r.payload_path ≡ id ++ payload_suffix)
      × (r.sha256 ≡ f.sha256_bytes payload)
      × (r.size_bytes ≡ length payload)
unfolding build_record record_errors
build_record-valid f none run id payload r faithful a b valid h =
    let suffixed = payload_path-append id b in
    let digested = faithful.digests payload in
    (
      ground (arith, suffixed, digested, b, h),
      ground (arith, h),
      ground (arith, h),
      ground (arith, h),
    )
build_record-valid f (some m) run id payload r faithful a b valid h =
    let suffixed = payload_path-append id b in
    let digested = faithful.digests payload in
    let followed = manifest_digest m valid in
    (
      ground (arith, suffixed, digested, b, h, followed),
      ground (arith, h),
      ground (arith, h),
      ground (arith, h),
    )

pub open_publication-Opened :
    (f : Format) (run id : Text) (payload : Bytes) (token : Text) (fs : Files) (p : Publication)
    → IsFaithful f
    → open_publication f run id payload token fs ≡ ok p
    → Opened f payload token p
unfolding open_publication manifest_errors
open_publication-Opened f run id payload token fs p faithful h =
    let (_, named, h1) = returned (checked (run_id run)) _ {v = p} h in
    let (_, identified, h2) = returned (checked (canonical_id id)) _ {v = p} h1 in
    let (previous, read, h3) = returned (read_checkpoint_manifest f fs) _ {v = p} h2 in
    let (r, built, h4) = returned (build_record f previous run id payload) _ {v = p} h3 in
    let run_valid = run_id_returns run (checked-ok (run_id run) named) in
    let id_valid = canonical_id_returns id (checked-ok (canonical_id id) identified) in
    let (valid, path, sha, size) =
      build_record-valid f previous run id payload r faithful run_valid id_valid
        (previous_valid f fs previous faithful read) built in
    record {
      no_errors = ground (arith, h4, run_valid, valid);
      path_is_valid = ground (arith, h4, path, payload_path-append id id_valid);
      hidden = ground (arith, h4);
      holds = ground (arith, h4);
      digest_of = ground (arith, h4, sha);
      size_of = ground (arith, h4, size);
      not_staged = ground (arith, h4);
      not_adopted = ground (arith, h4);
      not_committed = (ground (arith, h4), ground (arith, h4));
    }
