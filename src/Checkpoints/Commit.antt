-- ===== src/Checkpoints/Commit.antt =====
-- The effects of `publish_checkpoint` of EvoNN-Shared/src/evonn_shared/checkpoints.py, and what is
-- loaded after them.
use evo_nn_research.Prelude.{
  leb, Bool-cases, ◌≡◌, ◌⊎◌, inl, inr, refl, sym, ap, ◌∙◌, true, false, List, [], ◌∷◌, ◌++◌, none,
  some, Option-cases, Text, lookup, text_eq, text_eq_iff, text_eq_refl, ok, raise, arith, ◌==◌,
  returned, length,
}
use evo_nn_research.Contract.{not_payload_path}
use evo_nn_research.Checkpoints.{
  Accepts, max_manifest_bytes, Format, IsFaithful, Publication, payload_path, without_suffix,
  manifest_filename, load_latest_checkpoint, open_publication, stage, commit_payload,
  commit_manifest, manifest_staging, serialize_manifest, manifest_of, publish_checkpoint,
}
use evo_nn_research.Checkpoints.Storage.{
  Bytes, Files, Effect, write, rename_exclusive, rename, perform, perform_all,
}
use evo_nn_research.Checkpoints.Loading.{loads, payload_path_visible}
use evo_nn_research.Checkpoints.Publishing.{Opened, open_publication-Opened}
use evo_nn_research.Checkpoints.Moves.{moved, write_move, lookup-moved, hidden_differs}

abbrev pub transfer : Publication → List Effect
transfer p =
    write p.staging_name p.payload ∷ rename_exclusive p.staging_name p.record_of.payload_path ∷ []

abbrev pub replacement : Text → Publication → List Effect
replacement token' p =
    write (manifest_staging token') (serialize_manifest (manifest_of p))
    ∷ rename (manifest_staging token') manifest_filename
    ∷ []

-- The payload is there already, or its name is free.
abbrev pub IsAdopted : Format → Publication → Files → Type 0
IsAdopted f p fs =
    (existing : Bytes) × (lookup p.record_of.payload_path fs ≡ some existing)
    × (text_eq (f.sha256_bytes existing) p.record_of.sha256 ≡ true)
    × ((length existing == p.record_of.size_bytes) ≡ true)

pub publish_effects :
    (f : Format) (run id : Text) (payload : Bytes) (token token' : Text) (fs : Files)
    (q : Publication) (es : List Effect)
    → IsFaithful f
    → publish_checkpoint f run id payload token token' fs ≡ ok (q, es)
    → (p : Publication) × Opened f payload token p
      × (manifest_of q ≡ manifest_of p)
      × (q.staging_name ≡ p.staging_name)
      × (((lookup p.record_of.payload_path fs ≡ none) × (es ≡ transfer p ++ replacement token' p))
          ⊎ (IsAdopted f p fs × (es ≡ replacement token' p)))
unfolding publish_checkpoint stage commit_payload commit_manifest
publish_effects f run id payload token token' fs q es faithful h =
    let (p, opened, rest) =
      returned (open_publication f run id payload token fs) _ {v = (q, es)} h in
    let o = open_publication-Opened f run id payload token fs p faithful opened in
    let a = o.not_staged in
    let b = o.not_adopted in
    let (c, d) = o.not_committed in
    elim (Option-cases (lookup p.record_of.payload_path fs)) [
      | inl free ↦ (
        p,
        o,
        ground (arith, rest, free, a, b, c, d),
        ground (arith, rest, free, a, b, c, d),
        inl (free, ground (arith, rest, free, a, b, c, d)),
      )
      | inr (existing, found) ↦ (
        p,
        o,
        ground (arith, rest, found, a, b, c, d),
        ground (arith, rest, found, a, b, c, d),
        inr (
          (existing, found, ground (arith, rest, found, a), ground (arith, rest, found, a)),
          ground (arith, rest, found, a, b, c, d),
        ),
      )
    ]

pub path_differs : (t : Text) → payload_path t ≡ ok t → text_eq manifest_filename t ≡ false
unfolding payload_path without_suffix
path_differs t h = elim (Bool-cases (text_eq manifest_filename t)) [
  | inl same ↦
      let e : manifest_filename ≡ t = (text_eq_iff manifest_filename t).0 same in
      let refused : payload_path manifest_filename ≡ raise not_payload_path = refl in
      absurd (ground (arith, e, refused, h))
  | inr differs ↦ differs
]

pub replace_done :
    (token' : Text) (p : Publication) (fs : Files)
    → lookup (manifest_staging token') fs ≡ none
    → perform_all (replacement token' p) fs
      ≡ ok (
          moved (manifest_staging token') manifest_filename (serialize_manifest (manifest_of p)) fs)
unfolding perform_all
replace_done token' p fs free =
    let (a, b) =
      write_move (manifest_staging token') manifest_filename (serialize_manifest (manifest_of p)) fs
        free in
    ground (arith, a, b)

pub replace_free :
    (token' : Text) (p : Publication) (fs gs : Files)
    → perform_all (replacement token' p) fs ≡ ok gs
    → lookup (manifest_staging token') fs ≡ none
unfolding perform_all perform
replace_free token' p fs gs h = elim (Option-cases (lookup (manifest_staging token') fs)) [
  | inl free ↦ free
  | inr (content, found) ↦ absurd (ground (arith, found, h))
]

-- The last two effects make the record of the publication, whose payload is in place, the one that is
-- loaded.
pub replaced_loads :
    (f : Format) (payload : Bytes) (token token' : Text) (p : Publication) (fs gs : Files)
    → Accepts f (manifest_of p)
    → Opened f payload token p
    → leb (length (serialize_manifest (manifest_of p))) max_manifest_bytes ≡ true
    → IsAdopted f p fs
    → perform_all (replacement token' p) fs ≡ ok gs
    → (bytes : Bytes) × (load_latest_checkpoint f gs ≡ ok (p.record_of, bytes))
      × (f.sha256_bytes bytes ≡ f.sha256_bytes payload)
      × (length bytes ≡ length payload)
replaced_loads f payload token token' p fs gs accepts o small (bytes, found, sha, size) h =
    let ms = manifest_staging token' in
    let content = serialize_manifest (manifest_of p) in
    let done = replace_done token' p fs (replace_free token' p fs gs h) in
    let path = p.record_of.payload_path in
    let moved_is : moved ms manifest_filename content fs ≡ gs = ground (arith, done, h) in
    let m : lookup manifest_filename gs ≡ some content =
      ap (lookup manifest_filename) (sym moved_is)
      ∙ lookup-moved manifest_filename ms manifest_filename content fs
          (hidden_differs ms manifest_filename refl refl)
      ∙ ground (arith, text_eq_refl manifest_filename) in
    let kept : lookup path gs ≡ some bytes =
      ap (lookup path) (sym moved_is)
      ∙ lookup-moved path ms manifest_filename content fs
          (hidden_differs ms path refl (payload_path_visible path o.path_is_valid))
      ∙ ground (arith, path_differs path o.path_is_valid, found) in
    (
      bytes,
      loads f gs (manifest_of p) content bytes m (ground (arith, small)) accepts kept size sha,
      (text_eq_iff (f.sha256_bytes bytes) p.record_of.sha256).0 sha ∙ o.digest_of,
      ground (arith, size, o.size_of),
    )
