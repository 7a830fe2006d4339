-- ===== src/Checkpoints/Crash.antt =====
-- Complete and interrupted publications of EvoNN-Shared/src/evonn_shared/checkpoints.py.
use mathlib.Core.Path.{subst}
use evo_nn_research.Prelude.{
  leb, ◌≡◌, ◌⊎◌, inl, inr, refl, sym, ap, ◌∙◌, true, false, List, [], ◌∷◌, ◌++◌, none, Option-cases,
  Text, lookup, text_eq_iff, text_eq_refl, set_item, lookup-set_item, ok, arith, length,
}
use evo_nn_research.Checkpoints.{
  Accepts, max_manifest_bytes, CheckpointRecord, Format, IsFaithful, Publication, manifest_filename,
  load_latest_checkpoint, manifest_staging, serialize_manifest, manifest_of, publish_checkpoint,
}
use evo_nn_research.Checkpoints.Storage.{
  Bytes, Files, Effect, write, perform, perform_all, MayLeave,
}
use evo_nn_research.Checkpoints.Keeping.{is_visible, leaves_renamed}
use evo_nn_research.Checkpoints.Loading.{load-Keeps, payload_path_visible}
use evo_nn_research.Checkpoints.Publishing.{Opened}
use evo_nn_research.Checkpoints.Moves.{
  moved, write_move, rename_free, lookup-moved, hidden_differs, visible_differs, moved_unused,
}
use evo_nn_research.Checkpoints.Commit.{
  transfer, replacement, IsAdopted, publish_effects, replaced_loads, replace_done,
}

transfer_free :
    (p : Publication) (es : List Effect) (fs gs : Files)
    → lookup p.record_of.payload_path fs ≡ none
    → perform_all (transfer p ++ es) fs ≡ ok gs
    → lookup p.staging_name fs ≡ none
unfolding perform_all perform
transfer_free p es fs gs free h = elim (Option-cases (lookup p.staging_name fs)) [
  | inl free' ↦ free'
  | inr (content, found) ↦ absurd (ground (arith, found, h))
]

abbrev transferred : Publication → Files → Files
transferred p fs = moved p.staging_name p.record_of.payload_path p.payload fs

transfer_done :
    (f : Format) (payload : Bytes) (token : Text) (p : Publication) (es : List Effect) (fs : Files)
    → Opened f payload token p
    → lookup p.record_of.payload_path fs ≡ none
    → lookup p.staging_name fs ≡ none
    → perform_all (transfer p ++ es) fs ≡ perform_all es (transferred p fs)
unfolding perform_all
transfer_done f payload token p es fs o free free' =
    let path = p.record_of.payload_path in
    let hidden : is_visible p.staging_name ≡ false = ap is_visible o.hidden in
    let differs =
      hidden_differs p.staging_name path hidden (payload_path_visible path o.path_is_valid) in
    let (a, b) = write_move p.staging_name path p.payload fs free' in
    let free'' : lookup path (set_item p.staging_name p.payload fs) ≡ none =
      lookup-set_item p.staging_name p.payload path fs ∙ ground (arith, differs, free) in
    let c = rename_free p.staging_name path (set_item p.staging_name p.payload fs) free'' in
    ground (arith, a, b, c)

transferred-IsAdopted :
    (f : Format) (payload : Bytes) (token : Text) (p : Publication) (fs : Files)
    → Opened f payload token p
    → IsAdopted f p (transferred p fs)
transferred-IsAdopted f payload token p fs o =
    let path = p.record_of.payload_path in
    let hidden : is_visible p.staging_name ≡ false = ap is_visible o.hidden in
    let differs =
      hidden_differs p.staging_name path hidden (payload_path_visible path o.path_is_valid) in
    (
      payload,
      lookup-moved path p.staging_name path p.payload fs differs
          ∙ ground (arith, text_eq_refl path, o.holds),
      (text_eq_iff (f.sha256_bytes payload) p.record_of.sha256).1 (sym o.digest_of),
      ground (arith, o.size_of),
    )

-- The checkpoint that a directory loads has the payload's digest and size.
abbrev pub Yields : Format → CheckpointRecord → Bytes → Files → Type 0
Yields f r payload gs =
    (bytes : Bytes) × (load_latest_checkpoint f gs ≡ ok (r, bytes))
    × (f.sha256_bytes bytes ≡ f.sha256_bytes payload)
    × (length bytes ≡ length payload)

module _ (f : Format) (faithful : IsFaithful f) (payload : Bytes) (token token' : Text)
    (p : Publication) (o : Opened f payload token p) (accepts : Accepts f (manifest_of p))
    (small : leb (length (serialize_manifest (manifest_of p))) max_manifest_bytes ≡ true)
    (fs : Files) where
  fresh_loads :
      (gs : Files)
      → lookup p.record_of.payload_path fs ≡ none
      → perform_all (transfer p ++ replacement token' p) fs ≡ ok gs
      → Yields f p.record_of payload gs
  fresh_loads gs free h =
      let free' = transfer_free p (replacement token' p) fs gs free h in
      replaced_loads f payload token token' p (transferred p fs) gs accepts o small
        (transferred-IsAdopted f payload token p fs o)
        (sym (transfer_done f payload token p (replacement token' p) fs o free free') ∙ h)

  fresh_done :
      lookup p.record_of.payload_path fs ≡ none
      → lookup p.staging_name fs ≡ none
      → lookup (manifest_staging token') fs ≡ none
      → (gs : Files) × (perform_all (transfer p ++ replacement token' p) fs ≡ ok gs)
  fresh_done free free' free'' =
      let ms = manifest_staging token' in
      let path = p.record_of.payload_path in
      let differs = visible_differs path ms (payload_path_visible path o.path_is_valid) refl in
      let unused : lookup ms (transferred p fs) ≡ none =
        moved_unused ms p.staging_name path p.payload fs differs free'' in
      (
        _,
        transfer_done f payload token p (replacement token' p) fs o free free'
            ∙ replace_done token' p (transferred p fs) unused,
      )

  fresh_atomic :
      (x : CheckpointRecord × Bytes) (gs : Files)
      → load_latest_checkpoint f fs ≡ ok x
      → lookup p.record_of.payload_path fs ≡ none
      → MayLeave (transfer p ++ replacement token' p) fs gs
      → (load_latest_checkpoint f gs ≡ ok x) ⊎ Yields f p.record_of payload gs
  fresh_atomic x gs before free left =
      let ms = manifest_staging token' in
      let hidden : is_visible p.staging_name ≡ false = ap is_visible o.hidden in
      elim (leaves_renamed (transfer p ++ write ms (serialize_manifest (manifest_of p)) ∷ []) ms
        manifest_filename fs gs (tt, (hidden, (tt, tt))) left) [
          | inl kept ↦ inl (load-Keeps f fs gs x faithful before kept)
          | inr all ↦ inr (fresh_loads gs free all)
        ]

  adopted_atomic :
      (x : CheckpointRecord × Bytes) (gs : Files)
      → load_latest_checkpoint f fs ≡ ok x
      → IsAdopted f p fs
      → MayLeave (replacement token' p) fs gs
      → (load_latest_checkpoint f gs ≡ ok x) ⊎ Yields f p.record_of payload gs
  adopted_atomic x gs before adopted left =
      let ms = manifest_staging token' in
      elim (leaves_renamed (write ms (serialize_manifest (manifest_of p)) ∷ []) ms manifest_filename
        fs gs (tt, tt) left) [
          | inl kept ↦ inl (load-Keeps f fs gs x faithful before kept)
          | inr all ↦
              inr (replaced_loads f payload token token' p fs gs accepts o small adopted all)
        ]

-- A publication is atomic: after a crash at any of its effects, or inside one, a directory that had a
-- checkpoint loads that one, or the new record with a payload of the digest and the size of the given
-- one; Pydantic accepts the manifest, which is within its size limit.
pub publication_atomic :
    (f : Format) (run id : Text) (payload : Bytes) (token token' : Text) (fs gs : Files)
    (q : Publication) (es : List Effect) (x : CheckpointRecord × Bytes)
    → IsFaithful f
    → publish_checkpoint f run id payload token token' fs ≡ ok (q, es)
    → Accepts f (manifest_of q)
    → leb (length (serialize_manifest (manifest_of q))) max_manifest_bytes ≡ true
    → load_latest_checkpoint f fs ≡ ok x
    → MayLeave es fs gs
    → (load_latest_checkpoint f gs ≡ ok x) ⊎ Yields f q.record_of payload gs
publication_atomic f run id payload token token' fs gs q es x faithful published accepts small
      before left =
    let (p, o, same, named, how) =
      publish_effects f run id payload token token' fs q es faithful published in
    let accepts' = subst (Accepts f) same accepts in
    let small' : leb (length (serialize_manifest (manifest_of p))) max_manifest_bytes ≡ true =
      rw (sym same) small in
    let answer : (load_latest_checkpoint f gs ≡ ok x) ⊎ Yields f p.record_of payload gs = elim how [
      | inl (free, e) ↦
          fresh_atomic f faithful payload token token' p o accepts' small' fs x gs before free
            (subst (λ l. MayLeave l fs gs) e left)
      | inr (adopted, e) ↦
          adopted_atomic f faithful payload token token' p o accepts' small' fs x gs before adopted
            (subst (λ l. MayLeave l fs gs) e left)
    ] in
    subst (λ m. (load_latest_checkpoint f gs ≡ ok x) ⊎ Yields f m.latest payload gs) (sym same)
      answer

-- If its staging names are free, all effects of a publication succeed, and the directory then loads
-- the new record with a payload of the digest and the size of the given one; Pydantic accepts the
-- manifest, which is within its size limit.
pub publication_loads :
    (f : Format) (run id : Text) (payload : Bytes) (token token' : Text) (fs : Files)
    (q : Publication) (es : List Effect)
    → IsFaithful f
    → publish_checkpoint f run id payload token token' fs ≡ ok (q, es)
    → Accepts f (manifest_of q)
    → leb (length (serialize_manifest (manifest_of q))) max_manifest_bytes ≡ true
    → lookup q.staging_name fs ≡ none
    → lookup (manifest_staging token') fs ≡ none
    → (gs : Files) × (perform_all es fs ≡ ok gs) × Yields f q.record_of payload gs
publication_loads f run id payload token token' fs q es faithful published accepts small free
      free' =
    let (p, o, same, named, how) =
      publish_effects f run id payload token token' fs q es faithful published in
    let accepts' = subst (Accepts f) same accepts in
    let small' : leb (length (serialize_manifest (manifest_of p))) max_manifest_bytes ≡ true =
      rw (sym same) small in
    let answer : (gs : Files) × (perform_all es fs ≡ ok gs) × Yields f p.record_of payload gs =
      elim how [
        | inl (absent, e) ↦
            let (gs, done) =
              fresh_done f faithful payload token token' p o accepts' small' fs absent
                (rw (sym named) free) free' in
            (
              gs,
              ap (λ l. perform_all l fs) e ∙ done,
              fresh_loads f faithful payload token token' p o accepts' small' fs gs absent done,
            )
        | inr (adopted, e) ↦
            let done = replace_done token' p fs free' in
            (
              _,
              ap (λ l. perform_all l fs) e ∙ done,
              replaced_loads f payload token token' p fs _ accepts' o small' adopted done,
            )
      ] in
    subst (λ m. (gs : Files) × (perform_all es fs ≡ ok gs) × Yields f m.latest payload gs)
      (sym same) answer
