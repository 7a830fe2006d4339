-- ===== src/Checkpoints/Discarding.antt =====
-- What `discard_orphaned_staging` of EvoNN-Shared/src/evonn_shared/checkpoints.py removes.
use evo_nn_research.Prelude.{
  ◌≡◌, refl, ◌∙◌, true, false, ◌&&◌, List, [], ◌∷◌, map, none, Text, lookup, text_eq_iff, text_in,
  erase, lookup-erase, ok, raise, all, is_utf8, ◌⊎◌, arith, if◌then◌else◌, Bool-cases, inl, inr,
}
use evo_nn_research.Contract.{sorted}
use evo_nn_research.Contract.Sorting.{text_in-sorted}
use evo_nn_research.Checkpoints.{
  unencodable_name, names_of, CheckpointRecord, Format, IsFaithful, is_staging, removals,
  discard_orphaned_staging, load_latest_checkpoint,
}
use evo_nn_research.Checkpoints.Storage.{Bytes, Effect, Files, perform, perform_all}
use evo_nn_research.Checkpoints.Keeping.{is_visible}
use evo_nn_research.Checkpoints.Loading.{load-Keeps}

unnamed_missing :
    (n : Text) (fs : Files)
    → text_in n (map (λ (name, content). name) fs) ≡ false
    → lookup n fs ≡ none
unnamed_missing n [] h = refl
unnamed_missing n ((k, b) ∷ fs) h =
    ground (arith, unnamed_missing n fs, text_eq_iff k n, text_eq_iff n k, h)

removals_done :
    (names : List Text) (fs : Files)
    → (gs : Files) × (perform_all (removals names) fs ≡ ok gs)
      × ((n : Text) → lookup n gs ≡ (if is_staging n && text_in n names then none else lookup n fs))
unfolding perform_all perform
removals_done [] fs = (fs, refl, λ n. ground arith)
removals_done (name ∷ names) fs = elim (Bool-cases (is_staging name)) [
  | inl staging ↦
      let (gs, done, law) = removals_done names (erase name fs) in
      (
        gs,
        ground (arith, staging, done),
        λ n.
            law n
            ∙ ground
                (arith, lookup-erase name n fs, text_eq_iff n name, text_eq_iff name n, staging),
      )
  | inr other ↦
      let (gs, done, law) = removals_done names fs in
      (gs, ground (arith, other, done), λ n. law n ∙ ground (arith, text_eq_iff name n, other))
]

visible_stays : (n : Text) → is_visible n ≡ true → is_staging n ≡ false
unfolding is_staging
visible_stays [] v = ground arith
visible_stays (c ∷ cs) v = ground (arith, v)

-- In a directory that loads a checkpoint, and where every file name can be encoded in UTF-8, the
-- removal of orphaned staging files succeeds: the same checkpoint is loaded afterwards, no staging
-- file is left and every other file is as before. Where a name cannot be encoded it raises and
-- removes nothing.
pub discard_loads :
    (f : Format) (fs : Files) (x : CheckpointRecord × Bytes)
    → IsFaithful f
    → load_latest_checkpoint f fs ≡ ok x
    → ((all is_utf8 (names_of fs) ≡ true)
        × (effects : List Effect) × (discard_orphaned_staging fs ≡ ok effects)
        × (gs : Files) × (perform_all effects fs ≡ ok gs)
        × (load_latest_checkpoint f gs ≡ ok x)
        × ((n : Text) → lookup n gs ≡ (if is_staging n then none else lookup n fs)))
      ⊎ ((all is_utf8 (names_of fs) ≡ false)
          × (discard_orphaned_staging fs ≡ raise unencodable_name))
unfolding discard_orphaned_staging
discard_loads f fs x faithful before = elim (Bool-cases (all is_utf8 (names_of fs))) [
  | inl valid ↦
      let names = names_of fs in
      let (gs, done, law) = removals_done (sorted names) fs in
      let every : (n : Text) → lookup n gs ≡ (if is_staging n then none else lookup n fs) =
        λ n. law n ∙ ground (arith, text_in-sorted n names, unnamed_missing n fs) in
      inl (
        valid,
        removals (sorted names),
        rw valid refl,
        gs,
        done,
        load-Keeps f fs gs x faithful before
            (λ n b visible there. every n ∙ ground (arith, visible_stays n visible, there)),
        every,
      )
  | inr invalid ↦ inr (invalid, rw invalid refl)
]
