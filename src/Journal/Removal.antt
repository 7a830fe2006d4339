-- ===== src/Journal/Removal.antt =====
-- The keys that a dictionary delta of EvoNN-Shared/src/evonn_shared/runtime_journal.py removes.
use evo_nn_research.Prelude.{
  ◌≡◌, refl, ◌∙◌, true, false, not, ◌&&◌, List, [], ◌∷◌, Text, text_eq_iff, text_in, all,
  all_distinct, arith,
}
use evo_nn_research.Contract.{sorted}
use evo_nn_research.Contract.Sorting.{text_in-sorted, all_distinct-sorted}
use evo_nn_research.Journal.{missing}
use evo_nn_research.Journal.Sameness.{all-intro}

text_in-missing :
    (k : Text) (ks after : List Text)
    → text_in k (missing ks after) ≡ (text_in k ks && not (text_in k after))
text_in-missing k [] after = refl
text_in-missing k (j ∷ ks) after = ground (arith, text_in-missing k ks after, text_eq_iff j k)

all_distinct-missing :
    (ks after : List Text) → all_distinct ks ≡ true → all_distinct (missing ks after) ≡ true
unfolding all_distinct
all_distinct-missing [] after d = refl
all_distinct-missing (k ∷ ks) after d =
    ground (arith, all_distinct-missing ks after, text_in-missing k ks after, d)

-- `sorted(set(before) - set(after))`
abbrev pub removed : List Text → List Text → List Text
removed before after = sorted (missing before after)

pub text_in-removed :
    (k : Text) (before after : List Text)
    → text_in k (removed before after) ≡ (text_in k before && not (text_in k after))
text_in-removed k before after =
    text_in-sorted k (missing before after) ∙ text_in-missing k before after

pub removed_distinct :
    (before after : List Text)
    → all_distinct before ≡ true
    → all_distinct (removed before after) ≡ true
removed_distinct before after d =
    all_distinct-sorted (missing before after) (all_distinct-missing before after d)

pub removed_known :
    (before after : List Text) → all (λ k. text_in k before) (removed before after) ≡ true
removed_known before after =
    all-intro (λ k. text_in k before) (removed before after)
      (λ k i. ground (arith, i, text_in-removed k before after))

-- No key is removed that has a change, if all changes are of keys of the new mapping.
pub removed_unchanged :
    (before after changes : List Text)
    → ((k : Text) → text_in k after ≡ false → text_in k changes ≡ false)
    → all (λ k. not (text_in k changes)) (removed before after) ≡ true
removed_unchanged before after changes h =
    all-intro (λ k. not (text_in k changes)) (removed before after)
      (λ k i. ground (arith, i, text_in-removed k before after, h k))
