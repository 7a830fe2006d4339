-- ===== src/Journal/Steps.antt =====
-- The deltas of EvoNN-Shared/src/evonn_shared/runtime_journal.py, case by case: how they are made and
-- what `apply_delta` does with them.
use evo_nn_research.Prelude.{
  ◌≡◌, refl, true, false, not, List, none, some, Text, codes, text_in, all, all_distinct, Result,
  ok,
}
use evo_nn_research.Journal.{
  JsonValue, JsonValues, JsonFields, array, object, end, field, Items, items, fields_of, keys,
  set_eq, same_values, replaced, texts, keyed, delta_step, take_values, drop_values, length_values,
  append_values,
}
use evo_nn_research.Journal.Applying.{
  JournalError, apply_items, apply_step, apply_dictionary, apply_keyed, appended, keyed_before,
  remove_all, paired,
}
use evo_nn_research.Journal.Sameness.{items-fields_of}
use evo_nn_research.Journal.Keyed.{as_texts-texts}
use evo_nn_research.Journal.Removal.{removed}

abbrev pub dictionary_change : Items → List Text → JsonFields
dictionary_change changes removed =
    field (codes "dict") (object (fields_of changes))
      (field (codes "remove") (array (texts removed)) end)

abbrev pub keyed_change : JsonValue → List Text → JsonFields
keyed_change change order =
    field (codes "keyed") change (field (codes "order") (array (texts order)) end)

module _ (recur : JsonValue → JsonValue → Result JournalError JsonValue) where
  pub dictionary_applied :
      (old : JsonFields) (changes : Items) (removed : List Text) (r : Items)
      → all_distinct removed ≡ true
      → all (λ k. text_in k (keys (items old))) removed ≡ true
      → all (λ k. not (text_in k (keys changes))) removed ≡ true
      → apply_items recur (items old) changes (remove_all removed (items old)) ≡ ok r
      → apply_step recur (object old) (items (dictionary_change changes removed))
        ≡ ok (object (fields_of r))
  unfolding apply_step apply_dictionary appended keyed_before
  dictionary_applied old changes removed r a b c done =
      rw (items-fields_of changes, as_texts-texts removed, a, b, c, done, apply_step) refl

  pub keyed_applied :
      (xs : JsonValues) (old : Items) (change : JsonValue) (order : List Text) (fs : JsonFields)
      → keyed xs ≡ some old
      → all_distinct order ≡ true
      → recur (object (fields_of old)) change ≡ ok (object fs)
      → set_eq order (keys (items fs)) ≡ true
      → apply_step recur (array xs) (items (keyed_change change order))
        ≡ ok (array (paired order (items fs)))
  unfolding apply_step apply_keyed appended keyed_before
  keyed_applied xs old change order fs a b c d =
      rw (a, as_texts-texts order, b, c, d, apply_step) refl

  pub append_applied :
      (xs ys : JsonValues)
      → apply_step recur (array xs) (items (field (codes "append") (array ys) end))
        ≡ ok (array (append_values xs ys))
  unfolding apply_step appended
  append_applied xs ys = refl

  pub replace_applied :
      (w v : JsonValue) → apply_step recur w (items (field (codes "replace") v end)) ≡ ok v
  unfolding apply_step
  replace_applied w v = refl

-- The cases of a delta of two lists.
module _ (change : JsonValue → JsonValue → JsonValue) (xs ys : JsonValues) where
  pub step_append :
      same_values (take_values (length_values xs) ys) xs ≡ true
      → delta_step change (array xs) (array ys)
        ≡ object (field (codes "append") (array (drop_values (length_values xs) ys)) end)
  unfolding delta_step
  step_append prefix = rw (prefix, delta_step) refl

  pub step_plain :
      same_values (take_values (length_values xs) ys) xs ≡ false
      → keyed xs ≡ none
      → delta_step change (array xs) (array ys) ≡ replaced (array ys)
  unfolding delta_step
  step_plain other plain = rw (other, plain, delta_step) refl

  pub step_unkeyed :
      (ps : Items)
      → same_values (take_values (length_values xs) ys) xs ≡ false
      → keyed xs ≡ some ps
      → keyed ys ≡ none
      → delta_step change (array xs) (array ys) ≡ replaced (array ys)
  unfolding delta_step
  step_unkeyed ps other old plain = rw (other, old, plain, delta_step) refl

  pub step_keyed :
      (ps qs : Items)
      → same_values (take_values (length_values xs) ys) xs ≡ false
      → keyed xs ≡ some ps
      → keyed ys ≡ some qs
      → delta_step change (array xs) (array ys)
        ≡ object (keyed_change (change (object (fields_of ps)) (object (fields_of qs))) (keys qs))
  unfolding delta_step
  step_keyed ps qs other old new = rw (other, old, new, delta_step) refl
