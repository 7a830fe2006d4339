-- ===== src/Journal/Replay.antt =====
-- `apply_delta` of EvoNN-Shared/src/evonn_shared/runtime_journal.py undoes `delta`.
use evo_nn_research.Prelude.{
  ℕ, zero, suc, ◌<◌, ◌≤◌, ◌≡◌, refl, sym, ap, ◌∙◌, true, false, none, some, Option-cases,
  Bool-cases, inl, inr, Text, codes, lookup, all_distinct, and-eq-true, arith, Result, ok,
}
use evo_nn_research.Journal.{
  JsonValue, JsonValues, JsonFields, array, object, end, field, Items, items, fields_of, keys,
  set_eq, same, same_values, replaced, changed_items, keyed, delta_step, delta_to, delta, nesting,
  take_values, drop_values, length_values, append_values,
}
use evo_nn_research.Journal.Applying.{
  JournalError, apply_step, apply_within, apply_delta, remove_all, paired,
}
use evo_nn_research.Journal.Sameness.{
  is_json, are_json, fields_json, items-fields_of, text_in-keys, same_refl, same-object,
  same_values-appended,
}
use evo_nn_research.Journal.Keyed.{keyed_pairs, same_shape, same-keyed, keyed_json}
use evo_nn_research.Journal.Dictionary.{apply-changed, changed-within, lookup-remove_all}
use evo_nn_research.Journal.Removal.{
  removed, text_in-removed, removed_distinct, removed_known, removed_unchanged,
}
use evo_nn_research.Journal.Steps.{
  dictionary_change, keyed_change, dictionary_applied, keyed_applied, append_applied,
  replace_applied, step_append, step_plain, step_unkeyed, step_keyed,
}

removal_keeps :
    (fs gs : Items) (k : Text) (v : JsonValue)
    → lookup k gs ≡ some v
    → lookup k (remove_all (removed (keys fs) (keys gs)) fs) ≡ lookup k fs
removal_keeps fs gs k v there =
    lookup-remove_all (removed (keys fs) (keys gs)) k fs
    ∙ ground (arith, text_in-removed k (keys fs) (keys gs), text_in-keys k gs, there)

removal_drops :
    (fs gs : Items) (k : Text)
    → lookup k gs ≡ none
    → lookup k (remove_all (removed (keys fs) (keys gs)) fs) ≡ none
removal_drops fs gs k absent =
    lookup-remove_all (removed (keys fs) (keys gs)) k fs
    ∙ ground
        (arith, text_in-removed k (keys fs) (keys gs), text_in-keys k gs, text_in-keys k fs, absent)

-- Some value results, and the one that was wanted is the same.
abbrev Gives : Result JournalError JsonValue → JsonValue → Type 0
Gives result wanted = (x : JsonValue) × (result ≡ ok x) × (same wanted x ≡ true)

module _ (change : JsonValue → JsonValue → JsonValue)
    (recur : JsonValue → JsonValue → Result JournalError JsonValue)
    (replaces : (w v : JsonValue) → recur w (replaced v) ≡ ok v)
    (works : (w v : JsonValue)
      → is_json w ≡ true
      → is_json v ≡ true
      → (x : JsonValue) × (recur w (change w v) ≡ ok x) × (same v x ≡ true)) where
  object_replays :
      (fs gs : JsonFields)
      → is_json (object fs) ≡ true
      → is_json (object gs) ≡ true
      → Gives
          (apply_step recur (object fs) (
            items (
              dictionary_change
                (changed_items change (items fs) (items gs))
                (removed (keys (items fs)) (keys (items gs))))))
          (object gs)
  unfolding is_json
  object_replays fs gs j j' =
      let (d, a) = and-eq-true (all_distinct (keys (items fs))) (fields_json fs) j in
      let (d', a') = and-eq-true (all_distinct (keys (items gs))) (fields_json gs) j' in
      let before = keys (items fs) in
      let after = keys (items gs) in
      let gone = removed before after in
      let start = remove_all gone (items fs) in
      let changes = changed_items change (items fs) (items gs) in
      let (r, done, s) =
        apply-changed change recur replaces works fs gs start a a' d'
          (removal_keeps (items fs) (items gs)) in
      (
        object (fields_of r),
        dictionary_applied recur fs changes gone r (removed_distinct before after d)
            (removed_known before after)
            (removed_unchanged before after (keys changes)
              (λ k h. changed-within change (items fs) (items gs) k h))
            done,
        same-object gs r d' s.finds (λ k h. s.others k h ∙ removal_drops (items fs) (items gs) k h),
      )

  keyed_replays :
      (xs ys : JsonValues) (ps qs : Items)
      → are_json xs ≡ true
      → are_json ys ≡ true
      → same_values (take_values (length_values xs) ys) xs ≡ false
      → keyed xs ≡ some ps
      → keyed ys ≡ some qs
      → (fs : JsonFields) × (delta_step change (array xs) (array ys) ≡ object fs)
        × Gives (apply_step recur (array xs) (items fs)) (array ys)
  keyed_replays xs ys ps qs j j' other old new =
      let before = object (fields_of ps) in
      let after = object (fields_of qs) in
      let (x, called, agrees) =
        works before after (keyed_json xs ps j old) (keyed_json ys qs j' new) in
      let (gs, shape, same_keys, fields) = same_shape (fields_of qs) x agrees in
      let order : set_eq (keys qs) (keys (items gs)) ≡ true =
        ap (λ kvs. set_eq (keys kvs) (keys (items gs))) (sym (items-fields_of qs)) ∙ same_keys in
      (
        keyed_change (change before after) (keys qs),
        step_keyed change xs ys ps qs other old new,
        (
          array (paired (keys qs) (items gs)),
          keyed_applied recur xs ps (change before after) (keys qs) gs old (keyed_pairs ys qs new).1
              (called ∙ ap ok shape) order,
          same-keyed ys qs gs new fields,
        ),
      )

  array_replays :
      (xs ys : JsonValues)
      → is_json (array xs) ≡ true
      → is_json (array ys) ≡ true
      → (fs : JsonFields) × (delta_step change (array xs) (array ys) ≡ object fs)
        × Gives (apply_step recur (array xs) (items fs)) (array ys)
  unfolding is_json
  array_replays xs ys j j' =
      let plainly : JsonFields = field (codes "replace") (array ys) end in
      let whole : Gives (apply_step recur (array xs) (items plainly)) (array ys) =
        (array ys, replace_applied recur (array xs) (array ys), same_refl (array ys) j') in
      elim (Bool-cases (same_values (take_values (length_values xs) ys) xs)) [
        | inl prefix ↦ (
          field (codes "append") (array (drop_values (length_values xs) ys)) end,
          step_append change xs ys prefix,
          (
            array (append_values xs (drop_values (length_values xs) ys)),
            append_applied recur xs (drop_values (length_values xs) ys),
            unfold same in same_values-appended xs ys j' prefix,
          ),
        )
        | inr other ↦ elim (Option-cases (keyed xs)) [
          | inl plain ↦ (plainly, step_plain change xs ys other plain, whole)
          | inr (ps, old) ↦ elim (Option-cases (keyed ys)) [
            | inl plain ↦ (plainly, step_unkeyed change xs ys ps other old plain, whole)
            | inr (qs, new) ↦ keyed_replays xs ys ps qs j j' other old new
          ]
        ]
      ]

within_applied :
    (m : ℕ) (w : JsonValue) (fs : JsonFields) (c : JsonValue)
    → c ≡ object fs
    → apply_within (suc m) w c ≡ apply_step (apply_within m) w (items fs)
unfolding apply_within
within_applied m w fs c shape = ap (λ z. apply_within (suc m) w z) shape

within_replaces : (m : ℕ) (w v : JsonValue) → apply_within (suc m) w (replaced v) ≡ ok v
within_replaces m w v =
    within_applied m w (field (codes "replace") v end) (replaced v) refl
    ∙ replace_applied (apply_within m) w v

replaced_result :
    (m : ℕ) (w v c : JsonValue)
    → is_json v ≡ true
    → c ≡ replaced v
    → Gives (apply_within (suc m) w c) v
replaced_result m w v c j shape =
    (v, ap (apply_within (suc m) w) shape ∙ within_replaces m w v, same_refl v j)

replays :
    (n m : ℕ) (w v : JsonValue)
    → n < m
    → is_json w ≡ true
    → is_json v ≡ true
    → Gives (apply_within m w (delta_to n w v)) v
unfolding delta_to delta_step apply_within
replays n zero w v l j j' = absurd (omega (arith, l))
replays zero (suc m) w v l j j' = replaced_result m w v (delta_to 0 w v) j' refl
replays (suc n) (suc zero) w v l j j' = absurd (omega (arith, l))
replays (suc n) (suc (suc m)) (object fs) (object gs) l j j' =
    let deeper : n < suc m = omega (arith, l) in
    object_replays (delta_to n) (apply_within (suc m)) (within_replaces m)
      (λ a b. replays n (suc m) a b deeper) fs gs j j'
replays (suc n) (suc (suc m)) (array xs) (array ys) l j j' =
    let deeper : n < suc m = omega (arith, l) in
    let (fs, shape, (x, applied, agrees)) =
      array_replays (delta_to n) (apply_within (suc m)) (within_replaces m)
        (λ a b. replays n (suc m) a b deeper) xs ys j j' in
    (
      x,
      within_applied (suc m) (array xs) fs (delta_to (suc n) (array xs) (array ys)) shape ∙ applied,
      agrees,
    )
replays (suc n) (suc (suc m)) w v l j j' =
    replaced_result (suc m) w v (delta_to (suc n) w v) j' refl

-- JSON values have a delta that, applied to the old value, gives the new one, as `same` tells values
-- apart, if lists and objects stand at most 100 deep in the new value.
pub apply_delta-delta :
    (before after : JsonValue)
    → is_json before ≡ true
    → is_json after ≡ true
    → nesting after ≤ 100
    → (x : JsonValue) × (apply_delta before (delta before after) ≡ ok x) × (same after x ≡ true)
unfolding apply_delta delta
apply_delta-delta before after j j' shallow =
    replays (nesting after) 101 before after (omega (arith, shallow)) j j'
