-- ===== src/Journal/Dictionary.antt =====
-- The changes of a dictionary in EvoNN-Shared/src/evonn_shared/runtime_journal.py, applied to it.
use evo_nn_research.Prelude.{
  ◌≡◌, refl, sym, ap, ◌∙◌, true, false, ◌||◌, List, [], ◌∷◌, none, some, Option-cases, Bool-cases,
  inl, inr, Text, lookup, text_eq, text_eq_iff, text_eq_refl, text_in, all_distinct, set_item,
  erase, lookup-set_item, lookup-erase, and-eq-true, is_some, if◌then◌else◌, arith, Result, ok,
}
use evo_nn_research.Journal.{
  JsonValue, JsonFields, end, field, Items, items, keys, same, replaced, changed_items,
}
use evo_nn_research.Journal.Applying.{JournalError, apply_items, remove_all, is_replacement, get}
use evo_nn_research.Journal.Sameness.{
  is_json, fields_json, fields_json-lookup, text_in-keys, distinct_rest, lookup_later, lookup_first,
  same_refl,
}

pub lookup-remove_all :
    (ks : List Text) (k : Text) (kvs : Items)
    → lookup k (remove_all ks kvs) ≡ (if text_in k ks then none else lookup k kvs)
lookup-remove_all [] k kvs = refl
lookup-remove_all (j ∷ ks) k kvs =
    lookup-remove_all ks k (erase j kvs) ∙ ground (arith, lookup-erase j k kvs)

-- The result has, under the keys of the object, values that are the same, and is left as it was under
-- every other key.
pub record Settles (gs : JsonFields) (result r : Items) : Type 0 where
  pub finds :
      (k : Text) (v : JsonValue)
      → lookup k (items gs) ≡ some v
      → (w : JsonValue) × (lookup k r ≡ some w) × (same v w ≡ true)
  pub others : (k : Text) → lookup k (items gs) ≡ none → lookup k r ≡ lookup k result

absent :
    (k : Text) (v : JsonValue) (kvs : Items)
    → all_distinct (keys ((k, v) ∷ kvs)) ≡ true
    → lookup k kvs ≡ none
unfolding all_distinct
absent k v kvs d = elim (Option-cases (lookup k kvs)) [
  | inl gone ↦ gone
  | inr (w, found) ↦ absurd (ground (arith, d, found, text_in-keys k kvs))
]

field-Settles :
    (k : Text) (v x : JsonValue) (gs : JsonFields) (result next r : Items)
    → all_distinct (keys (items (field k v gs))) ≡ true
    → lookup k next ≡ some x
    → same v x ≡ true
    → ((j : Text) → text_eq k j ≡ false → lookup j next ≡ lookup j result)
    → Settles gs next r
    → Settles (field k v gs) result r
field-Settles k v x gs result next r d set agrees keeps s = record {
  finds = λ j u there. elim (Bool-cases (text_eq k j)) [
    | inl here ↦
        let value : v ≡ u = ground (arith, there, here) in
        let key : k ≡ j = (text_eq_iff k j).0 here in
        (
          x,
          ap (λ i. lookup i r) (sym key) ∙ s.others k (absent k v (items gs) d) ∙ set,
          ap (λ z. same z x) (sym value) ∙ agrees,
        )
    | inr other ↦ s.finds j u (ground (arith, there, other))
  ];
  others = λ j gone.
      let other : text_eq k j ≡ false = ground (arith, gone) in
      s.others j (ground (arith, gone)) ∙ keeps j other;
}

set_at : (k : Text) (x : JsonValue) (kvs : Items) → lookup k (set_item k x kvs) ≡ some x
set_at k x kvs = lookup-set_item k x k kvs ∙ ground (arith, text_eq_refl k)

set_elsewhere :
    (k : Text) (x : JsonValue) (kvs : Items) (j : Text)
    → text_eq k j ≡ false
    → lookup j (set_item k x kvs) ≡ lookup j kvs
set_elsewhere k x kvs j other = lookup-set_item k x j kvs ∙ ground (arith, other)

apply_one :
    (recur : JsonValue → JsonValue → Result JournalError JsonValue) (before changes result : Items)
    (k : Text) (c x : JsonValue)
    → (is_some (lookup k before) || is_replacement c) ≡ true
    → recur (get k before) c ≡ ok x
    → apply_items recur before ((k, c) ∷ changes) result
      ≡ apply_items recur before changes (set_item k x result)
unfolding apply_items
apply_one recur before changes result k c x allowed called = rw (allowed, called) refl

get_found : (k : Text) (kvs : Items) (w : JsonValue) → lookup k kvs ≡ some w → get k kvs ≡ w
get_found k kvs w found = rw (found, get) refl

-- The three ways in which an entry counts as changed.
module _ (change : JsonValue → JsonValue → JsonValue) (before after : Items) (k : Text)
    (v : JsonValue) where
  changed_new :
      lookup k before ≡ none
      → changed_items change before ((k, v) ∷ after)
        ≡ (k, replaced v) ∷ changed_items change before after
  unfolding changed_items
  changed_new gone = rw (gone, changed_items) refl

  changed_not :
      (w : JsonValue)
      → lookup k before ≡ some w
      → same v w ≡ true
      → changed_items change before ((k, v) ∷ after) ≡ changed_items change before after
  unfolding changed_items
  changed_not w found agrees = rw (found, agrees, changed_items) refl

  changed_value :
      (w : JsonValue)
      → lookup k before ≡ some w
      → same v w ≡ false
      → changed_items change before ((k, v) ∷ after)
        ≡ (k, change w v) ∷ changed_items change before after
  unfolding changed_items
  changed_value w found differs = rw (found, differs, changed_items) refl

module _ (change : JsonValue → JsonValue → JsonValue)
    (recur : JsonValue → JsonValue → Result JournalError JsonValue)
    (replaces : (w v : JsonValue) → recur w (replaced v) ≡ ok v)
    (works : (w v : JsonValue)
      → is_json w ≡ true
      → is_json v ≡ true
      → (x : JsonValue) × (recur w (change w v) ≡ ok x) × (same v x ≡ true)) where
  pub apply-changed :
      (fs gs : JsonFields) (result : Items)
      → fields_json fs ≡ true
      → fields_json gs ≡ true
      → all_distinct (keys (items gs)) ≡ true
      → ((k : Text) (v : JsonValue)
          → lookup k (items gs) ≡ some v
          → lookup k result ≡ lookup k (items fs))
      → (r : Items) × (apply_items recur
            (items fs)
            (changed_items change (items fs) (items gs))
            result
          ≡ ok r)
        × Settles gs result r
  unfolding changed_items apply_items is_json
  apply-changed fs end result j j' d starts = (
    result,
    refl,
    record { finds = λ k v there. absurd (ground (arith, there)); others = λ k gone. refl },
  )
  apply-changed fs (field k v gs) result j j' d starts =
      let (a, b) = and-eq-true (is_json v) (fields_json gs) j' in
      let d' = distinct_rest k (keys (items gs)) d in
      let before = items fs in
      let later : (x : JsonValue) (i : Text) (u : JsonValue)
          → lookup i (items gs) ≡ some u
          → lookup i (set_item k x result) ≡ lookup i before =
        λ x i u there.
          set_elsewhere k x result i
            (ground (arith, there, absent k v (items gs) d, text_eq_iff k i))
          ∙ starts i u (lookup_later k v (items gs) i u d there) in
      elim (Option-cases (lookup k before)) [
        | inl gone ↦
            let (r, done, s) = apply-changed fs gs (set_item k v result) j b d' (later v) in
            (
              r,
              ap (λ cs. apply_items recur before cs result)
                    (changed_new change before (items gs) k v gone)
                  ∙ apply_one recur before _ result k (replaced v) v (rw gone refl)
                      (replaces (get k before) v)
                  ∙ done,
              field-Settles k v v gs result (set_item k v result) r d (set_at k v result)
                  (same_refl v a) (set_elsewhere k v result) s,
            )
        | inr (w, found) ↦ elim (Bool-cases (same v w)) [
          | inl agrees ↦
              let (r, done, s) =
                apply-changed fs gs result j b d'
                  (λ i u there. starts i u (lookup_later k v (items gs) i u d there)) in
              (
                r,
                ap (λ cs. apply_items recur before cs result)
                      (changed_not change before (items gs) k v w found agrees)
                    ∙ done,
                field-Settles k v w gs result result r d
                    (starts k v (lookup_first k v (items gs)) ∙ found) agrees (λ i other. refl) s,
              )
          | inr differs ↦
              let (x, called, agrees) = works w v (fields_json-lookup fs k w j found) a in
              let (r, done, s) = apply-changed fs gs (set_item k x result) j b d' (later x) in
              (
                r,
                ap (λ cs. apply_items recur before cs result)
                      (changed_value change before (items gs) k v w found differs)
                    ∙ apply_one recur before _ result k (change w v) x (rw found refl)
                        (ap (λ z. recur z (change w v)) (get_found k before w found) ∙ called)
                    ∙ done,
                field-Settles k v x gs result (set_item k x result) r d (set_at k x result) agrees
                    (set_elsewhere k x result) s,
              )
        ]
      ]

-- Only keys of the new mapping have a change.
pub changed-within :
    (change : JsonValue → JsonValue → JsonValue) (before after : Items) (k : Text)
    → text_in k (keys after) ≡ false
    → text_in k (keys (changed_items change before after)) ≡ false
changed-within change before [] k h =
    let nothing : changed_items change before [] ≡ [] = unfold changed_items in refl in
    ap (λ c. text_in k (keys c)) nothing
changed-within change before ((j, v) ∷ after) k h =
    let differs : text_eq j k ≡ false = ground (arith, h) in
    let rest : text_in k (keys (changed_items change before after)) ≡ false =
      changed-within change before after k (ground (arith, h)) in
    elim (Option-cases (lookup j before)) [
      | inl gone ↦
          ap (λ c. text_in k (keys c)) (changed_new change before after j v gone)
          ∙ ground (arith, differs, rest)
      | inr (w, found) ↦ elim (Bool-cases (same v w)) [
        | inl agrees ↦
            ap (λ c. text_in k (keys c)) (changed_not change before after j v w found agrees) ∙ rest
        | inr other ↦
            ap (λ c. text_in k (keys c)) (changed_value change before after j v w found other)
            ∙ ground (arith, differs, rest)
      ]
    ]
