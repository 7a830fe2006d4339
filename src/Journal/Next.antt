-- ===== src/Journal/Next.antt =====
-- The state that `restore` of EvoNN-Shared/src/evonn_shared/runtime_journal.py builds.
use evo_nn_research.Prelude.{
  ℕ, ◌+◌, ◌≤◌, ◌≡◌, refl, sym, ap, ◌∙◌, true, false, none, some, Option-cases, Bool-cases, inl, inr,
  Text, codes, lookup, text_eq, text_eq_iff, text_in, all, all_distinct, set_item, erase,
  lookup-erase, lookup-set_item, and-eq-true, is_some, some_injective, arith, ok, ◌==◌, ==_iff, pos,
}
use evo_nn_research.Journal.{
  JsonValue, JsonValues, JsonFields, int, array, object, nil, cons, end, field, Items, items,
  fields_of, keys, set_eq, same, same_values, same_fields, delta, nesting, length_values,
  append_values,
}
use evo_nn_research.Journal.Sameness.{
  is_json, are_json, fields_json, items-fields_of, text_in-keys, same_refl, same-object,
  same_fields-lookup, fields_json-lookup, and-intro, all-elim,
}
use evo_nn_research.Journal.Transitions.{
  State, read_state, split_last, as_list, count_in, attempts_in, as_count,
}
use evo_nn_research.Journal.Depth.{erase_nesting}
use evo_nn_research.Journal.Parts.{
  read_parts, erase_distinct, erase_json, split_last_append, length_appended, same_appended,
  appended_json, same_count, as_count_shape,
}

abbrev pub rest_of : JsonFields → JsonFields
rest_of fs = fields_of (erase (codes "attempts") (items fs))

pub rest_json :
    (fs : JsonFields) → is_json (object fs) ≡ true → is_json (object (rest_of fs)) ≡ true
unfolding is_json
rest_json fs j =
    let (d, a) = and-eq-true (all_distinct (keys (items fs))) (fields_json fs) j in
    and-intro _ _
      (ap (λ kvs. all_distinct (keys kvs)) (items-fields_of (erase (codes "attempts") (items fs)))
        ∙ erase_distinct (codes "attempts") (items fs) d)
      (erase_json (codes "attempts") fs a)

pub rest_shallow :
    (fs : JsonFields) → nesting (object fs) ≤ 100 → nesting (object (rest_of fs)) ≤ 100
unfolding nesting
rest_shallow fs h = omega (arith, h, erase_nesting (codes "attempts") fs)

abbrev pub change_of : JsonValue → JsonFields → JsonValue
change_of delta attempt =
    object (field (codes "delta") delta (field (codes "attempt") (object attempt) end))

abbrev pub next_state : JsonValues → JsonFields → JsonFields → Items
next_state attempts attempt gs =
    set_item (codes "attempts") (array (append_values attempts (cons (object attempt) nil)))
      (items gs)

module _ (attempts : JsonValues) (attempt gs : JsonFields) where
  next_attempts :
      lookup (codes "attempts") (next_state attempts attempt gs)
      ≡ some (array (append_values attempts (cons (object attempt) nil)))
  next_attempts =
      lookup-set_item (codes "attempts")
        (array (append_values attempts (cons (object attempt) nil))) (codes "attempts") (items gs)

  next_others :
      (k : Text)
      → text_eq (codes "attempts") k ≡ false
      → lookup k (next_state attempts attempt gs) ≡ lookup k (items gs)
  next_others k other =
      lookup-set_item (codes "attempts")
        (array (append_values attempts (cons (object attempt) nil))) k (items gs)
      ∙ ground (arith, other)

rest_others :
    (fs : JsonFields) (k : Text)
    → text_eq (codes "attempts") k ≡ false
    → lookup k (items (rest_of fs)) ≡ lookup k (items fs)
rest_others fs k other =
    ap (lookup k) (items-fields_of (erase (codes "attempts") (items fs)))
    ∙ lookup-erase (codes "attempts") k (items fs)
    ∙ ground (arith, other)

pub rest_attempts : (fs : JsonFields) → lookup (codes "attempts") (items (rest_of fs)) ≡ none
rest_attempts fs =
    ap (lookup (codes "attempts")) (items-fields_of (erase (codes "attempts") (items fs)))
    ∙ lookup-erase (codes "attempts") (codes "attempts") (items fs)

found_count :
    (kvs : Items) (n : ℕ)
    → count_in kvs ≡ some n
    → lookup (codes "completed") kvs ≡ some (int (pos n))
found_count kvs n h = elim (Option-cases (lookup (codes "completed") kvs)) [
  | inl gone ↦ absurd (ground (arith, h, gone))
  | inr (v, found) ↦
      let counted : as_count v ≡ some n = ground (arith, h, found) in
      found ∙ ap some (as_count_shape v n counted)
]

pub same_keys_miss :
    (a b : Items) (k : Text)
    → set_eq (keys a) (keys b) ≡ true
    → lookup k a ≡ none
    → lookup k b ≡ none
same_keys_miss a b k h gone = elim (Option-cases (lookup k b)) [
  | inl none_there ↦ none_there
  | inr (w, found) ↦
      let back =
        (and-eq-true (all (λ i. text_in i (keys b)) (keys a))
          (all (λ i. text_in i (keys a)) (keys b)) h).1 in
      let there =
        all-elim (λ i. text_in i (keys a)) (keys b) k back (text_in-keys k b ∙ ap is_some found) in
      absurd (ground (arith, there, text_in-keys k a, gone))
]

same_count_in :
    (kvs kvs' : Items)
    → lookup (codes "completed") kvs ≡ lookup (codes "completed") kvs'
    → count_in kvs ≡ count_in kvs'
same_count_in kvs kvs' h = ap (λ o. elim o [ none ↦ none | some v ↦ as_count v ]) h

-- What is restored is read again, one attempt further.
pub next_read :
    (attempts : JsonValues) (attempt gs fn : JsonFields) (n m : ℕ)
    → count_in (items fn) ≡ some n
    → same_fields (rest_of fn) (items gs) ≡ true
    → length_values attempts ≡ m
    → n ≡ m + 1
    → (new : State) × (read_state (object (fields_of (next_state attempts attempt gs))) ≡ ok new)
      × (new.completed ≡ n)
next_read attempts attempt gs fn n m counted fields long follows =
    let next = next_state attempts attempt gs in
    let all = append_values attempts (cons (object attempt) nil) in
    let here : lookup (codes "completed") (items fn) ≡ some (int (pos n)) =
      found_count (items fn) n counted in
    let (w, found, agrees) =
      same_fields-lookup (rest_of fn) (items gs) (codes "completed") (int (pos n)) fields
        (rest_others fn (codes "completed") refl ∙ here) in
    let there : lookup (codes "completed") next ≡ some (int (pos n)) =
      next_others attempts attempt gs (codes "completed") refl
      ∙ found
      ∙ ap some (same_count n w agrees) in
    let back = items-fields_of next in
    let count : count_in (items (fields_of next)) ≡ some n =
      ap count_in back ∙ same_count_in next (items fn) (there ∙ sym here) ∙ counted in
    let list : attempts_in (items (fields_of next)) ≡ some all =
      ap attempts_in back ∙ ap as_list (next_attempts attempts attempt gs) in
    let right : (length_values all == n) ≡ true =
      (==_iff (length_values all) n).1
        (length_appended attempts (object attempt) ∙ omega (arith, long, follows)) in
    let new : State = record { entries = items (fields_of next); completed = n; attempts = all } in
    (new, read_parts (fields_of next) n all count list ∙ rw right refl, refl)

next_misses :
    (attempts : JsonValues) (attempt gs fn : JsonFields) (new_attempts : JsonValues)
    → lookup (codes "attempts") (items fn) ≡ some (array new_attempts)
    → set_eq (keys (items (rest_of fn))) (keys (items gs)) ≡ true
    → (k : Text) → lookup k (items fn) ≡ none
    → lookup k (next_state attempts attempt gs) ≡ none
next_misses attempts attempt gs fn new_attempts listed same_keys k gone =
    elim (Bool-cases (text_eq (codes "attempts") k)) [
      | inl here ↦
          let key : codes "attempts" ≡ k = (text_eq_iff (codes "attempts") k).0 here in
          let clash : none ≡ some (array new_attempts) =
            sym gone ∙ ap (λ i. lookup i (items fn)) (sym key) ∙ listed in
          absurd (ground (arith, clash))
      | inr other ↦
          next_others attempts attempt gs k other
          ∙ same_keys_miss (items (rest_of fn)) (items gs) k same_keys
              (rest_others fn k other ∙ gone)
    ]

-- The restored state is the same as the state that the transition led to.
pub next_same :
    (attempts new_attempts first : JsonValues) (attempt gs fn : JsonFields)
    → is_json (object fn) ≡ true
    → lookup (codes "attempts") (items fn) ≡ some (array new_attempts)
    → split_last new_attempts ≡ some (first, object attempt)
    → same_values first attempts ≡ true
    → set_eq (keys (items (rest_of fn))) (keys (items gs)) ≡ true
    → same_fields (rest_of fn) (items gs) ≡ true
    → same (object fn) (object (fields_of (next_state attempts attempt gs))) ≡ true
unfolding is_json
next_same attempts new_attempts first attempt gs fn j listed split prefix same_keys fields =
    let next = next_state attempts attempt gs in
    let all = append_values attempts (cons (object attempt) nil) in
    let (d, a) = and-eq-true (all_distinct (keys (items fn))) (fields_json fn) j in
    let whole : new_attempts ≡ append_values first (cons (object attempt) nil) =
      split_last_append new_attempts first (object attempt) split in
    let values : are_json new_attempts ≡ true =
      fields_json-lookup fn (codes "attempts") (array new_attempts) a listed in
    let attempt_json : is_json (object attempt) ≡ true =
      appended_json first (object attempt) (ap are_json (sym whole) ∙ values) in
    let lists : same_values new_attempts all ≡ true =
      ap (λ xs. same_values xs all) whole
      ∙ same_appended first attempts (object attempt) prefix
          (same_refl (object attempt) attempt_json) in
    same-object fn next d
      (λ k v there. elim (Bool-cases (text_eq (codes "attempts") k)) [
        | inl here ↦
            let key : codes "attempts" ≡ k = (text_eq_iff (codes "attempts") k).0 here in
            let value : array new_attempts ≡ v =
              some_injective (sym listed ∙ ap (λ i. lookup i (items fn)) key ∙ there) in
            (
              array all,
              ap (λ i. lookup i next) (sym key) ∙ next_attempts attempts attempt gs,
              ap (λ z. same z (array all)) (sym value) ∙ unfold same in lists,
            )
        | inr other ↦
            let (w, found, agrees) =
              same_fields-lookup (rest_of fn) (items gs) k v fields
                (rest_others fn k other ∙ there) in
            (w, next_others attempts attempt gs k other ∙ found, agrees)
      ])
      (λ k gone. next_misses attempts attempt gs fn new_attempts listed same_keys k gone)
