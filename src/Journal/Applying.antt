-- ===== src/Journal/Applying.antt =====
-- The changes of EvoNN-Shared/src/evonn_shared/runtime_journal.py applied to a state.
use evo_nn_research.Prelude.{
  ℕ, zero, suc, Bool, false, not, ◌||◌, List, [], ◌∷◌, Option, none, some, Text, codes, lookup,
  text_in, all, all_distinct, set_item, erase, is_some, if◌then◌else◌, Result, ok, raise, guard,
  ◌>>=◌, ◌>>◌,
}
use evo_nn_research.Journal.{
  JsonValue, JsonValues, null, str, array, object, nil, cons, Items, items, fields_of, keys, set_eq,
  as_texts, keyed, append_values,
}

pub data JournalError : Type 0 where
  invalid_delta invalid_order order_differs invalid_dictionary_delta not_a_replacement :
      JournalError
  attempts_differ not_one_attempt attempt_is_no_object : JournalError
  invalid_transition not_compact not_consecutive : JournalError

abbrev pub get : Text → Items → JsonValue
get k kvs = elim (lookup k kvs) [ none ↦ null | some v ↦ v ]

abbrev pub as_object : JsonValue → Option Items
as_object (object fs) = some (items fs)
as_object _ = none

abbrev pub as_array : JsonValue → Option JsonValues
as_array (array xs) = some xs
as_array _ = none

abbrev pub required {ℓ} : {A : Type ℓ} → JournalError → Option A → Result JournalError A
required e none = raise e
required e (some a) = ok a

-- `result[key]` deleted for each of the keys.
abbrev pub remove_all : List Text → Items → Items
remove_all [] kvs = kvs
remove_all (k ∷ ks) kvs = remove_all ks (erase k kvs)

abbrev pub is_replacement : JsonValue → Bool
is_replacement (object fs) = set_eq (keys (items fs)) (codes "replace" ∷ [])
is_replacement _ = false

-- `[key, values[key]]` for each key in order.
abbrev pub paired : List Text → Items → JsonValues
paired [] values = nil
paired (k ∷ ks) values = cons (array (cons (str k) (cons (get k values) nil))) (paired ks values)

-- The list that an `append` gives, if the change is one and both are lists.
unfoldable pub appended : JsonValue → Items → Option JsonValue
appended before change =
    if set_eq (keys change) (codes "append" ∷ [])
    then elim (as_array before) [
      | none ↦ none
      | some xs ↦ elim (as_array (get (codes "append") change)) [
        | none ↦ none
        | some ys ↦ some (array (append_values xs ys))
      ]
    ]
    else none

-- The items of a keyed list, if the change is one of a keyed list.
unfoldable pub keyed_before : JsonValue → Items → Option Items
keyed_before before change =
    if set_eq (keys change) (codes "keyed" ∷ codes "order" ∷ [])
    then elim (as_array before) [ none ↦ none | some xs ↦ keyed xs ]
    else none

module _ (recur : JsonValue → JsonValue → Result JournalError JsonValue) where
  unfoldable pub apply_keyed : Items → Items → Result JournalError JsonValue
  apply_keyed before change = do
    order ← required invalid_order (as_array (get (codes "order") change))
    order ← required invalid_order (as_texts order)
    guard (all_distinct order) invalid_order
    changed ← recur (object (fields_of before)) (get (codes "keyed") change)
    values ← required order_differs (as_object changed)
    guard (set_eq order (keys values)) order_differs
    ok (array (paired order values))

  -- The entries of a dictionary delta, one after the other.
  unfoldable pub apply_items : Items → Items → Items → Result JournalError Items
  apply_items before [] result = ok result
  apply_items before ((k, change) ∷ changes) result = do
    guard (is_some (lookup k before) || is_replacement change) not_a_replacement
    value ← recur (get k before) change
    apply_items before changes (set_item k value result)

  unfoldable pub apply_dictionary : JsonValue → Items → Result JournalError JsonValue
  apply_dictionary before change = do
    guard (set_eq (keys change) (codes "dict" ∷ codes "remove" ∷ [])) invalid_dictionary_delta
    old ← required invalid_dictionary_delta (as_object before)
    changes ← required invalid_dictionary_delta (as_object (get (codes "dict") change))
    removed ← required invalid_dictionary_delta (as_array (get (codes "remove") change))
    removed ← required invalid_dictionary_delta (as_texts removed)
    guard (all_distinct removed) invalid_dictionary_delta
    guard (all (λ k. text_in k (keys old)) removed) invalid_dictionary_delta
    guard (all (λ k. not (text_in k (keys changes))) removed) invalid_dictionary_delta
    result ← apply_items old changes (remove_all removed old)
    ok (object (fields_of result))

  -- `apply_delta`, whose calls of itself are those of `recur`.
  unfoldable pub apply_step : JsonValue → Items → Result JournalError JsonValue
  apply_step before change =
      if set_eq (keys change) (codes "replace" ∷ [])
      then ok (get (codes "replace") change)
      else elim (appended before change) [
        | some v ↦ ok v
        | none ↦ elim (keyed_before before change) [
          | some old ↦ apply_keyed old change
          | none ↦ apply_dictionary before change
        ]
      ]

-- `apply_delta`, which may call itself as often as is said.
unfoldable pub apply_within : ℕ → JsonValue → JsonValue → Result JournalError JsonValue
apply_within zero before change = raise invalid_delta
apply_within (suc n) before change = do
  change ← required invalid_delta (as_object change)
  apply_step (apply_within n) before change

-- `apply_delta`: the depths 0 to 100.
unfoldable pub apply_delta : JsonValue → JsonValue → Result JournalError JsonValue
apply_delta before change = apply_within 101 before change
