-- ===== src/Journal.antt =====
-- The changes between states of EvoNN-Shared/src/evonn_shared/runtime_journal.py. The states come
-- from JSON text: they have no tuples, and `same` has no use for the identity of objects, which
-- answers sooner but not otherwise, since JSON text has no NaN.
pub mod Applying
pub mod Sameness
pub mod Keyed
pub mod Dictionary
pub mod Removal
pub mod Steps
pub mod Replay
pub mod Transitions
pub mod Parts
pub mod Accepting
pub mod Next
pub mod Restoring
pub mod Depth
use evo_nn_research.Prelude.{
  ℕ, zero, suc, ◌+◌, ◌*◌, ◌^◌, Bool, true, false, not, ◌&&◌, ◌||◌, List, [], ◌∷◌, map, Option, none,
  some, Text, codes, lookup, text_eq, text_in, all, all_distinct, set_item, erase, Float, nan,
  infinity, finite, ℤ, pos_part, neg_part, eqb_ℤ, ◌==◌, is_some, if◌then◌else◌, Result, ok, raise,
  guard, ◌>>=◌, ◌>>◌,
}
use evo_nn_research.Contract.{sorted}

mutual
  pub data JsonValue : Type 0 where
    null : JsonValue
    bool : Bool → JsonValue
    int : ℤ → JsonValue
    float : Float → JsonValue
    str : Text → JsonValue
    array : JsonValues → JsonValue
    object : JsonFields → JsonValue

  pub data JsonValues : Type 0 where
    nil : JsonValues
    cons : JsonValue → JsonValues → JsonValues

  pub data JsonFields : Type 0 where
    end : JsonFields
    field : Text → JsonValue → JsonFields → JsonFields

abbrev pub Items : Type 0
Items = List (Text × JsonValue)

abbrev pub items : JsonFields → Items
items end = []
items (field k v fs) = (k, v) ∷ items fs

abbrev pub fields_of : Items → JsonFields
fields_of [] = end
fields_of ((k, v) ∷ kvs) = field k v (fields_of kvs)

abbrev pub keys : Items → List Text
keys = map (λ (k, v). k)

-- `set(a) == set(b)`
abbrev pub set_eq : List Text → List Text → Bool
set_eq a b = all (λ k. text_in k b) a && all (λ k. text_in k a) b

abbrev bool_eq : Bool → Bool → Bool
bool_eq true b = b
bool_eq false b = not b

-- Equality of two floats; of two zeros that of their signs.
abbrev float_same : Float → Float → Bool
float_same (finite s m e) (finite s' m' e') =
    bool_eq s s' && m * 2 ^ (pos_part e + neg_part e') == m' * 2 ^ (pos_part e' + neg_part e)
float_same (infinity s) (infinity s') = bool_eq s s'
float_same _ _ = false

-- `same`
unfoldable mutual
  pub same : JsonValue → JsonValue → Bool
  same (array xs) (array ys) = same_values xs ys
  same (object fs) (object gs) =
      set_eq (keys (items fs)) (keys (items gs)) && same_fields fs (items gs)
  same (float x) (float y) = float_same x y
  same (int a) (int b) = eqb_ℤ a b
  same (str t) (str u) = text_eq t u
  same (bool a) (bool b) = bool_eq a b
  same null null = true
  same _ _ = false

  pub same_values : JsonValues → JsonValues → Bool
  same_values nil nil = true
  same_values (cons x xs) (cons y ys) = same x y && same_values xs ys
  same_values _ _ = false

  pub same_fields : JsonFields → Items → Bool
  same_fields end right = true
  same_fields (field k v fs) right =
      elim (lookup k right) [ none ↦ false | some w ↦ same v w ] && same_fields fs right

abbrev pub length_values : JsonValues → ℕ
length_values nil = 0
length_values (cons x xs) = suc (length_values xs)

-- `values[:n]` and `values[n:]`
abbrev pub take_values : ℕ → JsonValues → JsonValues
take_values zero xs = nil
take_values (suc n) nil = nil
take_values (suc n) (cons x xs) = cons x (take_values n xs)

abbrev pub drop_values : ℕ → JsonValues → JsonValues
drop_values zero xs = xs
drop_values (suc n) nil = nil
drop_values (suc n) (cons x xs) = drop_values n xs

abbrev pub append_values : JsonValues → JsonValues → JsonValues
append_values nil ys = ys
append_values (cons x xs) ys = cons x (append_values xs ys)

abbrev pub texts : List Text → JsonValues
texts [] = nil
texts (t ∷ ts) = cons (str t) (texts ts)

-- The texts of a list that holds nothing else.
abbrev pub as_texts : JsonValues → Option (List Text)
as_texts nil = some []
as_texts (cons (str t) xs) = elim (as_texts xs) [ none ↦ none | some ts ↦ some (t ∷ ts) ]
as_texts (cons _ xs) = none

-- A list of two values, of which the first is a text.
abbrev pub as_pair : JsonValue → Option (Text × JsonValue)
as_pair (array (cons (str k) (cons v nil))) = some (k, v)
as_pair _ = none

abbrev pub as_pairs : JsonValues → Option Items
as_pairs nil = some []
as_pairs (cons x xs) = elim (as_pair x) [
  | none ↦ none
  | some p ↦ elim (as_pairs xs) [ none ↦ none | some ps ↦ some (p ∷ ps) ]
]

-- `dict(value)`, if `keyed(value)`.
unfoldable pub keyed : JsonValues → Option Items
keyed xs = elim (as_pairs xs) [
  | none ↦ none
  | some [] ↦ none
  | some (p ∷ ps) ↦ if all_distinct (keys (p ∷ ps)) then some (p ∷ ps) else none
]

abbrev pub replaced : JsonValue → JsonValue
replaced v = object (field (codes "replace") v end)

module _ (recur : JsonValue → JsonValue → JsonValue) where
  -- The entries of the new mapping that differ from those of the old one.
  unfoldable pub changed_items : Items → Items → Items
  changed_items before [] = []
  changed_items before ((k, v) ∷ after) =
      let rest = changed_items before after in
      elim (lookup k before) [
        | none ↦ (k, replaced v) ∷ rest
        | some w ↦ if same v w then rest else (k, recur w v) ∷ rest
      ]

-- `set(before) - set(after)`
abbrev pub missing : List Text → List Text → List Text
missing [] after = []
missing (k ∷ ks) after = let rest = missing ks after in if text_in k after then rest else k ∷ rest

-- `delta`, whose calls of itself are those of `recur`.
unfoldable pub delta_step : (JsonValue → JsonValue → JsonValue) → JsonValue → JsonValue → JsonValue
delta_step recur (object fs) (object gs) = object (
    field (codes "dict") (object (fields_of (changed_items recur (items fs) (items gs)))) (
      field (codes "remove") (array (texts (sorted (missing (keys (items fs)) (keys (items gs))))))
        end))
delta_step recur (array xs) (array ys) =
    if same_values (take_values (length_values xs) ys) xs
    then object (field (codes "append") (array (drop_values (length_values xs) ys)) end)
    else elim (keyed xs) [
      | none ↦ replaced (array ys)
      | some ps ↦ elim (keyed ys) [
        | none ↦ replaced (array ys)
        | some qs ↦ object (
            field (codes "keyed") (recur (object (fields_of ps)) (object (fields_of qs)))
              (field (codes "order") (array (texts (keys qs))) end))
      ]
    ]
delta_step recur before after = replaced after

-- `delta` to a given depth.
unfoldable pub delta_to : ℕ → JsonValue → JsonValue → JsonValue
delta_to zero before after = replaced after
delta_to (suc n) before after = delta_step (delta_to n) before after

abbrev pub max : ℕ → ℕ → ℕ
max zero n = n
max (suc m) zero = suc m
max (suc m) (suc n) = suc (max m n)

-- How many lists and objects stand inside each other, at most.
unfoldable mutual
  pub nesting : JsonValue → ℕ
  nesting (array xs) = suc (nesting_values xs)
  nesting (object fs) = suc (nesting_fields fs)
  nesting _ = 0

  pub nesting_values : JsonValues → ℕ
  nesting_values nil = 0
  nesting_values (cons x xs) = max (nesting x) (nesting_values xs)

  pub nesting_fields : JsonFields → ℕ
  nesting_fields end = 0
  nesting_fields (field k v fs) = max (nesting v) (nesting_fields fs)

-- `delta`
unfoldable pub delta : JsonValue → JsonValue → JsonValue
delta before after = delta_to (nesting after) before after
