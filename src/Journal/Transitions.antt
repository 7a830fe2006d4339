-- ===== src/Journal/Transitions.antt =====
-- The transitions between states of a run in EvoNN-Shared/src/evonn_shared/runtime_journal.py.
use evo_nn_research.Prelude.{
  ℕ, ◌+◌, [], ◌∷◌, Option, none, some, codes, lookup, set_item, erase, is_some, leb, ◌==◌, pos,
  if◌then◌else◌, Result, ok, guard, reject_if, ◌>>=◌, ◌>>◌,
}
use evo_nn_research.Journal.{
  JsonValue, JsonValues, int, array, object, nil, cons, end, field, Items, fields_of, keys, set_eq,
  same_values, length_values, append_values, delta,
}
use evo_nn_research.Journal.Applying.{
  JournalError, attempts_differ, not_one_attempt, attempt_is_no_object, invalid_transition,
  not_compact, not_consecutive, as_object, required, get, apply_delta,
}

abbrev pub max_records : ℕ
max_records = 100000

-- `state["completed"]`, if it is an integer from 0 to `MAX_RECORDS`.
abbrev pub as_count : JsonValue → Option ℕ
as_count (int (pos n)) = if leb n max_records then some n else none
as_count _ = none

abbrev pub as_list : Option JsonValue → Option JsonValues
as_list (some (array xs)) = some xs
as_list _ = none

abbrev pub count_in : Items → Option ℕ
count_in kvs = elim (lookup (codes "completed") kvs) [ none ↦ none | some v ↦ as_count v ]

abbrev pub attempts_in : Items → Option JsonValues
attempts_in kvs = as_list (lookup (codes "attempts") kvs)

-- What is read of a state: its items, `completed` and `attempts`.
pub record State : Type 0 where
  pub entries : Items
  pub completed : ℕ
  pub attempts : JsonValues

-- The tests of `compact`.
unfoldable pub read_state : JsonValue → Result JournalError State
read_state state = do
  kvs ← required attempts_differ (as_object state)
  n ← required attempts_differ (count_in kvs)
  xs ← required attempts_differ (attempts_in kvs)
  guard (length_values xs == n) attempts_differ
  ok (record { entries = kvs; completed = n; attempts = xs })

-- What `compact` returns.
abbrev pub without_attempts : State → JsonValue
without_attempts s = object (fields_of (erase (codes "attempts") s.entries))

-- `attempts[:-1]` and `attempts[-1]`
abbrev pub split_last : JsonValues → Option (JsonValues × JsonValue)
split_last nil = none
split_last (cons x xs) = elim (split_last xs) [
  | none ↦ some (nil, x)
  | some (ys, last) ↦ some (cons x ys, last)
]

-- `transition`
unfoldable pub transition : JsonValue → JsonValue → Result JournalError JsonValue
transition before after = do
  old ← read_state before
  new ← read_state after
  guard (new.completed == old.completed + 1) not_one_attempt
  (first, attempt) ← required not_one_attempt (split_last new.attempts)
  guard (same_values first old.attempts) not_one_attempt
  required attempt_is_no_object (as_object attempt)
  ok (
      object (
        field (codes "delta") (delta (without_attempts old) (without_attempts new))
          (field (codes "attempt") attempt end)))

-- `restore`
unfoldable pub restore : JsonValue → JsonValue → Result JournalError JsonValue
restore before change = do
  parts ← required invalid_transition (as_object change)
  guard (set_eq (keys parts) (codes "delta" ∷ codes "attempt" ∷ [])) invalid_transition
  required invalid_transition (as_object (get (codes "attempt") parts))
  old ← read_state before
  value ← apply_delta (without_attempts old) (get (codes "delta") parts)
  entries ← required not_compact (as_object value)
  reject_if (is_some (lookup (codes "attempts") entries)) not_compact
  let state = object (
      fields_of (
        set_item (codes "attempts")
          (array (append_values old.attempts (cons (get (codes "attempt") parts) nil))) entries))
  new ← read_state state
  guard (new.completed == old.completed + 1) not_consecutive
  ok state
