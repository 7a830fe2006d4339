-- ===== src/Journal/Parts.antt =====
-- States and lists of attempts as EvoNN-Shared/src/evonn_shared/runtime_journal.py takes them apart.
use evo_nn_research.Prelude.{
  ℕ, suc, ◌≡◌, refl, sym, ap, ◌∙◌, true, [], ◌∷◌, Option, none, some, Option-cases, Bool-cases, inl,
  inr, Text, codes, lookup, text_eq, all_distinct, erase, lookup-erase, and-eq-true, arith, ok,
  guard, ◌>>◌, ◌==◌, ==_iff, pos, negsuc,
}
use evo_nn_research.Journal.{
  JsonValue, JsonValues, JsonFields, null, bool, int, float, str, array, object, nil, cons, end,
  field, Items, items, fields_of, keys, same, same_values, length_values, append_values,
}
use evo_nn_research.Journal.Applying.{attempts_differ}
use evo_nn_research.Journal.Sameness.{is_json, are_json, fields_json, text_in-keys, and-intro}
use evo_nn_research.Journal.Transitions.{
  State, read_state, split_last, as_list, count_in, attempts_in, as_count,
}

-- A state that was read.
pub record Reads (state : JsonValue) (s : State) : Type 0 where
  pub fields : JsonFields
  pub shape : state ≡ object fields
  pub entries_are : s.entries ≡ items fields
  pub counts : count_in (items fields) ≡ some s.completed
  pub lists : lookup (codes "attempts") (items fields) ≡ some (array s.attempts)
  pub agree : length_values s.attempts ≡ s.completed

as_list_shape : (o : Option JsonValue) (xs : JsonValues) → as_list o ≡ some xs → o ≡ some (array xs)
as_list_shape none xs h = absurd (ground (arith, h))
as_list_shape (some (array ys)) xs h = ground (arith, h)
as_list_shape (some null) xs h = absurd (ground (arith, h))
as_list_shape (some (bool b)) xs h = absurd (ground (arith, h))
as_list_shape (some (int a)) xs h = absurd (ground (arith, h))
as_list_shape (some (float x)) xs h = absurd (ground (arith, h))
as_list_shape (some (str t)) xs h = absurd (ground (arith, h))
as_list_shape (some (object fs)) xs h = absurd (ground (arith, h))

-- A state whose parts are there is read if their lengths agree.
pub read_parts :
    (fs : JsonFields) (n : ℕ) (xs : JsonValues)
    → count_in (items fs) ≡ some n
    → attempts_in (items fs) ≡ some xs
    → read_state (object fs) ≡ (
        guard (length_values xs == n) attempts_differ
        >> ok (record { entries = items fs; completed = n; attempts = xs }))
unfolding read_state
read_parts fs n xs counted listed = rw (counted, listed, read_state) refl

pub read_state-Reads : (state : JsonValue) (s : State) → read_state state ≡ ok s → Reads state s
unfolding read_state
read_state-Reads (object fs) s h = elim (Option-cases (count_in (items fs))) [
  | inl gone ↦ absurd (ground (arith, h, gone))
  | inr (n, counted) ↦ elim (Option-cases (attempts_in (items fs))) [
    | inl gone ↦ absurd (ground (arith, h, counted, gone))
    | inr (xs, listed) ↦
        let all = sym (read_parts fs n xs counted listed) ∙ h in
        let equal : (length_values xs == n) ≡ true = ground (arith, all) in
        let read : State = record { entries = items fs; completed = n; attempts = xs } in
        let made' : read ≡ s = ground (arith, all) in
        record {
          fields = fs;
          shape = refl;
          entries_are = ap (λ t. t.entries) (sym made');
          counts = counted ∙ ap (λ t. some (t.completed)) made';
          lists =
              as_list_shape (lookup (codes "attempts") (items fs)) xs listed
              ∙ ap (λ t. some (array t.attempts)) made';
          agree =
              sym (ap (λ t. length_values t.attempts) made')
              ∙ (==_iff (length_values xs) n).0 equal
              ∙ ap (λ t. t.completed) made';
        }
  ]
]
read_state-Reads null s h = absurd (ground (arith, h))
read_state-Reads (bool b) s h = absurd (ground (arith, h))
read_state-Reads (int a) s h = absurd (ground (arith, h))
read_state-Reads (float x) s h = absurd (ground (arith, h))
read_state-Reads (str t) s h = absurd (ground (arith, h))
read_state-Reads (array xs) s h = absurd (ground (arith, h))

-- What is left of an object without one of its keys.
pub erase_distinct :
    (k : Text) (kvs : Items)
    → all_distinct (keys kvs) ≡ true
    → all_distinct (keys (erase k kvs)) ≡ true
unfolding all_distinct
erase_distinct k [] d = refl
erase_distinct k ((j, v) ∷ kvs) d = ground (
  arith,
  erase_distinct k kvs,
  d,
  text_in-keys j (erase k kvs),
  lookup-erase k j kvs,
  text_in-keys j kvs,
)

pub erase_json :
    (k : Text) (fs : JsonFields)
    → fields_json fs ≡ true
    → fields_json (fields_of (erase k (items fs))) ≡ true
unfolding is_json
erase_json k end j = refl
erase_json k (field i v fs) j =
    let (a, b) = and-eq-true (is_json v) (fields_json fs) j in
    elim (Bool-cases (text_eq i k)) [
      | inl here ↦ rw here (erase_json k fs b)
      | inr other ↦ rw other (and-intro _ _ a (erase_json k fs b))
    ]

split_last_nil : (xs : JsonValues) → split_last xs ≡ none → xs ≡ nil
split_last_nil nil h = refl
split_last_nil (cons x xs) h = elim (Option-cases (split_last xs)) [
  | inl gone ↦ absurd (ground (arith, h, gone))
  | inr ((ys, y), found) ↦ absurd (ground (arith, h, found))
]

pub split_last_append :
    (xs ys : JsonValues) (last : JsonValue)
    → split_last xs ≡ some (ys, last)
    → xs ≡ append_values ys (cons last nil)
split_last_append nil ys last h = absurd (ground (arith, h))
split_last_append (cons x xs) ys last h = elim (Option-cases (split_last xs)) [
  | inl gone ↦
      let none_left : nil ≡ ys = ground (arith, h, gone) in
      let only : x ≡ last = ground (arith, h, gone) in
      ap (cons x) (split_last_nil xs gone)
      ∙ ap (λ z. cons z nil) only
      ∙ ap (λ l. append_values l (cons last nil)) none_left
  | inr ((zs, z), found) ↦
      let longer : cons x zs ≡ ys = ground (arith, h, found) in
      let same_last : z ≡ last = ground (arith, h, found) in
      ap (cons x) (split_last_append xs zs z found)
      ∙ ap (λ a. cons x (append_values zs (cons a nil))) same_last
      ∙ ap (λ l. append_values l (cons last nil)) longer
]

pub length_appended :
    (xs : JsonValues) (x : JsonValue)
    → length_values (append_values xs (cons x nil)) ≡ suc (length_values xs)
length_appended nil x = refl
length_appended (cons y xs) x = ap suc (length_appended xs x)

pub same_appended :
    (xs ys : JsonValues) (x : JsonValue)
    → same_values xs ys ≡ true
    → same x x ≡ true
    → same_values (append_values xs (cons x nil)) (append_values ys (cons x nil)) ≡ true
unfolding same
same_appended nil nil x h r = and-intro _ _ r refl
same_appended nil (cons y ys) x h r = absurd (ground (arith, h))
same_appended (cons z xs) nil x h r = absurd (ground (arith, h))
same_appended (cons z xs) (cons y ys) x h r =
    let (a, b) = and-eq-true (same z y) (same_values xs ys) h in
    and-intro _ _ a (same_appended xs ys x b r)

pub appended_json :
    (xs : JsonValues) (x : JsonValue)
    → are_json (append_values xs (cons x nil)) ≡ true
    → is_json x ≡ true
unfolding is_json
appended_json nil x j = (and-eq-true (is_json x) true j).0
appended_json (cons y xs) x j =
    appended_json xs x (and-eq-true (is_json y) (are_json (append_values xs (cons x nil))) j).1

-- A count that is the same as a count is that count.
pub same_count : (n : ℕ) (w : JsonValue) → same (int (pos n)) w ≡ true → w ≡ int (pos n)
unfolding same
same_count n (int (pos m)) h = ap (λ k. int (pos k)) (ground (arith, h))
same_count n (int (negsuc m)) h = absurd (ground (arith, h))
same_count n null h = absurd (ground (arith, h))
same_count n (bool b) h = absurd (ground (arith, h))
same_count n (float x) h = absurd (ground (arith, h))
same_count n (str t) h = absurd (ground (arith, h))
same_count n (array xs) h = absurd (ground (arith, h))
same_count n (object fs) h = absurd (ground (arith, h))

pub as_count_shape : (v : JsonValue) (n : ℕ) → as_count v ≡ some n → (v ≡ int (pos n))
as_count_shape (int (pos m)) n h = ap (λ k. int (pos k)) (ground (arith, h))
as_count_shape (int (negsuc m)) n h = absurd (ground (arith, h))
as_count_shape null n h = absurd (ground (arith, h))
as_count_shape (bool b) n h = absurd (ground (arith, h))
as_count_shape (float x) n h = absurd (ground (arith, h))
as_count_shape (str t) n h = absurd (ground (arith, h))
as_count_shape (array xs) n h = absurd (ground (arith, h))
as_count_shape (object fs) n h = absurd (ground (arith, h))
