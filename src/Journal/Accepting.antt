-- ===== src/Journal/Accepting.antt =====
-- What `transition` of EvoNN-Shared/src/evonn_shared/runtime_journal.py accepts and makes.
use evo_nn_research.Prelude.{
  ◌+◌, ◌≡◌, refl, sym, ap, ◌∙◌, Bool, true, false, Option, none, some, returned, codes, arith,
  Result, ok, guard, ◌==◌, ==_iff,
}
use evo_nn_research.Journal.{
  JsonValue, JsonValues, JsonFields, null, bool, int, float, str, array, object, end, field, Items,
  same_values, delta,
}
use evo_nn_research.Journal.Applying.{
  JournalError, not_one_attempt, attempt_is_no_object, required, as_object,
}
use evo_nn_research.Journal.Transitions.{
  State, read_state, without_attempts, split_last, transition,
}
use evo_nn_research.Journal.Parts.{Reads, read_state-Reads}

-- What `transition` makes of two states that it accepts.
pub record Made (before after change : JsonValue) : Type 0 where
  pub old : State
  pub new : State
  pub was_read : read_state before ≡ ok old
  pub reads_old : Reads before old
  pub reads_new : Reads after new
  pub first : JsonValues
  pub attempt_fields : JsonFields
  pub follows : new.completed ≡ old.completed + 1
  pub splits : split_last new.attempts ≡ some (first, object attempt_fields)
  pub prefix : same_values first old.attempts ≡ true
  pub change_is :
      change
      ≡ object (
          field
            (codes "delta")
            (delta (without_attempts old) (without_attempts new))
            (field (codes "attempt") (object attempt_fields) end))

object_shape :
    (v : JsonValue) (kvs : Items) → as_object v ≡ some kvs → (fs : JsonFields) × (v ≡ object fs)
object_shape (object fs) kvs h = (fs, refl)
object_shape null kvs h = absurd (ground (arith, h))
object_shape (bool b) kvs h = absurd (ground (arith, h))
object_shape (int a) kvs h = absurd (ground (arith, h))
object_shape (float x) kvs h = absurd (ground (arith, h))
object_shape (str t) kvs h = absurd (ground (arith, h))
object_shape (array xs) kvs h = absurd (ground (arith, h))

required_given :
    {A : Type 0} (e : JournalError) (o : Option A) {a : A} → required e o ≡ ok a → o ≡ some a
required_given e none h = absurd (ground (arith, h))
required_given e (some b) h = ground (arith, h)

ok_injective : (a b : JsonValue) → ◌≡◌ {A = Result JournalError JsonValue} (ok a) (ok b) → a ≡ b
ok_injective a b h = ground (arith, h)

guard_passed : (b : Bool) (e : JournalError) {u : Unit {0}} → guard b e ≡ ok u → b ≡ true
guard_passed true e h = refl
guard_passed false e h = absurd (ground (arith, h))

pub transition-Made :
    (before after change : JsonValue)
    → transition before after ≡ ok change
    → Made before after change
unfolding transition
transition-Made before after change h =
    let (old, read_old, h1) = returned (read_state before) _ {v = change} h in
    let (new, read_new, h2) = returned (read_state after) _ {v = change} h1 in
    let (_, follows, h3) =
      returned (guard (new.completed == old.completed + 1) not_one_attempt) _ {v = change} h2 in
    let ((first, attempt), split, h4) =
      returned (required not_one_attempt (split_last new.attempts)) _ {v = change} h3 in
    let (_, prefix, h5) =
      returned (guard (same_values first old.attempts) not_one_attempt) _ {v = change} h4 in
    let (kvs, typed, h6) =
      returned (required attempt_is_no_object (as_object attempt)) _ {v = change} h5 in
    let (fs, shape) =
      object_shape attempt kvs (required_given attempt_is_no_object (as_object attempt) typed) in
    record {
      old = old;
      new = new;
      was_read = read_old;
      reads_old = read_state-Reads before old read_old;
      reads_new = read_state-Reads after new read_new;
      first = first;
      attempt_fields = fs;
      follows =
          (==_iff new.completed (old.completed + 1)).0
            (guard_passed (new.completed == old.completed + 1) not_one_attempt follows);
      splits =
          required_given not_one_attempt (split_last new.attempts) split
          ∙ ap (λ a. some (first, a)) shape;
      prefix = guard_passed (same_values first old.attempts) not_one_attempt prefix;
      change_is =
          sym (ok_injective _ _ h6)
          ∙ ap
              (λ a. object (
                field (codes "delta") (delta (without_attempts old) (without_attempts new))
                  (field (codes "attempt") a end)))
              shape;
    }
