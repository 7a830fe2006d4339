-- ===== src/Journal/Restoring.antt =====
-- `restore` of EvoNN-Shared/src/evonn_shared/runtime_journal.py undoes `transition`.
use mathlib.Core.Path.{subst}
use evo_nn_research.Prelude.{
  ◌+◌, ◌≤◌, ◌≡◌, refl, sym, ap, ◌∙◌, true, false, codes, lookup, erase, is_some, ok, ◌==◌, ==_iff,
}
use evo_nn_research.Journal.{JsonValue, JsonFields, object, items, fields_of, same, delta, nesting}
use evo_nn_research.Journal.Applying.{apply_delta}
use evo_nn_research.Journal.Sameness.{is_json}
use evo_nn_research.Journal.Keyed.{same_shape}
use evo_nn_research.Journal.Replay.{apply_delta-delta}
use evo_nn_research.Journal.Transitions.{State, read_state, without_attempts, transition, restore}
use evo_nn_research.Journal.Accepting.{Made, transition-Made}
use evo_nn_research.Journal.Next.{
  rest_of, rest_json, rest_shallow, rest_attempts, same_keys_miss, change_of, next_state, next_read,
  next_same,
}

restore_done :
    (before delta : JsonValue) (attempt gs : JsonFields) (old new : State)
    → read_state before ≡ ok old
    → apply_delta (without_attempts old) delta ≡ ok (object gs)
    → is_some (lookup (codes "attempts") (items gs)) ≡ false
    → read_state (object (fields_of (next_state old.attempts attempt gs))) ≡ ok new
    → (new.completed == old.completed + 1) ≡ true
    → restore before (change_of delta attempt)
      ≡ ok (object (fields_of (next_state old.attempts attempt gs)))
unfolding restore
restore_done before delta attempt gs old new a b c d e = rw (a, b, c, d, e, restore) refl

restored_of :
    (before after change : JsonValue)
    → is_json before ≡ true
    → is_json after ≡ true
    → nesting after ≤ 100
    → Made before after change
    → (x : JsonValue) × (restore before change ≡ ok x) × (same after x ≡ true)
restored_of before after change j j' shallow m =
    let o = m.reads_old in
    let n = m.reads_new in
    let fo = o.fields in
    let fn = n.fields in
    let rest_old : without_attempts m.old ≡ object (rest_of fo) =
      ap (λ kvs. object (fields_of (erase (codes "attempts") kvs))) o.entries_are in
    let rest_new : without_attempts m.new ≡ object (rest_of fn) =
      ap (λ kvs. object (fields_of (erase (codes "attempts") kvs))) n.entries_are in
    let json_new : is_json (object fn) ≡ true = ap is_json (sym n.shape) ∙ j' in
    let low : nesting (object fn) ≤ 100 = subst (λ z. nesting z ≤ 100) n.shape shallow in
    let (x, applied, agrees) =
      apply_delta-delta (object (rest_of fo)) (object (rest_of fn))
        (rest_json fo (ap is_json (sym o.shape) ∙ j)) (rest_json fn json_new)
        (rest_shallow fn low) in
    let (gs, shape, same_keys, fields) = same_shape (rest_of fn) x agrees in
    let applied' : apply_delta (without_attempts m.old)
          (delta (without_attempts m.old) (without_attempts m.new))
        ≡ ok (object gs) =
      ap (λ z. apply_delta z (delta z (without_attempts m.new))) rest_old
      ∙ ap (λ z. apply_delta (object (rest_of fo)) (delta (object (rest_of fo)) z)) rest_new
      ∙ applied
      ∙ ap ok shape in
    let none_there : is_some (lookup (codes "attempts") (items gs)) ≡ false = ap is_some (
      same_keys_miss (items (rest_of fn)) (items gs) (codes "attempts") same_keys
        (rest_attempts fn)) in
    let (new, read, count) =
      next_read m.old.attempts m.attempt_fields gs fn m.new.completed m.old.completed n.counts
        fields o.agree m.follows in
    let next : (new.completed == m.old.completed + 1) ≡ true =
      (==_iff new.completed (m.old.completed + 1)).1 (count ∙ m.follows) in
    let state = object (fields_of (next_state m.old.attempts m.attempt_fields gs)) in
    (
      state,
      ap (restore before) m.change_is
          ∙ restore_done before _ m.attempt_fields gs m.old new m.was_read applied' none_there read
              next,
      ap (λ z. same z state) n.shape
          ∙ next_same m.old.attempts m.new.attempts m.first m.attempt_fields gs fn json_new n.lists
              m.splits m.prefix same_keys fields,
    )

-- From states that are JSON values and nest at most 100 deep, a transition that is accepted is
-- restored: applied to the old state it gives the new one, as `same` tells values apart.
pub restore-transition :
    (before after change : JsonValue)
    → is_json before ≡ true
    → is_json after ≡ true
    → nesting after ≤ 100
    → transition before after ≡ ok change
    → (x : JsonValue) × (restore before change ≡ ok x) × (same after x ≡ true)
restore-transition before after change j j' shallow h =
    restored_of before after change j j' shallow (transition-Made before after change h)
