-- ===== src/Examples/JournalExamples.antt =====
-- Examples for EvoNN-Shared/src/evonn_shared/runtime_journal.py: a step of a run with a keyed cache.
use evo_nn_research.Prelude.{ℕ, ◌≡◌, ◌≤◌, refl, true, Text, codes, ok, pos, arith, finite, false}
use evo_nn_research.Contract.{sorted, insert_sorted}
use evo_nn_research.Prelude.{all_distinct, text_lt}
use evo_nn_research.Journal.{
  JsonValue, null, bool, int, float, str, array, object, nil, cons, end, field, same, delta,
  delta_to, delta_step, changed_items, keyed, nesting, replaced,
}
use evo_nn_research.Journal.Applying.{
  apply_delta, apply_within, apply_step, apply_dictionary, apply_items, apply_keyed, appended,
  keyed_before,
}
use evo_nn_research.Journal.Sameness.{is_json}
use evo_nn_research.Journal.Replay.{apply_delta-delta}
use evo_nn_research.Journal.Depth.{delta_to-delta}
use evo_nn_research.Journal.Transitions.{read_state, transition, restore}
use evo_nn_research.Journal.Restoring.{restore-transition}

program : Unit {0}
unfolding same delta delta_to delta_step changed_items keyed nesting apply_delta apply_within
    apply_step apply_dictionary apply_items apply_keyed appended keyed_before is_json read_state
    transition restore sorted insert_sorted all_distinct text_lt
program = tt

abbrev number : ℕ → JsonValue
number n = int (pos n)

abbrev entry : Text → JsonValue → JsonValue
entry k v = array (cons (str k) (cons v nil))

abbrev attempt : JsonValue
attempt = object (field (codes "id") (str (codes "a1")) end)

abbrev start : JsonValue
start = object (
    field (codes "completed") (number 0) (
      field (codes "attempts") (array nil) (
        field (codes "cache")
          (array (cons (entry (codes "w") (number 1)) (cons (entry (codes "x") null) nil)))
          (field (codes "seed") (number 7) end))))

abbrev next : JsonValue
next = object (
    field (codes "completed") (number 1) (
      field (codes "attempts") (array (cons attempt nil)) (
        field (codes "cache")
          (array (cons (entry (codes "x") (bool true)) (cons (entry (codes "w") (number 1)) nil)))
          (field (codes "best") (float (finite false 3 (pos 0))) end))))

-- The cache is in another order, the seed is gone, and the best score is new.
abbrev change : JsonValue
change = object (
    field (codes "dict")
      (object (
        field (codes "completed") (replaced (number 1)) (
          field (codes "cache")
            (object (
              field (codes "keyed")
                (object (
                  field (codes "dict") (object (field (codes "x") (replaced (bool true)) end))
                    (field (codes "remove") (array nil) end)))
                (field (codes "order") (array (cons (str (codes "x")) (cons (str (codes "w")) nil)))
                  end)))
            (field (codes "best") (replaced (float (finite false 3 (pos 0)))) end))))
      (field (codes "remove") (array (cons (str (codes "seed")) nil)) end))

step : JsonValue
step = object (field (codes "delta") change (field (codes "attempt") attempt end))

made : transition start next ≡ ok step
unfolding program step
made = refl

start_json : is_json start ≡ true
unfolding program
start_json = refl

next_json : is_json next ≡ true
unfolding program
next_json = refl

next_shallow : nesting next ≤ 100
unfolding program
next_shallow = omega arith

restore-transition_example : (x : JsonValue) × (restore start step ≡ ok x) × (same next x ≡ true)
restore-transition_example =
    restore-transition start next step start_json next_json next_shallow made

apply_delta-delta_example :
    (x : JsonValue) × (apply_delta start (delta start next) ≡ ok x) × (same next x ≡ true)
apply_delta-delta_example = apply_delta-delta start next start_json next_json next_shallow

delta_to-delta_example : delta_to 9 start next ≡ delta start next
delta_to-delta_example = delta_to-delta 9 start next (unfold program in omega arith)
