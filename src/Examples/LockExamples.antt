-- ===== src/Examples/LockExamples.antt =====
-- Sessions that take, lose and release the lock, and stores that open, for
-- EvoNN-Shared/src/evonn_shared/run_store.py.
use evo_nn_research.Prelude.{
  ℕ, ◌≡◌, ◌⊎◌, refl, true, false, List, [], ◌∷◌, none, some, Text, codes, is_utf8, pos, ok, raise,
}
use evo_nn_research.Contract.{human_text, is_space, is_control, run_id, matches_run_id}
use evo_nn_research.RunStore.{
  hex_digest, run, run_record, is_hex_digest, evaluations, by_sequence, validate_rows, verify_from,
  verify_evaluation_chain,
}
use evo_nn_research.RunStore.Lock.{
  LockOwner, owner_of, process_token, Lock, taken, held, Action, acquire, empty, write, clear,
  unlock, abandon, step, steps, unused, is_abandoned, stale_is_abandoned, abandoned_is_reported,
}
use evo_nn_research.RunStore.Opening.{
  Directory, connect, check_opened, open_locked_store, created, IsOpened,
  open_locked_store-IsOpened, created_opens, store_exists, orphan_wal, store_not_found,
  run_mismatch,
}
use evo_nn_research.Examples.Toy.{toy}

program : Unit {0}
unfolding run_id matches_run_id is_utf8 run run_record is_hex_digest evaluations by_sequence
    validate_rows verify_from verify_evaluation_chain connect check_opened open_locked_store
program = tt

-- The first session dies while it runs; the second finds the lock stale.
abbrev first_runs : List Action
first_runs = acquire 1 ∷ empty ∷ write ∷ []

abbrev first_dies : List Action
first_dies = acquire 1 ∷ empty ∷ write ∷ abandon ∷ acquire 2 ∷ []

abbrev running : Lock
running = record {
  record_of = some 1;
  holder = some (record { session = 1; phase = held; stale = false });
  abandoned = [];
}

abbrev lost : Lock
lost = record { record_of = some 1; holder = none; abandoned = 1 ∷ [] }

abbrev retaken : Lock
retaken = record {
  record_of = some 1;
  holder = some (record { session = 2; phase = taken; stale = true });
  abandoned = 1 ∷ [];
}

lock_runs :
    (steps first_runs unused ≡ some running)
    × (steps first_dies unused ≡ some retaken)
    × (steps (acquire 1 ∷ empty ∷ write ∷ acquire 2 ∷ []) unused ≡ none)
    × (steps (acquire 1 ∷ empty ∷ write ∷ clear ∷ unlock ∷ []) unused ≡ some unused)
unfolding steps step
lock_runs = (refl, refl, refl, refl)

losing : (step abandon running ≡ some lost) × (step (acquire 2) lost ≡ some retaken)
unfolding step
losing = (refl, refl)

stale_is_abandoned_example :
    (q : ℕ) × (retaken.record_of ≡ some q) × (is_abandoned retaken q ≡ true)
stale_is_abandoned_example =
    stale_is_abandoned first_dies retaken (record { session = 2; phase = taken; stale = true })
      lock_runs.1 refl refl refl

abandoned_is_reported_example :
    (retaken.holder ≡ some (record { session = 2; phase = taken; stale = true }))
    × (retaken.record_of ≡ some 1)
abandoned_is_reported_example =
    abandoned_is_reported first_runs running lost retaken
      (record { session = 1; phase = held; stale = false }) 2 lock_runs.0 refl refl losing.0
      losing.1

abbrev this_run : Text
this_run = codes "run-1"

abbrev no_store : Directory
no_store = record { store = none; wal = false }

abbrev with_store : Directory
with_store = record { store = some (created this_run); wal = false }

opening_runs :
    (open_locked_store toy false this_run with_store ≡ ok (created this_run))
    × (open_locked_store toy false (codes "run-2") with_store ≡ raise run_mismatch)
    × (open_locked_store toy true this_run with_store ≡ raise store_exists)
    × (open_locked_store toy true this_run (record no_store { wal = true }) ≡ raise orphan_wal)
    × (open_locked_store toy false this_run no_store ≡ raise store_not_found)
unfolding program
opening_runs = (refl, refl, refl, refl, refl)

open_locked_store-IsOpened_example :
    IsOpened toy this_run (created this_run)
    × (((false ≡ false) × (with_store.store ≡ some (created this_run)))
        ⊎ ((false ≡ true)
            × (with_store.store ≡ none)
            × (with_store.wal ≡ false)
            × (created this_run ≡ created this_run)))
open_locked_store-IsOpened_example =
    open_locked_store-IsOpened toy false this_run with_store (created this_run) opening_runs.0

created_opens_example : open_locked_store toy true this_run no_store ≡ ok (created this_run)
unfolding program
created_opens_example = created_opens toy this_run no_store refl refl refl

abbrev owner : LockOwner
owner = record {
  host = codes "lab-1";
  platform = codes "linux";
  pid = pos 4711;
  process_token = codes "0123456789abcdef0123456789abcdef";
}

owner_runs :
    (owner_of owner ≡ ok owner)
    × (owner_of (record owner { process_token = codes "0123" }) ≡ raise hex_digest)
unfolding owner_of process_token human_text is_space is_control is_utf8
owner_runs = (refl, refl)
