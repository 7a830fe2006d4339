-- ===== src/RunStore/Lock.antt =====
-- The writer lock of EvoNN-Shared/src/evonn_shared/run_store.py: `_acquire_writer_lock`,
-- `_release_writer_lock` and the death of a process between any two of their calls. A session is one
-- attempt to open a store. The kernel gives the advisory lock to one descriptor at a time and takes
-- it back when the holder dies. Of the record in `run.lock` only its presence is read, and whose it
-- is; a record that was written in part counts as one, as it has a size above zero.
use evo_nn_research.RunStore.Rows.{StoreError, hex_digest, checked}
use evo_nn_research.Contract.{human_text}
use evo_nn_research.Budgets.{nonneg}
use evo_nn_research.Prelude.{
  Text, ℤ, Result, ok, guard, ◌>>◌, ◌&&◌, ◌||◌, leb, all, length, ℕ, ◌≡◌, refl, Bool, true, false,
  List, [], ◌∷◌, Option, none, some, ◌==◌, any, is_some, arith, Option-cases, inl, inr,
}

-- What a record says, for diagnosis.
pub record LockOwner : Type 0 where
  pub host : Text
  pub platform : Text
  pub pid : ℤ
  pub process_token : Text

-- `_validate_token`
unfoldable pub process_token : Text → Result StoreError Text
process_token value = do
  guard
      (length value == 32
        && all (λ c. (leb b'0' c && leb c b'9') || (leb b'a' c && leb c b'f')) value)
      hex_digest
  ok value

unfoldable pub owner_of : LockOwner → Result StoreError LockOwner
owner_of o = do
  checked (human_text o.host)
  checked (human_text o.platform)
  checked (nonneg o.pid)
  process_token o.process_token
  ok o

-- How far the holder has come: it has the lock and has looked at the size of the record; it has
-- truncated the file; it has written its own record and runs; it has truncated the file again.
pub data Phase : Type 0 where
  taken emptied held cleared : Phase

pub record Holder : Type 0 where
  pub session : ℕ
  pub phase : Phase
  -- what `_acquire_writer_lock` returns beside the descriptor
  pub stale : Bool

pub record Lock : Type 0 where
  -- whose record the file holds
  pub record_of : Option ℕ
  pub holder : Option Holder
  -- the sessions that lost the lock without `_release_writer_lock`: by a death, or by an exception
  -- in `_acquire_writer_lock`
  pub abandoned : List ℕ

pub data Action : Type 0 where
  acquire : (session : ℕ) → Action
  empty write clear unlock abandon : Action

-- `os.ftruncate` in `_acquire_writer_lock`
abbrev empty_record : Lock → Holder → Option Lock
empty_record s h = elim h.phase [
  | taken ↦ some (record s { record_of = none; holder = some (record h { phase = emptied }) })
  | _ ↦ none
]

-- `write_all` in `_acquire_writer_lock`
abbrev write_record : Lock → Holder → Option Lock
write_record s h = elim h.phase [
  | emptied ↦
      some (record s { record_of = some h.session; holder = some (record h { phase = held }) })
  | _ ↦ none
]

-- `os.ftruncate` in `_release_writer_lock`
abbrev clear_record : Lock → Holder → Option Lock
clear_record s h = elim h.phase [
  | held ↦ some (record s { record_of = none; holder = some (record h { phase = cleared }) })
  | _ ↦ none
]

-- `fcntl.flock` in `_release_writer_lock`
abbrev unlock_holder : Lock → Holder → Option Lock
unlock_holder s h = elim h.phase [ cleared ↦ some (record s { holder = none }) | _ ↦ none ]

abbrev holder_steps : Lock → Holder → Action → Option Lock
holder_steps s h (acquire session) = none
holder_steps s h empty = empty_record s h
holder_steps s h write = write_record s h
holder_steps s h clear = clear_record s h
holder_steps s h unlock = unlock_holder s h
holder_steps s h abandon = some (record s { holder = none; abandoned = h.session ∷ s.abandoned })

-- One call of the operating system, where it is possible; `RunStoreLockedError` changes nothing.
unfoldable pub step : Action → Lock → Option Lock
step a s = elim s.holder [
  | none ↦ elim a [
    | acquire session ↦ some (record s {
      holder = some (record { session = session; phase = taken; stale = is_some s.record_of });
    })
    | _ ↦ none
  ]
  | some h ↦ holder_steps s h a
]

unfoldable pub steps : List Action → Lock → Option Lock
steps [] s = some s
steps (a ∷ rest) s = elim (step a s) [ none ↦ none | some t ↦ steps rest t ]

-- A directory in which no store was opened yet.
abbrev pub unused : Lock
unused = record { record_of = none; holder = none; abandoned = [] }

abbrev pub is_abandoned : Lock → ℕ → Bool
is_abandoned s session = any (λ a. a == session) s.abandoned

abbrev left_by_abandoned : Lock → Bool
left_by_abandoned s = elim s.record_of [ none ↦ true | some q ↦ is_abandoned s q ]

abbrev same_flag : Bool → Bool → Bool
same_flag true b = b
same_flag false true = false
same_flag false false = true

-- The record belongs to the holder while it runs; with no holder, or before the holder has
-- truncated the file, it belongs to an abandoned session.
is_sound : Lock → Bool
is_sound s = elim s.holder [
  | none ↦ left_by_abandoned s
  | some h ↦ elim h.phase [
    | taken ↦ elim (same_flag h.stale (is_some s.record_of)) [
      | true ↦ left_by_abandoned s
      | false ↦ false
    ]
    | emptied ↦ elim s.record_of [ none ↦ true | some q ↦ false ]
    | held ↦ elim s.record_of [ none ↦ false | some q ↦ q == h.session ]
    | cleared ↦ elim s.record_of [ none ↦ true | some q ↦ false ]
  ]
]

step_sound : (a : Action) (s t : Lock) → step a s ≡ some t → is_sound s ≡ true → is_sound t ≡ true
unfolding step is_sound
step_sound a s t h k = ground arith

steps_sound :
    (actions : List Action) (s t : Lock)
    → steps actions s ≡ some t
    → is_sound s ≡ true
    → is_sound t ≡ true
unfolding steps
steps_sound [] s t h k = cc
steps_sound (a ∷ rest) s t h k = elim (Option-cases (step a s)) [
  | inl stuck ↦ absurd (ground arith)
  | inr (u, next) ↦ steps_sound rest u t (ground arith) (step_sound a s u next k)
]

stale_sound :
    (s : Lock) (h : Holder)
    → s.holder ≡ some h
    → h.phase ≡ taken
    → h.stale ≡ true
    → is_sound s ≡ true
    → (q : ℕ) × (s.record_of ≡ some q) × (is_abandoned s q ≡ true)
unfolding is_sound
stale_sound s h holds phase stale sound = elim (Option-cases s.record_of) [
  | inl nothing ↦ absurd (ground arith)
  | inr (q, recorded) ↦ (q, recorded, ground arith)
]

unused_sound : is_sound unused ≡ true
unfolding is_sound
unused_sound = refl

-- Whatever sessions did before, a session that is told that the lock was stale finds the record of a
-- session that lost the lock without releasing it.
pub stale_is_abandoned :
    (actions : List Action) (s : Lock) (h : Holder)
    → steps actions unused ≡ some s
    → s.holder ≡ some h
    → h.phase ≡ taken
    → h.stale ≡ true
    → (q : ℕ) × (s.record_of ≡ some q) × (is_abandoned s q ≡ true)
stale_is_abandoned actions s h run holds phase stale =
    stale_sound s h holds phase stale (steps_sound actions unused s run unused_sound)

reported :
    (s t u : Lock) (h : Holder) (next : ℕ)
    → s.holder ≡ some h
    → h.phase ≡ held
    → step abandon s ≡ some t
    → step (acquire next) t ≡ some u
    → is_sound s ≡ true
    → (u.holder ≡ some (record { session = next; phase = taken; stale = true }))
      × (u.record_of ≡ some h.session)
unfolding step is_sound
reported s t u h next holds phase lost retaken sound = ground (arith)

-- A session that loses the lock while it runs, whatever was done before, is reported: the next
-- session to take the lock is told that it was stale, and finds its record.
pub abandoned_is_reported :
    (actions : List Action) (s t u : Lock) (h : Holder) (next : ℕ)
    → steps actions unused ≡ some s
    → s.holder ≡ some h
    → h.phase ≡ held
    → step abandon s ≡ some t
    → step (acquire next) t ≡ some u
    → (u.holder ≡ some (record { session = next; phase = taken; stale = true }))
      × (u.record_of ≡ some h.session)
abandoned_is_reported actions s t u h next run holds phase lost retaken =
    reported s t u h next holds phase lost retaken (steps_sound actions unused s run unused_sound)
