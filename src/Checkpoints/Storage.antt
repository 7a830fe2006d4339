-- ===== src/Checkpoints/Storage.antt =====
-- A directory of files, as EvoNN-Shared/src/evonn_shared/checkpoints.py uses it. A file is created
-- exclusively and written durably, and a rename is atomic, as the operating system documents; a
-- process that dies while it writes leaves a file with any content.
use evo_nn_research.Prelude.{
  ℕ, ◌≡◌, ◌⊎◌, List, [], ◌∷◌, none, some, Text, lookup, set_item, erase, is_some, Result, ok, raise,
  reject_if, ◌>>=◌, ◌>>◌,
}

abbrev pub Bytes : Type 0
Bytes = List ℕ

abbrev pub Files : Type 0
Files = List (Text × Bytes)

pub data FileError : Type 0 where
  file_exists file_missing : FileError

pub data Effect : Type 0 where
  -- `_write_file_at`
  write : (name : Text) (content : Bytes) → Effect
  -- `exclusive_rename`
  rename_exclusive : (from to : Text) → Effect
  -- `os.rename`
  rename : (from to : Text) → Effect
  -- `os.unlink`
  unlink : (name : Text) → Effect

abbrev pub move : Text → Text → Files → Result FileError Files
move from to fs = elim (lookup from fs) [
  | none ↦ raise file_missing
  | some content ↦ ok (set_item to content (erase from fs))
]

unfoldable pub perform : Effect → Files → Result FileError Files
perform (write name content) fs = do
  reject_if (is_some (lookup name fs)) file_exists
  ok (set_item name content fs)
perform (rename_exclusive from to) fs = do
  reject_if (is_some (lookup to fs)) file_exists
  move from to fs
perform (rename from to) fs = move from to fs
perform (unlink name) fs = ok (erase name fs)

unfoldable pub perform_all : List Effect → Files → Result FileError Files
perform_all [] fs = ok fs
perform_all (e ∷ es) fs = do gs ← perform e fs; perform_all es gs

-- What a process that died inside an effect may have left.
abbrev pub IsTorn : Effect → Files → Files → Type 0
IsTorn (write name content) fs gs =
    (lookup name fs ≡ none) × (part : Bytes) × (gs ≡ set_item name part fs)
IsTorn _ fs gs = ⊥

-- What a process that died between the effects or inside one of them may have left.
abbrev pub MayLeave : List Effect → Files → Files → Type 0
MayLeave [] fs gs = fs ≡ gs
MayLeave (e ∷ es) fs gs =
    (fs ≡ gs) ⊎ IsTorn e fs gs ⊎ ((next : Files) × (perform e fs ≡ ok next) × MayLeave es next gs)
