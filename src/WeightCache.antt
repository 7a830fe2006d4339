-- ===== src/WeightCache.antt =====
-- The bounded weight cache of EvoNN-Shared/src/evonn_shared/weight_cache.py. Arrays are NumPy's and
-- stay abstract; the length of an entry's JSON text is a parameter.
pub mod Trimming
pub mod Invariant
pub mod Inheriting
pub mod Moving
pub mod Shapes
pub mod Contents
pub mod Outcomes
pub mod Isolation
pub mod Priority
use evo_nn_research.Prelude.{
  lookup, remove, set_item, ordered_dict, ℕ, suc, ◌+◌, ◌-◌, ◌*◌, ◌^◌, Bool, true, false, not, ◌&&◌,
  ◌||◌, List, [], ◌∷◌, ◌++◌, map, Option, none, some, Text, codes, ltb, leb, ◌==◌, if◌then◌else◌,
  text_eq, text_in, length, Result, ok, raise, reject_if, ◌>>=◌, ◌>>◌,
}
use mathlib.Core.List.{filter}

-- What the cache uses of NumPy.
pub record Arrays : Type 1 where
  pub Array : Type 0
  -- `a.shape` and `a.size`
  pub shape : Array → List ℕ
  pub size : Array → ℕ
  -- `np.asarray(a, dtype=np.float32)`
  pub as_float32 : Array → Array
  -- `value[selection] = old[selection]`, and `old[selection].size`, for the common corner of both
  pub assign_common : (old value : Array) → Array
  pub common_size : (old value : Array) → ℕ

abbrev pub shape_eq : List ℕ → List ℕ → Bool
shape_eq = text_eq

pub data Error : Type 0 where
  capacity_not_positive key_error : Error

-- A dictionary that is only looked up and written by key.
abbrev pub Sizes : Type 0
Sizes = Text → Option ℕ

abbrev pub write : Sizes → Text → Option ℕ → Sizes
write sizes k n j = if text_eq k j then n else sizes j

module _ (np : Arrays) where
  open np use {Array, shape, size, as_float32, assign_common, common_size}

  pub record Item : Type 0 where
    pub namespace : Text
    pub identity : Text
    pub topology : Text
    pub family : Text
    pub buffers : List (Text × List Array)
    pub weights : List (Text × Array)

  -- The entries stand in the order of the `OrderedDict`, the oldest first.
  pub record Cache : Type 0 where
    pub capacity : ℕ
    pub entries : List (Text × Item)
    pub sizes : Sizes
    pub entry_bytes : ℕ

  pub record Model : Type 0 where
    pub weights : List (Text × Array)
    pub buffers : List (Text × List Array)
    pub parameter_count : ℕ

-- `key = namespace + ":" + identity`
abbrev pub key_of : Text → Text → Text
key_of namespace identity = namespace ++ b':' ∷ identity

abbrev pub byte_limit : ℕ
byte_limit = 32 * 1024 * 1024

-- The test of the loop in `_trim`: too many entries, or too long a JSON array.
unfoldable pub is_over : ℕ → ℕ → ℕ → Bool
is_over capacity count bytes = ltb capacity count || ltb byte_limit (bytes + (count - 1) + 2)

module _ (np : Arrays) where
  -- The loop of `_trim`.
  unfoldable pub trim_from :
      ℕ → List (Text × Item np) → Sizes → ℕ → Result Error (List (Text × Item np) × Sizes × ℕ)
  trim_from capacity [] sizes bytes =
      if is_over capacity 0 bytes then raise key_error else ok ([], sizes, bytes)
  trim_from capacity ((k, item) ∷ es) sizes bytes = elim (is_over capacity (length es + 1) bytes) [
    | false ↦ ok ((k, item) ∷ es, sizes, bytes)
    | true ↦ elim (sizes k) [
      | none ↦ raise key_error
      | some n ↦ trim_from capacity es (write sizes k none) (bytes - n)
    ]
  ]

  -- `_trim`
  unfoldable pub trim : Cache np → Result Error (Cache np)
  trim c = do
    (entries, sizes, bytes) ← trim_from c.capacity c.entries c.sizes c.entry_bytes
    ok (record c { entries = entries; sizes = sizes; entry_bytes = bytes })

  module _ (entry_size : Text → Item np → ℕ) where
    -- The comprehension that fills `sizes`, and the sum of its values.
    unfoldable pub sizes_of : List (Text × Item np) → Sizes
    sizes_of [] = λ j. none
    sizes_of ((k, item) ∷ es) = write (sizes_of es) k (some (entry_size k item))

    abbrev pub total_size : List (Text × Item np) → ℕ
    total_size [] = 0
    total_size ((k, item) ∷ es) = entry_size k item + total_size es

    -- `__init__`, given the items of the saved state.
    unfoldable pub init : ℕ → List (Text × Item np) → Result Error (Cache np)
    init capacity state = do
      reject_if (ltb capacity 1) capacity_not_positive
      let entries = ordered_dict [] state
      trim (record {
        capacity = capacity;
        entries = entries;
        sizes = sizes_of entries;
        entry_bytes = total_size entries;
      })

    -- The dictionary that `put` stores.
    abbrev pub new_item :
        (namespace identity topology family : Text)
        → List (Text × np.Array)
        → List (Text × List np.Array)
        → Item np
    new_item namespace identity topology family weights buffers = record {
      namespace = namespace;
      identity = identity;
      topology = topology;
      family = family;
      buffers = buffers;
      weights = map (λ (k, v). (k, np.as_float32 v)) weights;
    }

    -- `entry_bytes` after the removal of an old entry in `put`.
    abbrev pub bytes_without : Cache np → Text → Result Error ℕ
    bytes_without c key = elim (lookup key c.entries) [
      | none ↦ ok c.entry_bytes
      | some _ ↦ elim (c.sizes key) [ none ↦ raise key_error | some n ↦ ok (c.entry_bytes - n) ]
    ]

    -- `put`
    unfoldable pub put :
        Cache np
        → (namespace identity topology family : Text) → List (Text × np.Array)
        → List (Text × List np.Array)
        → Result Error (Cache np)
    put c namespace identity topology family weights buffers = do
      let key = key_of namespace identity
      let item = new_item namespace identity topology family weights buffers
      bytes ← bytes_without c key
      trim (record c {
        entries = remove key c.entries ++ (key, item) ∷ [];
        sizes = write c.sizes key (some (entry_size key item));
        entry_bytes = bytes + entry_size key item;
      })
