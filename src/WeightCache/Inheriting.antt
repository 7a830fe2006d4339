-- ===== src/WeightCache/Inheriting.antt =====
-- `inherit` of EvoNN-Shared/src/evonn_shared/weight_cache.py: which entry a new model takes weights
-- from, and what it takes.
use evo_nn_research.Prelude.{
  lookup, remove, ℕ, suc, ◌+◌, ◌-◌, Bool, true, false, not, ◌&&◌, ◌||◌, List, [], ◌∷◌, ◌++◌, map,
  Option, none, some, Text, ltb, ◌==◌, if◌then◌else◌, text_eq, text_in, length, Result, ok, raise,
  ◌>>=◌,
}
use evo_nn_research.WeightCache.{Arrays, Item, Cache, Model, Error, key_error, shape_eq}

pub data Mode : Type 0 where
  exact partial no_source : Mode

pub record Report : Type 0 where
  pub mode : Mode
  pub source : Option Text
  pub copied_parameters : ℕ

-- `values.index(t)`, of a text that is there.
abbrev pub index_of : Text → List Text → ℕ
index_of t [] = 0
index_of t (u ∷ us) = if text_eq u t then 0 else suc (index_of t us)

abbrev as_int : Bool → ℕ
as_int true = 1
as_int false = 0

-- Comparison of tuples of the same length.
abbrev pub tuple_lt : List ℕ → List ℕ → Bool
tuple_lt [] bs = false
tuple_lt (a ∷ as_) [] = false
tuple_lt (a ∷ as_) (b ∷ bs) = ltb a b || (a == b && tuple_lt as_ bs)

-- What `inherit` is asked for.
pub record Request : Type 0 where
  pub namespace : Text
  pub identity : Text
  pub topology : Text
  pub family : Text
  pub parents : List Text
  pub compatible_groups : List Text
  pub allow_partial : Bool

module _ (np : Arrays) (request : Request) where
  -- `priority`
  unfoldable pub priority : Item np → List ℕ
  priority item =
      as_int (text_eq item.identity request.identity)
      ∷ (if text_in item.identity request.parents
          then length request.parents - index_of item.identity request.parents
          else 0)
      ∷ as_int (text_eq item.family request.family)
      ∷ as_int (text_eq item.topology request.topology)
      ∷ as_int (text_in item.family request.compatible_groups)
      ∷ []

  unfoldable pub candidates : List (Text × Item np) → List (Text × Item np)
  candidates [] = []
  candidates ((k, item) ∷ es) =
      let rest = candidates es in
      if text_eq item.namespace request.namespace then (k, item) ∷ rest else rest

  unfoldable pub insert_candidate : Text × Item np → List (Text × Item np) → List (Text × Item np)
  insert_candidate c [] = c ∷ []
  insert_candidate c (d ∷ es) =
      if tuple_lt (priority c.1) (priority d.1) then d ∷ insert_candidate c es else c ∷ d ∷ es

  -- `candidates.sort(key=priority, reverse=True)`, which keeps the order of equal candidates.
  unfoldable pub by_priority : List (Text × Item np) → List (Text × Item np)
  by_priority [] = []
  by_priority (c ∷ cs) = insert_candidate c (by_priority cs)

  abbrev pub is_exact : Item np → Bool
  is_exact item = text_eq item.identity request.identity

  unfoldable pub is_compatible : Item np → Bool
  is_compatible item =
      text_eq item.topology request.topology
      || text_in item.family request.compatible_groups
      || text_eq item.family request.family

  -- One turn of the loop over the weights of the model: the array that stands under the name
  -- afterwards, and the number of parameters that were copied.
  unfoldable pub copy_one : Bool → Option np.Array → np.Array → np.Array × ℕ
  copy_one same_identity none value = (value, 0)
  copy_one same_identity (some saved) value =
      let old = np.as_float32 saved in
      if shape_eq (np.shape old) (np.shape value)
      then (old, np.size old)
      else if not same_identity && length (np.shape old) == length (np.shape value)
      then (np.assign_common old value, np.common_size old value)
      else (value, 0)

  -- The loop over the weights of the model.
  unfoldable pub copy_weights :
      Bool → List (Text × np.Array) → List (Text × np.Array) → List (Text × np.Array) × ℕ
  copy_weights same_identity source [] = ([], 0)
  copy_weights same_identity source ((name, value) ∷ rest) =
      let (now, n) = copy_one same_identity (lookup name source) value in
      let (later, copied) = copy_weights same_identity source rest in
      ((name, now) ∷ later, n + copied)

  abbrev pub float32_buffers : List (Text × List np.Array) → List (Text × List np.Array)
  float32_buffers = map (λ (k, arrays). (k, map np.as_float32 arrays))

  -- `self.entries.move_to_end(key)`
  unfoldable pub move_to_end : Text → List (Text × Item np) → Result Error (List (Text × Item np))
  move_to_end key es = elim (lookup key es) [
    | none ↦ raise key_error
    | some item ↦ ok (remove key es ++ (key, item) ∷ [])
  ]

  abbrev pub mode_of : Item np → ℕ → Model np → Mode
  mode_of item copied model =
      if is_exact item && copied == model.parameter_count then exact else partial

  -- The loop over the candidates.
  unfoldable pub try_candidates :
      Cache np → Model np → List (Text × Item np) → Result Error (Cache np × Model np × Report)
  try_candidates cache model [] =
      ok (cache, model, record { mode = no_source; source = none; copied_parameters = 0 })
  try_candidates cache model ((key, item) ∷ cs) =
      if not (is_exact item) && (not request.allow_partial || not (is_compatible item))
      then try_candidates cache model cs
      else let (weights, copied) = copy_weights (is_exact item) item.weights model.weights in
        let changed = record model { weights = weights } in
        if copied == 0 then try_candidates cache changed cs else (do
          entries ← move_to_end key cache.entries
          ok (
            record cache { entries = entries },
            (if is_exact item
                then record changed { buffers = float32_buffers item.buffers }
                else changed),
            record {
              mode = mode_of item copied model;
              source = some item.identity;
              copied_parameters = copied;
            },
          ))

  -- `inherit`
  unfoldable pub inherit : Cache np → Model np → Result Error (Cache np × Model np × Report)
  inherit cache model = try_candidates cache model (by_priority (candidates cache.entries))
