-- ===== src/Examples/WeightCacheExamples.antt =====
-- A weight cache over lists of numbers, for EvoNN-Shared/src/evonn_shared/weight_cache.py.
use evo_nn_research.Prelude.{
  remove, ordered_dict, ℕ, ◌+◌, ◌≡◌, refl, List, [], ◌∷◌, ◌++◌, Text, codes, length, ok, Result,
  raise,
}
use evo_nn_research.WeightCache.{
  Arrays, Item, Cache, Error, init, trim, trim_from, is_over, sizes_of, put, new_item,
}
use evo_nn_research.WeightCache.Trimming.{Entries, keys}
use evo_nn_research.WeightCache.Invariant.{IsValid, HoldsNewestOf, put-IsValid, init-IsValid}

program : Unit {0}
unfolding init trim trim_from is_over sizes_of put
program = tt

abbrev vectors : Arrays
vectors = record {
  Array = List ℕ;
  shape = λ a. length a ∷ [];
  size = length;
  as_float32 = λ a. a;
  assign_common = λ old value. value;
  common_size = λ old value. 0;
}

abbrev item : Text → Item vectors
item identity = record {
  namespace = codes "run";
  identity = identity;
  topology = codes "mlp";
  family = codes "mlp";
  buffers = [];
  weights = (codes "w", 1 ∷ 2 ∷ []) ∷ [];
}

abbrev json_size : Text → Item vectors → ℕ
json_size key i = length key + 1000

abbrev saved : Entries vectors
saved =
    (codes "run:a", item (codes "a"))
    ∷ (codes "run:b", item (codes "b"))
    ∷ (codes "run:c", item (codes "c"))
    ∷ []

init-IsValid_example :
    (after : Cache vectors) × (init vectors json_size 2 saved ≡ ok after)
    × (after.capacity ≡ 2)
    × IsValid vectors json_size after
    × HoldsNewestOf vectors json_size (ordered_dict [] saved) after
init-IsValid_example = init-IsValid vectors json_size 2 saved refl

abbrev two_items : Entries vectors
two_items = (codes "run:b", item (codes "b")) ∷ (codes "run:c", item (codes "c")) ∷ []

abbrev two_cached : Cache vectors
unfolding sizes_of
two_cached = record {
  capacity = 2;
  entries = two_items;
  sizes = sizes_of vectors json_size two_items;
  entry_bytes = 2010;
}

two_cached-IsValid : IsValid vectors json_size two_cached
unfolding program
two_cached-IsValid = record {
  distinct = (refl, (refl, tt));
  sized = (refl, (refl, tt));
  counted = refl;
  fits = refl;
}

abbrev kept_keys : Result Error (Cache vectors) → List Text
kept_keys (ok c) = keys vectors c.entries
kept_keys (raise e) = []

-- A third entry drops the oldest; a known key moves to the end.
put_runs :
    (kept_keys (
        put vectors json_size two_cached
          (codes "run")
          (codes "d")
          (codes "mlp")
          (codes "mlp")
          []
          [])
      ≡ codes "run:c" ∷ codes "run:d" ∷ [])
    × (kept_keys (
          put vectors json_size two_cached
            (codes "run")
            (codes "b")
            (codes "mlp")
            (codes "mlp")
            []
            [])
        ≡ codes "run:c" ∷ codes "run:b" ∷ [])
unfolding program
put_runs = (refl, refl)

put-IsValid_example :
    (after : Cache vectors) × (put vectors json_size two_cached
        (codes "run")
        (codes "d")
        (codes "mlp")
        (codes "mlp")
        []
        []
      ≡ ok after)
    × (after.capacity ≡ 2)
    × IsValid vectors json_size after
    × HoldsNewestOf vectors json_size
        (remove (codes "run:d") two_items
          ++ (
            codes "run:d",
            new_item vectors json_size (codes "run") (codes "d") (codes "mlp") (codes "mlp") [] [],
          )
            ∷ [])
        after
unfolding two_cached
put-IsValid_example =
    put-IsValid vectors json_size two_cached (codes "run") (codes "d") (codes "mlp") (codes "mlp")
      [] [] two_cached-IsValid
