-- ===== src/Examples/InheritExamples.antt =====
-- Weights that a new model takes from the cache of EvoNN-Shared/src/evonn_shared/weight_cache.py.
use evo_nn_research.Prelude.{
  ℕ, suc, ◌≡◌, refl, sym, ap, ◌∙◌, true, false, if◌then◌else◌, List, [], ◌∷◌, Text, codes, length,
  lookup, ok, some, none, ◌==◌, Bool-cases, inl, inr, text_eq, arith, some_injective,
}
use evo_nn_research.WeightCache.{Arrays, Item, Cache, Model, is_over, sizes_of}
use evo_nn_research.WeightCache.Invariant.{IsValid}
use evo_nn_research.WeightCache.Inheriting.{
  Request, Report, partial, priority, candidates, insert_candidate, by_priority, is_exact,
  is_compatible, copy_one, copy_weights, move_to_end, try_candidates, inherit,
}
use evo_nn_research.WeightCache.Shapes.{KeepsShape, shapes}
use evo_nn_research.WeightCache.Contents.{AssignsInPlace}
use evo_nn_research.WeightCache.Outcomes.{Outcome}
use evo_nn_research.WeightCache.Isolation.{inherit-Outcome}
use evo_nn_research.WeightCache.Priority.{inherit_exact}

program : Unit {0}
unfolding priority candidates insert_candidate by_priority is_compatible copy_one copy_weights
    move_to_end try_candidates inherit is_over sizes_of
program = tt

-- Vectors of numbers.
overwrite : List ℕ → List ℕ → List ℕ
overwrite [] values = values
overwrite (x ∷ xs) [] = []
overwrite (x ∷ xs) (value ∷ values) = x ∷ overwrite xs values

common : List ℕ → List ℕ → ℕ
common [] values = 0
common (x ∷ xs) [] = 0
common (x ∷ xs) (value ∷ values) = suc (common xs values)

abbrev vectors : Arrays
vectors = record {
  Array = List ℕ;
  shape = λ a. length a ∷ [];
  size = length;
  as_float32 = λ a. a;
  assign_common = overwrite;
  common_size = common;
}

length-overwrite : (old value : List ℕ) → length (overwrite old value) ≡ length value
unfolding overwrite
length-overwrite [] values = refl
length-overwrite (x ∷ xs) [] = refl
length-overwrite (x ∷ xs) (value ∷ values) = ap suc (length-overwrite xs values)

vectors-KeepsShape : KeepsShape vectors
vectors-KeepsShape old value = ap (λ n. n ∷ []) (length-overwrite old value)

overwrite_nothing : (old value : List ℕ) → common old value ≡ 0 → overwrite old value ≡ value
unfolding overwrite common
overwrite_nothing [] values h = refl
overwrite_nothing (x ∷ xs) [] h = refl
overwrite_nothing (x ∷ xs) (value ∷ values) h = absurd (omega (arith, h))

vectors-AssignsInPlace : AssignsInPlace vectors
vectors-AssignsInPlace = record {
  keeps_shape = vectors-KeepsShape;
  keeps_value = overwrite_nothing;
}

abbrev json_size : Text → Item vectors → ℕ
json_size key i = 1000

abbrev parent : Item vectors
parent = record {
  namespace = codes "run";
  identity = codes "a";
  topology = codes "mlp";
  family = codes "mlp";
  buffers = [];
  weights = (codes "w", 1 ∷ 2 ∷ []) ∷ [];
}

abbrev cached : Cache vectors
unfolding sizes_of
cached = record {
  capacity = 2;
  entries = (codes "run:a", parent) ∷ [];
  sizes = sizes_of vectors json_size ((codes "run:a", parent) ∷ []);
  entry_bytes = 1000;
}

cached-IsValid : IsValid vectors json_size cached
unfolding program cached
cached-IsValid = record { distinct = (refl, tt); sized = (refl, tt); counted = refl; fits = refl }

abbrev request : Text → Request
request identity = record {
  namespace = codes "run";
  identity = identity;
  topology = codes "cnn";
  family = codes "mlp";
  parents = codes "a" ∷ [];
  compatible_groups = [];
  allow_partial = true;
}

abbrev model : Model vectors
model = record { weights = (codes "w", 7 ∷ 8 ∷ 9 ∷ []) ∷ []; buffers = []; parameter_count = 3 }

abbrev same_model : Model vectors
same_model = record { weights = (codes "w", 7 ∷ 8 ∷ []) ∷ []; buffers = []; parameter_count = 2 }

-- A larger child takes the common part of its parent's weights.
partial_run :
    inherit vectors (request (codes "b")) cached model
    ≡ ok (
      cached,
      record { weights = (codes "w", 1 ∷ 2 ∷ 9 ∷ []) ∷ []; buffers = []; parameter_count = 3 },
      record { mode = partial; source = some (codes "a"); copied_parameters = 2 },
    )
unfolding program overwrite common cached
partial_run = refl

inherit-Outcome_example :
    (c' : Cache vectors) × (model' : Model vectors) × (r : Report) × (inherit vectors
        (request (codes "b"))
        cached
        model
      ≡ ok (c', model', r))
    × (shapes vectors model'.weights ≡ (codes "w", 3 ∷ []) ∷ [])
    × IsValid vectors json_size c'
    × Outcome vectors (request (codes "b")) cached model c' model' r
inherit-Outcome_example =
    inherit-Outcome vectors json_size (request (codes "b")) cached model vectors-AssignsInPlace
      cached-IsValid

none-some : {A : Type 0} {a : A} → none ≡ some a → ⊥
none-some h = ground (arith, h)

only_parent :
    (k : Text) (saved : Item vectors) → lookup k cached.entries ≡ some saved → parent ≡ saved
unfolding cached
only_parent k saved h = elim (Bool-cases (text_eq (codes "run:a") k)) [
  | inl here ↦ some_injective (ap (λ b. if b then some parent else none) (sym here) ∙ h)
  | inr other ↦ absurd (none-some (ap (λ b. if b then some parent else none) (sym other) ∙ h))
]

parent_copies :
    (k : Text) (saved : Item vectors)
    → lookup k cached.entries ≡ some saved
    → is_exact vectors (request (codes "a")) saved ≡ true
    → ((copy_weights vectors (request (codes "a")) true saved.weights same_model.weights).1 == 0)
      ≡ false
unfolding program
parent_copies k saved found exactly =
    ap
      (λ i. (copy_weights vectors (request (codes "a")) true (i.weights) same_model.weights).1 == 0)
      (sym (only_parent k saved found))

found_parent : lookup (codes "run:a") cached.entries ≡ some parent
unfolding cached
found_parent = refl

inherit_exact_example :
    (c' : Cache vectors) × (model' : Model vectors) × (r : Report) × (inherit vectors
        (request (codes "a"))
        cached
        same_model
      ≡ ok (c', model', r))
    × (r.source ≡ some (codes "a"))
inherit_exact_example =
    inherit_exact vectors (request (codes "a")) json_size cached same_model (codes "run:a") parent
      cached-IsValid found_parent refl refl parent_copies
