-- ===== src/WeightCache/Outcomes.antt =====
-- What `inherit` of EvoNN-Shared/src/evonn_shared/weight_cache.py may do to the cache and to a model.
use evo_nn_research.Prelude.{
  lookup, remove, ◌≡◌, ◌≢◌, refl, ◌∙◌, true, List, [], ◌∷◌, ◌++◌, map, none, some, Bool-cases, Text,
  if◌then◌else◌, text_eq_iff, text_in, arith, inl, inr, ◌⊎◌, ◌↔◌,
}
use evo_nn_research.WeightCache.{Arrays, Item, Cache, Model}
use evo_nn_research.WeightCache.Inheriting.{
  Request, Report, exact, no_source, is_exact, float32_buffers,
}
use evo_nn_research.WeightCache.Contents.{TakesArrays, SameNumbers, SameNumbers-trans}

module _ (np : Arrays) (request : Request) where
  -- The entry has the identity that was asked for, or partial inheritance is allowed and the entry
  -- has the topology, a group that is compatible, or the family.
  abbrev pub IsAllowed : Item np → Type 0
  IsAllowed item =
      (item.identity ≡ request.identity)
      ⊎ ((request.allow_partial ≡ true)
          × ((item.topology ≡ request.topology)
              ⊎ ((text_in item.family request.compatible_groups ≡ true)
                  ⊎ (item.family ≡ request.family))))

  -- What was taken, and from which entry: the cache and the model before and after, and the report.
  pub record Takes (c : Cache np) (model : Model np) (c' : Cache np) (model' : Model np)
      (r : Report) : Type 0 where
    pub key : Text
    pub item : Item np
    pub found : lookup key c.entries ≡ some item
    pub in_namespace : item.namespace ≡ request.namespace
    pub source_is : r.source ≡ some item.identity
    pub allowed : IsAllowed item
    -- The weights that the entries tried before have left, and what this one makes of them.
    pub start : List (Text × np.Array)
    pub same_numbers : SameNumbers np model.weights start
    pub taken :
        TakesArrays np
          (item.identity ≡ request.identity)
          item.weights
          start
          model'.weights
          r.copied_parameters
    pub some_copied : r.copied_parameters ≢ 0
    pub exact_buffers :
        item.identity ≡ request.identity
        → model'.buffers ≡ map (λ (k, arrays). (k, map np.as_float32 arrays)) item.buffers
    pub other_buffers : item.identity ≢ request.identity → model'.buffers ≡ model.buffers
    pub exact_iff :
        (r.mode ≡ exact)
        ↔ ((item.identity ≡ request.identity) × (r.copied_parameters ≡ model.parameter_count))
    pub cache_is : c' ≡ record c { entries = remove key c.entries ++ (key, item) ∷ [] }

  abbrev pub nothing : Report
  nothing = record { mode = no_source; source = none; copied_parameters = 0 }

  -- The cache, the numbers and the buffers are as before, and the report says so.
  pub record TakesNothing (c : Cache np) (model : Model np) (c' : Cache np) (model' : Model np)
      (r : Report) : Type 0 where
    pub cache_is : c' ≡ c
    pub report_is : r ≡ nothing
    pub same_numbers : SameNumbers np model.weights model'.weights
    pub same_buffers : model'.buffers ≡ model.buffers

  abbrev pub Outcome : Cache np → Model np → Cache np → Model np → Report → Type 0
  Outcome c model c' model' r = TakesNothing c model c' model' r ⊎ Takes c model c' model' r

  -- What happens after numbers were kept.
  pub kept-Outcome :
      (c : Cache np) (model changed : Model np) (c' : Cache np) (model' : Model np) (r : Report)
      → SameNumbers np model.weights changed.weights
      → changed.buffers ≡ model.buffers
      → changed.parameter_count ≡ model.parameter_count
      → Outcome c changed c' model' r
      → Outcome c model c' model' r
  kept-Outcome c model changed c' model' r same buffers count (inl t) = inl (record {
    cache_is = t.cache_is;
    report_is = t.report_is;
    same_numbers =
        SameNumbers-trans np model.weights changed.weights model'.weights same t.same_numbers;
    same_buffers = t.same_buffers ∙ buffers;
  })
  kept-Outcome c model changed c' model' r same buffers count (inr t) = inr (record {
    key = t.key;
    item = t.item;
    found = t.found;
    in_namespace = t.in_namespace;
    source_is = t.source_is;
    allowed = t.allowed;
    start = t.start;
    same_numbers = SameNumbers-trans np model.weights changed.weights t.start same t.same_numbers;
    taken = t.taken;
    some_copied = t.some_copied;
    exact_buffers = t.exact_buffers;
    other_buffers = λ other. t.other_buffers other ∙ buffers;
    exact_iff = ground (arith, t.exact_iff, count);
    cache_is = t.cache_is;
  })

  -- The model with the buffers of an entry of the identity that was asked for.
  abbrev pub with_buffers : Item np → Model np → Model np
  with_buffers item model =
      if is_exact np request item
      then record model { buffers = float32_buffers np request item.buffers }
      else model

  pub with_buffers-weights :
      (item : Item np) (model : Model np) → (with_buffers item model).weights ≡ model.weights
  with_buffers-weights item model = elim (Bool-cases (is_exact np request item)) [
    | inl exactly ↦ rw exactly refl
    | inr other ↦ rw other refl
  ]

  pub with_buffers-exact :
      (item : Item np) (model : Model np)
      → item.identity ≡ request.identity
      → (with_buffers item model).buffers ≡ float32_buffers np request item.buffers
  with_buffers-exact item model same = rw ((text_eq_iff item.identity request.identity).1 same) refl

  pub with_buffers-other :
      (item : Item np) (model : Model np)
      → item.identity ≢ request.identity
      → (with_buffers item model).buffers ≡ model.buffers
  with_buffers-other item model differs = elim (Bool-cases (is_exact np request item)) [
    | inl exactly ↦ absurd (differs ((text_eq_iff item.identity request.identity).0 exactly))
    | inr other ↦ rw other refl
  ]
