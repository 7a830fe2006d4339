-- ===== src/WeightCache/Isolation.antt =====
-- From where `inherit` of EvoNN-Shared/src/evonn_shared/weight_cache.py takes weights, and what it
-- leaves as it was.
use mathlib.Core.Path.{subst}
use evo_nn_research.Prelude.{
  lookup, remove, ℕ, ◌≡◌, refl, sym, ◌∙◌, Bool, true, false, not, ◌&&◌, ◌||◌, [], ◌∷◌, ◌++◌, some,
  Bool-cases, Text, All, ◌==◌, if◌then◌else◌, text_eq, text_eq_iff, ok, arith, inl, inr, ◌↔◌,
  ==_iff,
}
use evo_nn_research.WeightCache.{Arrays, Item, Cache, Model}
use evo_nn_research.WeightCache.Trimming.{Entries, HasDistinctKeys}
use evo_nn_research.WeightCache.Invariant.{IsValid}
use evo_nn_research.WeightCache.Inheriting.{
  Request, Report, exact, priority, candidates, insert_candidate, by_priority, is_exact,
  is_compatible, copy_weights, move_to_end, try_candidates, inherit, tuple_lt, mode_of,
  float32_buffers,
}
use evo_nn_research.WeightCache.Contents.{
  AssignsInPlace, TakesArrays, SameNumbers-refl, copy_weights-TakesArrays, nothing_taken,
}
use evo_nn_research.WeightCache.Outcomes.{
  IsAllowed, TakesNothing, Outcome, nothing, kept-Outcome, with_buffers, with_buffers-weights,
  with_buffers-exact, with_buffers-other,
}
use evo_nn_research.WeightCache.Shapes.{shapes, copy_weights-shapes, with_buffers-shapes}
use evo_nn_research.WeightCache.Moving.{distinct_lookup, move-IsValid}

if_either : {A : Type 0} (P : A → Type 0) (b : Bool) {x y : A} → P x → P y → P (if b then x else y)
if_either P true h k = h
if_either P false h k = k

module _ (np : Arrays) (request : Request) where
  -- An entry of the cache, in the namespace that was asked for.
  abbrev pub IsCandidate : Entries np → Text × Item np → Type 0
  IsCandidate es (k, item) = (lookup k es ≡ some item) × (item.namespace ≡ request.namespace)

  insert_candidate-All :
      (es : Entries np) (c : Text × Item np) (cs : Entries np)
      → IsCandidate es c
      → All (IsCandidate es) cs
      → All (IsCandidate es) (insert_candidate np request c cs)
  unfolding insert_candidate
  insert_candidate-All es c [] h hs = (h, tt)
  insert_candidate-All es c (d ∷ cs) h (g, gs) =
      if_either (All (IsCandidate es))
        (tuple_lt (priority np request (c.1)) (priority np request (d.1)))
        (g, insert_candidate-All es c cs h gs) (h, (g, gs))

  pub by_priority-All :
      (es cs : Entries np)
      → All (IsCandidate es) cs
      → All (IsCandidate es) (by_priority np request cs)
  unfolding by_priority
  by_priority-All es [] h = tt
  by_priority-All es (c ∷ cs) (h, hs) =
      insert_candidate-All es c (by_priority np request cs) h (by_priority-All es cs hs)

  pub candidates-All :
      (full es : Entries np)
      → HasDistinctKeys np es
      → ((k : Text) (item : Item np) → lookup k es ≡ some item → lookup k full ≡ some item)
      → All (IsCandidate full) (candidates np request es)
  unfolding candidates
  candidates-All full [] d h = tt
  candidates-All full ((k, item) ∷ es) (d, ds) h =
      let rest =
        candidates-All full es ds
          (λ j other there. h j other (distinct_lookup np k item es j other d there)) in
      elim (Bool-cases (text_eq item.namespace request.namespace)) [
        | inl here ↦ rw here (
          (
            h k item (ground (arith, text_eq_iff k k)),
            (text_eq_iff item.namespace request.namespace).0 here,
          ),
          rest,
        )
        | inr other ↦ rw other rest
      ]

  pub moved_of :
      (key : Text) (item : Item np) (es : Entries np)
      → lookup key es ≡ some item
      → move_to_end np request key es ≡ ok (remove key es ++ (key, item) ∷ [])
  unfolding move_to_end
  moved_of key item es found = rw (found, move_to_end) refl

  IsAllowed-of :
      (item : Item np)
      → not (is_exact np request item)
          && (not request.allow_partial || not (is_compatible np request item))
        ≡ false
      → IsAllowed np request item
  unfolding is_compatible
  IsAllowed-of item h = ground (
    arith,
    h,
    text_eq_iff item.identity request.identity,
    text_eq_iff item.topology request.topology,
    text_eq_iff item.family request.family,
  )

  mode_iff :
      (item : Item np) (copied : ℕ) (model : Model np)
      → (mode_of np request item copied model ≡ exact)
        ↔ ((item.identity ≡ request.identity) × (copied ≡ model.parameter_count))
  mode_iff item copied model =
      ground
        (arith, text_eq_iff item.identity request.identity, ==_iff copied model.parameter_count)

  try_candidates-Outcome :
      (place : AssignsInPlace np) (c : Cache np) (model : Model np) (cs : Entries np)
      → All (IsCandidate c.entries) cs
      → (c' : Cache np) × (model' : Model np) × (r : Report) × (try_candidates np request c model cs
          ≡ ok (c', model', r))
        × (shapes np model'.weights ≡ shapes np model.weights)
        × Outcome np request c model c' model' r
  unfolding try_candidates
  try_candidates-Outcome place c model [] hs =
      let kept : TakesNothing np request c model c model (nothing np request) = record {
        cache_is = refl;
        report_is = refl;
        same_numbers = SameNumbers-refl np model.weights;
        same_buffers = refl;
      } in
      (c, model, nothing np request, refl, refl, inl kept)
  try_candidates-Outcome place c model ((key, item) ∷ cs) ((found, here), hs) =
      let exactly = is_exact np request item in
      let refused =
        not exactly && (not request.allow_partial || not (is_compatible np request item)) in
      elim (Bool-cases refused) [
        | inl skipped ↦ rw skipped (try_candidates-Outcome place c model cs hs)
        | inr tried ↦
            let copied = copy_weights np request exactly item.weights model.weights in
            let changed : Model np = record model { weights = copied.0 } in
            let shaped =
              copy_weights-shapes np request place.keeps_shape exactly item.weights model.weights in
            let taken =
              copy_weights-TakesArrays np request (item.identity ≡ request.identity) exactly
                (text_eq_iff item.identity request.identity) item.weights model.weights in
            elim (Bool-cases (copied.1 == 0)) [
              | inl none_copied ↦
                  let (c', model', r, done, same_shapes, outcome) =
                    try_candidates-Outcome place c changed cs hs in
                  let same =
                    nothing_taken np (item.identity ≡ request.identity) item.weights model.weights
                      copied.0 copied.1 place taken ((==_iff copied.1 0).0 none_copied) in
                  (
                    c',
                    model',
                    r,
                    rw (tried, none_copied) done,
                    same_shapes ∙ shaped,
                    kept-Outcome np request c model changed c' model' r same refl refl outcome,
                  )
              | inr some_copied ↦
                  let model' = with_buffers np request item changed in
                  (
                    record c { entries = remove key c.entries ++ (key, item) ∷ [] },
                    model',
                    record {
                      mode = mode_of np request item copied.1 model;
                      source = some item.identity;
                      copied_parameters = copied.1;
                    },
                    rw (tried, some_copied, moved_of key item c.entries found) refl,
                    with_buffers-shapes np exactly changed (float32_buffers np request item.buffers)
                        ∙ shaped,
                    inr (record {
                      key = key;
                      item = item;
                      found = found;
                      in_namespace = here;
                      source_is = refl;
                      allowed = IsAllowed-of item tried;
                      start = model.weights;
                      same_numbers = SameNumbers-refl np model.weights;
                      taken =
                          subst
                            (λ ws.
                              TakesArrays np (item.identity ≡ request.identity) item.weights
                                model.weights ws copied.1)
                            (sym (with_buffers-weights np request item changed)) taken;
                      some_copied = λ z. absurd (ground (arith, some_copied, z));
                      exact_buffers = with_buffers-exact np request item changed;
                      other_buffers = with_buffers-other np request item changed;
                      exact_iff = mode_iff item copied.1 model;
                      cache_is = refl;
                    }),
                  )
            ]
      ]

module _ (np : Arrays) (entry_size : Text → Item np → ℕ) (request : Request) where
  -- On a cache whose sizes and byte count are right inherit raises no error and leaves such a cache;
  -- the weights of the model keep their names and shapes. Either nothing was taken, the cache is
  -- unchanged and the model has the numbers and the buffers that it had; or one entry of the
  -- namespace that was asked for was moved to the end, which has the identity that was asked for, or
  -- its topology, its family or a compatible group where partial inheritance is allowed, and each
  -- array of the model is what the entry saved under its name if the shapes agree, has the common
  -- corner of both written into it if the identity is another and the ranks agree, and has the
  -- numbers it had otherwise; the buffers are those of the entry if the identity is the one asked
  -- for, the report counts the numbers taken, and its mode is exact if and only if the identity is
  -- that one and as many were taken as the model has. NumPy is assumed to assign to a part of an
  -- array in place, and to leave an array as it is when the part is empty.
  pub inherit-Outcome :
      (c : Cache np) (model : Model np)
      → AssignsInPlace np
      → IsValid np entry_size c
      → (c' : Cache np) × (model' : Model np) × (r : Report) × (inherit np request c model
          ≡ ok (c', model', r))
        × (shapes np model'.weights ≡ shapes np model.weights)
        × IsValid np entry_size c'
        × Outcome np request c model c' model' r
  unfolding inherit
  inherit-Outcome c model place v =
      let listed =
        candidates-All np request c.entries c.entries v.distinct (λ k item there. there) in
      let (c', model', r, done, shaped, outcome) =
        try_candidates-Outcome np request place c model
          (by_priority np request (candidates np request c.entries))
          (by_priority-All np request c.entries (candidates np request c.entries) listed) in
      let valid : IsValid np entry_size c' = elim outcome [
        | inl t ↦ subst (IsValid np entry_size) (sym t.cache_is) v
        | inr t ↦
            subst (IsValid np entry_size) (sym t.cache_is)
              (move-IsValid np entry_size c t.key t.item v t.found)
      ] in
      (c', model', r, done, shaped, valid, outcome)
