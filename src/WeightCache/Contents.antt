-- ===== src/WeightCache/Contents.antt =====
-- What becomes of the weights of a model in the loop of `inherit` of
-- EvoNN-Shared/src/evonn_shared/weight_cache.py that copies weights.
use evo_nn_research.Prelude.{
  lookup, ℕ, ◌+◌, ◌≡◌, ◌≢◌, refl, sym, ap, ◌∙◌, Bool, true, List, [], ◌∷◌, none, some, Option-cases,
  Bool-cases, Text, ◌==◌, ==_iff, text_eq_iff, length, inl, inr, ◌⊎◌, ◌↔◌, arith,
}
use evo_nn_research.WeightCache.{Arrays, shape_eq}
use evo_nn_research.WeightCache.Inheriting.{Request, copy_one, copy_weights}
use evo_nn_research.WeightCache.Shapes.{KeepsShape}

-- NumPy assigns to a part of an array in place, and an empty part changes nothing.
pub record AssignsInPlace (np : Arrays) : Type 0 where
  pub keeps_shape : KeepsShape np
  pub keeps_value :
      (old value : np.Array) → np.common_size old value ≡ 0 → np.assign_common old value ≡ value

module _ (np : Arrays) where
  -- What becomes of an array `value` of a model under the name `name`, and how many numbers are
  -- taken: from saved weights `source`, of a genome that is the same if `Same` holds.
  pub data TakesArray (Same : Type 0) (source : List (Text × np.Array)) (name : Text)
      (value : np.Array) : np.Array → ℕ → Type 0 where
    not_saved : lookup name source ≡ none → TakesArray Same source name value value 0
    whole :
        (saved : np.Array)
        → lookup name source ≡ some saved
        → np.shape (np.as_float32 saved) ≡ np.shape value
        → TakesArray Same source name value (np.as_float32 saved) (np.size (np.as_float32 saved))
    corner :
        (saved : np.Array)
        → lookup name source ≡ some saved
        → np.shape (np.as_float32 saved) ≢ np.shape value
        → (Same → ⊥)
        → length (np.shape (np.as_float32 saved)) ≡ length (np.shape value)
        → TakesArray Same source name value
            (np.assign_common (np.as_float32 saved) value)
            (np.common_size (np.as_float32 saved) value)
    unlike :
        (saved : np.Array)
        → lookup name source ≡ some saved
        → np.shape (np.as_float32 saved) ≢ np.shape value
        → (Same ⊎ (length (np.shape (np.as_float32 saved)) ≢ length (np.shape value)))
        → TakesArray Same source name value value 0

  -- Every array of a model, and how many numbers are taken in all.
  pub data TakesArrays (Same : Type 0) (source : List (Text × np.Array))
      : List (Text × np.Array) → List (Text × np.Array) → ℕ → Type 0 where
    no_arrays : TakesArrays Same source [] [] 0
    next_array :
        (name : Text) (value now : np.Array) (n : ℕ) (before after : List (Text × np.Array)) (m : ℕ)
        → TakesArray Same source name value now n
        → TakesArrays Same source before after m
        → TakesArrays Same source ((name, value) ∷ before) ((name, now) ∷ after) (n + m)

  -- The same numbers under the same names: arrays are equal, or have one shape and no elements.
  abbrev pub SameNumbers : List (Text × np.Array) → List (Text × np.Array) → Type 0
  SameNumbers [] [] = Unit
  SameNumbers [] (b ∷ bs) = ⊥
  SameNumbers (a ∷ as_) [] = ⊥
  SameNumbers ((k, a) ∷ as_) ((j, b) ∷ bs) =
      (k ≡ j) × ((a ≡ b) ⊎ ((np.shape a ≡ np.shape b) × (np.size b ≡ 0))) × SameNumbers as_ bs

  pub SameNumbers-refl : (as_ : List (Text × np.Array)) → SameNumbers as_ as_
  SameNumbers-refl [] = tt
  SameNumbers-refl ((k, a) ∷ as_) = (refl, inl refl, SameNumbers-refl as_)

  same_array_trans :
      (a b c : np.Array)
      → ((a ≡ b) ⊎ ((np.shape a ≡ np.shape b) × (np.size b ≡ 0)))
      → ((b ≡ c) ⊎ ((np.shape b ≡ np.shape c) × (np.size c ≡ 0)))
      → ((a ≡ c) ⊎ ((np.shape a ≡ np.shape c) × (np.size c ≡ 0)))
  same_array_trans a b c (inl e) (inl g) = inl (e ∙ g)
  same_array_trans a b c (inl e) (inr (s, z)) = inr (ap np.shape e ∙ s, z)
  same_array_trans a b c (inr (s, z)) (inl g) = inr (s ∙ ap np.shape g, sym (ap np.size g) ∙ z)
  same_array_trans a b c (inr (s, z)) (inr (t, w)) = inr (s ∙ t, w)

  pub SameNumbers-trans :
      (as_ bs cs : List (Text × np.Array))
      → SameNumbers as_ bs
      → SameNumbers bs cs
      → SameNumbers as_ cs
  SameNumbers-trans [] [] cs h g = g
  SameNumbers-trans [] (b ∷ bs) cs h g = absurd h
  SameNumbers-trans (a ∷ as_) [] cs h g = absurd h
  SameNumbers-trans (a ∷ as_) (b ∷ bs) [] h g = absurd g
  SameNumbers-trans ((i, a) ∷ as_) ((j, b) ∷ bs) ((k, c) ∷ cs) (e, h, hs) (f, g, gs) =
      (e ∙ f, same_array_trans a b c h g, SameNumbers-trans as_ bs cs hs gs)

  module _ (request : Request) (Same : Type 0) (same : Bool) (same_iff : (same ≡ true) ↔ Same) where
    copy_one-TakesArray :
        (source : List (Text × np.Array)) (name : Text) (value : np.Array)
        → TakesArray Same source name value
            (copy_one np request same (lookup name source) value).0
            (copy_one np request same (lookup name source) value).1
    unfolding copy_one
    copy_one-TakesArray source name value = elim (Option-cases (lookup name source)) [
      | inl none_saved ↦ rw (none_saved, copy_one) (not_saved none_saved)
      | inr (saved, found) ↦
          let old = np.as_float32 saved in
          elim (Bool-cases (shape_eq (np.shape old) (np.shape value))) [
            | inl equal ↦
                rw (found, equal, copy_one)
                  (whole saved found ((text_eq_iff (np.shape old) (np.shape value)).0 equal))
            | inr other ↦
                let differ : np.shape old ≢ np.shape value = λ e.
                  absurd
                    (ground (arith, other, (text_eq_iff (np.shape old) (np.shape value)).1 e)) in
                elim (Bool-cases same) [
                  | inl exactly ↦
                      rw (found, other, exactly, copy_one)
                        (unlike saved found differ (inl (same_iff.0 exactly)))
                  | inr foreign ↦
                      let foreigner : Same → ⊥ =
                        λ e. absurd (ground (arith, foreign, same_iff.1 e)) in
                      elim (Bool-cases (length (np.shape old) == length (np.shape value))) [
                        | inl ranks ↦
                            rw (found, other, foreign, ranks, copy_one)
                              (corner saved found differ foreigner (
                                (==_iff (length (np.shape old)) (length (np.shape value))).0 ranks))
                        | inr ranks ↦
                            rw (found, other, foreign, ranks, copy_one)
                              (unlike saved found differ (
                                inr (λ e. absurd (
                                  ground (
                                    arith,
                                    ranks,
                                    (==_iff (length (np.shape old)) (length (np.shape value))).1 e,
                                  )))))
                      ]
                ]
          ]
    ]

    pub copy_weights-TakesArrays :
        (source weights : List (Text × np.Array))
        → TakesArrays Same source weights
            (copy_weights np request same source weights).0
            (copy_weights np request same source weights).1
    unfolding copy_weights
    copy_weights-TakesArrays source [] = no_arrays
    copy_weights-TakesArrays source ((name, value) ∷ rest) =
        next_array name value _ _ rest _ _ (copy_one-TakesArray source name value)
          (copy_weights-TakesArrays source rest)

  array_kept :
      (Same : Type 0) (source : List (Text × np.Array)) (name : Text) (value now : np.Array) (k : ℕ)
      → AssignsInPlace np
      → TakesArray Same source name value now k
      → k ≡ 0
      → (value ≡ now) ⊎ ((np.shape value ≡ np.shape now) × (np.size now ≡ 0))
  array_kept Same source name value now k place (not_saved missing) e = inl refl
  array_kept Same source name value now k place (whole saved found shapes) e = inr (sym shapes, e)
  array_kept Same source name value now k place (corner saved found differ foreign ranks) e =
      inl (sym (place.keeps_value _ _ e))
  array_kept Same source name value now k place (unlike saved found differ why) e = inl refl

  -- Where no number is taken, the numbers stay.
  pub nothing_taken :
      (Same : Type 0) (source before after : List (Text × np.Array)) (n : ℕ)
      → AssignsInPlace np
      → TakesArrays Same source before after n
      → n ≡ 0
      → SameNumbers before after
  nothing_taken Same source before after n place no_arrays z = tt
  nothing_taken Same source before after n place
        (next_array name value now k before' after' m one rest) z =
      (
        refl,
        array_kept Same source name value now k place one (omega (arith, z)),
        nothing_taken Same source before' after' m place rest (omega (arith, z)),
      )
