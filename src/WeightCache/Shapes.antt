-- ===== src/WeightCache/Shapes.antt =====
-- The names and shapes of a model's weights under the loop of `inherit` of
-- EvoNN-Shared/src/evonn_shared/weight_cache.py that copies weights.
use evo_nn_research.Prelude.{
  lookup, ℕ, ◌≡◌, refl, ap, ◌∙◌, Bool, true, false, not, ◌&&◌, List, [], ◌∷◌, Option, none, some,
  Bool-cases, Text, ◌==◌, if◌then◌else◌, text_eq_iff, length, inl, inr,
}
use evo_nn_research.WeightCache.{Arrays, Model, shape_eq}
use evo_nn_research.WeightCache.Inheriting.{Request, copy_one, copy_weights}

module _ (np : Arrays) where
  -- NumPy assigns to a part of an array in place.
  abbrev pub KeepsShape : Type 0
  KeepsShape = (old value : np.Array) → np.shape (np.assign_common old value) ≡ np.shape value

  abbrev pub shapes : List (Text × np.Array) → List (Text × List ℕ)
  shapes [] = []
  shapes ((name, value) ∷ rest) = (name, np.shape value) ∷ shapes rest

  module _ (request : Request) (keeps : KeepsShape) where
    copy_one-shape :
        (same_identity : Bool) (saved : Option np.Array) (value : np.Array)
        → np.shape (copy_one np request same_identity saved value).0 ≡ np.shape value
    unfolding copy_one
    copy_one-shape same_identity none value = refl
    copy_one-shape same_identity (some saved) value =
        let old = np.as_float32 saved in
        elim (Bool-cases (shape_eq (np.shape old) (np.shape value))) [
          | inl equal ↦ rw (equal, copy_one) ((text_eq_iff (np.shape old) (np.shape value)).0 equal)
          | inr other ↦
              elim (Bool-cases
                (not same_identity && length (np.shape old) == length (np.shape value))) [
                  | inl fits ↦ rw (other, fits, copy_one) (keeps old value)
                  | inr left ↦ rw (other, left, copy_one) refl
                ]
        ]

    pub copy_weights-shapes :
        (same_identity : Bool) (source weights : List (Text × np.Array))
        → shapes (copy_weights np request same_identity source weights).0 ≡ shapes weights
    unfolding copy_weights
    copy_weights-shapes same_identity source [] = refl
    copy_weights-shapes same_identity source ((name, value) ∷ rest) =
        ap (λ s. (name, s) ∷ shapes (copy_weights np request same_identity source rest).0)
          (copy_one-shape same_identity (lookup name source) value)
        ∙ ap (◌∷◌ (name, np.shape value)) (copy_weights-shapes same_identity source rest)

  pub with_buffers-shapes :
      (exactly : Bool) (model : Model np) (buffers : List (Text × List np.Array))
      → shapes (if exactly then record model { buffers = buffers } else model).weights
        ≡ shapes model.weights
  with_buffers-shapes true model buffers = refl
  with_buffers-shapes false model buffers = refl
