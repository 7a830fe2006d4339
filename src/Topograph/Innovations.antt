-- ===== src/Topograph/Innovations.antt =====
-- The registry of innovation identities of EvoNN-Topograph/src/topograph/genome.py.
use evo_nn_research.Prelude.{
  ℕ, ◌+◌, ◌<◌, ◌≡◌, refl, inl, inr, List, ◌∷◌, none, some, Option-cases, if◌then◌else◌, Text,
  text_eq, text_eq_iff, lookup, arith,
}

pub record Innovations : Type 0 where
  pub counter : ℕ
  pub registry : List (Text × ℕ)

-- `obtain`: the identity, and the registry afterwards.
unfoldable pub obtain : Text → Innovations → ℕ × Innovations
obtain signature s = elim (lookup signature s.registry) [
  | none ↦ (
    s.counter,
    record { counter = s.counter + 1; registry = (signature, s.counter) ∷ s.registry },
  )
  | some n ↦ (n, s)
]

-- Every identity lies below the counter, and no two signatures share one.
pub record IsRegistry (s : Innovations) : Type 0 where
  pub below : (t : Text) (n : ℕ) → lookup t s.registry ≡ some n → n < s.counter
  pub apart :
      (t u : Text) (n : ℕ) → lookup t s.registry ≡ some n → lookup u s.registry ≡ some n → t ≡ u

module _ (signature : Text) (s : Innovations) (r : IsRegistry s) where
  abbrev extended : Innovations
  extended = record { counter = s.counter + 1; registry = (signature, s.counter) ∷ s.registry }

  extended-below : (t : Text) (n : ℕ) → lookup t extended.registry ≡ some n → n < s.counter + 1
  extended-below t n h = ground (arith, r.below t n)

  extended-apart :
      (t u : Text) (n : ℕ)
      → lookup t extended.registry ≡ some n
      → lookup u extended.registry ≡ some n
      → t ≡ u
  extended-apart t u n h k = ground (
    arith,
    r.below t n,
    r.below u n,
    r.apart t u n,
    text_eq_iff signature t,
    text_eq_iff signature u,
  )

-- From a registry in which identities lie below the counter and are not shared, `obtain` leads to
-- another, in which the signature has the identity that is returned and every other signature has
-- what it had.
pub obtain-IsRegistry :
    (signature : Text) (s : Innovations)
    → IsRegistry s
    → IsRegistry (obtain signature s).1
      × ((t : Text)
          → lookup t (obtain signature s).1.registry
            ≡ (if text_eq signature t then some (obtain signature s).0 else lookup t s.registry))
unfolding obtain
obtain-IsRegistry signature s r = elim (Option-cases (lookup signature s.registry)) [
  | inl unknown ↦
      rw (unknown, obtain)
        (
          record { below = extended-below signature s r; apart = extended-apart signature s r },
          λ t. refl,
        )
  | inr (n, known) ↦ rw (known, obtain) (r, λ t. ground (arith, text_eq_iff signature t, known))
]
