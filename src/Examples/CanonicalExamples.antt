-- ===== src/Examples/CanonicalExamples.antt =====
-- Inputs for EvoNN-Shared/src/evonn_shared/canonical.py.
use evo_nn_research.Prelude.{
  ℕ, ◌≡◌, refl, List, [], none, some, Text, codes, pos, ok, raise, Result,
}
use evo_nn_research.Canonical.{
  Value, Fields, end, field, int, str, mapping, encode_top, canonical_bytes, canonical_sha256,
  volatile_field, key_collision,
}
use evo_nn_research.Canonical.Order.{swap, canonical_sha256_perm}
use evo_nn_research.Canonical.Omission.{SameBut, done, differ, same, canonical_sha256_omits}
use evo_nn_research.Canonical.Injective.{canonical_bytes-injective}
use evo_nn_research.Examples.Toy.{toy, value_or, encoder}

abbrev schema : Text
schema = codes "evonn.test/v1"

abbrev by_name : Fields
by_name =
    field (some (codes "name")) (str (codes "adult"))
      (field (some (codes "size")) (int (pos 12)) end)

abbrev by_size : Fields
by_size =
    field (some (codes "size")) (int (pos 12))
      (field (some (codes "name")) (str (codes "adult")) end)

abbrev name_digest : Text
name_digest = value_or (canonical_sha256 toy (mapping by_name) schema none)

by_name_digest : canonical_sha256 toy (mapping by_name) schema none ≡ ok name_digest
unfolding encoder
by_name_digest = refl

canonical_sha256_perm_example : canonical_sha256 toy (mapping by_size) schema none ≡ ok name_digest
canonical_sha256_perm_example =
    canonical_sha256_perm toy schema none name_digest
      (swap (some (codes "name")) (some (codes "size")) (str (codes "adult")) (int (pos 12)) end)
      by_name_digest

volatile_refused :
    canonical_sha256 toy (mapping (field (some (codes "created_at")) Value.null end)) schema none
    ≡ raise volatile_field
unfolding encoder
volatile_refused = refl

collision_refused :
    canonical_sha256 toy
      (mapping (field (some (codes "a")) Value.null (field (some (codes "a")) Value.null end)))
      schema
      none
    ≡ raise key_collision
unfolding encoder
collision_refused = refl

-- The text of a document, as `json.dumps` writes it.
document_text :
    canonical_bytes toy (mapping by_size) schema none
    ≡ ok (
        codes
          "[\"evonn-canonical-json-v1\",\"evonn.test/v1\",[\"m\",[[\"name\",[\"s\",\"adult\"]],[\"size\",[\"i\",\"12\"]]]]]\n")
unfolding encoder
document_text = refl

abbrev sealed : Text → Fields
sealed t = field (some (codes "digest")) (str t) by_name

abbrev sealed_digest : Text
sealed_digest = value_or (canonical_sha256 toy (mapping (sealed [])) schema (some (codes "digest")))

empty_sealed :
    canonical_sha256 toy (mapping (sealed [])) schema (some (codes "digest")) ≡ ok sealed_digest
unfolding encoder
empty_sealed = refl

abbrev filled_digest : Text
filled_digest =
    value_or (canonical_sha256 toy (mapping (sealed name_digest)) schema (some (codes "digest")))

filled_sealed :
    canonical_sha256 toy (mapping (sealed name_digest)) schema (some (codes "digest"))
    ≡ ok filled_digest
unfolding encoder
filled_sealed = refl

sealed_same : (t u : Text) → SameBut toy (codes "digest") (sealed t) (sealed u)
sealed_same t u = differ (codes "digest") (str t) (str u) refl (same _ _ (same _ _ done))

canonical_sha256_omits_example : sealed_digest ≡ filled_digest
canonical_sha256_omits_example =
    canonical_sha256_omits toy schema (codes "digest") sealed_digest filled_digest
      (sealed_same [] name_digest) empty_sealed filled_sealed

abbrev bytes_or : {E : Type 0} → Result E (List ℕ) → List ℕ
bytes_or (ok t) = t
bytes_or (raise e) = []

abbrev name_bytes : List ℕ
name_bytes = bytes_or (canonical_bytes toy (mapping by_name) schema none)

by_name_bytes : canonical_bytes toy (mapping by_name) schema none ≡ ok name_bytes
unfolding encoder
by_name_bytes = refl

by_size_bytes : canonical_bytes toy (mapping by_size) schema none ≡ ok name_bytes
unfolding encoder
by_size_bytes = refl

canonical_bytes-injective_example :
    (schema ≡ schema)
    × (encode_top toy none (mapping by_name) ≡ encode_top toy none (mapping by_size))
canonical_bytes-injective_example =
    canonical_bytes-injective toy (mapping by_name) (mapping by_size) schema schema none none
      name_bytes by_name_bytes by_size_bytes
