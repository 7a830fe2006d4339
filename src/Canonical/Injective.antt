-- ===== src/Canonical/Injective.antt =====
-- The canonical bytes of EvoNN-Shared/src/evonn_shared/canonical.py bind the encoded value and the
-- schema domain: nothing is lost between `_encode` and the bytes that are hashed.
use evo_nn_research.Prelude.{
  ℕ, ◌≡◌, sym, ◌∙◌, List, [], ◌∷◌, ◌++◌, Option, Text, arith, inl, inr, ok, Result-cases,
}
use evo_nn_research.Canonical.{
  Value, Primitives, Json, document, json_dumps, utf8, serialize, encode_top, canonical_bytes,
  validate_schema_version,
}
use evo_nn_research.Canonical.Decoding.{utf8-injective, json_dumps-injective}

serialized :
    (s : Text) (j : Json) (payload : List ℕ)
    → serialize s j ≡ ok payload
    → payload ≡ utf8 (json_dumps (document s j) ++ 10 ∷ [])
unfolding serialize
serialized s j payload h = ground arith

document-injective : (s t : Text) (j k : Json) → document s j ≡ document t k → (s ≡ t) × (j ≡ k)
document-injective s t j k h = ground arith

pub serialize-injective :
    (s t : Text) (j k : Json) (payload : List ℕ)
    → serialize s j ≡ ok payload
    → serialize t k ≡ ok payload
    → (s ≡ t) × (j ≡ k)
serialize-injective s t j k payload g h = document-injective s t j k (
    json_dumps-injective (document s j) (document t k) (10 ∷ []) (10 ∷ []) (
      utf8-injective (json_dumps (document s j) ++ 10 ∷ []) (json_dumps (document t k) ++ 10 ∷ [])
        (sym (serialized s j payload g) ∙ serialized t k payload h)))

-- Where the bytes of a value come from.
pub record Encodes (p : Primitives) (v : Value) (s : Text) (omitted : Option Text)
    (payload : List ℕ) : Type 0 where
  pub encoded : Json
  pub encodes : encode_top p omitted v ≡ ok encoded
  pub written : serialize s encoded ≡ ok payload

pub canonical_bytes-Encodes :
    (p : Primitives) (v : Value) (s : Text) (omitted : Option Text) (payload : List ℕ)
    → canonical_bytes p v s omitted ≡ ok payload
    → Encodes p v s omitted payload
unfolding canonical_bytes
canonical_bytes-Encodes p v s omitted payload h = elim (Result-cases (validate_schema_version s)) [
  | inl (u, e) ↦ elim (Result-cases (encode_top p omitted v)) [
    | inl (j, f) ↦ record { encoded = j; encodes = f; written = ground arith }
    | inr (x, f) ↦ absurd (ground arith)
  ]
  | inr (x, e) ↦ absurd (ground arith)
]

-- Two values with one canonical byte string have one schema version, and `_encode` makes the same
-- of both: a digest collision between different schema domains or different encodings is a
-- collision of the hash function itself.
pub canonical_bytes-injective :
    (p : Primitives) (v w : Value) (s t : Text) (omitted omitted' : Option Text) (payload : List ℕ)
    → canonical_bytes p v s omitted ≡ ok payload
    → canonical_bytes p w t omitted' ≡ ok payload
    → (s ≡ t) × (encode_top p omitted v ≡ encode_top p omitted' w)
canonical_bytes-injective p v w s t omitted omitted' payload g h =
    let a = canonical_bytes-Encodes p v s omitted payload g in
    let b = canonical_bytes-Encodes p w t omitted' payload h in
    let (e, f) = serialize-injective s t a.encoded b.encoded payload a.written b.written in
    (e, cc (a.encodes, b.encodes, f))
