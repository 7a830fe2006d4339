-- ===== src/Examples/Toy.antt =====
-- Primitives that run, in place of Unicode tables, number formatting and SHA-256.
use evo_nn_research.Prelude.{
  ℕ, suc, zero, ◌+◌, ◌*◌, ◌/◌, ◌%◌, ◌≡◌, refl, true, List, [], ◌∷◌, Text, finite, ltb,
  if◌then◌else◌, is_utf8, text_lt, arith, ok, raise, length, all, leb, ◌&&◌, ◌||◌, Result,
}
use evo_nn_research.Canonical.{
  Primitives, encode, encode_top, encode_int, encode_float, encode_mapping, encode_sorted,
  normalize_entries, sort_entries, insert_entry, validate_field, ends_with,
  is_absolute_or_drive_qualified_path, validate_schema_version, matches_schema_version,
  canonical_bytes, serialize, json_dumps, utf8, decimal, normalize_digest_field, canonical_sha256,
}
use evo_nn_research.RunStore.{IsSha256Hex, is_hex_digest}

-- A checksum in place of the hash function: 64 hexadecimal digits of a polynomial in the bytes.
checksum : ℕ → List ℕ → ℕ
checksum acc [] = acc
checksum acc (b ∷ bs) = checksum ((acc * 257 + b) % 1000000007) bs

abbrev digit : ℕ → ℕ
digit d = if ltb d 10 then b'0' + d else 87 + d

digits : ℕ → ℕ → Text
digits zero n = []
digits (suc k) n = digit (n % 16) ∷ digits k (n / 16)

unfoldable pub toy_hash : List ℕ → Text
unfolding digits checksum
toy_hash payload = digits 64 (checksum 7 payload)

abbrev pub toy : Primitives
toy = record {
  nfc = λ t. t;
  float_hex = λ x. elim x [ finite s m e ↦ m ∷ [] | _ ↦ [] ];
  base64 = λ t. t;
  sha256 = toy_hash;
}

abbrev pub value_or : {E : Type 0} → Result E Text → Text
value_or (ok t) = t
value_or (raise e) = []

unfoldable pub encoder : Unit {0}
unfolding canonical_sha256 normalize_digest_field canonical_bytes serialize json_dumps utf8 decimal
    encode_top encode encode_mapping normalize_entries sort_entries insert_entry encode_sorted
    validate_field ends_with is_absolute_or_drive_qualified_path validate_schema_version
    matches_schema_version encode_int encode_float is_utf8 text_lt toy_hash
encoder = tt

digits-length : (k n : ℕ) → length (digits k n) ≡ k
unfolding digits
digits-length zero n = refl
digits-length (suc k) n = omega (arith, digits-length k (n / 16))

digits-hex :
    (k n : ℕ)
    → all (λ c. (leb b'0' c && leb c b'9') || (leb b'a' c && leb c b'f')) (digits k n) ≡ true
unfolding digits
digits-hex zero n = refl
digits-hex (suc k) n = ground (arith, digits-hex k (n / 16))

pub toy-IsSha256Hex : IsSha256Hex toy
unfolding is_hex_digest toy_hash
toy-IsSha256Hex payload =
    ground (arith, digits-length 64 (checksum 7 payload), digits-hex 64 (checksum 7 payload))
