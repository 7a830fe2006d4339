-- ===== src/Canonical.antt =====
-- Canonical identities: EvoNN-Shared/src/evonn_shared/canonical.py. `Value` is what the encoder is
-- given, `Json` the typed lists that it builds, and `Primitives` what it takes from Unicode tables,
-- number formatting and hashing of the standard library.
mod Keys
mod Dumps
mod Decoding
pub mod Injective
mod Rounds
pub mod Order
pub mod Omission
pub use Keys.{
  Error, invalid_schema_version, unsupported_type, integer_out_of_range, nonfinite_float,
  invalid_mapping_key, key_collision, volatile_field, absolute_path, invalid_unicode,
}
unfoldable pub use Keys.{
  validate_schema_version, validate_field, ends_with, is_absolute_or_drive_qualified_path,
  matches_schema_version,
}
unfoldable pub use Dumps.{json_dumps, utf8, decimal}
pub use Dumps.{Json, Jsons, jbool, jstr, jarr, jnil, jcons}
use evo_nn_research.Prelude.{
  ℕ, ◌^◌, Bool, true, false, not, ◌||◌, ◌&&◌, List, [], ◌∷◌, ◌++◌, Option, none, some, Text, codes,
  Float, finite, ℤ, pos, negsuc, ltb, if◌then◌else◌, is_finite, is_zero, is_utf8, text_eq, text_in,
  text_lt, all, map, Result, ok, raise, guard, reject_if, ◌>>=◌, ◌>>◌,
}

mutual
  pub data Value : Type 0 where
    null : Value
    bool : Bool → Value
    int : ℤ → Value
    float : Float → Value
    str : Text → Value
    bytes : Text → Value
    array : Values → Value
    mapping : Fields → Value
    other : Value

  pub data Values : Type 0 where
    nil : Values
    cons : Value → Values → Values

  -- The items of a mapping in their order; `none` stands for a key that is no string.
  pub data Fields : Type 0 where
    end : Fields
    field : Option Text → Value → Fields → Fields

pub record Primitives : Type 0 where
  -- `unicodedata.normalize("NFC", value)`
  pub nfc : Text → Text
  -- `value.hex()` of a finite float
  pub float_hex : Float → Text
  -- `base64.urlsafe_b64encode(value).rstrip(b"=").decode("ascii")`
  pub base64 : Text → Text
  -- `hashlib.sha256(payload).hexdigest()`
  pub sha256 : List ℕ → Text

-- A field of a mapping: its key, its value if that is a string, and its encoding.
pub record Entry : Type 0 where
  pub key : Option Text
  pub text : Option Text
  pub encoded : Result Error Json

pub record Normalized : Type 0 where
  pub key : Text
  pub text : Option Text
  pub encoded : Result Error Json

abbrev pub tagged : Text → Json → Json
tagged tag j = jarr (jcons (jstr tag) (jcons j jnil))

abbrev pub Encoding : Type 0 → Type 0
Encoding = Result Error

-- The signed 64-bit range: `negsuc n` is -(n + 1).
unfoldable pub encode_int : ℤ → Encoding Json
encode_int (pos n) =
    if ltb n (2 ^ 63)
    then ok (tagged (codes "i") (jstr (decimal n)))
    else raise integer_out_of_range
encode_int (negsuc n) =
    if ltb n (2 ^ 63)
    then ok (tagged (codes "i") (jstr (b'-' ∷ decimal (ℕ.suc n))))
    else raise integer_out_of_range

-- `text` of an entry
abbrev pub text_of : Value → Option Text
text_of (str t) = some t
text_of _ = none

-- The keys that the loop over `value.items()` has seen.
abbrev pub keys : List Normalized → List Text
keys = map (λ n. n.key)

-- `sorted(normalized_items, key=lambda key: key.encode("utf-8"))`
unfoldable pub insert_entry : Normalized → List Normalized → List Normalized
insert_entry n [] = n ∷ []
insert_entry n (m ∷ ms) = if text_lt m.key n.key then m ∷ insert_entry n ms else n ∷ m ∷ ms

unfoldable pub sort_entries : List Normalized → List Normalized
sort_entries [] = []
sort_entries (n ∷ ns) = insert_entry n (sort_entries ns)

abbrev pub is_omitted : Option Text → Text → Bool
is_omitted none key = false
is_omitted (some k) key = text_eq key k

-- The loop over the sorted keys: validates and encodes every field, and leaves the omitted one out.
unfoldable pub encode_sorted : Option Text → List Normalized → Encoding Jsons
encode_sorted omitted [] = ok jnil
encode_sorted omitted (n ∷ ns) = do
  validate_field n.key n.text
  encoded ← n.encoded
  rest ← encode_sorted omitted ns
  ok (
      if is_omitted omitted n.key
      then rest
      else jcons (jarr (jcons (jstr n.key) (jcons encoded jnil))) rest)

-- The list that `_canonical_bytes` builds: the encoding's name, the schema domain, the value.
abbrev pub document : Text → Json → Json
document schema_version encoded = jarr (
    jcons (jstr (codes "evonn-canonical-json-v1"))
      (jcons (jstr schema_version) (jcons encoded jnil)))

-- The end of `_canonical_bytes`: the text of the document and a line feed, as bytes.
unfoldable pub serialize : Text → Json → Encoding (List ℕ)
serialize schema_version encoded = do
  let text = json_dumps (document schema_version encoded) ++ 10 ∷ []
  guard (is_utf8 text) invalid_unicode
  ok (utf8 text)

module _ (p : Primitives) where
  unfoldable pub encode_float : Float → Encoding Json
  encode_float x = do
    guard (is_finite x) nonfinite_float
    let normalized = if is_zero x then finite false 0 (pos 0) else x
    ok (tagged (codes "f") (jstr (p.float_hex normalized)))

  -- The first loop of `_encode_mapping`, with the keys seen so far.
  unfoldable pub normalize_entries : List Text → List Entry → Encoding (List Normalized)
  normalize_entries seen [] = ok []
  normalize_entries seen (e ∷ es) = elim e.key [
    | none ↦ raise invalid_mapping_key
    | some k ↦
        let rest = normalize_entries (p.nfc k ∷ seen) es in
        if text_in (p.nfc k) seen
        then raise key_collision
        else (do ns ← rest; ok (record { key = p.nfc k; text = e.text; encoded = e.encoded } ∷ ns))
  ]

  -- `_encode_mapping`
  unfoldable pub encode_mapping : Option Text → List Entry → Encoding Json
  encode_mapping omitted entries = do
    normalized ← normalize_entries [] entries
    guard (all is_utf8 (keys normalized)) invalid_unicode
    items ← encode_sorted omitted (sort_entries normalized)
    ok (tagged (codes "m") (jarr items))

  -- `_encode`, below the top level.
  unfoldable mutual
    pub encode : Value → Encoding Json
    encode null = ok (jarr (jcons (jstr (codes "n")) jnil))
    encode (bool b) = ok (tagged (codes "b") (jbool b))
    encode (int n) = encode_int n
    encode (float x) = encode_float x
    encode (str t) = ok (tagged (codes "s") (jstr (p.nfc t)))
    encode (bytes b) = ok (tagged (codes "y") (jstr (p.base64 b)))
    encode (array vs) = do items ← encode_values vs; ok (tagged (codes "l") (jarr items))
    encode (mapping fs) = encode_mapping none (encode_fields fs)
    encode other = raise unsupported_type

    pub encode_values : Values → Encoding Jsons
    encode_values nil = ok jnil
    encode_values (cons v vs) = do j ← encode v; js ← encode_values vs; ok (jcons j js)

    pub encode_fields : Fields → List Entry
    encode_fields end = []
    encode_fields (field k v fs) =
        record { key = k; text = text_of v; encoded = encode v } ∷ encode_fields fs

  -- `_encode` at the top level, where one field of a mapping may be left out.
  unfoldable pub encode_top : Option Text → Value → Encoding Json
  encode_top omitted (mapping fs) = encode_mapping omitted (encode_fields fs)
  encode_top omitted v = encode v

  -- `_canonical_bytes`
  unfoldable pub canonical_bytes : Value → Text → Option Text → Encoding (List ℕ)
  canonical_bytes value schema_version omitted = do
    validate_schema_version schema_version
    encoded ← encode_top omitted value
    serialize schema_version encoded

  -- `_normalize_digest_field`
  unfoldable pub normalize_digest_field : Option Text → Encoding (Option Text)
  normalize_digest_field none = ok none
  normalize_digest_field (some t) = do
    guard (is_utf8 (p.nfc t)) invalid_unicode
    ok (some (p.nfc t))

  -- `canonical_sha256`
  unfoldable pub canonical_sha256 : Value → Text → Option Text → Encoding Text
  canonical_sha256 value schema_version digest_field = do
    omitted ← normalize_digest_field digest_field
    payload ← canonical_bytes value schema_version omitted
    ok (p.sha256 payload)
