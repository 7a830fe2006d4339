-- ===== src/Canonical/Keys.antt =====
-- The tests on schema versions and keys of EvoNN-Shared/src/evonn_shared/canonical.py.
use evo_nn_research.Prelude.{
  ℕ, Bool, false, ◌||◌, ◌&&◌, [], ◌∷◌, Option, none, some, Text, codes, leb, ◌==◌, text_eq, all,
  length, Result, guard, reject_if, ◌>>◌,
}

-- The classes of `CanonicalIdentityError` that the encoder raises.
pub data Error : Type 0 where
  invalid_schema_version unsupported_type integer_out_of_range nonfinite_float : Error
  invalid_mapping_key key_collision volatile_field absolute_path invalid_unicode : Error

abbrev is_lower_or_digit : ℕ → Bool
is_lower_or_digit c = (leb b'a' c && leb c b'z') || (leb b'0' c && leb c b'9')

abbrev is_letter : ℕ → Bool
is_letter c = (leb b'a' c && leb c b'z') || (leb b'A' c && leb c b'Z')

-- `_SCHEMA_VERSION_PATTERN.fullmatch`: `^[a-z0-9][a-z0-9._/-]{0,127}$`
unfoldable pub matches_schema_version : Text → Bool
matches_schema_version [] = false
matches_schema_version (c ∷ cs) =
    is_lower_or_digit c
    && leb (length cs) 127
    && all (λ d. is_lower_or_digit d || d == b'.' || d == b'_' || d == b'/' || d == b'-') cs

-- `_validate_schema_version`
unfoldable pub validate_schema_version : Text → Result Error (Unit {0})
validate_schema_version t = guard (matches_schema_version t) invalid_schema_version

-- `key.endswith(suffix)`
unfoldable pub ends_with : Text → Text → Bool
ends_with suffix [] = text_eq suffix []
ends_with suffix (c ∷ cs) = text_eq suffix (c ∷ cs) || ends_with suffix cs

-- `_is_absolute_or_drive_qualified_path`
unfoldable pub is_absolute_or_drive_qualified_path : Text → Bool
is_absolute_or_drive_qualified_path [] = false
is_absolute_or_drive_qualified_path (c ∷ []) = c == b'/' || c == b'\\'
is_absolute_or_drive_qualified_path (c ∷ d ∷ ds) =
    c == b'/' || c == b'\\' || (is_letter c && d == b':')

abbrev is_volatile : Text → Bool
is_volatile key =
    text_eq key (codes "timestamp")
    || ends_with (codes "_timestamp") key
    || ends_with (codes "_at") key

abbrev names_path : Text → Bool
names_path key = text_eq key (codes "path") || ends_with (codes "_path") key

abbrev is_absolute : Option Text → Bool
is_absolute none = false
is_absolute (some t) = is_absolute_or_drive_qualified_path t

-- `_validate_field`, given the key and the value if that is a string.
unfoldable pub validate_field : Text → Option Text → Result Error (Unit {0})
validate_field key text = do
  reject_if (is_volatile key) volatile_field
  reject_if (names_path key && is_absolute text) absolute_path
