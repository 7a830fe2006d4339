-- ===== src/Contract.antt =====
-- The text rules of the frozen contracts: EvoNN-Shared/src/evonn_shared/budgets.py, the helpers
-- that every contract model calls, and the rule by which a model reports its violations.
pub mod Identifiers
pub mod Sorting
use evo_nn_research.Prelude.{
  ℕ, ◌+◌, Bool, true, false, not, ◌&&◌, ◌||◌, List, [], ◌∷◌, ◌++◌, Option, none, some, Text, Float,
  ltb, leb, ◌==◌, if◌then◌else◌, all, any, length, is_finite, is_utf8, text_lt, text_eq, text_in,
  all_distinct, Result, ok, raise, guard, reject_if, ◌>>=◌, ◌>>◌, codes,
}

-- One constructor for each message that the contract models raise.
pub data Violation : Type 0 where
  not_utf8 blank control_character : Violation
  not_canonical_id not_run_id not_finite : Violation
  not_sorted has_duplicates : Violation
  not_positive not_nonnegative : Violation
  stage_names_repeat stage_sum_differs no_fidelity_stage : Violation
  failed_exceeds_actual actual_exceeds_count resumed_exceeds_cached : Violation
  coverage_exceeds_count resume_id_mismatch partial_mismatch : Violation
  processes_exceed_workers not_digest : Violation
  rank_not_positive source_evaluations_negative : Violation
  unseeded_ladder unseeded_overlap unseeded_provenance : Violation
  seeded_ladder seeded_incomplete seed_source_not_allowed : Violation
  path_not_utf8 path_not_relative path_not_normal : Violation
  unavailable_has_value value_missing value_not_nonnegative : Violation
  ok_result_invalid other_result_invalid coverage_sum_differs : Violation
  ceiling_not_finite unbounded_policy bounded_policy : Violation
  shape_empty shape_not_positive contenders_empty symmetry_unknown : Violation
  modalities_empty modalities_not_sorted modalities_repeat : Violation
  pack_empty pack_repeats budget_not_divisible : Violation
  seed_too_large pack_mismatch total_mismatch workers_mismatch device_mismatch : Violation
  records_not_sorted records_repeat coverage_mismatch distinct_mismatch : Violation
  declared_mismatch evaluations_mismatch semantics_differ not_payload_path : Violation

abbrev pub Checked : Type 0 → Type 0
Checked = Result Violation

-- `str.isspace` of one character, which `str.strip` removes.
unfoldable pub is_space : ℕ → Bool
is_space c =
    (leb 9 c && leb c 13)
    || (leb 28 c && leb c 32)
    || c == 0x85
    || c == 0xa0
    || c == 0x1680
    || (leb 0x2000 c && leb c 0x200a)
    || c == 0x2028
    || c == 0x2029
    || c == 0x202f
    || c == 0x205f
    || c == 0x3000

-- `unicodedata.category(c) == "Cc"`
unfoldable pub is_control : ℕ → Bool
is_control c = leb c 0x1f || (leb 0x7f c && leb c 0x9f)

-- `_human_text`
unfoldable pub human_text : Text → Checked Text
human_text value = do
  guard (is_utf8 value) not_utf8
  reject_if (all is_space value) blank
  reject_if (any is_control value) control_character
  ok value

abbrev pub is_lower : ℕ → Bool
is_lower c = leb b'a' c && leb c b'z'

abbrev pub is_digit : ℕ → Bool
is_digit c = leb b'0' c && leb c b'9'

abbrev pub is_alnum : ℕ → Bool
is_alnum c = is_lower c || is_digit c

-- The tail of `^[a-z][a-z0-9]*(?:_[a-z0-9]+)*$`, read by a scanner; the flag says that the last
-- character was an underscore.
unfoldable pub id_tail : Bool → Text → Bool
id_tail after_underscore [] = not after_underscore
id_tail after_underscore (c ∷ cs) =
    (is_alnum c || (c == b'_' && not after_underscore)) && id_tail (not (is_alnum c)) cs

-- `_CANONICAL_ID_PATTERN.fullmatch(value)`
unfoldable pub matches_canonical_id : Text → Bool
matches_canonical_id [] = false
matches_canonical_id (c ∷ cs) = is_lower c && id_tail false cs

-- `_canonical_id`
unfoldable pub canonical_id : Text → Checked Text
canonical_id value = do guard (matches_canonical_id value) not_canonical_id; ok value

abbrev pub is_alphanumeric : ℕ → Bool
is_alphanumeric c = is_alnum c || (leb b'A' c && leb c b'Z')

-- `_RUN_ID_PATTERN.fullmatch(value)`: `^[A-Za-z0-9][A-Za-z0-9._-]*$`
unfoldable pub matches_run_id : Text → Bool
matches_run_id [] = false
matches_run_id (c ∷ cs) =
    is_alphanumeric c && all (λ d. is_alphanumeric d || d == b'.' || d == b'_' || d == b'-') cs

-- `_run_id`
unfoldable pub run_id : Text → Checked Text
run_id value = do
  reject_if (ltb 128 (length value) || not (matches_run_id value)) not_run_id
  ok value

-- `_finite`
unfoldable pub finite_value : Float → Checked Float
finite_value value = do guard (is_finite value) not_finite; ok value

-- The loop `for value in values: _human_text(value, field_name)`
unfoldable pub human_texts : List Text → Checked (Unit {0})
human_texts [] = ok tt
human_texts (t ∷ ts) = do human_text t; human_texts ts

-- Puts a text behind those that are not greater: `sorted` is stable.
unfoldable pub insert_sorted : Text → List Text → List Text
insert_sorted t [] = t ∷ []
insert_sorted t (u ∷ us) = if text_lt u t then u ∷ insert_sorted t us else t ∷ u ∷ us

-- `sorted(values, key=lambda value: value.encode("utf-8"))`
unfoldable pub sorted : List Text → List Text
sorted [] = []
sorted (t ∷ ts) = insert_sorted t (sorted ts)

-- Equality of two tuples of texts.
abbrev pub texts_eq : List Text → List Text → Bool
texts_eq [] [] = true
texts_eq [] (u ∷ us) = false
texts_eq (t ∷ ts) [] = false
texts_eq (t ∷ ts) (u ∷ us) = text_eq t u && texts_eq ts us

-- `_utf8_sorted_unique`
unfoldable pub utf8_sorted_unique : List Text → Checked (List Text)
utf8_sorted_unique values = do
  human_texts values
  guard (texts_eq values (sorted values)) not_sorted
  guard (all_distinct values) has_duplicates
  ok values

-- A model reports one violation for each field whose validator raises.
abbrev pub violation_of {ℓ} : {A : Type ℓ} → Result Violation A → List Violation
violation_of (ok a) = []
violation_of (raise e) = e ∷ []

-- The model's own validator, `mode="after"`, runs only if every field is valid.
abbrev pub then_model : List Violation → Result Violation (Unit {0}) → List Violation
then_model [] model = violation_of model
then_model (e ∷ es) model = e ∷ es

-- A validator of `str | None`.
abbrev pub optional {ℓ} : {A : Type ℓ} → (A → List Violation) → Option A → List Violation
optional check none = []
optional check (some a) = check a
