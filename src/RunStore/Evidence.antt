-- ===== src/RunStore/Evidence.antt =====
-- What the digest of an evaluation row fixes: `_evaluation_digest` of
-- EvoNN-Shared/src/evonn_shared/run_store.py through the canonical encoding.
use evo_nn_research.Prelude.{
  ℕ, ◌≡◌, ◌≢◌, refl, sym, ◌∙◌, Bool, true, false, not, ◌&&◌, ◌||◌, List, [], ◌∷◌, none, Text, codes,
  Float, pos, arith, ◌⊎◌, inl, inr, ltb, leb, all, is_utf8, text_lt, ok, ◌>>=◌, Result-cases,
  returned,
}
use native.Mathlib.Decide.{ℕ_discrete}
use evo_nn_research.Contract.{is_alnum, id_tail, matches_canonical_id, canonical_id}
use evo_nn_research.Canonical.{
  Value, Primitives, Json, jstr, jarr, jcons, jnil, tagged, encode_top, encode_mapping,
  encode_fields, encode, encode_float, encode_int, normalize_entries, sort_entries, insert_entry,
  encode_sorted, validate_field, ends_with, canonical_bytes, canonical_sha256,
  normalize_digest_field,
}
use evo_nn_research.Canonical.Injective.{canonical_bytes-injective, canonical_bytes-Encodes}
use evo_nn_research.RunStore.{
  EvaluationRow, evaluation_value, evaluation_digest, is_hex_digest, validate_row,
}
use evo_nn_research.RunStore.Links.{row_digest}

abbrev is_ascii : Text → Bool
is_ascii = all (λ c. ltb c 128)

-- What Unicode documents of NFC: ASCII text is in normal form.
abbrev pub KeepsAscii : Primitives → Type 0
KeepsAscii p = (t : Text) → is_ascii t ≡ true → p.nfc t ≡ t

abbrev entry : Text → Json → Json
entry key j = jarr (jcons (jstr key) (jcons j jnil))

abbrev evaluation_json : Text → Text → Text → Json → Text → Json → Json
evaluation_json b k m x prev n = tagged (codes "m") (
    jarr (
      jcons (entry (codes "benchmark_id") (tagged (codes "s") (jstr b))) (
        jcons (entry (codes "contender_id") (tagged (codes "s") (jstr k))) (
          jcons (entry (codes "metric_name") (tagged (codes "s") (jstr m))) (
            jcons (entry (codes "metric_value") x) (
              jcons (entry (codes "previous_sha256") (tagged (codes "s") (jstr prev)))
                (jcons (entry (codes "sequence") n) jnil)))))))

module _ (p : Primitives) (ascii : KeepsAscii p) where
  encode_evaluation :
      (n : ℕ) (b k m : Text) (x : Float) (prev : Text)
      → encode_top p none (evaluation_value n b k m x prev) ≡ (do
        f ← encode_float p x
        i ← encode_int (pos n)
        ok (evaluation_json (p.nfc b) (p.nfc k) (p.nfc m) f (p.nfc prev) i))
  unfolding encode_top evaluation_value encode_mapping encode_fields encode normalize_entries
      sort_entries insert_entry encode_sorted validate_field ends_with text_lt is_utf8
  encode_evaluation n b k m x prev =
      rw
        (
          ascii (codes "benchmark_id") refl,
          ascii (codes "contender_id") refl,
          ascii (codes "metric_name") refl,
          ascii (codes "metric_value") refl,
          ascii (codes "previous_sha256") refl,
          ascii (codes "sequence") refl,
        )
        (ground arith)

  -- The encodings of two evaluations that are equal are equal part by part.
  encode_evaluation-parts :
      (n n' : ℕ) (b k m b' k' m' : Text) (x x' : Float) (prev prev' : Text) (j : Json)
      → encode_top p none (evaluation_value n b k m x prev) ≡ ok j
      → encode_top p none (evaluation_value n' b' k' m' x' prev') ≡ ok j
      → (p.nfc b ≡ p.nfc b')
        × (p.nfc k ≡ p.nfc k')
        × (p.nfc m ≡ p.nfc m')
        × (encode_float p x ≡ encode_float p x')
        × (p.nfc prev ≡ p.nfc prev')
  encode_evaluation-parts n n' b k m b' k' m' x x' prev prev' j g h =
      let e = sym (encode_evaluation n b k m x prev) ∙ g in
      let e' = sym (encode_evaluation n' b' k' m' x' prev') ∙ h in
      elim (Result-cases (encode_float p x)) [
        | inl (f, ef) ↦ elim (Result-cases (encode_float p x')) [
          | inl (f', ef') ↦ elim (Result-cases (encode_int (pos n))) [
            | inl (i, ei) ↦ elim (Result-cases (encode_int (pos n'))) [
              | inl (i', ei') ↦ ground arith
              | inr (y, ei') ↦ absurd (ground arith)
            ]
            | inr (y, ei) ↦ absurd (ground arith)
          ]
          | inr (y, ef') ↦ absurd (ground arith)
        ]
        | inr (y, ef) ↦ absurd (ground arith)
      ]

id_tail-is_ascii : (after : Bool) (t : Text) → id_tail after t ≡ true → is_ascii t ≡ true
unfolding id_tail
id_tail-is_ascii after [] h = refl
id_tail-is_ascii after (c ∷ cs) h = ground (arith, id_tail-is_ascii (not (is_alnum c)) cs)

canonical_id-is_ascii : (t u : Text) → canonical_id t ≡ ok u → is_ascii t ≡ true
unfolding canonical_id matches_canonical_id
canonical_id-is_ascii [] u h = refl
canonical_id-is_ascii (c ∷ cs) u h = ground (arith, id_tail-is_ascii false cs)

abbrev are_hex_digits : Text → Bool
are_hex_digits = all (λ c. (leb b'0' c && leb c b'9') || (leb b'a' c && leb c b'f'))

hex_digits-is_ascii : (t : Text) → are_hex_digits t ≡ true → is_ascii t ≡ true
hex_digits-is_ascii [] h = refl
hex_digits-is_ascii (c ∷ cs) h = ground (arith, hex_digits-is_ascii cs)

hex_digest-is_ascii : (t : Text) → is_hex_digest t ≡ true → is_ascii t ≡ true
unfolding is_hex_digest
hex_digest-is_ascii t h = ground (arith, hex_digits-is_ascii t)

-- Rows that say the same: their fields are equal, and their metric values have one encoding.
pub record SaysSame (p : Primitives) (r s : EvaluationRow) : Type 0 where
  pub sequence : r.sequence ≡ s.sequence
  pub benchmark_id : r.benchmark_id ≡ s.benchmark_id
  pub contender_id : r.contender_id ≡ s.contender_id
  pub metric_name : r.metric_name ≡ s.metric_name
  pub metric_value : encode_float p r.metric_value ≡ encode_float p s.metric_value
  pub previous_sha256 : r.previous_sha256 ≡ s.previous_sha256
  pub row_sha256 : r.row_sha256 ≡ s.row_sha256

abbrev pub evaluation_of : EvaluationRow → Value
evaluation_of r =
    evaluation_value r.sequence r.benchmark_id r.contender_id r.metric_name r.metric_value
      r.previous_sha256

-- The canonical bytes of two rows, of which their digests are taken, differ and have one SHA-256.
pub record Collision (p : Primitives) (r s : EvaluationRow) : Type 0 where
  pub one : List ℕ
  pub two : List ℕ
  pub one_is :
      canonical_bytes p (evaluation_of r) (codes "evonn.run_store.evaluation/v1") none ≡ ok one
  pub two_is :
      canonical_bytes p (evaluation_of s) (codes "evonn.run_store.evaluation/v1") none ≡ ok two
  pub differ : one ≢ two
  pub same_digest : p.sha256 one ≡ p.sha256 two

-- The bytes that a row's digest is taken of.
pub digest-bytes :
    (p : Primitives) (r : EvaluationRow)
    → row_digest p r ≡ ok r.row_sha256
    → (payload : List ℕ) × (canonical_bytes p
          (evaluation_of r)
          (codes "evonn.run_store.evaluation/v1")
          none
        ≡ ok payload)
      × (p.sha256 payload ≡ r.row_sha256)
unfolding evaluation_digest canonical_sha256 normalize_digest_field
digest-bytes p r h =
    let (payload, e, f) = returned (canonical_bytes p _ _ none) _ {v = r.row_sha256} h in
    (payload, e, ground arith)

bytes-discrete : Discrete (List ℕ)
bytes-discrete = hlevel ℕ_discrete

validated :
    (r : EvaluationRow)
    → validate_row r ≡ ok tt
    → (is_ascii r.benchmark_id ≡ true)
      × (is_ascii r.contender_id ≡ true)
      × (is_ascii r.metric_name ≡ true)
unfolding validate_row
validated r h = elim (Result-cases (canonical_id r.benchmark_id)) [
  | inl (b, eb) ↦ elim (Result-cases (canonical_id r.contender_id)) [
    | inl (k, ek) ↦ elim (Result-cases (canonical_id r.metric_name)) [
      | inl (m, em) ↦
          (canonical_id-is_ascii _ b eb, canonical_id-is_ascii _ k ek, canonical_id-is_ascii _ m em)
      | inr (x, em) ↦ absurd (ground arith)
    ]
    | inr (x, ek) ↦ absurd (ground arith)
  ]
  | inr (x, eb) ↦ absurd (ground arith)
]

says_same :
    (p : Primitives)
    → KeepsAscii p
    → (r s : EvaluationRow) → validate_row r ≡ ok tt
    → validate_row s ≡ ok tt
    → is_hex_digest r.previous_sha256 ≡ true
    → is_hex_digest s.previous_sha256 ≡ true
    → r.sequence ≡ s.sequence
    → r.row_sha256 ≡ s.row_sha256
    → (j : Json) → encode_top p none (evaluation_of r) ≡ ok j
    → encode_top p none (evaluation_of s) ≡ ok j
    → SaysSame p r s
says_same p ascii r s vr vs hr hs n e j g h =
    let (b, k, m, x, prev) = encode_evaluation-parts p ascii _ _ _ _ _ _ _ _ _ _ _ _ j g h in
    let (rb, rk, rm) = validated r vr in
    let (sb, sk, sm) = validated s vs in
    let plain : (t u : Text) → is_ascii t ≡ true → is_ascii u ≡ true → p.nfc t ≡ p.nfc u → t ≡ u =
      λ t u at au same. sym (ascii t at) ∙ same ∙ ascii u au in
    record {
      sequence = n;
      benchmark_id = plain _ _ rb sb b;
      contender_id = plain _ _ rk sk k;
      metric_name = plain _ _ rm sm m;
      metric_value = x;
      previous_sha256 = plain _ _ (hex_digest-is_ascii _ hr) (hex_digest-is_ascii _ hs) prev;
      row_sha256 = e;
    }

-- Two valid rows with one digest say the same, or the hash function collides on their bytes.
pub same_digest :
    (p : Primitives)
    → KeepsAscii p
    → (r s : EvaluationRow) → validate_row r ≡ ok tt
    → validate_row s ≡ ok tt
    → is_hex_digest r.previous_sha256 ≡ true
    → is_hex_digest s.previous_sha256 ≡ true
    → row_digest p r ≡ ok r.row_sha256
    → row_digest p s ≡ ok s.row_sha256
    → r.sequence ≡ s.sequence
    → r.row_sha256 ≡ s.row_sha256
    → SaysSame p r s ⊎ Collision p r s
same_digest p ascii r s vr vs hr hs dr ds n e =
    let (one, written_one, hashed_one) = digest-bytes p r dr in
    let (two, written_two, hashed_two) = digest-bytes p s ds in
    elim (bytes-discrete one two) [
      | yes same ↦
          let a = canonical_bytes-Encodes p _ _ none one written_one in
          let parts =
            canonical_bytes-injective p _ _ _ _ none none one written_one
              (rw (← same) at written_two) in
          inl (says_same p ascii r s vr vs hr hs n e a.encoded a.encodes (sym parts.1 ∙ a.encodes))
      | no other ↦ inr (record {
        one = one;
        two = two;
        one_is = written_one;
        two_is = written_two;
        differ = other;
        same_digest = cc;
      })
    ]
