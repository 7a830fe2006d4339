-- ===== src/Canonical/Dumps.antt =====
-- The JSON text of an encoded value: what EvoNN-Shared/src/evonn_shared/canonical.py uses of
-- `json.dumps`, `str` and `str.encode` of the standard library.
use evo_nn_research.Prelude.{
  ℕ, zero, suc, ◌+◌, ◌-◌, ◌/◌, ◌%◌, Bool, true, false, List, [], ◌∷◌, ◌++◌, Text, codes, ltb, ◌==◌,
  if◌then◌else◌,
}

mutual
  pub data Json : Type 0 where
    jbool : Bool → Json
    jstr : Text → Json
    jarr : Jsons → Json

  pub data Jsons : Type 0 where
    jnil : Jsons
    jcons : Json → Jsons → Jsons

-- `str(n)` of a natural number; the fuel is one more than the number.
decimal_from : ℕ → ℕ → Text
decimal_from zero n = []
decimal_from (suc fuel) n =
    let rest = decimal_from fuel (n / 10) ++ (b'0' + n % 10) ∷ [] in
    if ltb n 10 then (b'0' + n) ∷ [] else rest

unfoldable pub decimal : ℕ → Text
unfolding decimal_from
decimal n = decimal_from (suc n) n

unfoldable pub hex_digit : ℕ → ℕ
hex_digit d = if ltb d 10 then b'0' + d else b'a' + d - 10

-- One character of a JSON string, with `ensure_ascii=False`.
unfoldable pub escape : ℕ → Text
unfolding hex_digit
escape c =
    if c == b'"'
    then codes "\\\""
    else if c == b'\\'
    then codes "\\\\"
    else if c == 10
    then codes "\\n"
    else if c == 13
    then codes "\\r"
    else if c == 9
    then codes "\\t"
    else if c == 12
    then codes "\\f"
    else if c == 8
    then codes "\\b"
    else if ltb c 32
    then codes "\\u00" ++ (b'0' + c / 16) ∷ hex_digit (c % 16) ∷ []
    else c ∷ []

unfoldable pub escaped : Text → Text
unfolding escape
escaped [] = []
escaped (c ∷ cs) = escape c ++ escaped cs

-- `json.dumps(value, ensure_ascii=False, separators=(",", ":"))`
unfoldable mutual
  unfolding escaped

  pub json_dumps : Json → Text
  json_dumps (jbool true) = codes "true"
  json_dumps (jbool false) = codes "false"
  json_dumps (jstr t) = b'"' ∷ (escaped t ++ b'"' ∷ [])
  json_dumps (jarr jnil) = codes "[]"
  json_dumps (jarr (jcons j js)) = b'[' ∷ (json_dumps j ++ dumps_rest js)

  pub dumps_rest : Jsons → Text
  dumps_rest jnil = codes "]"
  dumps_rest (jcons j js) = b',' ∷ (json_dumps j ++ dumps_rest js)

-- `text.encode("utf-8")` of a text without surrogates.
unfoldable pub utf8_of : ℕ → List ℕ
utf8_of c =
    if ltb c 0x80
    then c ∷ []
    else if ltb c 0x800
    then (0xc0 + c / 64) ∷ (0x80 + c % 64) ∷ []
    else if ltb c 0x10000
    then (0xe0 + c / 4096) ∷ (0x80 + c / 64 % 64) ∷ (0x80 + c % 64) ∷ []
    else (0xf0 + c / 262144) ∷ (0x80 + c / 4096 % 64) ∷ (0x80 + c / 64 % 64) ∷ (0x80 + c % 64) ∷ []

unfoldable pub utf8 : Text → List ℕ
unfolding utf8_of
utf8 [] = []
utf8 (c ∷ cs) = utf8_of c ++ utf8 cs
