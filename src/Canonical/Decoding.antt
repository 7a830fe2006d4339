-- ===== src/Canonical/Decoding.antt =====
-- The bytes of a document determine it: `json.dumps` and UTF-8, as
-- EvoNN-Shared/src/evonn_shared/canonical.py uses them, are read back from the front.
use evo_nn_research.Prelude.{
  ℕ, ◌+◌, ◌-◌, ◌*◌, ◌%◌, ◌≡◌, refl, ap, sym, ◌∙◌, true, false, List, [], ◌∷◌, ◌++◌, Option, none,
  some, Text, arith, ltb, ◌==◌, if◌then◌else◌,
}
use mathlib.Core.List.{append_assoc}
use evo_nn_research.Canonical.Dumps.{
  Json, Jsons, jbool, jstr, jarr, jnil, jcons, hex_digit, escape, escaped, json_dumps, dumps_rest,
  utf8_of, utf8,
}

-- The character that a multi-byte sequence with the lead byte `a` stands for, and the rest.
utf8_longer : ℕ → List ℕ → Option (ℕ × List ℕ)
utf8_longer a (b ∷ c ∷ d ∷ s) =
    if ltb a 0xe0
    then some ((a - 0xc0) * 64 + (b - 0x80), c ∷ d ∷ s)
    else if ltb a 0xf0
    then some ((a - 0xe0) * 4096 + (b - 0x80) * 64 + (c - 0x80), d ∷ s)
    else some ((a - 0xf0) * 262144 + (b - 0x80) * 4096 + (c - 0x80) * 64 + (d - 0x80), s)
utf8_longer a (b ∷ c ∷ []) =
    if ltb a 0xe0
    then some ((a - 0xc0) * 64 + (b - 0x80), c ∷ [])
    else some ((a - 0xe0) * 4096 + (b - 0x80) * 64 + (c - 0x80), [])
utf8_longer a (b ∷ []) = some ((a - 0xc0) * 64 + (b - 0x80), [])
utf8_longer a [] = none

-- The first character of a UTF-8 text, and the bytes behind it.
utf8_first : List ℕ → Option (ℕ × List ℕ)
unfolding utf8_longer
utf8_first [] = none
utf8_first (a ∷ s) = if ltb a 0x80 then some (a, s) else utf8_longer a s

utf8_first-utf8_of : (c : ℕ) (s : List ℕ) → utf8_first (utf8_of c ++ s) ≡ some (c, s)
unfolding utf8_first utf8_of
utf8_first-utf8_of c [] = ground arith
utf8_first-utf8_of c (x ∷ []) = ground arith
utf8_first-utf8_of c (x ∷ x' ∷ s) = ground arith

hex_value : ℕ → ℕ
hex_value d = if ltb d b'a' then d - b'0' else d + 10 - b'a'

hex_value-hex_digit : (d : ℕ) → hex_value (hex_digit d) ≡ d
unfolding hex_value hex_digit
hex_value-hex_digit d = ground arith

unescape_hex : Text → Option (ℕ × Text)
unescape_hex (z ∷ z' ∷ h ∷ l ∷ s) = some ((h - b'0') * 16 + hex_value l, s)
unescape_hex _ = none

-- The character that a backslash and the character behind it stand for, and the rest.
unescape_second : ℕ → Text → Option (ℕ × Text)
unfolding unescape_hex
unescape_second e s =
    if e == b'"'
    then some (b'"', s)
    else if e == b'\\'
    then some (b'\\', s)
    else if e == b'n'
    then some (10, s)
    else if e == b'r'
    then some (13, s)
    else if e == b't'
    then some (9, s)
    else if e == b'f'
    then some (12, s)
    else if e == b'b'
    then some (8, s)
    else unescape_hex s

unescape_pair : Text → Option (ℕ × Text)
unescape_pair [] = none
unescape_pair (e ∷ s) = unescape_second e s

-- The first character inside a JSON string, and the text behind it; none at the closing quote.
unescape : Text → Option (ℕ × Text)
unfolding unescape_pair
unescape [] = none
unescape (c ∷ s) = if c == b'"' then none else if c == b'\\' then unescape_pair s else some (c, s)

unescape-escape : (c : ℕ) (s : Text) → unescape (escape c ++ s) ≡ some (c, s)
unfolding unescape unescape_second escape
unescape-escape c s = ground (arith, hex_value-hex_digit (c % 16))

some-pair :
    {a b : ℕ} {s t : List ℕ}
    → ◌≡◌ {A = Option (ℕ × List ℕ)} (some (a, s)) (some (b, t))
    → (a ≡ b) × (s ≡ t)
some-pair h = ground arith

utf8_of-cancel : (c d : ℕ) (s t : List ℕ) → utf8_of c ++ s ≡ utf8_of d ++ t → (c ≡ d) × (s ≡ t)
utf8_of-cancel c d s t h =
    some-pair (sym (utf8_first-utf8_of c s) ∙ ap utf8_first h ∙ utf8_first-utf8_of d t)

utf8_of-ne-nil : (c : ℕ) (s : List ℕ) → [] ≡ utf8_of c ++ s → ⊥
unfolding utf8_first
utf8_of-ne-nil c s h = let e : none ≡ some (c, s) = ap utf8_first h ∙ utf8_first-utf8_of c s in cc e

-- Texts with one encoding are equal.
pub utf8-injective : (a b : Text) → utf8 a ≡ utf8 b → a ≡ b
unfolding utf8
utf8-injective [] [] h = refl
utf8-injective [] (d ∷ b) h = absurd (utf8_of-ne-nil d (utf8 b) h)
utf8-injective (c ∷ a) [] h = absurd (utf8_of-ne-nil c (utf8 a) (sym h))
utf8-injective (c ∷ a) (d ∷ b) h =
    let (e, f) = utf8_of-cancel c d (utf8 a) (utf8 b) h in cc (e, utf8-injective a b f)

escape-cancel : (c d : ℕ) (s t : Text) → escape c ++ s ≡ escape d ++ t → (c ≡ d) × (s ≡ t)
escape-cancel c d s t h =
    some-pair (sym (unescape-escape c s) ∙ ap unescape h ∙ unescape-escape d t)

escape-ne-quote : (c : ℕ) (s t : Text) → b'"' ∷ t ≡ escape c ++ s → ⊥
unfolding unescape
escape-ne-quote c s t h = let e : none ≡ some (c, s) = ap unescape h ∙ unescape-escape c s in cc e

escaped-cons : (c : ℕ) (a s : Text) → escaped (c ∷ a) ++ s ≡ escape c ++ (escaped a ++ s)
unfolding escaped
escaped-cons c a s = append_assoc (escape c) (escaped a) s

-- Two strings in front of their closing quotes.
escaped-cancel :
    (a b s t : Text) → escaped a ++ b'"' ∷ s ≡ escaped b ++ b'"' ∷ t → (a ≡ b) × (s ≡ t)
escaped-cancel [] [] s t h = unfold escaped in ground arith
escaped-cancel [] (d ∷ b) s t h =
    absurd (escape-ne-quote d (escaped b ++ b'"' ∷ t) s (unfold escaped in h ∙ escaped-cons d b _))
escaped-cancel (c ∷ a) [] s t h =
    absurd
      (escape-ne-quote c (escaped a ++ b'"' ∷ s) t (unfold escaped in sym h ∙ escaped-cons c a _))
escaped-cancel (c ∷ a) (d ∷ b) s t h =
    let (e, f) =
      escape-cancel c d (escaped a ++ b'"' ∷ s) (escaped b ++ b'"' ∷ t)
        (sym (escaped-cons c a _) ∙ h ∙ escaped-cons d b _) in
    let (e', f') = escaped-cancel a b s t f in (cc (e, e'), f')

-- No document begins with a closing bracket.
json_dumps-ne-bracket : (j : Json) (s t : Text) → json_dumps j ++ s ≡ b']' ∷ t → ⊥
unfolding json_dumps
json_dumps-ne-bracket (jbool true) s t h = ground arith
json_dumps-ne-bracket (jbool false) s t h = ground arith
json_dumps-ne-bracket (jstr u) s t h = ground arith
json_dumps-ne-bracket (jarr jnil) s t h = ground arith
json_dumps-ne-bracket (jarr (jcons j js)) s t h = ground arith

cons-cancel : {c d : ℕ} {s t : Text} → c ∷ s ≡ d ∷ t → s ≡ t
cons-cancel h = ground arith

mutual
  unfolding json_dumps

  json_dumps-cancel :
      (j k : Json) (s t : Text) → json_dumps j ++ s ≡ json_dumps k ++ t → (j ≡ k) × (s ≡ t)
  json_dumps-cancel (jbool true) (jbool true) s t h = ground arith
  json_dumps-cancel (jbool false) (jbool false) s t h = ground arith
  json_dumps-cancel (jstr a) (jstr b) s t h =
      let (e, f) = escaped-cancel a b s t (
        sym (append_assoc (escaped a) (b'"' ∷ []) s)
        ∙ cons-cancel h
        ∙ append_assoc (escaped b) (b'"' ∷ []) t) in
      (cc e, f)
  json_dumps-cancel (jarr jnil) (jarr jnil) s t h = ground arith
  json_dumps-cancel (jarr jnil) (jarr (jcons k ks)) s t h = absurd (
      json_dumps-ne-bracket k (dumps_rest ks ++ t) s
        (sym (cons-cancel h ∙ append_assoc (json_dumps k) (dumps_rest ks) t)))
  json_dumps-cancel (jarr (jcons j js)) (jarr jnil) s t h = absurd (
      json_dumps-ne-bracket j (dumps_rest js ++ s) t
        (sym (append_assoc (json_dumps j) (dumps_rest js) s) ∙ cons-cancel h))
  json_dumps-cancel (jarr (jcons j js)) (jarr (jcons k ks)) s t h =
      let (e, f) = json_dumps-cancel j k (dumps_rest js ++ s) (dumps_rest ks ++ t) (
        sym (append_assoc (json_dumps j) (dumps_rest js) s)
        ∙ cons-cancel h
        ∙ append_assoc (json_dumps k) (dumps_rest ks) t) in
      let (e', f') = dumps_rest-cancel js ks s t f in (cc (e, e'), f')
  json_dumps-cancel _ _ s t h = absurd (ground arith)

  dumps_rest-cancel :
      (js ks : Jsons) (s t : Text) → dumps_rest js ++ s ≡ dumps_rest ks ++ t → (js ≡ ks) × (s ≡ t)
  dumps_rest-cancel jnil jnil s t h = ground arith
  dumps_rest-cancel (jcons j js) (jcons k ks) s t h =
      let (e, f) = json_dumps-cancel j k (dumps_rest js ++ s) (dumps_rest ks ++ t) (
        sym (append_assoc (json_dumps j) (dumps_rest js) s)
        ∙ cons-cancel h
        ∙ append_assoc (json_dumps k) (dumps_rest ks) t) in
      let (e', f') = dumps_rest-cancel js ks s t f in (cc (e, e'), f')
  dumps_rest-cancel _ _ s t h = absurd (ground arith)

-- Documents with one text are equal.
pub json_dumps-injective : (j k : Json) (s t : Text) → json_dumps j ++ s ≡ json_dumps k ++ t → j ≡ k
json_dumps-injective j k s t h = (json_dumps-cancel j k s t h).0
