-- ===== src/Canonical/Omission.antt =====
-- The digest field of EvoNN-Shared/src/evonn_shared/canonical.py: a document's digest does not
-- depend on the value that the document stores under the digest's own key.
use evo_nn_research.Prelude.{
  ◌≡◌, refl, ap, true, false, List, [], ◌∷◌, Option, some, Text, arith, ◌⊎◌, inl, inr, Bool-cases,
  text_lt, text_eq, text_eq_iff, if◌then◌else◌, is_utf8, all, Result-cases, ok, guard, returned,
}
use evo_nn_research.Canonical.Rounds.{Round, normalize-Round}
use evo_nn_research.Canonical.{
  Value, Fields, end, field, mapping, Primitives, Entry, Normalized, Jsons, Json, jarr, jstr, jcons,
  jnil, insert_entry, sort_entries, keys, normalize_entries, encode_sorted, encode_mapping,
  encode_fields, encode_top, canonical_bytes, normalize_digest_field, canonical_sha256,
  invalid_unicode,
}

-- The fields of two mappings are the same, but for the values under keys that normalise to `name`.
pub data SameBut (p : Primitives) (name : Text) : Fields → Fields → Type 0 where
  done : SameBut p name end end
  same :
      {fs gs : Fields} (k : Option Text) (v : Value)
      → SameBut p name fs gs
      → SameBut p name (field k v fs) (field k v gs)
  differ :
      {fs gs : Fields} (k : Text) (v w : Value)
      → p.nfc k ≡ name
      → SameBut p name fs gs
      → SameBut p name (field (some k) v fs) (field (some k) w gs)

module _ (name : Text) where
  -- One key, and one entry unless the key is the omitted one.
  abbrev Twin : Normalized → Normalized → Type 0
  Twin n m = (n.key ≡ m.key) × ((n.key ≡ name) ⊎ (n ≡ m))

  abbrev Twins : List Normalized → List Normalized → Type 0
  Twins [] [] = Unit
  Twins [] (m ∷ ms) = ⊥
  Twins (n ∷ ns) [] = ⊥
  Twins (n ∷ ns) (m ∷ ms) = Twin n m × Twins ns ms

  insert-Twin :
      (n m : Normalized) (ns ms : List Normalized)
      → Twin n m
      → Twins ns ms
      → Twins (insert_entry n ns) (insert_entry m ms)
  unfolding insert_entry
  insert-Twin n m [] [] t ts = (t, tt)
  insert-Twin n m [] (b ∷ ms) t ts = absurd ts
  insert-Twin n m (a ∷ ns) [] t ts = absurd ts
  insert-Twin n m (a ∷ ns) (b ∷ ms) t ts = elim (Bool-cases (text_lt a.key n.key)) [
    | inl before ↦
        let before' : text_lt b.key m.key ≡ true = rw (← ts.0.0, ← t.0) before in
        rw (before, before') (ts.0, insert-Twin n m ns ms t ts.1)
    | inr after ↦
        let after' : text_lt b.key m.key ≡ false = rw (← ts.0.0, ← t.0) after in
        rw (after, after') (t, ts)
  ]

  sort-Twins : (ns ms : List Normalized) → Twins ns ms → Twins (sort_entries ns) (sort_entries ms)
  unfolding sort_entries
  sort-Twins [] [] ts = tt
  sort-Twins [] (m ∷ ms) ts = absurd ts
  sort-Twins (n ∷ ns) [] ts = absurd ts
  sort-Twins (n ∷ ns) (m ∷ ms) ts =
      insert-Twin n m (sort_entries ns) (sort_entries ms) ts.0 (sort-Twins ns ms ts.1)

  -- What one successful round of the loop over the sorted keys says.
  record Emitted (n : Normalized) (ns : List Normalized) (i : Jsons) : Type 0 where
    encoded : Json
    rest : Jsons
    encodes : n.encoded ≡ ok encoded
    continues : encode_sorted (some name) ns ≡ ok rest
    result : i ≡ (
        if text_eq n.key name
        then rest
        else jcons (jarr (jcons (jstr n.key) (jcons encoded jnil))) rest)

  emitted :
      (n : Normalized) (ns : List Normalized) (i : Jsons)
      → encode_sorted (some name) (n ∷ ns) ≡ ok i
      → Emitted n ns i
  unfolding encode_sorted
  emitted n ns i h = elim (Result-cases n.encoded) [
    | inl (j, e) ↦ elim (Result-cases (encode_sorted (some name) ns)) [
      | inl (r, f) ↦ record {
        encoded = j;
        rest = r;
        encodes = e;
        continues = f;
        result = ground arith;
      }
      | inr (x, f) ↦ absurd (ground arith)
    ]
    | inr (x, e) ↦ absurd (ground arith)
  ]

  encode-Twins :
      (ns ms : List Normalized) (i j : Jsons)
      → Twins ns ms
      → encode_sorted (some name) ns ≡ ok i
      → encode_sorted (some name) ms ≡ ok j
      → i ≡ j
  encode-Twins [] [] i j ts g h = unfold encode_sorted in ground arith
  encode-Twins [] (m ∷ ms) i j ts g h = absurd ts
  encode-Twins (n ∷ ns) [] i j ts g h = absurd ts
  encode-Twins (n ∷ ns) (m ∷ ms) i j ts g h =
      let e : Emitted n ns i = emitted n ns i g in
      let f : Emitted m ms j = emitted m ms j h in
      let rests : e.rest ≡ f.rest = encode-Twins ns ms e.rest f.rest ts.1 e.continues f.continues in
      ground (arith, ts.0, rests, e.encodes, f.encodes, e.result, f.result, text_eq_iff n.key name)

module _ (p : Primitives) (name : Text) where
  normalize-Twin :
      {seen : List Text} {e f : Entry} {es fs : List Entry} {ns ms : List Normalized}
      → Round p seen e es ns
      → Round p seen f fs ms
      → e.key ≡ f.key
      → ((k : Text) → e.key ≡ some k → (p.nfc k ≡ name) ⊎ (e ≡ f))
      → ((seen : List Text) (ns ms : List Normalized)
          → normalize_entries p seen es ≡ ok ns
          → normalize_entries p seen fs ≡ ok ms
          → Twins name ns ms)
      → Twins name ns ms
  normalize-Twin {seen} {e} {f} {es} {fs} {ns} {ms} q r k t ih =
      let names : q.name ≡ r.name = ground (arith, q.is_string, r.is_string) in
      rw (q.split, r.split)
        (
          (
            ap p.nfc names,
            elim (t q.name q.is_string) [ inl o ↦ inl o | inr x ↦ inr (ground arith) ],
          ),
          ih (p.nfc q.name ∷ seen) q.rest r.rest q.continues (rw names r.continues),
        )

  normalize-Twins :
      {fs gs : Fields}
      → SameBut p name fs gs
      → (seen : List Text) (ns ms : List Normalized)
      → normalize_entries p seen (encode_fields p fs) ≡ ok ns
      → normalize_entries p seen (encode_fields p gs) ≡ ok ms
      → Twins name ns ms
  unfolding encode_fields
  normalize-Twins done seen ns ms g h =
      let e : ns ≡ [] = unfold normalize_entries in ground arith in
      let f : ms ≡ [] = unfold normalize_entries in ground arith in rw (e, f) tt
  normalize-Twins (same k v q) seen ns ms g h =
      normalize-Twin (normalize-Round p seen _ _ ns g) (normalize-Round p seen _ _ ms h) refl
        (λ _ _. inr refl) (normalize-Twins q)
  normalize-Twins (differ k v w o q) seen ns ms g h =
      normalize-Twin (normalize-Round p seen _ _ ns g) (normalize-Round p seen _ _ ms h) refl
        (λ l e. inl (ground arith)) (normalize-Twins q)

  encode_mapping-SameBut :
      {fs gs : Fields} (i j : Json)
      → SameBut p name fs gs
      → encode_mapping p (some name) (encode_fields p fs) ≡ ok i
      → encode_mapping p (some name) (encode_fields p gs) ≡ ok j
      → i ≡ j
  unfolding encode_mapping
  encode_mapping-SameBut {fs} {gs} i j q g h =
      let (ns, en, g') = returned (normalize_entries p [] (encode_fields p fs)) _ {v = i} g in
      let (ms, em, h') = returned (normalize_entries p [] (encode_fields p gs)) _ {v = j} h in
      let ts = normalize-Twins q [] ns ms en em in
      let (u, _, g'') = returned (guard (all is_utf8 (keys ns)) invalid_unicode) _ {v = i} g' in
      let (v, _, h'') = returned (guard (all is_utf8 (keys ms)) invalid_unicode) _ {v = j} h' in
      let (a, ea, ra) = returned (encode_sorted (some name) (sort_entries ns)) _ {v = i} g'' in
      let (b, eb, rb) = returned (encode_sorted (some name) (sort_entries ms)) _ {v = j} h'' in
      let same = encode-Twins name _ _ a b (sort-Twins name ns ms ts) ea eb in cc (same, ra, rb)

-- A document's digest does not depend on the value stored under its own digest field: two mappings
-- that differ only in values under keys which normalise to that field's name have one digest,
-- where both have a digest at all.
pub canonical_sha256_omits :
    (p : Primitives) {fs gs : Fields} (schema digest_field : Text) (d e : Text)
    → SameBut p (p.nfc digest_field) fs gs
    → canonical_sha256 p (mapping fs) schema (some digest_field) ≡ ok d
    → canonical_sha256 p (mapping gs) schema (some digest_field) ≡ ok e
    → d ≡ e
unfolding canonical_sha256 canonical_bytes encode_top normalize_digest_field
canonical_sha256_omits p {fs} {gs} schema digest_field d e q g h =
    let name = p.nfc digest_field in
    elim (Result-cases (encode_mapping p (some name) (encode_fields p fs))) [
      | inl (i, ei) ↦ elim (Result-cases (encode_mapping p (some name) (encode_fields p gs))) [
        | inl (j, ej) ↦ ground (arith, encode_mapping-SameBut p name i j q ei ej)
        | inr (x, ej) ↦ absurd (ground arith)
      ]
      | inr (x, ei) ↦ absurd (ground arith)
    ]
