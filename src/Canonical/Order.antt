-- ===== src/Canonical/Order.antt =====
-- The identity of a mapping does not depend on the order of its items: what `sorted` and the
-- collision test of EvoNN-Shared/src/evonn_shared/canonical.py are for.
use evo_nn_research.Prelude.{
  ◌≡◌, ◌≢◌, refl, ap, sym, ◌∙◌, true, List, [], ◌∷◌, Option, Text, arith, inl, inr, Bool-cases,
  Result-cases, ◌&&◌, ◌||◌, text_in, text_eq, text_eq_iff, text_lt, is_utf8, all, ok,
}
use evo_nn_research.Prelude.TextOrder.{text_lt_asymm, text_lt_trans, text_lt_connex}
use evo_nn_research.Canonical.Rounds.{normalized, Round, normalize-Round, Round-normalize}
use evo_nn_research.Canonical.{
  Value, Fields, end, field, mapping, Primitives, Entry, Normalized, insert_entry, sort_entries,
  keys, normalize_entries, encode_mapping, Json, encode_fields, text_of, encode, encode_top,
  normalize_digest_field, canonical_bytes, canonical_sha256,
}

-- `FieldsPerm fs gs`: the items of `gs` are those of `fs` in another order.
pub data FieldsPerm : Fields → Fields → Type 0 where
  done : FieldsPerm end end
  keep :
      {fs gs : Fields} (k : Option Text) (v : Value)
      → FieldsPerm fs gs
      → FieldsPerm (field k v fs) (field k v gs)
  swap :
      (k l : Option Text) (v w : Value) (fs : Fields)
      → FieldsPerm (field k v (field l w fs)) (field l w (field k v fs))
  trans : {fs gs hs : Fields} → FieldsPerm fs gs → FieldsPerm gs hs → FieldsPerm fs hs

insert_lt_comm :
    (a b : Normalized) (ns : List Normalized)
    → text_lt a.key b.key ≡ true
    → insert_entry a (insert_entry b ns) ≡ insert_entry b (insert_entry a ns)
unfolding insert_entry
insert_lt_comm a b [] h = ground (arith, text_lt_asymm a.key b.key)
insert_lt_comm a b (n ∷ ns) h =
    ground
      (arith, insert_lt_comm a b ns h, text_lt_asymm a.key b.key, text_lt_trans n.key a.key b.key)

insert_comm :
    (a b : Normalized) (ns : List Normalized)
    → a.key ≢ b.key
    → insert_entry a (insert_entry b ns) ≡ insert_entry b (insert_entry a ns)
insert_comm a b ns h = elim (Bool-cases (text_lt a.key b.key)) [
  | inl before ↦ insert_lt_comm a b ns before
  | inr other ↦ elim (Bool-cases (text_lt b.key a.key)) [
    | inl after ↦ sym (insert_lt_comm b a ns after)
    | inr neither ↦ absurd (h (text_lt_connex a.key b.key other neither))
  ]
]

-- The same texts were seen.
abbrev SameSeen : List Text → List Text → Type 0
SameSeen s t = (x : Text) → text_in x s ≡ text_in x t

-- Two lists of entries that pass the same tests, with the same sorted entries.
record Agree (ns ms : List Normalized) : Type 0 where
  sorted : sort_entries ns ≡ sort_entries ms
  utf8 : all is_utf8 (keys ns) ≡ all is_utf8 (keys ms)

module _ (p : Primitives) where
  normalize-SameSeen :
      (s t : List Text) (es : List Entry) (ns : List Normalized)
      → SameSeen s t
      → normalize_entries p s es ≡ ok ns
      → normalize_entries p t es ≡ ok ns
  normalize-SameSeen s t [] ns h g = unfold normalize_entries in g
  normalize-SameSeen s t (e ∷ es) ns h g =
      let r : Round p s e es ns = normalize-Round p s e es ns g in
      rw (r.split) (
        Round-normalize p t e es r.name r.rest r.is_string (sym (h (p.nfc r.name)) ∙ r.fresh) (
          normalize-SameSeen (p.nfc r.name ∷ s) (p.nfc r.name ∷ t) es r.rest
            (λ x. ap (λ b. text_eq (p.nfc r.name) x || b) (h x)) r.continues))

  normalize_swap :
      (seen : List Text) (e f : Entry) (es : List Entry) (ns : List Normalized)
      → normalize_entries p seen (e ∷ f ∷ es) ≡ ok ns
      → (ms : List Normalized) × (normalize_entries p seen (f ∷ e ∷ es) ≡ ok ms) × Agree ns ms
  unfolding sort_entries
  normalize_swap seen e f es ns h =
      let r : Round p seen e (f ∷ es) ns = normalize-Round p seen e (f ∷ es) ns h in
      let k = p.nfc r.name in
      let q : Round p (k ∷ seen) f es r.rest =
        normalize-Round p (k ∷ seen) f es r.rest r.continues in
      let l = p.nfc q.name in
      let a = normalized p r.name e in
      let b = normalized p q.name f in
      (
        b ∷ a ∷ q.rest,
        Round-normalize p seen f (e ∷ es) q.name (a ∷ q.rest) q.is_string (ground (arith, q.fresh))
            (Round-normalize p (l ∷ seen) e es r.name q.rest r.is_string
              (ground (arith, r.fresh, q.fresh, text_eq_iff l k, text_eq_iff k l))
              (normalize-SameSeen (l ∷ k ∷ seen) (k ∷ l ∷ seen) es q.rest (λ x. ground arith)
                q.continues)),
        record {
          sorted =
              rw (r.split, q.split)
                (insert_comm a b (sort_entries q.rest)
                  (λ same. ground (arith, q.fresh, text_eq_iff k l)));
          utf8 = rw (r.split, q.split) (ground arith);
        },
      )

  normalize_keep :
      (seen : List Text) (e : Entry) (es fs : List Entry) (ns : List Normalized)
      → ((seen : List Text) (ns : List Normalized)
          → normalize_entries p seen es ≡ ok ns
          → (ms : List Normalized) × (normalize_entries p seen fs ≡ ok ms) × Agree ns ms)
      → normalize_entries p seen (e ∷ es) ≡ ok ns
      → (ms : List Normalized) × (normalize_entries p seen (e ∷ fs) ≡ ok ms) × Agree ns ms
  unfolding sort_entries
  normalize_keep seen e es fs ns ih h =
      let r : Round p seen e es ns = normalize-Round p seen e es ns h in
      let (ms, goes_on, agree) = ih (p.nfc r.name ∷ seen) r.rest r.continues in
      (
        normalized p r.name e ∷ ms,
        Round-normalize p seen e fs r.name ms r.is_string r.fresh goes_on,
        record {
          sorted = rw (r.split) (ap (insert_entry (normalized p r.name e)) agree.sorted);
          utf8 = rw (r.split) (ap (λ b. is_utf8 (p.nfc r.name) && b) agree.utf8);
        },
      )

  normalize_perm :
      {fs gs : Fields}
      → FieldsPerm fs gs
      → (seen : List Text) (ns : List Normalized)
      → normalize_entries p seen (encode_fields p fs) ≡ ok ns
      → (ms : List Normalized) × (normalize_entries p seen (encode_fields p gs) ≡ ok ms)
        × Agree ns ms
  unfolding encode_fields
  normalize_perm done seen ns h = (ns, h, record { sorted = refl; utf8 = refl })
  normalize_perm (keep {fs} {gs} k v q) seen ns h =
      normalize_keep seen (record { key = k; text = text_of v; encoded = encode p v })
        (encode_fields p fs) (encode_fields p gs) ns (normalize_perm q) h
  normalize_perm (swap k l v w fs) seen ns h =
      normalize_swap seen (record { key = k; text = text_of v; encoded = encode p v })
        (record { key = l; text = text_of w; encoded = encode p w }) (encode_fields p fs) ns h
  normalize_perm (trans q r) seen ns h =
      let (ms, g, a) = normalize_perm q seen ns h in
      let (os, g', a') = normalize_perm r seen ms g in
      (os, g', record { sorted = a.sorted ∙ a'.sorted; utf8 = a.utf8 ∙ a'.utf8 })

  encode_mapping_perm :
      {fs gs : Fields} (omitted : Option Text) (j : Json)
      → FieldsPerm fs gs
      → encode_mapping p omitted (encode_fields p fs) ≡ ok j
      → encode_mapping p omitted (encode_fields p gs) ≡ ok j
  unfolding encode_mapping
  encode_mapping_perm {fs} {gs} omitted j q h =
      elim (Result-cases (normalize_entries p [] (encode_fields p fs))) [
        | inl (ns, e) ↦
            let (ms, g, a) = normalize_perm q [] ns e in ground (arith, a.sorted, a.utf8)
        | inr (x, e) ↦ absurd (ground arith)
      ]

  -- An identity does not depend on the order in which a mapping lists its items: where one order
  -- has a digest, every other order has the same one.
  pub canonical_sha256_perm :
      {fs gs : Fields} (schema : Text) (digest_field : Option Text) (digest : Text)
      → FieldsPerm fs gs
      → canonical_sha256 p (mapping fs) schema digest_field ≡ ok digest
      → canonical_sha256 p (mapping gs) schema digest_field ≡ ok digest
  unfolding canonical_sha256 canonical_bytes encode_top
  canonical_sha256_perm {fs} {gs} schema d digest q h =
      elim (Result-cases (normalize_digest_field p d)) [
        | inl (omitted, e) ↦ elim (Result-cases (encode_mapping p omitted (encode_fields p fs))) [
          | inl (j, f) ↦ ground (arith, encode_mapping_perm omitted j q f)
          | inr (x, f) ↦ absurd (ground arith)
        ]
        | inr (x, e) ↦ absurd (ground arith)
      ]
