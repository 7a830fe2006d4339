-- ===== src/Canonical/Rounds.antt =====
-- One round of the loop over `value.items()` in `_encode_mapping` of
-- EvoNN-Shared/src/evonn_shared/canonical.py, taken apart and put together.
use evo_nn_research.Prelude.{
  ◌≡◌, false, List, ◌∷◌, some, Text, arith, inl, inr, Bool-cases, Option-cases, text_in, ok,
  returned,
}
use evo_nn_research.Canonical.{Primitives, Entry, Normalized, normalize_entries}

module _ (p : Primitives) where
  abbrev pub normalized : Text → Entry → Normalized
  normalized k e = record { key = p.nfc k; text = e.text; encoded = e.encoded }

  -- What one successful round of the loop over the items says.
  pub record Round (seen : List Text) (e : Entry) (es : List Entry) (ns : List Normalized)
      : Type 0 where
    pub name : Text
    pub is_string : e.key ≡ some name
    pub fresh : text_in (p.nfc name) seen ≡ false
    pub rest : List Normalized
    pub continues : normalize_entries p (p.nfc name ∷ seen) es ≡ ok rest
    pub split : ns ≡ normalized name e ∷ rest

  pub normalize-Round :
      (seen : List Text) (e : Entry) (es : List Entry) (ns : List Normalized)
      → normalize_entries p seen (e ∷ es) ≡ ok ns
      → Round seen e es ns
  unfolding normalize_entries
  normalize-Round seen e es ns h = elim (Option-cases e.key) [
    | inl missing ↦ absurd (ground arith)
    | inr (k, present) ↦ elim (Bool-cases (text_in (p.nfc k) seen)) [
      | inl old ↦ absurd (ground arith)
      | inr new ↦
          let (rest, goes_on, same) =
            returned (normalize_entries p (p.nfc k ∷ seen) es) (λ ns'. ok (normalized k e ∷ ns'))
              {v = ns} (ground arith) in
          record {
            name = k;
            is_string = present;
            fresh = new;
            rest = rest;
            continues = goes_on;
            split = ground arith;
          }
    ]
  ]

  pub Round-normalize :
      (seen : List Text) (e : Entry) (es : List Entry) (k : Text) (rest : List Normalized)
      → e.key ≡ some k
      → text_in (p.nfc k) seen ≡ false
      → normalize_entries p (p.nfc k ∷ seen) es ≡ ok rest
      → normalize_entries p seen (e ∷ es) ≡ ok (normalized k e ∷ rest)
  unfolding normalize_entries
  Round-normalize seen e es k rest h f g = ground arith
