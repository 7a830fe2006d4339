-- ===== src/RunStore/Tampering.antt =====
-- What `verify_evaluation_chain` of EvoNN-Shared/src/evonn_shared/run_store.py proves of the rows,
-- and what it cannot see.
use evo_nn_research.Prelude.{
  Result-cases, ℕ, suc, ◌≡◌, refl, sym, ◌∙◌, true, not, List, [], ◌∷◌, map, Text, Float, finite,
  is_zero, arith, ◌⊎◌, inl, inr, ok, if◌then◌else◌,
}
use evo_nn_research.Canonical.{
  Primitives, encode_float, encode, encode_fields, encode_top, canonical_bytes, canonical_sha256,
}
use evo_nn_research.RunStore.{
  EvaluationRow, Tables, IsSha256Hex, is_hex_digest, genesis_digest, evaluation_digest,
  evaluation_value, by_sequence, insert_by_sequence, validate_row, validate_rows, verify_from,
  verify_evaluation_chain, run, evaluations,
}
use evo_nn_research.RunStore.Links.{row_digest, verify_cons, verify_nil, verify-bound}
use evo_nn_research.RunStore.Evidence.{KeepsAscii, Collision, SaysSame, same_digest}
use evo_nn_research.RunStore.Chain.{verify_iff, digest-IsHex}

module _ (p : Primitives) where
  -- Row by row, the two lists say the same.
  abbrev pub RowsSaySame : List EvaluationRow → List EvaluationRow → Type 0
  RowsSaySame [] [] = Unit
  RowsSaySame [] (s ∷ ss) = ⊥
  RowsSaySame (r ∷ rs) [] = ⊥
  RowsSaySame (r ∷ rs) (s ∷ ss) = SaysSame p r s × RowsSaySame rs ss

  -- The hash function collides on the bytes of two rows that stand at one place of the lists.
  abbrev pub RowsCollide : List EvaluationRow → List EvaluationRow → Type 0
  RowsCollide [] ss = ⊥
  RowsCollide (r ∷ rs) [] = ⊥
  RowsCollide (r ∷ rs) (s ∷ ss) = Collision p r s ⊎ RowsCollide rs ss

  validate_cons :
      (r : EvaluationRow) (rs : List EvaluationRow)
      → validate_rows (r ∷ rs) ≡ ok tt
      → (validate_row r ≡ ok tt) × (validate_rows rs ≡ ok tt)
  unfolding validate_rows
  validate_cons r rs h = ground arith

  not-longer :
      (i n : ℕ) (a tip : Text) (y : EvaluationRow) (ys : List EvaluationRow)
      → verify_from p i a [] ≡ ok (n, tip)
      → (b : Text) → verify_from p i b (y ∷ ys) ≡ ok (n, tip)
      → ⊥
  not-longer i n a tip y ys h b k =
      let (_, k') = verify_cons p i b y ys (n, tip) k in
      omega
        (arith, (verify_nil p i a n tip h).0, (verify-bound p (suc i) y.row_sha256 ys n tip k').0)

  module _ (ascii : KeepsAscii p) (hex : IsSha256Hex p) where
    same_rows :
        (i : ℕ) (a b : Text) (xs ys : List EvaluationRow) (n : ℕ) (tip : Text)
        → is_hex_digest a ≡ true
        → is_hex_digest b ≡ true
        → validate_rows xs ≡ ok tt
        → validate_rows ys ≡ ok tt
        → verify_from p i a xs ≡ ok (n, tip)
        → verify_from p i b ys ≡ ok (n, tip)
        → ((a ≡ b) × RowsSaySame xs ys) ⊎ RowsCollide xs ys
    same_rows i a b [] [] n tip ha hb vx vy h k =
        inl (ground (arith, verify_nil p i a n tip h, verify_nil p i b n tip k), tt)
    same_rows i a b [] (y ∷ ys) n tip ha hb vx vy h k = absurd (not-longer i n a tip y ys h b k)
    same_rows i a b (x ∷ xs) [] n tip ha hb vx vy h k = absurd (not-longer i n b tip x xs k a h)
    same_rows i a b (x ∷ xs) (y ∷ ys) n tip ha hb vx vy h k =
        let (c, h') = verify_cons p i a x xs (n, tip) h in
        let (d, k') = verify_cons p i b y ys (n, tip) k in
        let (vx, vxs) = validate_cons x xs vx in
        let (vy, vys) = validate_cons y ys vy in
        elim (same_rows (suc i) x.row_sha256 y.row_sha256 xs ys n tip
          (digest-IsHex p hex x c.digest) (digest-IsHex p hex y d.digest) vxs vys h' k') [
            | inl (shas, tails) ↦
                elim (same_digest p ascii x y vx vy (rw (c.chained) ha) (rw (d.chained) hb) c.digest
                  d.digest (c.in_order ∙ sym d.in_order) shas) [
                    | inl heads ↦
                        inl (sym c.chained ∙ heads.previous_sha256 ∙ d.chained, (heads, tails))
                    | inr collision ↦ inr (inl collision)
                  ]
            | inr later ↦ inr (inr later)
          ]

-- Tamper evidence: two stores that are both verified, and whose run records agree on the run, the
-- count and the tip, hold the same rows in the order of their sequence numbers, up to the encoding
-- of the metric values; otherwise the canonical bytes of two of these rows, which stand at one place of
-- the two orders, differ and have one SHA-256. NFC is assumed to keep ASCII text, and a hash to be
-- 64 hexadecimal digits.
pub verified_rows :
    (p : Primitives)
    → KeepsAscii p
    → IsSha256Hex p
    → (t u : Tables) (n m : ℕ) → verify_evaluation_chain p t ≡ ok n
    → verify_evaluation_chain p u ≡ ok m
    → run t ≡ run u
    → RowsSaySame p (by_sequence t.evaluations) (by_sequence u.evaluations)
      ⊎ RowsCollide p (by_sequence t.evaluations) (by_sequence u.evaluations)
verified_rows p ascii hex t u n m h k e =
    let v = verify_iff p t n h in
    let w = verify_iff p u m k in
    let same : v.recorded ≡ w.recorded = ground (arith, v.one_run, w.one_run) in
    let chain : verify_from p 0 genesis_digest (by_sequence u.evaluations) ≡ ok (n, v.tip) =
      ground (
        arith, same, v.count_recorded, w.count_recorded, v.tip_recorded, w.tip_recorded, w.chain,
      ) in
    elim (same_rows p ascii hex 0 genesis_digest genesis_digest (by_sequence t.evaluations)
      (by_sequence u.evaluations) n v.tip genesis-hex genesis-hex v.rows_valid w.rows_valid v.chain
      chain) [ inl (_, rows) ↦ inl rows | inr collision ↦ inr collision ]
  where
    genesis-hex : is_hex_digest genesis_digest ≡ true
    genesis-hex = unfold is_hex_digest in refl

-- The other zero, for a zero.
abbrev pub negate_zero : Float → Float
negate_zero (finite s m e) = if is_zero (finite s m e) then finite (not s) m e else finite s m e
negate_zero x = x

abbrev pub negate_zeros : EvaluationRow → EvaluationRow
negate_zeros r = record r { metric_value = negate_zero r.metric_value }

module _ (p : Primitives) where
  encode-negate_zero : (x : Float) → encode_float p (negate_zero x) ≡ encode_float p x
  unfolding encode_float
  encode-negate_zero x = ground arith

  digest-negate_zeros : (r : EvaluationRow) → row_digest p (negate_zeros r) ≡ row_digest p r
  unfolding evaluation_digest evaluation_value canonical_sha256 canonical_bytes encode_top
      encode_fields encode
  digest-negate_zeros r = rw (encode-negate_zero r.metric_value)

  verify-negate_zeros :
      (i : ℕ) (a : Text) (rs : List EvaluationRow)
      → verify_from p i a (map negate_zeros rs) ≡ verify_from p i a rs
  unfolding verify_from
  verify-negate_zeros i a [] = refl
  verify-negate_zeros i a (r ∷ rs) =
      rw (digest-negate_zeros r, verify-negate_zeros (suc i) r.row_sha256 rs)

validate-negate_zeros :
    (rs : List EvaluationRow) → validate_rows (map negate_zeros rs) ≡ validate_rows rs
unfolding validate_rows validate_row
validate-negate_zeros [] = refl
validate-negate_zeros (r ∷ rs) = rw (validate-negate_zeros rs)

insert-negate_zeros :
    (r : EvaluationRow) (rs : List EvaluationRow)
    → insert_by_sequence (negate_zeros r) (map negate_zeros rs)
      ≡ map negate_zeros (insert_by_sequence r rs)
unfolding insert_by_sequence
insert-negate_zeros r [] = refl
insert-negate_zeros r (s ∷ rs) = ground (arith, insert-negate_zeros r rs)

sort-negate_zeros :
    (rs : List EvaluationRow)
    → by_sequence (map negate_zeros rs) ≡ map negate_zeros (by_sequence rs)
unfolding by_sequence
sort-negate_zeros [] = refl
sort-negate_zeros (r ∷ rs) = rw (sort-negate_zeros rs) (insert-negate_zeros r (by_sequence rs))

-- The verification does not see the sign of a zero: changing every metric value 0.0 to -0.0, and
-- every -0.0 to 0.0, leaves its verdict, error or count, as it is.
pub verify-negated_zeros :
    (p : Primitives) (t : Tables)
    → verify_evaluation_chain p (record t { evaluations = map negate_zeros t.evaluations })
      ≡ verify_evaluation_chain p t
unfolding verify_evaluation_chain evaluations run
verify-negated_zeros p t =
    let rows = by_sequence t.evaluations in
    let sorted = sort-negate_zeros t.evaluations in
    let validated = validate-negate_zeros rows in
    elim (Result-cases (validate_rows rows)) [
      | inl (valid, returns) ↦
          rw
            (
              sorted,
              validated,
              returns,
              verify-negate_zeros p 0 genesis_digest rows,
              verify_evaluation_chain,
              evaluations,
            )
            refl
      | inr (e, raises) ↦ rw (sorted, validated, raises, verify_evaluation_chain, evaluations) refl
    ]
