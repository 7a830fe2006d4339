-- ===== src/RunStore/Links.antt =====
-- The loop of `verify_evaluation_chain` in EvoNN-Shared/src/evonn_shared/run_store.py, one row at a
-- time, and the order by sequence under an insertion at the end.
use evo_nn_research.Prelude.{
  ℕ, suc, ◌≤◌, ◌<◌, ◌≡◌, refl, ◌∙◌, List, [], ◌∷◌, ◌++◌, Text, arith, text_eq_iff, All, inl, inr,
  Result, ok, Result-cases,
}
use evo_nn_research.Canonical.{Primitives}
use evo_nn_research.Canonical as Canonical
use evo_nn_research.RunStore.{
  EvaluationRow, evaluation_digest, validate_row, validate_rows, insert_by_sequence, by_sequence,
  last_row, next_link, verify_from,
}

module _ (p : Primitives) where
  abbrev pub row_digest : EvaluationRow → Result Canonical.Error Text
  row_digest r =
      evaluation_digest p r.sequence r.benchmark_id r.contender_id r.metric_name r.metric_value
        r.previous_sha256

  -- A row that continues the chain at `index` behind the digest `previous`.
  pub record Continues (index : ℕ) (previous : Text) (r : EvaluationRow) : Type 0 where
    pub in_order : r.sequence ≡ index
    pub chained : r.previous_sha256 ≡ previous
    pub digest : row_digest r ≡ ok r.row_sha256

  pub verify_cons :
      (i : ℕ) (prev : Text) (r : EvaluationRow) (rs : List EvaluationRow) (x : ℕ × Text)
      → verify_from p i prev (r ∷ rs) ≡ ok x
      → Continues i prev r × (verify_from p (suc i) r.row_sha256 rs ≡ ok x)
  unfolding verify_from
  verify_cons i prev r rs x h = elim (Result-cases (row_digest r)) [
    | inl (d, e) ↦ ground (arith, text_eq_iff r.previous_sha256 prev, text_eq_iff d r.row_sha256)
    | inr (y, e) ↦ absurd (ground arith)
  ]

  pub cons_verify :
      (i : ℕ) (prev : Text) (r : EvaluationRow) (rs : List EvaluationRow)
      → Continues i prev r
      → verify_from p i prev (r ∷ rs) ≡ verify_from p (suc i) r.row_sha256 rs
  unfolding verify_from
  cons_verify i prev r rs c =
      ground
        (arith, c.digest, text_eq_iff r.previous_sha256 prev, text_eq_iff r.row_sha256 r.row_sha256)

  pub verify-bound :
      (i : ℕ) (prev : Text) (rs : List EvaluationRow) (n : ℕ) (t : Text)
      → verify_from p i prev rs ≡ ok (n, t)
      → (i ≤ n) × All (λ r. r.sequence < n) rs
  verify-bound i prev [] n t h = unfold verify_from in ground arith
  verify-bound i prev (r ∷ rs) n t h =
      let (c, h') = verify_cons i prev r rs (n, t) h in
      let (le, bounds) = verify-bound (suc i) r.row_sha256 rs n t h' in
      (omega arith, (omega (arith, c.in_order), bounds))

  pub verify_nil :
      (i : ℕ) (prev : Text) (n : ℕ) (t : Text)
      → verify_from p i prev [] ≡ ok (n, t)
      → (i ≡ n) × (prev ≡ t)
  unfolding verify_from
  verify_nil i prev n t h = ground arith

  verify_one :
      (n : ℕ) (t : Text) (r : EvaluationRow)
      → Continues n t r
      → verify_from p n t (r ∷ []) ≡ ok (suc n, r.row_sha256)
  unfolding verify_from
  verify_one n t r c = cons_verify n t r [] c ∙ refl

  pub verify-snoc :
      (i : ℕ) (prev : Text) (rs : List EvaluationRow) (n : ℕ) (t : Text) (r : EvaluationRow)
      → verify_from p i prev rs ≡ ok (n, t)
      → Continues n t r
      → verify_from p i prev (rs ++ r ∷ []) ≡ ok (suc n, r.row_sha256)
  verify-snoc i prev [] n t r h c =
      let (e, f) = verify_nil i prev n t h in rw (e, f) (verify_one n t r c)
  verify-snoc i prev (s ∷ rs) n t r h c =
      let (d, h') = verify_cons i prev s rs (n, t) h in
      cons_verify i prev s (rs ++ r ∷ []) d ∙ verify-snoc (suc i) s.row_sha256 rs n t r h' c

  pub verify-last :
      (i : ℕ) (prev : Text) (r : EvaluationRow) (rs : List EvaluationRow) (n : ℕ) (t : Text)
      → verify_from p i prev (r ∷ rs) ≡ ok (n, t)
      → next_link (last_row (r ∷ rs)) ≡ (n, t)
  unfolding next_link last_row
  verify-last i prev r [] n t h =
      let (c, h') = verify_cons i prev r [] (n, t) h in
      unfold verify_from in ground (arith, c.in_order)
  verify-last i prev r (s ∷ rs) n t h =
      let (c, h') = verify_cons i prev r (s ∷ rs) (n, t) h in
      verify-last (suc i) r.row_sha256 s rs n t h'

insert-snoc :
    (x r : EvaluationRow) (l : List EvaluationRow)
    → x.sequence ≤ r.sequence
    → insert_by_sequence x (l ++ r ∷ []) ≡ insert_by_sequence x l ++ r ∷ []
unfolding insert_by_sequence
insert-snoc x r [] h = ground arith
insert-snoc x r (s ∷ l) h = ground (arith, insert-snoc x r l h)

pub by_sequence-snoc :
    (l : List EvaluationRow) (r : EvaluationRow)
    → All (λ s. s.sequence < r.sequence) l
    → by_sequence (l ++ r ∷ []) ≡ by_sequence l ++ r ∷ []
unfolding by_sequence insert_by_sequence
by_sequence-snoc [] r h = refl
by_sequence-snoc (x ∷ l) r h =
    rw (by_sequence-snoc l r h.1) (insert-snoc x r (by_sequence l) (omega arith))

All-insert :
    (n : ℕ) (x : EvaluationRow) (l : List EvaluationRow)
    → All (λ s. s.sequence < n) (insert_by_sequence x l)
    → (x.sequence < n) × All (λ s. s.sequence < n) l
unfolding insert_by_sequence
All-insert n x [] h = h
All-insert n x (s ∷ l) h = ground (arith, All-insert n x l)

-- A bound on the sorted rows is a bound on the rows.
pub All-by_sequence :
    (n : ℕ) (l : List EvaluationRow)
    → All (λ s. s.sequence < n) (by_sequence l)
    → All (λ s. s.sequence < n) l
unfolding by_sequence
All-by_sequence n [] h = tt
All-by_sequence n (x ∷ l) h =
    let (a, b) = All-insert n x (by_sequence l) h in (a, All-by_sequence n l b)

pub validate-snoc :
    (l : List EvaluationRow) (r : EvaluationRow)
    → validate_rows l ≡ ok tt
    → validate_row r ≡ ok tt
    → validate_rows (l ++ r ∷ []) ≡ ok tt
unfolding validate_rows
validate-snoc [] r h k = ground arith
validate-snoc (s ∷ l) r h k = ground (arith, validate-snoc l r)
