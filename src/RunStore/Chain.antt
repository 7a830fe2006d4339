-- ===== src/RunStore/Chain.antt =====
-- `append_evaluation` of EvoNN-Shared/src/evonn_shared/run_store.py continues the chain that
-- `verify_evaluation_chain` accepts.
use evo_nn_research.Prelude.{
  ℕ, suc, ◌+◌, ◌<◌, ◌≡◌, refl, true, List, [], ◌∷◌, none, Text, Float, arith, inl, inr, text_eq_iff,
  All, ok, returned, Result-cases,
}
use evo_nn_research.Contract.{canonical_id}
use evo_nn_research.Canonical.{
  Primitives, canonical_bytes, normalize_digest_field, canonical_sha256,
}
use evo_nn_research.RunStore.{
  EvaluationRow, RunRow, Tables, Connection, Faults, view, IsSha256Hex, is_hex_digest,
  genesis_digest, evaluation_digest, validate_row, validate_rows, run_record, by_sequence, last_row,
  next_link, verify_from, verify_evaluation_chain, evaluations, run, append_evaluation,
  append_statements, transaction, new_row,
}
use evo_nn_research.RunStore.Transactions.{extended, transaction_returns}
use evo_nn_research.RunStore.Links.{
  Continues, row_digest, verify_nil, verify-last, verify-bound, verify-snoc, by_sequence-snoc,
  All-by_sequence, validate-snoc,
}

abbrev row_of : ℕ → Text → Text → Text → Float → Text → Text → EvaluationRow
row_of n b k m x prev d = record {
  sequence = n;
  benchmark_id = b;
  contender_id = k;
  metric_name = m;
  metric_value = x;
  previous_sha256 = prev;
  row_sha256 = d;
}

canonical_id-eq : (t u : Text) → canonical_id t ≡ ok u → u ≡ t
unfolding canonical_id
canonical_id-eq t u h = ground arith

module _ (p : Primitives) where
  -- The parts of a store that `verify_evaluation_chain` accepts with `n` rows.
  pub record IsVerified (t : Tables) (n : ℕ) : Type 0 where
    pub recorded : RunRow
    pub one_run : run t ≡ ok recorded
    pub rows_valid : validate_rows (by_sequence t.evaluations) ≡ ok tt
    pub tip : Text
    pub chain : verify_from p 0 genesis_digest (by_sequence t.evaluations) ≡ ok (n, tip)
    pub count_recorded : recorded.evaluation_count ≡ n
    pub tip_recorded : recorded.evaluation_tip_sha256 ≡ tip

  pub verify_iff : (t : Tables) (n : ℕ) → verify_evaluation_chain p t ≡ ok n → IsVerified t n
  unfolding verify_evaluation_chain evaluations
  verify_iff t n h = elim (Result-cases (run t)) [
    | inl (r, er) ↦ elim (Result-cases (validate_rows (by_sequence t.evaluations))) [
      | inl (u, eu) ↦
          elim (Result-cases (verify_from p 0 genesis_digest (by_sequence t.evaluations))) [
            | inl ((m, tip), ev) ↦ record {
              recorded = r;
              one_run = er;
              rows_valid = ground arith;
              tip = tip;
              chain = ground arith;
              count_recorded = ground arith;
              tip_recorded = ground (arith, text_eq_iff tip r.evaluation_tip_sha256);
            }
            | inr (e, ev) ↦ absurd (ground arith)
          ]
      | inr (e, eu) ↦ absurd (ground arith)
    ]
    | inr (e, er) ↦ absurd (ground arith)
  ]

  pub iff_verify : (t : Tables) (n : ℕ) → IsVerified t n → verify_evaluation_chain p t ≡ ok n
  unfolding verify_evaluation_chain evaluations
  iff_verify t n v = ground (
    arith,
    v.one_run,
    v.rows_valid,
    v.chain,
    v.count_recorded,
    v.tip_recorded,
    text_eq_iff v.tip v.recorded.evaluation_tip_sha256,
  )

  pub digest-IsHex :
      IsSha256Hex p
      → (r : EvaluationRow) → row_digest p r ≡ ok r.row_sha256
      → is_hex_digest r.row_sha256 ≡ true
  unfolding evaluation_digest canonical_sha256 normalize_digest_field
  digest-IsHex hex r h =
      let (payload, _, e) = returned (canonical_bytes p _ _ none) _ {v = r.row_sha256} h in
      let same : p.sha256 payload ≡ r.row_sha256 = ground arith in rw same at (hex payload)

  run-extended :
      (t : Tables) (r : EvaluationRow) (u : RunRow)
      → is_hex_digest r.row_sha256 ≡ true
      → run t ≡ ok u
      → run (extended t r)
        ≡ ok (record u { evaluation_count = r.sequence + 1; evaluation_tip_sha256 = r.row_sha256 })
  unfolding run run_record
  run-extended t r u hex h = ground arith

  extended-IsVerified :
      IsSha256Hex p
      → (t : Tables) (n : ℕ) (r : EvaluationRow) (v : IsVerified t n) → Continues p n v.tip r
      → validate_row r ≡ ok tt
      → IsVerified (extended t r) (suc n)
  extended-IsVerified hex t n r v c valid =
      let bound = verify-bound p 0 genesis_digest (by_sequence t.evaluations) n v.tip v.chain in
      let below : All (λ s. s.sequence < r.sequence) t.evaluations =
        rw (c.in_order) (All-by_sequence n t.evaluations bound.1) in
      let sorted = by_sequence-snoc t.evaluations r below in
      record {
        recorded = record v.recorded {
          evaluation_count = r.sequence + 1;
          evaluation_tip_sha256 = r.row_sha256;
        };
        one_run = run-extended t r v.recorded (digest-IsHex hex r c.digest) v.one_run;
        rows_valid = rw sorted (validate-snoc (by_sequence t.evaluations) r v.rows_valid valid);
        tip = r.row_sha256;
        chain =
            rw sorted
              (verify-snoc p 0 genesis_digest (by_sequence t.evaluations) n v.tip r v.chain c);
        count_recorded = omega (arith, c.in_order);
        tip_recorded = refl;
      }

  next_link_chain :
      (rows : List EvaluationRow) (n : ℕ) (tip : Text)
      → verify_from p 0 genesis_digest rows ≡ ok (n, tip)
      → next_link (last_row rows) ≡ (n, tip)
  next_link_chain [] n tip h =
      let (e, f) = verify_nil p 0 genesis_digest n tip h in unfold next_link last_row in cc (e, f)
  next_link_chain (r ∷ rs) n tip h = verify-last p 0 genesis_digest r rs n tip h

  new_row-Continues :
      (t : Tables) (n : ℕ) (v : IsVerified t n) (b k m : Text) (x : Float) (r : EvaluationRow)
      → new_row p t b k m x ≡ ok r
      → Continues p n v.tip r × (validate_row r ≡ ok tt)
  unfolding new_row validate_row
  new_row-Continues t n v b k m x r h =
      let link = next_link_chain (by_sequence t.evaluations) n v.tip v.chain in
      elim (Result-cases (canonical_id b)) [
        | inl (b', eb) ↦ elim (Result-cases (canonical_id k)) [
          | inl (k', ek) ↦ elim (Result-cases (canonical_id m)) [
            | inl (m', em) ↦ elim (Result-cases (evaluation_digest p n b k m x v.tip)) [
              | inl (d, ed) ↦
                  let made : r ≡ row_of n b k m x v.tip d = ground (
                    arith,
                    link,
                    canonical_id-eq b b' eb,
                    canonical_id-eq k k' ek,
                    canonical_id-eq m m' em,
                  ) in
                  rw made (record { in_order = refl; chained = refl; digest = ed }, ground arith)
              | inr (e, ed) ↦ absurd (ground arith)
            ]
            | inr (e, em) ↦ absurd (ground arith)
          ]
          | inr (e, ek) ↦ absurd (ground arith)
        ]
        | inr (e, eb) ↦ absurd (ground arith)
      ]

  -- A verified store stays verified with the row that `append_evaluation` builds.
  pub extended-verified :
      IsSha256Hex p
      → (t : Tables) (n : ℕ) (b k m : Text) (x : Float) (r : EvaluationRow)
      → verify_evaluation_chain p t ≡ ok n
      → new_row p t b k m x ≡ ok r
      → (r.sequence ≡ n) × (verify_evaluation_chain p (extended t r) ≡ ok (suc n))
  extended-verified hex t n b k m x r h made =
      let v = verify_iff t n h in
      let (continues, valid) = new_row-Continues t n v b k m x r made in
      (
        continues.in_order,
        iff_verify (extended t r) (suc n) (extended-IsVerified hex t n r v continues valid),
      )

  -- The statements of an append that succeeds leave the extended tables, committed.
  append-extended :
      (fails : Faults) (c : Connection) (b k m : Text) (x : Float) (r : EvaluationRow)
      (d : Connection)
      → append_evaluation p fails c b k m x ≡ (ok r, d)
      → (new_row p (view c) b k m x ≡ ok r)
        × (d ≡ record { committed = extended (view c) r; working = none })
  unfolding append_evaluation
  append-extended fails c b k m x r d h = elim (Result-cases (new_row p (view c) b k m x)) [
    | inl (row, built) ↦ elim (Result-cases (transaction fails (append_statements row) c).0) [
      | inl (_, done) ↦
          let row_is : row ≡ r = ground arith in
          let after = transaction_returns fails row c d (ground arith) in
          (ground arith, rw (← row_is) after)
      | inr (e, raised) ↦ absurd (ground arith)
    ]
    | inr (e, refused) ↦ absurd (ground arith)
  ]

  -- An append to a store whose chain is verified with `n` rows keeps it verified: where it succeeds
  -- it commits a row with the sequence number `n`, and the chain is then verified with n + 1 rows.
  pub append-verified :
      IsSha256Hex p
      → (fails : Faults) (c : Connection) (n : ℕ) (b k m : Text) (x : Float) (r : EvaluationRow)
        (d : Connection)
      → verify_evaluation_chain p (view c) ≡ ok n
      → append_evaluation p fails c b k m x ≡ (ok r, d)
      → (r.sequence ≡ n) × (d.working ≡ none) × (verify_evaluation_chain p d.committed ≡ ok (suc n))
  append-verified hex fails c n b k m x r d h a =
      let (made, done) = append-extended fails c b k m x r d a in
      let (in_order, verified) = extended-verified hex (view c) n b k m x r h made in
      (in_order, ground (arith, done), rw done verified)
