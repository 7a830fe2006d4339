-- ===== src/Exports/Semantics.antt =====
-- The loop of `_validate_results_records` in EvoNN-Shared/src/evonn_shared/exports.py that compares
-- the semantics of the outcomes of one benchmark.
use evo_nn_research.Prelude.{
  ◌≡◌, ◌⊎◌, inl, inr, refl, sym, ap, ◌∙◌, true, List, [], ◌∷◌, none, some, Text, Option-cases,
  text_eq_iff, text_eq_refl, lookup, arith, ok,
}
use evo_nn_research.Telemetry.Measures.{BenchmarkResult}
use evo_nn_research.Exports.{
  Meaning, meaning, meaning_eq, check_semantics, Results, document_errors, validate_records,
}

abbrev pub Among : BenchmarkResult → List BenchmarkResult → Type 0
Among r [] = ⊥
Among r (x ∷ xs) = (x ≡ r) ⊎ Among r xs

meaning_of_eq : (a b : Meaning) → meaning_eq a b ≡ true → a ≡ b
meaning_of_eq a b h = ground (arith, text_eq_iff a.name b.name)

-- A dictionary that agrees with everything in `semantics` and knows `x`.
record Extended (semantics : List (Text × Meaning)) (x : BenchmarkResult)
    (xs : List BenchmarkResult) : Type 0 where
  after : List (Text × Meaning)
  continues : check_semantics after xs ≡ ok tt
  knows : lookup x.benchmark_id after ≡ some (meaning x)
  keeps : (k : Text) (m : Meaning) → lookup k semantics ≡ some m → lookup k after ≡ some m

check_semantics-new :
    (semantics : List (Text × Meaning)) (x : BenchmarkResult) (xs : List BenchmarkResult)
    → lookup x.benchmark_id semantics ≡ none
    → check_semantics semantics (x ∷ xs)
      ≡ check_semantics ((x.benchmark_id, meaning x) ∷ semantics) xs
unfolding check_semantics
check_semantics-new semantics x xs h = rw (h, check_semantics) refl

check_semantics-old :
    (semantics : List (Text × Meaning)) (x : BenchmarkResult) (xs : List BenchmarkResult)
    (old : Meaning)
    → lookup x.benchmark_id semantics ≡ some old
    → check_semantics semantics (x ∷ xs) ≡ ok tt
    → (meaning x ≡ old) × (check_semantics semantics xs ≡ ok tt)
unfolding check_semantics
check_semantics-old semantics x xs old h k = ground (arith, meaning_of_eq (meaning x) old)

check_semantics-Extended :
    (semantics : List (Text × Meaning)) (x : BenchmarkResult) (xs : List BenchmarkResult)
    → check_semantics semantics (x ∷ xs) ≡ ok tt
    → Extended semantics x xs
check_semantics-Extended semantics x xs h = elim (Option-cases (lookup x.benchmark_id semantics)) [
  | inl absent ↦ record {
    after = (x.benchmark_id, meaning x) ∷ semantics;
    continues = sym (check_semantics-new semantics x xs absent) ∙ h;
    knows = rw (text_eq_refl x.benchmark_id) refl;
    keeps = λ k m found. ground (arith, text_eq_iff x.benchmark_id k, absent);
  }
  | inr (old, present) ↦
      let (same, rest) = check_semantics-old semantics x xs old present h in
      record {
        after = semantics;
        continues = rest;
        knows = present ∙ ap some (sym same);
        keeps = λ k m found. found;
      }
]

agrees :
    (semantics : List (Text × Meaning)) (rs : List BenchmarkResult) (r : BenchmarkResult)
    (m : Meaning)
    → check_semantics semantics rs ≡ ok tt
    → lookup r.benchmark_id semantics ≡ some m
    → Among r rs
    → meaning r ≡ m
agrees semantics [] r m h k among = absurd among
agrees semantics (x ∷ xs) r m h k among =
    let e = check_semantics-Extended semantics x xs h in
    elim among [
      | inl here ↦ cc (here, e.knows, e.keeps r.benchmark_id m k)
      | inr there ↦ agrees e.after xs r m e.continues (e.keeps r.benchmark_id m k) there
    ]

agrees_with_first :
    (after : List (Text × Meaning)) (xs : List BenchmarkResult) (x s : BenchmarkResult)
    → check_semantics after xs ≡ ok tt
    → lookup x.benchmark_id after ≡ some (meaning x)
    → Among s xs
    → x.benchmark_id ≡ s.benchmark_id
    → meaning x ≡ meaning s
agrees_with_first after xs x s h known among same =
    sym (agrees after xs s (meaning x) h (ap (λ k. lookup k after) (sym same) ∙ known) among)

pairs_agree :
    (semantics : List (Text × Meaning)) (rs : List BenchmarkResult) (r s : BenchmarkResult)
    → check_semantics semantics rs ≡ ok tt
    → Among r rs
    → Among s rs
    → r.benchmark_id ≡ s.benchmark_id
    → meaning r ≡ meaning s
pairs_agree semantics [] r s h a b same = absurd a
pairs_agree semantics (x ∷ xs) r s h a b same =
    let e = check_semantics-Extended semantics x xs h in
    elim a [
      | inl first ↦ elim b [
        | inl second ↦ ap meaning (sym first ∙ second)
        | inr later ↦
            ap meaning (sym first)
            ∙ agrees_with_first e.after xs x s e.continues e.knows later
                (ap (λ t. t.benchmark_id) first ∙ same)
      ]
      | inr earlier ↦ elim b [
        | inl second ↦
            sym (
              agrees_with_first e.after xs x r e.continues e.knows earlier
                (ap (λ t. t.benchmark_id) second ∙ sym same))
            ∙ ap meaning second
        | inr later ↦ pairs_agree e.after xs r s e.continues earlier later same
      ]
    ]

semantics_checked : (d : Results) → document_errors d ≡ [] → check_semantics [] d.records ≡ ok tt
unfolding document_errors validate_records
semantics_checked d h = ground arith

-- In an accepted results document any two records of one benchmark have the same kind of task, the
-- same metric name and the same direction of the metric.
pub same_meaning :
    (d : Results) (r s : BenchmarkResult)
    → document_errors d ≡ []
    → Among r d.records
    → Among s d.records
    → r.benchmark_id ≡ s.benchmark_id
    → meaning r ≡ meaning s
same_meaning d r s h a b same = pairs_agree [] d.records r s (semantics_checked d h) a b same
