-- ===== src/Catalog/Packs.antt =====
-- What an accepted pack, ceiling or registry of EvoNN-Shared/src/evonn_shared/catalog.py promises.
use native.Mathlib.Nat.{div-add-mod'}
use evo_nn_research.Prelude.{
  ℕ, suc, zero, ◌*◌, ◌/◌, ◌%◌, ◌<◌, ◌≡◌, ◌↔◌, ◌⊎◌, sym, true, false, List, [], ◌∷◌, map, none, some,
  Text, Float, ℤ, pos, negsuc, length, is_finite, is_positive, float_limit, ◌≤◌, raise,
  all_distinct, arith, ok, ap, ==_iff,
}
use evo_nn_research.Contract.{canonical_id, human_text, violation_of, utf8_sorted_unique}
use evo_nn_research.Contract.Sorting.{IsIncreasing, utf8_sorted_unique_iff}
use evo_nn_research.Budgets.{BudgetDeclaration, positive, declaration_errors, is_empty}
use evo_nn_research.Budgets.Execution.{
  Pack, execution_budget, execution_budget_accepted, overflow_error,
}
use evo_nn_research.Catalog.{
  MetricCeiling, best_observed, not_evidence, validate_ceiling, ceiling_errors, BenchmarkPack,
  pack_benchmarks, pack_errors, divides, CanonicalIdEntry, registry_errors,
}

-- What the other theorems read from an acceptance.
pack_facts :
    (p : BenchmarkPack)
    → pack_errors p ≡ []
    → (violation_of (canonical_id p.pack_name) ≡ [])
      × (violation_of (pack_benchmarks p.benchmarks) ≡ [])
      × (violation_of (positive p.evaluation_count) ≡ [])
      × (divides (length p.benchmarks) p.evaluation_count ≡ true)
unfolding pack_errors
pack_facts p h = ground arith

benchmarks_facts :
    (ts : List Text)
    → violation_of (pack_benchmarks ts) ≡ []
    → (is_empty ts ≡ false) × (all_distinct ts ≡ true)
unfolding pack_benchmarks
benchmarks_facts ts h = ground arith

-- A metric ceiling is accepted exactly when it is absent and ties count by the best observed value,
-- or finite and ties are no evidence.
pub ceiling_errors_iff :
    (c : MetricCeiling)
    → (ceiling_errors c ≡ []) ↔ (
        ((c.value ≡ none) × (c.tie_policy ≡ best_observed))
        ⊎ ((x : Float) × (c.value ≡ some x) × (is_finite x ≡ true) × (c.tie_policy ≡ not_evidence)))
unfolding ceiling_errors validate_ceiling
ceiling_errors_iff c = ground arith

registry_facts :
    (entries : List CanonicalIdEntry)
    → registry_errors entries ≡ []
    → utf8_sorted_unique (map (λ e. e.id) entries) ≡ ok (map (λ e. e.id) entries)
unfolding registry_errors utf8_sorted_unique
registry_facts entries h = ground arith

-- The identifiers of an accepted registry lie strictly one before the next in the order of UTF-8.
pub registry-IsIncreasing :
    (entries : List CanonicalIdEntry)
    → registry_errors entries ≡ []
    → IsIncreasing (map (λ e. e.id) entries)
registry-IsIncreasing entries h =
    ((utf8_sorted_unique_iff (map (λ e. e.id) entries)).0 (registry_facts entries h)).1

quotient_positive : (q n t : ℕ) → q * n ≡ t → 0 < t → 0 < q
quotient_positive zero n t h k = omega (arith, h)
quotient_positive (suc q) n t h k = omega arith

nonempty-length : (ts : List Text) → is_empty ts ≡ false → 0 < length ts
nonempty-length [] h = absurd (ground arith)
nonempty-length (t ∷ ts) h = omega arith

-- The benchmarks of an accepted pack are different, and its evaluations divide evenly among them:
-- every benchmark has the same share, which is positive.
pub pack_shares :
    (p : BenchmarkPack)
    → pack_errors p ≡ []
    → (all_distinct p.benchmarks ≡ true)
      × (share : ℕ) × (0 < share)
      × (p.evaluation_count ≡ pos (share * length p.benchmarks))
pack_shares p h =
    let (_, benchmarks, count, even) = pack_facts p h in
    let (share, positive, exact) = share_of p.evaluation_count (length p.benchmarks) count even in
    ((benchmarks_facts p.benchmarks benchmarks).1, share, positive, exact)
  where
    share_of :
        (total : ℤ) (n : ℕ)
        → violation_of (positive total) ≡ []
        → divides n total ≡ true
        → (share : ℕ) × (0 < share) × (total ≡ pos (share * n))
    share_of (negsuc t) n count even = absurd (ground arith)
    share_of (pos t) n count even =
        let exact : t / n * n ≡ t = omega (arith, div-add-mod' t n, (==_iff (t % n) 0).0 even) in
        (t / n, quotient_positive (t / n) n t exact (ground arith), ap pos (sym exact))

-- What `execution_budget` reads of a pack.
abbrev pub run_pack : BenchmarkPack → Pack
run_pack p = record {
  pack_name = p.pack_name;
  benchmarks = p.benchmarks;
  ladder_tier = p.ladder_tier;
}

-- For an accepted pack, with its own number of evaluations, a positive finite timeout and a device
-- name that is a human text, a run declares a budget of that number, timeout and device that the
-- budget contract accepts, if the number of evaluations is below 2 ^ 1024 - 2 ^ 970; a number that is
-- not raises an overflow error.
pub pack_executes :
    (p : BenchmarkPack) (n : ℕ) (timeout : Float) (device : Text)
    → pack_errors p ≡ []
    → p.evaluation_count ≡ pos n
    → is_positive timeout ≡ true
    → is_finite timeout ≡ true
    → human_text device ≡ ok device
    → ((n < float_limit)
        × (d : BudgetDeclaration) × (execution_budget (run_pack p) n timeout device ≡ ok d)
        × (d.evaluation.total ≡ pos n)
        × (d.wall_clock.target_seconds ≡ timeout)
        × (d.hardware.device_class ≡ device)
        × (declaration_errors d ≡ []))
      ⊎ ((float_limit ≤ n)
          × (execution_budget (run_pack p) n timeout device ≡ raise overflow_error))
unfolding canonical_id
pack_executes p n timeout device h count f q d =
    let (name, benchmarks, positive, _) = pack_facts p h in
    execution_budget_accepted (run_pack p) n timeout device (ground (arith, count)) f q d
      (ground arith) (nonempty-length p.benchmarks (benchmarks_facts p.benchmarks benchmarks).0)
