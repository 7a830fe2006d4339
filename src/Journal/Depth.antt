-- ===== src/Journal/Depth.antt =====
-- How deep lists and objects stand inside each other in the states of
-- EvoNN-Shared/src/evonn_shared/runtime_journal.py, and how deep `delta` goes.
use mathlib.Core.Path.{subst}
use evo_nn_research.Prelude.{
  ℕ, zero, suc, ◌≤◌, ◌≡◌, refl, sym, ap, ◌∙◌, [], ◌∷◌, some, Option-cases, Bool-cases, inl, inr,
  Text, lookup, text_eq, erase, arith,
}
use evo_nn_research.Journal.{
  JsonValue, JsonValues, JsonFields, null, bool, int, float, str, array, object, nil, cons, end,
  field, Items, items, fields_of, keys, same, same_values, take_values, length_values, nesting,
  nesting_values, nesting_fields, max, delta, delta_to, delta_step, changed_items, replaced, keyed,
  as_pairs,
}
use evo_nn_research.Journal.Keyed.{as_pairs_cons, keyed_pairs}
use evo_nn_research.Journal.Steps.{keyed_change, step_append, step_plain, step_unkeyed, step_keyed}
use evo_nn_research.Journal.Steps.{dictionary_change}
use evo_nn_research.Journal.Removal.{removed}

max_left : (m n : ℕ) → m ≤ max m n
max_left zero n = omega arith
max_left (suc m) zero = omega arith
max_left (suc m) (suc n) = omega (arith, max_left m n)

max_right : (m n : ℕ) → n ≤ max m n
max_right zero n = omega arith
max_right (suc m) zero = omega arith
max_right (suc m) (suc n) = omega (arith, max_right m n)

max_least : (m n k : ℕ) → m ≤ k → n ≤ k → max m n ≤ k
max_least zero n k a b = b
max_least (suc m) zero k a b = a
max_least (suc m) (suc n) zero a b = absurd (omega (arith, a))
max_least (suc m) (suc n) (suc k) a b =
    omega (arith, max_least m n k (omega (arith, a)) (omega (arith, b)))

pub erase_nesting :
    (k : Text) (fs : JsonFields)
    → nesting_fields (fields_of (erase k (items fs))) ≤ nesting_fields fs
unfolding nesting
erase_nesting k end = omega arith
erase_nesting k (field i v fs) = elim (Bool-cases (text_eq i k)) [
  | inl here ↦
      rw here (omega (arith, erase_nesting k fs, max_right (nesting v) (nesting_fields fs)))
  | inr other ↦ rw other (
      max_least (nesting v) (nesting_fields (fields_of (erase k (items fs))))
        (max (nesting v) (nesting_fields fs)) (max_left (nesting v) (nesting_fields fs))
        (omega (arith, erase_nesting k fs, max_right (nesting v) (nesting_fields fs))))
]

module _ (change change' : JsonValue → JsonValue → JsonValue) where
  -- Two recursive calls that agree on the values of an object give the same changes.
  changed_items_agree :
      (before : Items) (gs : JsonFields) (n : ℕ)
      → nesting_fields gs ≤ n
      → ((w v : JsonValue) → nesting v ≤ n → change w v ≡ change' w v)
      → changed_items change before (items gs) ≡ changed_items change' before (items gs)
  unfolding changed_items nesting
  changed_items_agree before end n low agree = refl
  changed_items_agree before (field k v gs) n low agree =
      let here : nesting v ≤ n = omega (arith, low, max_left (nesting v) (nesting_fields gs)) in
      let rest =
        changed_items_agree before gs n
          (omega (arith, low, max_right (nesting v) (nesting_fields gs))) agree in
      elim (Option-cases (lookup k before)) [
        | inl gone ↦ rw (gone, changed_items) (ap (◌∷◌ (k, replaced v)) rest)
        | inr (w, found) ↦ elim (Bool-cases (same v w)) [
          | inl equal ↦ rw (found, equal, changed_items) rest
          | inr other ↦
              rw (found, other, changed_items, agree w v here) (ap (◌∷◌ (k, change' w v)) rest)
        ]
      ]

nesting_of_pairs :
    (ys : JsonValues) (qs : Items) (n : ℕ)
    → as_pairs ys ≡ some qs
    → nesting_values ys ≤ suc n
    → nesting_fields (fields_of qs) ≤ n
unfolding nesting
nesting_of_pairs nil qs n h low =
    let empty : qs ≡ [] = ground (arith, h) in
    subst (λ q. nesting_fields (fields_of q) ≤ n) (sym empty) (omega arith)
nesting_of_pairs (cons y ys) qs n h low =
    let (k, v, rs, shape, rest, all) = as_pairs_cons y ys qs h in
    let pair : nesting y ≡ suc (max 0 (max (nesting v) 0)) = ap nesting shape in
    let value : nesting v ≤ n =
      omega (arith, pair, low, max_left (nesting y) (nesting_values ys), max_left (nesting v) 0) in
    let later =
      nesting_of_pairs ys rs n rest
        (omega (arith, low, max_right (nesting y) (nesting_values ys))) in
    subst (λ q. nesting_fields (fields_of q) ≤ n) (sym all)
      (max_least (nesting v) (nesting_fields (fields_of rs)) n value later)

nesting_of_keyed :
    (ys : JsonValues) (qs : Items) (n : ℕ)
    → keyed ys ≡ some qs
    → nesting_values ys ≤ n
    → nesting (object (fields_of qs)) ≤ n
unfolding nesting
nesting_of_keyed nil qs n h low = absurd (unfold keyed in ground (arith, h))
nesting_of_keyed (cons y ys) qs zero h low =
    let (k, v, rs, shape, rest, all) = as_pairs_cons y ys qs (keyed_pairs (cons y ys) qs h).0 in
    let pair : nesting y ≡ suc (max 0 (max (nesting v) 0)) = ap nesting shape in
    absurd (omega (arith, pair, low, max_left (nesting y) (nesting_values ys)))
nesting_of_keyed (cons y ys) qs (suc n) h low =
    omega (arith, nesting_of_pairs (cons y ys) qs n (keyed_pairs (cons y ys) qs h).0 low)

delta_of_lists :
    (change change' : JsonValue → JsonValue → JsonValue) (xs ys : JsonValues) (n : ℕ)
    → nesting_values ys ≤ n
    → ((w v : JsonValue) → nesting v ≤ n → change w v ≡ change' w v)
    → delta_step change (array xs) (array ys) ≡ delta_step change' (array xs) (array ys)
delta_of_lists change change' xs ys n low agree =
    elim (Bool-cases (same_values (take_values (length_values xs) ys) xs)) [
      | inl prefix ↦ step_append change xs ys prefix ∙ sym (step_append change' xs ys prefix)
      | inr other ↦ elim (Option-cases (keyed xs)) [
        | inl plain ↦
            step_plain change xs ys other plain ∙ sym (step_plain change' xs ys other plain)
        | inr (ps, old) ↦ elim (Option-cases (keyed ys)) [
          | inl plain ↦
              step_unkeyed change xs ys ps other old plain
              ∙ sym (step_unkeyed change' xs ys ps other old plain)
          | inr (qs, new) ↦
              let inner =
                agree (object (fields_of ps)) (object (fields_of qs))
                  (nesting_of_keyed ys qs n new low) in
              step_keyed change xs ys ps qs other old new
              ∙ ap (λ c. object (keyed_change c (keys qs))) inner
              ∙ sym (step_keyed change' xs ys ps qs other old new)
        ]
      ]
    ]

delta_of_scalar :
    (n : ℕ) (before after : JsonValue)
    → nesting after ≡ 0
    → delta_to n before after ≡ replaced after
unfolding delta_to delta_step nesting
delta_of_scalar zero before after h = refl
delta_of_scalar (suc n) (object fs) (object gs) h = absurd (omega (arith, h))
delta_of_scalar (suc n) (array xs) (array ys) h = absurd (omega (arith, h))
delta_of_scalar (suc n) before after h = refl

delta_agrees :
    (n m : ℕ) (before after : JsonValue)
    → nesting after ≤ n
    → nesting after ≤ m
    → delta_to n before after ≡ delta_to m before after
unfolding delta_to delta_step nesting
delta_agrees zero m before (object gs) a b = absurd (omega (arith, a))
delta_agrees (suc n) zero before (object gs) a b = absurd (omega (arith, b))
delta_agrees (suc n) (suc m) (object fs) (object gs) a b =
    ap (λ c. object (dictionary_change c (removed (keys (items fs)) (keys (items gs)))))
      (changed_items_agree (delta_to n) (delta_to m) (items fs) gs (nesting_fields gs) (omega arith)
        (λ w v low. delta_agrees n m w v (omega (arith, low, a)) (omega (arith, low, b))))
delta_agrees (suc n) (suc m) (array xs) (object gs) a b = refl
delta_agrees (suc n) (suc m) null (object gs) a b = refl
delta_agrees (suc n) (suc m) (bool x) (object gs) a b = refl
delta_agrees (suc n) (suc m) (int x) (object gs) a b = refl
delta_agrees (suc n) (suc m) (float x) (object gs) a b = refl
delta_agrees (suc n) (suc m) (str x) (object gs) a b = refl
delta_agrees zero m before (array ys) a b = absurd (omega (arith, a))
delta_agrees (suc n) zero before (array ys) a b = absurd (omega (arith, b))
delta_agrees (suc n) (suc m) (array xs) (array ys) a b =
    delta_of_lists (delta_to n) (delta_to m) xs ys (nesting_values ys) (omega arith)
      (λ w v low. delta_agrees n m w v (omega (arith, low, a)) (omega (arith, low, b)))
delta_agrees (suc n) (suc m) (object fs) (array ys) a b = refl
delta_agrees (suc n) (suc m) null (array ys) a b = refl
delta_agrees (suc n) (suc m) (bool x) (array ys) a b = refl
delta_agrees (suc n) (suc m) (int x) (array ys) a b = refl
delta_agrees (suc n) (suc m) (float x) (array ys) a b = refl
delta_agrees (suc n) (suc m) (str x) (array ys) a b = refl
delta_agrees n m before null a b =
    delta_of_scalar n before null refl ∙ sym (delta_of_scalar m before null refl)
delta_agrees n m before (bool x) a b =
    delta_of_scalar n before (bool x) refl ∙ sym (delta_of_scalar m before (bool x) refl)
delta_agrees n m before (int x) a b =
    delta_of_scalar n before (int x) refl ∙ sym (delta_of_scalar m before (int x) refl)
delta_agrees n m before (float x) a b =
    delta_of_scalar n before (float x) refl ∙ sym (delta_of_scalar m before (float x) refl)
delta_agrees n m before (str x) a b =
    delta_of_scalar n before (str x) refl ∙ sym (delta_of_scalar m before (str x) refl)

-- The depth to which `delta` goes is enough: a greater one makes no difference.
pub delta_to-delta :
    (n : ℕ) (before after : JsonValue)
    → nesting after ≤ n
    → delta_to n before after ≡ delta before after
unfolding delta
delta_to-delta n before after h = delta_agrees n (nesting after) before after h (omega arith)
