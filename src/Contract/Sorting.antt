-- ===== src/Contract/Sorting.antt =====
-- `_utf8_sorted_unique` of EvoNN-Shared/src/evonn_shared/budgets.py: the order of texts, the
-- stable sort, and the tuples that the rule accepts.
use evo_nn_research.Prelude.{
  text_eq, ◌∙◌, ◌||◌, ◌≡◌, ◌↔◌, refl, true, false, List, [], ◌∷◌, Text, arith, inl, inr, Bool-cases,
  text_eq_iff, text_lt, text_in, all_distinct, ok,
}
use evo_nn_research.Prelude.TextOrder.{text_lt_irrefl, text_lt_asymm, text_lt_trans, text_lt_connex}
use evo_nn_research.Contract.{human_texts, insert_sorted, sorted, texts_eq, utf8_sorted_unique}

pub texts_eq_iff : (a b : List Text) → (texts_eq a b ≡ true) ↔ (a ≡ b)
texts_eq_iff [] [] = ground arith
texts_eq_iff [] (y ∷ ys) = ground arith
texts_eq_iff (x ∷ xs) [] = ground arith
texts_eq_iff (x ∷ xs) (y ∷ ys) = ground (arith, text_eq_iff x y, texts_eq_iff xs ys)

-- Each text lies strictly before the next.
abbrev pub IsIncreasing : List Text → Type 0
IsIncreasing [] = Unit
IsIncreasing (t ∷ []) = Unit
IsIncreasing (t ∷ u ∷ us) = (text_lt t u ≡ true) × IsIncreasing (u ∷ us)

-- No text lies before its predecessor.
abbrev IsNondecreasing : List Text → Type 0
IsNondecreasing [] = Unit
IsNondecreasing (t ∷ []) = Unit
IsNondecreasing (t ∷ u ∷ us) = (text_lt u t ≡ false) × IsNondecreasing (u ∷ us)

insert_sorted-IsNondecreasing :
    (t : Text) (us : List Text) → IsNondecreasing us → IsNondecreasing (insert_sorted t us)
unfolding insert_sorted
insert_sorted-IsNondecreasing t [] h = tt
insert_sorted-IsNondecreasing t (u ∷ []) h = ground (arith, text_lt_asymm u t)
insert_sorted-IsNondecreasing t (u ∷ v ∷ us) h =
    ground (arith, text_lt_asymm u t, insert_sorted-IsNondecreasing t (v ∷ us) h.1)

sorted-IsNondecreasing : (ts : List Text) → IsNondecreasing (sorted ts)
unfolding sorted
sorted-IsNondecreasing [] = tt
sorted-IsNondecreasing (t ∷ ts) =
    insert_sorted-IsNondecreasing t (sorted ts) (sorted-IsNondecreasing ts)

IsIncreasing-of_distinct :
    (ts : List Text) → IsNondecreasing ts → all_distinct ts ≡ true → IsIncreasing ts
unfolding all_distinct
IsIncreasing-of_distinct [] h d = tt
IsIncreasing-of_distinct (t ∷ []) h d = tt
IsIncreasing-of_distinct (t ∷ u ∷ us) h d = elim (Bool-cases (text_lt t u)) [
  | inl before ↦ (before, IsIncreasing-of_distinct (u ∷ us) h.1 (ground arith))
  | inr after ↦ absurd (ground (arith, text_eq_iff u t, text_lt_connex t u after h.0))
]

sorted_of_IsIncreasing : (ts : List Text) → IsIncreasing ts → sorted ts ≡ ts
unfolding sorted insert_sorted
sorted_of_IsIncreasing [] h = refl
sorted_of_IsIncreasing (t ∷ []) h = refl
sorted_of_IsIncreasing (t ∷ u ∷ us) h =
    rw (sorted_of_IsIncreasing (u ∷ us) h.1) (ground (arith, text_lt_asymm t u))

not-text_in :
    (t u : Text) (us : List Text)
    → text_lt t u ≡ true
    → IsIncreasing (u ∷ us)
    → text_in t (u ∷ us) ≡ false
not-text_in t u [] h k = ground (arith, text_eq_iff u t, text_lt_irrefl t)
not-text_in t u (v ∷ us) h k =
    ground
      (arith, text_eq_iff u t, text_lt_irrefl t, not-text_in t v us (text_lt_trans t u v h k.0) k.1)

IsIncreasing-all_distinct : (ts : List Text) → IsIncreasing ts → all_distinct ts ≡ true
unfolding all_distinct
IsIncreasing-all_distinct [] h = refl
IsIncreasing-all_distinct (t ∷ []) h = refl
IsIncreasing-all_distinct (t ∷ u ∷ us) h =
    ground (arith, not-text_in t u us h.0 h.1, IsIncreasing-all_distinct (u ∷ us) h.1)

-- `_utf8_sorted_unique` accepts a tuple, and returns it unchanged, exactly when every text passes
-- `_human_text` and each lies strictly before the next in the order of UTF-8.
pub utf8_sorted_unique_iff :
    (ts : List Text)
    → (utf8_sorted_unique ts ≡ ok ts) ↔ ((human_texts ts ≡ ok tt) × IsIncreasing ts)
unfolding utf8_sorted_unique
utf8_sorted_unique_iff ts = (
  λ accepted.
      let same : ts ≡ sorted ts = ground (arith, texts_eq_iff ts (sorted ts)) in
      (
        ground arith,
        IsIncreasing-of_distinct ts (rw same (sorted-IsNondecreasing ts)) (ground arith),
      ),
  λ (h, increasing). ground (
    arith,
    texts_eq_iff ts (sorted ts),
    sorted_of_IsIncreasing ts increasing,
    IsIncreasing-all_distinct ts increasing,
  ),
)

text_in-insert_sorted :
    (n t : Text) (us : List Text) → text_in n (insert_sorted t us) ≡ (text_eq t n || text_in n us)
unfolding insert_sorted
text_in-insert_sorted n t [] = ground arith
text_in-insert_sorted n t (u ∷ us) = ground (arith, text_in-insert_sorted n t us)

pub text_in-sorted : (n : Text) (ts : List Text) → text_in n (sorted ts) ≡ text_in n ts
unfolding sorted
text_in-sorted n [] = refl
text_in-sorted n (t ∷ ts) =
    ground (arith, text_in-insert_sorted n t (sorted ts), text_in-sorted n ts)

all_distinct-insert_sorted :
    (t : Text) (us : List Text)
    → text_in t us ≡ false
    → all_distinct us ≡ true
    → all_distinct (insert_sorted t us) ≡ true
unfolding insert_sorted all_distinct
all_distinct-insert_sorted t [] h d = refl
all_distinct-insert_sorted t (u ∷ us) h d = ground (
  arith,
  all_distinct-insert_sorted t us,
  text_in-insert_sorted u t us,
  text_eq_iff t u,
  text_eq_iff u t,
  h,
  d,
)

pub all_distinct-sorted :
    (ts : List Text) → all_distinct ts ≡ true → all_distinct (sorted ts) ≡ true
unfolding sorted all_distinct
all_distinct-sorted [] d = refl
all_distinct-sorted (t ∷ ts) d =
    let rest : all_distinct (sorted ts) ≡ true = all_distinct-sorted ts (ground (arith, d)) in
    let fresh : text_in t (sorted ts) ≡ false = text_in-sorted t ts ∙ ground (arith, d) in
    all_distinct-insert_sorted t (sorted ts) fresh rest
