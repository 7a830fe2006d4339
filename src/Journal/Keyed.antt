-- ===== src/Journal/Keyed.antt =====
-- Lists of pairs with different keys, for which EvoNN-Shared/src/evonn_shared/runtime_journal.py has
-- changes of their own.
use evo_nn_research.Prelude.{
  ◌≡◌, refl, sym, ap, ◌∙◌, true, false, List, [], ◌∷◌, Option, none, some, Option-cases, inl, inr,
  Text, lookup, text_eq_refl, all_distinct, and-eq-true, arith,
}
use evo_nn_research.Journal.{
  JsonValue, JsonValues, JsonFields, null, bool, int, float, str, array, object, nil, cons, Items,
  items, fields_of, keys, set_eq, same, same_values, same_fields, as_pair, as_pairs, keyed, texts,
  as_texts,
}
use evo_nn_research.Journal.Applying.{paired, get}
use evo_nn_research.Journal.Sameness.{is_json, are_json, fields_json, and-intro, items-fields_of}

pub as_texts-texts : (ts : List Text) → as_texts (texts ts) ≡ some ts
as_texts-texts [] = refl
as_texts-texts (t ∷ ts) = rw (as_texts-texts ts) refl

as_pair_shape :
    (x : JsonValue) (k : Text) (v : JsonValue)
    → as_pair x ≡ some (k, v)
    → x ≡ array (cons (str k) (cons v nil))
as_pair_shape null k v h = absurd (ground (arith, h))
as_pair_shape (bool b) k v h = absurd (ground (arith, h))
as_pair_shape (int a) k v h = absurd (ground (arith, h))
as_pair_shape (float x) k v h = absurd (ground (arith, h))
as_pair_shape (str t) k v h = absurd (ground (arith, h))
as_pair_shape (object fs) k v h = absurd (ground (arith, h))
as_pair_shape (array nil) k v h = absurd (ground (arith, h))
as_pair_shape (array (cons null r)) k v h = absurd (ground (arith, h))
as_pair_shape (array (cons (bool b) r)) k v h = absurd (ground (arith, h))
as_pair_shape (array (cons (int a) r)) k v h = absurd (ground (arith, h))
as_pair_shape (array (cons (float x) r)) k v h = absurd (ground (arith, h))
as_pair_shape (array (cons (array xs) r)) k v h = absurd (ground (arith, h))
as_pair_shape (array (cons (object fs) r)) k v h = absurd (ground (arith, h))
as_pair_shape (array (cons (str t) nil)) k v h = absurd (ground (arith, h))
as_pair_shape (array (cons (str t) (cons w (cons u r)))) k v h = absurd (ground (arith, h))
as_pair_shape (array (cons (str t) (cons w nil))) k v h = ground (arith, h)

pub keyed_pairs :
    (xs : JsonValues) (ps : Items)
    → keyed xs ≡ some ps
    → (as_pairs xs ≡ some ps) × (all_distinct (keys ps) ≡ true)
unfolding keyed
keyed_pairs xs ps h = elim (Option-cases (as_pairs xs)) [
  | inl gone ↦ absurd (ground (arith, h, gone))
  | inr ([], found) ↦ absurd (ground (arith, h, found))
  | inr (q ∷ qs, found) ↦ (ground (arith, h, found), ground (arith, h, found))
]

-- The pairs of a list, its head taken apart.
pub as_pairs_cons :
    (x : JsonValue) (xs : JsonValues) (ps : Items)
    → as_pairs (cons x xs) ≡ some ps
    → (k : Text) × (v : JsonValue) × (qs : Items) × (x ≡ array (cons (str k) (cons v nil)))
      × (as_pairs xs ≡ some qs)
      × (ps ≡ (k, v) ∷ qs)
as_pairs_cons x xs ps h = elim (Option-cases (as_pair x)) [
  | inl gone ↦ absurd (ground (arith, h, gone))
  | inr ((k, v), found) ↦ elim (Option-cases (as_pairs xs)) [
    | inl gone ↦ absurd (ground (arith, h, found, gone))
    | inr (qs, rest) ↦ (k, v, qs, as_pair_shape x k v found, rest, ground (arith, h, found, rest))
  ]
]

pub pairs_json :
    (xs : JsonValues) (ps : Items)
    → are_json xs ≡ true
    → as_pairs xs ≡ some ps
    → fields_json (fields_of ps) ≡ true
unfolding is_json
pairs_json nil ps j h =
    let empty : ps ≡ [] = ground (arith, h) in ap (λ q. fields_json (fields_of q)) empty
pairs_json (cons x xs) ps j h =
    let (k, v, qs, shape, rest, all) = as_pairs_cons x xs ps h in
    let (a, b) = and-eq-true (is_json x) (are_json xs) j in
    let value : is_json v ≡ true = (and-eq-true _ _ (ap is_json (sym shape) ∙ a)).0 in
    ap (λ q. fields_json (fields_of q)) all ∙ and-intro _ _ value (pairs_json xs qs b rest)

same_found :
    (v : JsonValue) (found : Option JsonValue)
    → elim found [ none ↦ false | some w ↦ same v w ] ≡ true
    → same v (elim found [ none ↦ null | some w ↦ w ]) ≡ true
same_found v none h = absurd (ground (arith, h))
same_found v (some w) h = h

-- The pairs are the same as those of their keys with the values that are found under them.
pub same-paired :
    (ys : JsonValues) (qs right : Items)
    → as_pairs ys ≡ some qs
    → same_fields (fields_of qs) right ≡ true
    → same_values ys (paired (keys qs) right) ≡ true
unfolding same
same-paired nil qs right h s =
    let empty : qs ≡ [] = ground (arith, h) in
    ap (λ q. same_values nil (paired (keys q) right)) empty
same-paired (cons y ys) qs right h s =
    let (k, v, rs, shape, rest, all) = as_pairs_cons y ys qs h in
    let (a, b) =
      and-eq-true (elim (lookup k right) [ none ↦ false | some w ↦ same v w ])
        (same_fields (fields_of rs) right)
        (ap (λ q. same_fields (fields_of q) right) (sym all) ∙ s) in
    let other = array (cons (str k) (cons (get k right) nil)) in
    let value : same v (get k right) ≡ true = same_found v (lookup k right) a in
    let pair : same y other ≡ true =
      ap (λ z. same z other) shape ∙ and-intro _ _ (text_eq_refl k) (and-intro _ _ value refl) in
    ap (λ q. same_values (cons y ys) (paired (keys q) right)) all
    ∙ and-intro _ _ pair (same-paired ys rs right rest b)

pub keyed_json :
    (xs : JsonValues) (ps : Items)
    → are_json xs ≡ true
    → keyed xs ≡ some ps
    → is_json (object (fields_of ps)) ≡ true
unfolding is_json
keyed_json xs ps j h =
    let (pairs, distinct) = keyed_pairs xs ps h in
    and-intro _ _ (ap (λ kvs. all_distinct (keys kvs)) (items-fields_of ps) ∙ distinct)
      (pairs_json xs ps j pairs)

-- What is the same as an object is one, with the same keys and the same values.
pub same_shape :
    (fs : JsonFields) (x : JsonValue)
    → same (object fs) x ≡ true
    → (gs : JsonFields) × (x ≡ object gs)
      × (set_eq (keys (items fs)) (keys (items gs)) ≡ true)
      × (same_fields fs (items gs) ≡ true)
unfolding same
same_shape fs (object gs) h =
    let (a, b) =
      and-eq-true (set_eq (keys (items fs)) (keys (items gs))) (same_fields fs (items gs)) h in
    (gs, refl, a, b)
same_shape fs null h = absurd (ground (arith, h))
same_shape fs (bool b) h = absurd (ground (arith, h))
same_shape fs (int a) h = absurd (ground (arith, h))
same_shape fs (float x) h = absurd (ground (arith, h))
same_shape fs (str t) h = absurd (ground (arith, h))
same_shape fs (array xs) h = absurd (ground (arith, h))

-- A keyed list is the same as the pairs of its keys, in order, with what is found in an object that is
-- the same as the dictionary made of the list.
pub same-keyed :
    (ys : JsonValues) (qs : Items) (gs : JsonFields)
    → keyed ys ≡ some qs
    → same_fields (fields_of qs) (items gs) ≡ true
    → same (array ys) (array (paired (keys qs) (items gs))) ≡ true
unfolding same
same-keyed ys qs gs h s = same-paired ys qs (items gs) (keyed_pairs ys qs h).0 s
