-- ===== src/Journal/Sameness.antt =====
-- The equality `same` of EvoNN-Shared/src/evonn_shared/runtime_journal.py, and values that
-- `json.dumps` with `allow_nan=False` takes.
use evo_nn_research.Prelude.{
  ◌≡◌, refl, sym, ap, ◌∙◌, Bool, true, false, ◌&&◌, List, [], ◌∷◌, none, some, Option-cases,
  Bool-cases, and-eq-true, inl, inr, Text, lookup, text_eq, text_eq_iff, text_eq_refl, text_in, all,
  all_distinct, is_some, is_finite, arith, Float, finite, infinity, nan,
}
use evo_nn_research.Journal.{
  JsonValue, JsonValues, JsonFields, null, bool, int, float, str, array, object, nil, cons, end,
  field, Items, items, fields_of, keys, set_eq, same, same_values, same_fields, take_values,
  drop_values, append_values, length_values, bool_eq, float_same,
}

-- The floats are finite, and every object has each of its keys once.
unfoldable mutual
  pub is_json : JsonValue → Bool
  is_json (float x) = is_finite x
  is_json (array xs) = are_json xs
  is_json (object fs) = all_distinct (keys (items fs)) && fields_json fs
  is_json _ = true

  pub are_json : JsonValues → Bool
  are_json nil = true
  are_json (cons x xs) = is_json x && are_json xs

  pub fields_json : JsonFields → Bool
  fields_json end = true
  fields_json (field k v fs) = is_json v && fields_json fs

pub items-fields_of : (kvs : Items) → items (fields_of kvs) ≡ kvs
items-fields_of [] = refl
items-fields_of ((k, v) ∷ kvs) = ap (◌∷◌ (k, v)) (items-fields_of kvs)

pub fields_of-items : (fs : JsonFields) → fields_of (items fs) ≡ fs
fields_of-items end = refl
fields_of-items (field k v fs) = ap (field k v) (fields_of-items fs)

pub text_in-keys : (k : Text) (kvs : Items) → text_in k (keys kvs) ≡ is_some (lookup k kvs)
text_in-keys k [] = refl
text_in-keys k ((j, v) ∷ kvs) = ground (arith, text_in-keys k kvs)

pub all-intro :
    (p : Text → Bool) (ts : List Text)
    → ((t : Text) → text_in t ts ≡ true → p t ≡ true)
    → all p ts ≡ true
all-intro p [] h = refl
all-intro p (t ∷ ts) h =
    let first : p t ≡ true = h t (ground (arith, text_eq_refl t)) in
    let rest : all p ts ≡ true = all-intro p ts (λ u i. h u (ground (arith, i))) in
    ground (arith, first, rest)

pub all-elim :
    (p : Text → Bool) (ts : List Text) (t : Text)
    → all p ts ≡ true
    → text_in t ts ≡ true
    → p t ≡ true
all-elim p [] t h i = absurd (ground (arith, i))
all-elim p (u ∷ ts) t h i = ground (arith, all-elim p ts t, text_eq_iff u t, h, i)

pub set_eq-intro : (a b : List Text) → ((t : Text) → text_in t a ≡ text_in t b) → set_eq a b ≡ true
set_eq-intro a b h =
    let forth = all-intro (λ k. text_in k b) a (λ t i. sym (h t) ∙ i) in
    let back = all-intro (λ k. text_in k a) b (λ t i. h t ∙ i) in ground (arith, forth, back)

pub bool_eq_refl : (b : Bool) → bool_eq b b ≡ true
bool_eq_refl true = refl
bool_eq_refl false = refl

float_same_refl : (x : Float) → is_finite x ≡ true → float_same x x ≡ true
float_same_refl (finite s m e) h = ground (arith, bool_eq_refl s)
float_same_refl (infinity s) h = bool_eq_refl s
float_same_refl nan h = absurd (ground (arith, h))

pub lookup_first : (k : Text) (v : JsonValue) (kvs : Items) → lookup k ((k, v) ∷ kvs) ≡ some v
lookup_first k v kvs = ground (arith, text_eq_refl k)

pub lookup_later :
    (k : Text) (v : JsonValue) (kvs : Items) (j : Text) (u : JsonValue)
    → all_distinct (keys ((k, v) ∷ kvs)) ≡ true
    → lookup j kvs ≡ some u
    → lookup j ((k, v) ∷ kvs) ≡ some u
unfolding all_distinct
lookup_later k v kvs j u d there =
    ground (arith, there, text_eq_iff k j, text_in-keys k kvs, text_in-keys j kvs, d)

pub distinct_rest :
    (k : Text) (ks : List Text) → all_distinct (k ∷ ks) ≡ true → all_distinct ks ≡ true
unfolding all_distinct
distinct_rest k ks d = ground (arith, d)

-- An object has the same fields as any list of items that finds them.
same_fields-intro :
    (fs : JsonFields) (right : Items)
    → all_distinct (keys (items fs)) ≡ true
    → ((k : Text) (v : JsonValue)
        → lookup k (items fs) ≡ some v
        → (w : JsonValue) × (lookup k right ≡ some w) × (same v w ≡ true))
    → same_fields fs right ≡ true
unfolding same
same_fields-intro end right d h = refl
same_fields-intro (field k v fs) right d h =
    let (w, found, agrees) = h k v (lookup_first k v (items fs)) in
    let rest : same_fields fs right ≡ true =
      same_fields-intro fs right (distinct_rest k (keys (items fs)) d)
        (λ j u there. h j u (lookup_later k v (items fs) j u d there)) in
    ground (arith, found, agrees, rest)

pub and-intro : (a b : Bool) → a ≡ true → b ≡ true → (a && b) ≡ true
and-intro a b h k = ground (arith, h, k)

mutual
  unfolding same is_json

  same_refl_of : (v : JsonValue) → is_json v ≡ true → same v v ≡ true
  same_refl_of null h = refl
  same_refl_of (bool b) h = bool_eq_refl b
  same_refl_of (int a) h = ground arith
  same_refl_of (float x) h = float_same_refl x h
  same_refl_of (str t) h = text_eq_refl t
  same_refl_of (array xs) h = values_refl xs h
  same_refl_of (object fs) h =
      let fields : same_fields fs (items fs) ≡ true =
        fields_refl fs (items fs) (and-eq-true _ _ h).0 (and-eq-true _ _ h).1
          (λ k v there. there) in
      and-intro _ _ (set_eq-intro (keys (items fs)) (keys (items fs)) (λ t. refl)) fields

  values_refl : (xs : JsonValues) → are_json xs ≡ true → same_values xs xs ≡ true
  values_refl nil h = refl
  values_refl (cons x xs) h =
      let (a, b) = and-eq-true (is_json x) (are_json xs) h in
      and-intro _ _ (same_refl_of x a) (values_refl xs b)

  fields_refl :
      (fs : JsonFields) (right : Items)
      → all_distinct (keys (items fs)) ≡ true
      → fields_json fs ≡ true
      → ((k : Text) (v : JsonValue) → lookup k (items fs) ≡ some v → lookup k right ≡ some v)
      → same_fields fs right ≡ true
  fields_refl end right d j h = refl
  fields_refl (field k v fs) right d j h =
      let found = h k v (lookup_first k v (items fs)) in
      let (a, b) = and-eq-true (is_json v) (fields_json fs) j in
      let agrees = same_refl_of v a in
      let rest : same_fields fs right ≡ true =
        fields_refl fs right (distinct_rest k (keys (items fs)) d) b
          (λ i u there. h i u (lookup_later k v (items fs) i u d there)) in
      and-intro _ _ (rw found agrees) rest

pub same_refl : (v : JsonValue) → is_json v ≡ true → same v v ≡ true
same_refl v h = same_refl_of v h

pub fields_json-lookup :
    (fs : JsonFields) (k : Text) (v : JsonValue)
    → fields_json fs ≡ true
    → lookup k (items fs) ≡ some v
    → is_json v ≡ true
unfolding is_json
fields_json-lookup end k v j h = absurd (ground (arith, h))
fields_json-lookup (field i w fs) k v j h =
    let (a, b) = and-eq-true (is_json w) (fields_json fs) j in
    elim (Bool-cases (text_eq i k)) [
      | inl here ↦
          let same_value : w ≡ v = ground (arith, here, h) in ap is_json (sym same_value) ∙ a
      | inr other ↦ fields_json-lookup fs k v b (ground (arith, other, h))
    ]

pub same_fields-lookup :
    (fs : JsonFields) (right : Items) (k : Text) (v : JsonValue)
    → same_fields fs right ≡ true
    → lookup k (items fs) ≡ some v
    → (w : JsonValue) × (lookup k right ≡ some w) × (same v w ≡ true)
unfolding same
same_fields-lookup end right k v s h = absurd (ground (arith, h))
same_fields-lookup (field i u fs) right k v s h = elim (Bool-cases (text_eq i k)) [
  | inl here ↦ elim (Option-cases (lookup i right)) [
    | inl gone ↦ absurd (ground (arith, s, gone))
    | inr (w, found) ↦
        (w, ground (arith, found, here, text_eq_iff i k), ground (arith, found, s, here, h))
  ]
  | inr other ↦ same_fields-lookup fs right k v (ground (arith, s)) (ground (arith, other, h))
]

-- An object is the same as one in which each of its keys has the same value, and no other key any.
pub same-object :
    (fs : JsonFields) (right : Items)
    → all_distinct (keys (items fs)) ≡ true
    → ((k : Text) (v : JsonValue)
        → lookup k (items fs) ≡ some v
        → (w : JsonValue) × (lookup k right ≡ some w) × (same v w ≡ true))
    → ((k : Text) → lookup k (items fs) ≡ none → lookup k right ≡ none)
    → same (object fs) (object (fields_of right)) ≡ true
unfolding same
same-object fs right d finds misses =
    let fields = same_fields-intro fs right d finds in
    let here : (t : Text) → text_in t (keys (items fs)) ≡ text_in t (keys right) = λ t.
      elim (Option-cases (lookup t (items fs))) [
        | inl gone ↦ ground (arith, text_in-keys t (items fs), text_in-keys t right, gone, misses t)
        | inr (v, found) ↦
            ground
              (arith, text_in-keys t (items fs), text_in-keys t right, found, (finds t v found).1)
      ] in
    let agree = set_eq-intro (keys (items fs)) (keys right) here in
    ground (arith, items-fields_of right, fields, agree)

-- The lists that an `append` joins.
pub same_values-appended :
    (xs ys : JsonValues)
    → are_json ys ≡ true
    → same_values (take_values (length_values xs) ys) xs ≡ true
    → same_values ys (append_values xs (drop_values (length_values xs) ys)) ≡ true
unfolding same is_json
same_values-appended nil ys j h = values_refl ys j
same_values-appended (cons x xs) nil j h = absurd (ground (arith, h))
same_values-appended (cons x xs) (cons y ys) j h =
    let (a, b) = and-eq-true (is_json y) (are_json ys) j in
    let (c, d) = and-eq-true (same y x) (same_values (take_values (length_values xs) ys) xs) h in
    and-intro _ _ c (same_values-appended xs ys b d)
