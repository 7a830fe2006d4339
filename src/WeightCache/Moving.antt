-- ===== src/WeightCache/Moving.antt =====
-- Entries of the cache of EvoNN-Shared/src/evonn_shared/weight_cache.py that are found and moved.
use evo_nn_research.Prelude.{
  lookup, remove, ℕ, suc, ◌≡◌, refl, sym, ap, ◌∙◌, true, false, List, [], ◌∷◌, ◌++◌, some,
  Bool-cases, Text, lookup_head, lookup_tail, some_injective, text_eq, text_eq_iff, text_in, length,
  arith, inl, inr,
}
use evo_nn_research.WeightCache.{Arrays, Item, Cache, Sizes, is_over}
use evo_nn_research.WeightCache.Trimming.{Entries, keys, IsSized}
use evo_nn_research.WeightCache.Invariant.{
  IsValid, remove-Distinct, remove-absent, remove-Sized, remove-total, append-Distinct,
  append-Sized, append-total,
}

found_key :
    (np : Arrays) (j : Text) (other : Item np) (es : Entries np)
    → lookup j es ≡ some other
    → text_in j (keys np es) ≡ true
found_key np j other [] h = absurd (ground (arith, h))
found_key np j other ((k, item) ∷ es) h = elim (Bool-cases (text_eq k j)) [
  | inl here ↦ rw here refl
  | inr differs ↦
      let there = lookup_tail k j item es differs h in
      rw (differs, found_key np j other es there) refl
]

pub distinct_lookup :
    (np : Arrays) (k : Text) (item : Item np) (es : Entries np) (j : Text) (other : Item np)
    → text_in k (keys np es) ≡ false
    → lookup j es ≡ some other
    → lookup j ((k, item) ∷ es) ≡ some other
distinct_lookup np k item es j other d there = elim (Bool-cases (text_eq k j)) [
  | inl here ↦
      let listed : text_in k (keys np es) ≡ true =
        ap (λ i. text_in i (keys np es)) ((text_eq_iff k j).0 here)
        ∙ found_key np j other es there in
      absurd (ground (arith, d, listed))
  | inr differs ↦ rw differs there
]

appended_length : {A : Type 0} (xs : List A) (x : A) → length (xs ++ x ∷ []) ≡ suc (length xs)
appended_length [] x = refl
appended_length (y ∷ xs) x = ap suc (appended_length xs x)

-- What is found has the size that was recorded for it.
size_found :
    (np : Arrays) (entry_size : Text → Item np → ℕ) (sizes : Sizes) (k : Text) (item : Item np)
    (es : Entries np)
    → IsSized np entry_size sizes es
    → lookup k es ≡ some item
    → sizes k ≡ some (entry_size k item)
size_found np entry_size sizes k item [] s h = absurd (ground (arith, h))
size_found np entry_size sizes k item ((j, other) ∷ es) (s, ss) h =
    elim (Bool-cases (text_eq j k)) [
      | inl here ↦
          let key : j ≡ k = (text_eq_iff j k).0 here in
          let same_item : other ≡ item = lookup_head j k other item es here h in
          ap sizes (sym key)
          ∙ s
          ∙ ap some (ap (λ i. entry_size i other) key ∙ ap (entry_size k) same_item)
      | inr differs ↦
          size_found np entry_size sizes k item es ss (lookup_tail j k other es differs h)
    ]

moved_length :
    (np : Arrays) (k : Text) (item : Item np) (es : Entries np)
    → lookup k es ≡ some item
    → length (remove k es ++ (k, item) ∷ []) ≡ length es
moved_length np k item [] h = absurd (ground (arith, h))
moved_length np k item ((j, other) ∷ es) h = elim (Bool-cases (text_eq j k)) [
  | inl here ↦ rw here (appended_length es (k, item))
  | inr differs ↦
      rw differs (ap suc (moved_length np k item es (lookup_tail j k other es differs h)))
]

-- The cache is as right with one of its entries moved to the end.
pub move-IsValid :
    (np : Arrays) (entry_size : Text → Item np → ℕ) (c : Cache np) (k : Text) (item : Item np)
    → IsValid np entry_size c
    → lookup k c.entries ≡ some item
    → IsValid np entry_size (record c { entries = remove k c.entries ++ (k, item) ∷ [] })
move-IsValid np entry_size c k item v h =
    let size = size_found np entry_size c.sizes k item c.entries v.sized h in
    let (n, found, sum) = remove-total np entry_size c.sizes k c.entries item v.sized h in
    let same_size : n ≡ entry_size k item = some_injective (sym found ∙ size) in
    record {
      distinct =
          append-Distinct np entry_size k item (remove k c.entries)
            (remove-Distinct np entry_size k c.entries v.distinct)
            (remove-absent np entry_size k c.entries v.distinct);
      sized =
          append-Sized np entry_size c.sizes k item (remove k c.entries)
            (remove-Sized np entry_size c.sizes k c.entries v.sized) size;
      counted =
          v.counted
          ∙ sum
          ∙ omega (arith, same_size, append-total np entry_size k item (remove k c.entries));
      fits =
          ap (λ m. is_over c.capacity m c.entry_bytes) (moved_length np k item c.entries h)
          ∙ v.fits;
    }
