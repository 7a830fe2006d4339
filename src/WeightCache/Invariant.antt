-- ===== src/WeightCache/Invariant.antt =====
-- What `put` and the constructor of EvoNN-Shared/src/evonn_shared/weight_cache.py keep true.
use evo_nn_research.Prelude.{
  remove, set_item, ordered_dict, lookup, ℕ, ◌+◌, ◌≤◌, ◌≡◌, refl, sym, ap, ◌∙◌, false, List, [],
  ◌∷◌, ◌++◌, none, some, Text, arith, inl, inr, Option-cases, Option, Bool-cases, text_eq,
  text_eq_iff, text_in, length, ok, ltb,
}
use evo_nn_research.WeightCache.{
  Arrays, Item, Cache, Sizes, write, is_over, trim, total_size, sizes_of, init, put, key_of,
  new_item, bytes_without,
}
use evo_nn_research.WeightCache.Trimming.{
  Entries, keys, HasDistinctKeys, IsSized, IsSized-write, trim_from-Trimmed,
}

module _ (np : Arrays) (entry_size : Text → Item np → ℕ) where
  abbrev pub total : Entries np → ℕ
  total = total_size np entry_size

  pub record IsValid (c : Cache np) : Type 0 where
    pub distinct : HasDistinctKeys np c.entries
    pub sized : IsSized np entry_size c.sizes c.entries
    pub counted : c.entry_bytes ≡ total c.entries
    pub fits : is_over c.capacity (length c.entries) c.entry_bytes ≡ false

  -- The cache `c` holds what is left of `es` when the oldest entries are dropped, and no longer
  -- part of `es` would have fitted.
  pub record HoldsNewestOf (es : Entries np) (c : Cache np) : Type 0 where
    pub dropped : Entries np
    pub split : es ≡ dropped ++ c.entries
    pub longest :
        (d s : Entries np)
        → es ≡ d ++ s
        → is_over c.capacity (length s) (total s) ≡ false
        → length s ≤ length c.entries

  trim-IsValid :
      (c : Cache np)
      → HasDistinctKeys np c.entries
      → IsSized np entry_size c.sizes c.entries
      → c.entry_bytes ≡ total c.entries
      → (after : Cache np) × (trim np c ≡ ok after)
        × (after.capacity ≡ c.capacity)
        × IsValid after
        × HoldsNewestOf c.entries after
  unfolding trim
  trim-IsValid c d s e =
      let (t, done) =
        trim_from-Trimmed np entry_size c.capacity c.entries c.sizes c.entry_bytes d s e in
      (
        record c { entries = t.kept; sizes = t.kept_sizes; entry_bytes = t.bytes },
        rw done refl,
        refl,
        record { distinct = t.distinct; sized = t.sized; counted = t.counted; fits = t.fits },
        record { dropped = t.dropped; split = t.split; longest = t.longest },
      )

  -- Lookup, removal and a new entry.
  remove-other :
      (k j : Text) (es : Entries np)
      → text_in j (keys np es) ≡ false
      → text_in j (keys np (remove k es)) ≡ false
  remove-other k j [] h = h
  remove-other k j ((i, item) ∷ es) h = ground (arith, remove-other k j es)

  pub remove-Distinct :
      (k : Text) (es : Entries np) → HasDistinctKeys np es → HasDistinctKeys np (remove k es)
  remove-Distinct k [] d = tt
  remove-Distinct k ((i, item) ∷ es) d = ground (arith, remove-Distinct k es, remove-other k i es)

  pub remove-absent :
      (k : Text) (es : Entries np)
      → HasDistinctKeys np es
      → text_in k (keys np (remove k es)) ≡ false
  remove-absent k [] d = refl
  remove-absent k ((i, item) ∷ es) d =
      ground (arith, remove-absent k es, text_eq_iff i k, text_eq_iff k i)

  pub remove-Sized :
      (sizes : Sizes) (k : Text) (es : Entries np)
      → IsSized np entry_size sizes es
      → IsSized np entry_size sizes (remove k es)
  remove-Sized sizes k [] s = tt
  remove-Sized sizes k ((i, item) ∷ es) s = ground (arith, remove-Sized sizes k es)

  tail_lookup :
      (k i : Text) (other item : Item np) (es : Entries np)
      → text_eq i k ≡ false
      → lookup k ((i, other) ∷ es) ≡ some item
      → lookup k es ≡ some item
  tail_lookup differs h = ground arith

  -- What `put` subtracts is what the removed entry counted.
  pub remove-total :
      (sizes : Sizes) (k : Text) (es : Entries np) (item : Item np)
      → IsSized np entry_size sizes es
      → lookup k es ≡ some item
      → (n : ℕ) × (sizes k ≡ some n) × (total es ≡ total (remove k es) + n)
  remove-total sizes k [] item s h = cc
  remove-total sizes k ((i, other) ∷ es) item s h = elim (Bool-cases (text_eq i k)) [
    | inl same ↦
        (entry_size i other, ap sizes (sym ((text_eq_iff i k).0 same)) ∙ s.0, rw same (omega arith))
    | inr differs ↦
        let (n, found, sum) =
          remove-total sizes k es item s.1 (tail_lookup k i other item es differs h) in
        (n, found, rw differs (omega (arith, sum)))
  ]

  remove-missing : (k : Text) (es : Entries np) → lookup k es ≡ none → remove k es ≡ es
  remove-missing k [] h = refl
  remove-missing k ((i, item) ∷ es) h = ground (arith, remove-missing k es)

  text_in-append :
      (j k : Text) (item : Item np) (es : Entries np)
      → text_in j (keys np es) ≡ false
      → text_eq k j ≡ false
      → text_in j (keys np (es ++ (k, item) ∷ [])) ≡ false
  text_in-append j k item [] h n = ground (arith, text_eq_iff k j, text_eq_iff j k)
  text_in-append j k item ((i, other) ∷ es) h n = ground (arith, text_in-append j k item es)

  pub append-Distinct :
      (k : Text) (item : Item np) (es : Entries np)
      → HasDistinctKeys np es
      → text_in k (keys np es) ≡ false
      → HasDistinctKeys np (es ++ (k, item) ∷ [])
  append-Distinct k item [] d h = (refl, tt)
  append-Distinct k item ((i, other) ∷ es) d h = ground (
    arith,
    append-Distinct k item es,
    text_in-append i k item es,
    text_eq_iff i k,
    text_eq_iff k i,
  )

  pub append-Sized :
      (sizes : Sizes) (k : Text) (item : Item np) (es : Entries np)
      → IsSized np entry_size sizes es
      → sizes k ≡ some (entry_size k item)
      → IsSized np entry_size sizes (es ++ (k, item) ∷ [])
  append-Sized sizes k item [] s h = (h, tt)
  append-Sized sizes k item ((i, other) ∷ es) s h = (s.0, append-Sized sizes k item es s.1 h)

  pub append-total :
      (k : Text) (item : Item np) (es : Entries np)
      → total (es ++ (k, item) ∷ []) ≡ total es + entry_size k item
  append-total k item [] = omega arith
  append-total k item ((i, other) ∷ es) = omega (arith, append-total k item es)

  write-same : (sizes : Sizes) (k : Text) (n : Option ℕ) → write sizes k n k ≡ n
  write-same sizes k n = ground (arith, text_eq_iff k k)

  -- The removal in `put`: its key error cannot happen.
  without :
      (c : Cache np) (k : Text)
      → IsValid c
      → bytes_without np entry_size c k ≡ ok (total (remove k c.entries))
  without c k v = elim (Option-cases (lookup k c.entries)) [
    | inl absent ↦ rw (absent, bytes_without, v.counted, remove-missing k c.entries absent) refl
    | inr (item, present) ↦
        let (n, found, sum) = remove-total c.sizes k c.entries item v.sized present in
        rw (present, found, bytes_without) (ap ok (omega (arith, sum, v.counted)))
  ]

  -- On a cache whose sizes and byte count are right, `put` raises no error, the cache it returns is
  -- again such a cache and within both limits, and holds as many of the newest entries as fit, the
  -- new one being the newest.
  pub put-IsValid :
      (c : Cache np) (namespace identity topology family : Text) (weights : List (Text × np.Array))
      (buffers : List (Text × List np.Array))
      → IsValid c
      → (after : Cache np) × (put np entry_size c namespace identity topology family weights buffers
          ≡ ok after)
        × (after.capacity ≡ c.capacity)
        × IsValid after
        × HoldsNewestOf
            (remove (key_of namespace identity) c.entries
              ++ (
                key_of namespace identity,
                new_item np entry_size namespace identity topology family weights buffers,
              )
                ∷ [])
            after
  unfolding put
  put-IsValid c namespace identity topology family weights buffers v =
      let key = key_of namespace identity in
      let item = new_item np entry_size namespace identity topology family weights buffers in
      let rest = remove key c.entries in
      let (after, done, same, valid, newest) =
        trim-IsValid
          (record c {
            entries = rest ++ (key, item) ∷ [];
            sizes = write c.sizes key (some (entry_size key item));
            entry_bytes = total rest + entry_size key item;
          })
          (append-Distinct key item rest (remove-Distinct key c.entries v.distinct)
            (remove-absent key c.entries v.distinct))
          (append-Sized _ key item rest
            (IsSized-write np entry_size c.sizes key _ rest (remove-absent key c.entries v.distinct)
              (remove-Sized c.sizes key c.entries v.sized))
            (write-same c.sizes key _))
          (sym (append-total key item rest)) in
      (after, rw (without c key v) done, same, valid, newest)

  set_item-keys :
      (j k : Text) (item : Item np) (es : Entries np)
      → text_in j (keys np es) ≡ false
      → text_eq k j ≡ false
      → text_in j (keys np (set_item k item es)) ≡ false
  set_item-keys j k item [] h n = ground (arith, text_eq_iff k j, text_eq_iff j k)
  set_item-keys j k item ((i, other) ∷ es) h n =
      ground (arith, set_item-keys j k item es, text_eq_iff k j, text_eq_iff j k)

  set_item-Distinct :
      (k : Text) (item : Item np) (es : Entries np)
      → HasDistinctKeys np es
      → HasDistinctKeys np (set_item k item es)
  set_item-Distinct k item [] d = (refl, tt)
  set_item-Distinct k item ((i, other) ∷ es) d = ground (
    arith,
    set_item-Distinct k item es,
    set_item-keys i k item es,
    text_eq_iff i k,
    text_eq_iff k i,
  )

  ordered_dict-Distinct :
      (m items : Entries np) → HasDistinctKeys np m → HasDistinctKeys np (ordered_dict m items)
  ordered_dict-Distinct m [] d = d
  ordered_dict-Distinct m ((k, item) ∷ items) d =
      ordered_dict-Distinct (set_item k item m) items (set_item-Distinct k item m d)

  sizes_of-Sized :
      (es : Entries np)
      → HasDistinctKeys np es
      → IsSized np entry_size (sizes_of np entry_size es) es
  unfolding sizes_of
  sizes_of-Sized [] d = tt
  sizes_of-Sized ((k, item) ∷ es) d = (
    write-same (sizes_of np entry_size es) k _,
    IsSized-write np entry_size (sizes_of np entry_size es) k _ es d.0 (sizes_of-Sized es d.1),
  )

  -- With a positive capacity the constructor returns, whatever state it is given, and the cache it
  -- returns has right sizes and byte count, is within both limits, and holds as many of the newest
  -- entries of the state as fit.
  pub init-IsValid :
      (capacity : ℕ) (state : Entries np)
      → ltb capacity 1 ≡ false
      → (after : Cache np) × (init np entry_size capacity state ≡ ok after)
        × (after.capacity ≡ capacity)
        × IsValid after
        × HoldsNewestOf (ordered_dict [] state) after
  unfolding init
  init-IsValid capacity state positive =
      let entries = ordered_dict [] state in
      let (after, done, same, valid, newest) =
        trim-IsValid
          (record {
            capacity = capacity;
            entries = entries;
            sizes = sizes_of np entry_size entries;
            entry_bytes = total entries;
          })
          (ordered_dict-Distinct [] state tt)
          (sizes_of-Sized entries (ordered_dict-Distinct [] state tt)) refl in
      (after, rw positive done, same, valid, newest)
