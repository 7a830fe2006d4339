-- ===== src/WeightCache/Trimming.antt =====
-- The loop of `_trim` in EvoNN-Shared/src/evonn_shared/weight_cache.py.
use mathlib.Core.Path.{subst}
use evo_nn_research.Prelude.{
  ℕ, suc, ◌+◌, ◌-◌, ◌≤◌, ◌≡◌, refl, sym, ap, ◌∙◌, true, false, List, [], ◌∷◌, ◌++◌, Option, none,
  some, Text, arith, inl, inr, Bool-cases, text_eq_iff, text_in, length, length-append, ok,
}
use evo_nn_research.WeightCache.{Arrays, Item, Sizes, write, is_over, trim_from, total_size}

module _ (np : Arrays) where
  abbrev pub Entries : Type 0
  Entries = List (Text × Item np)

  abbrev pub keys : Entries → List Text
  keys [] = []
  keys ((k, item) ∷ es) = k ∷ keys es

  -- No key stands twice.
  abbrev pub HasDistinctKeys : Entries → Type 0
  HasDistinctKeys [] = Unit
  HasDistinctKeys ((k, item) ∷ es) = (text_in k (keys es) ≡ false) × HasDistinctKeys es

  module _ (entry_size : Text → Item np → ℕ) where
    -- The recorded size of every entry is the length of its JSON text.
    abbrev pub IsSized : Sizes → Entries → Type 0
    IsSized sizes [] = Unit
    IsSized sizes ((k, item) ∷ es) = (sizes k ≡ some (entry_size k item)) × IsSized sizes es

    pub IsSized-write :
        (sizes : Sizes) (k : Text) (n : Option ℕ) (es : Entries)
        → text_in k (keys es) ≡ false
        → IsSized sizes es
        → IsSized (write sizes k n) es
    IsSized-write sizes k n [] h s = tt
    IsSized-write sizes k n ((j, item) ∷ es) h s =
        ground (arith, IsSized-write sizes k n es, text_eq_iff k j, text_eq_iff j k)

    -- What the loop leaves of `es`: the longest suffix that fits.
    pub record Trimmed (capacity : ℕ) (es : Entries) : Type 0 where
      pub kept : Entries
      pub kept_sizes : Sizes
      pub bytes : ℕ
      pub dropped : Entries
      pub split : es ≡ dropped ++ kept
      pub distinct : HasDistinctKeys kept
      pub sized : IsSized kept_sizes kept
      pub counted : bytes ≡ total_size np entry_size kept
      pub fits : is_over capacity (length kept) bytes ≡ false
      pub longest :
          (d s : Entries)
          → es ≡ d ++ s
          → is_over capacity (length s) (total_size np entry_size s) ≡ false
          → length s ≤ length kept

    suffix-le : (es d s : Entries) → es ≡ d ++ s → length s ≤ length es
    suffix-le es d s e = omega (arith, ap length e, length-append d s)

    suc_eq : (n : ℕ) → suc n ≡ n + 1
    suc_eq n = omega arith

    not-over : (capacity : ℕ) → is_over capacity 0 0 ≡ false
    unfolding is_over
    not-over capacity = ground arith

    trim_from-over :
        (capacity : ℕ) (k : Text) (item : Item np) (es : Entries) (sizes : Sizes) (bytes n : ℕ)
        → is_over capacity (length es + 1) bytes ≡ true
        → sizes k ≡ some n
        → trim_from np capacity ((k, item) ∷ es) sizes bytes
          ≡ trim_from np capacity es (write sizes k none) (bytes - n)
    unfolding trim_from
    trim_from-over capacity k item es sizes bytes n over sized = rw (over, sized, trim_from) refl

    trim_from-fine :
        (capacity : ℕ) (k : Text) (item : Item np) (es : Entries) (sizes : Sizes) (bytes : ℕ)
        → is_over capacity (length es + 1) bytes ≡ false
        → trim_from np capacity ((k, item) ∷ es) sizes bytes ≡ ok ((k, item) ∷ es, sizes, bytes)
    unfolding trim_from
    trim_from-fine capacity k item es sizes bytes fine = rw (fine, trim_from) refl

    longest-cons :
        (capacity bytes : ℕ) (k : Text) (item : Item np) (es kept : Entries)
        → bytes ≡ entry_size k item + total_size np entry_size es
        → is_over capacity (length es + 1) bytes ≡ true
        → ((d s : Entries)
            → es ≡ d ++ s
            → is_over capacity (length s) (total_size np entry_size s) ≡ false
            → length s ≤ length kept)
        → (d s : Entries) → (k, item) ∷ es ≡ d ++ s
        → is_over capacity (length s) (total_size np entry_size s) ≡ false
        → length s ≤ length kept
    longest-cons capacity bytes k item es kept e over rest [] s split fine = absurd (
        over_fits (
          subst (λ t. is_over capacity (length t) (total_size np entry_size t) ≡ false) (sym split)
            fine))
      where
        over_fits :
            is_over capacity (suc (length es)) (entry_size k item + total_size np entry_size es)
              ≡ false
            → ⊥
        over_fits h = cc (h, over, e, suc_eq (length es))
    longest-cons capacity bytes k item es kept e over rest (x ∷ d) s split fine = rest d s tail fine
      where
        tail : es ≡ d ++ s
        tail = cc split

    pub trim_from-Trimmed :
        (capacity : ℕ) (es : Entries) (sizes : Sizes) (bytes : ℕ)
        → HasDistinctKeys es
        → IsSized sizes es
        → bytes ≡ total_size np entry_size es
        → (t : Trimmed capacity es) × (trim_from np capacity es sizes bytes
            ≡ ok (t.kept, t.kept_sizes, t.bytes))
    unfolding trim_from
    trim_from-Trimmed capacity [] sizes bytes d s e = (
      record {
        kept = [];
        kept_sizes = sizes;
        bytes = bytes;
        dropped = [];
        split = refl;
        distinct = tt;
        sized = tt;
        counted = e;
        fits = rw e (not-over capacity);
        longest = λ d s e' _. suffix-le [] d s e';
      },
      rw (e, not-over capacity) refl,
    )
    trim_from-Trimmed capacity ((k, item) ∷ es) sizes bytes d s e =
        elim (Bool-cases (is_over capacity (length es + 1) bytes)) [
          | inl over ↦
              let (t, done) =
                trim_from-Trimmed capacity es (write sizes k none) (bytes - entry_size k item) d.1
                  (IsSized-write sizes k none es d.0 s.1) (omega (arith, e)) in
              (
                record {
                  kept = t.kept;
                  kept_sizes = t.kept_sizes;
                  bytes = t.bytes;
                  dropped = (k, item) ∷ t.dropped;
                  split = ap (◌∷◌ (k, item)) t.split;
                  distinct = t.distinct;
                  sized = t.sized;
                  counted = t.counted;
                  fits = t.fits;
                  longest = longest-cons capacity bytes k item es t.kept e over t.longest;
                },
                trim_from-over capacity k item es sizes bytes (entry_size k item) over s.0 ∙ done,
              )
          | inr fine ↦ (
            record {
              kept = (k, item) ∷ es;
              kept_sizes = sizes;
              bytes = bytes;
              dropped = [];
              split = refl;
              distinct = d;
              sized = s;
              counted = e;
              fits = rw (suc_eq (length es)) fine;
              longest = λ d s e' _. suffix-le ((k, item) ∷ es) d s e';
            },
            trim_from-fine capacity k item es sizes bytes fine,
          )
        ]
