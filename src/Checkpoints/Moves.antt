-- ===== src/Checkpoints/Moves.antt =====
-- Files that EvoNN-Shared/src/evonn_shared/checkpoints.py writes under a hidden name and then renames.
use evo_nn_research.Prelude.{
  Bool-cases, if◌then◌else◌, ◌≡◌, inl, inr, ap, ◌∙◌, true, false, none, some, Text, lookup, text_eq,
  text_eq_iff, text_eq_refl, set_item, erase, lookup-set_item, lookup-erase, ok, arith,
}
use evo_nn_research.Checkpoints.Keeping.{is_visible}
use evo_nn_research.Checkpoints.Storage.{Bytes, Files, write, rename_exclusive, rename, perform}

-- `fs` with the file `name` in place of what `to` held, once it was staged as `name`.
abbrev pub moved : Text → Text → Bytes → Files → Files
moved name to content fs = set_item to content (erase name (set_item name content fs))

pub write_move :
    (name to : Text) (content : Bytes) (fs : Files)
    → lookup name fs ≡ none
    → (perform (write name content) fs ≡ ok (set_item name content fs))
      × (perform (rename name to) (set_item name content fs) ≡ ok (moved name to content fs))
unfolding perform
write_move name to content fs free =
    let there : lookup name (set_item name content fs) ≡ some content =
      lookup-set_item name content name fs ∙ ground (arith, text_eq_refl name) in
    (ground (arith, free), ground (arith, there))

pub rename_free :
    (from to : Text) (fs : Files)
    → lookup to fs ≡ none
    → perform (rename_exclusive from to) fs ≡ perform (rename from to) fs
unfolding perform
rename_free from to fs free = ground (arith, free)

pub lookup-moved :
    (n name to : Text) (content : Bytes) (fs : Files)
    → text_eq name n ≡ false
    → lookup n (moved name to content fs) ≡ (if text_eq to n then some content else lookup n fs)
lookup-moved n name to content fs differs =
    lookup-set_item to content n (erase name (set_item name content fs))
    ∙ ground (
      arith,
      lookup-erase name n (set_item name content fs),
      lookup-set_item name content n fs,
      differs,
    )

pub hidden_differs :
    (hidden visible : Text)
    → is_visible hidden ≡ false
    → is_visible visible ≡ true
    → text_eq hidden visible ≡ false
hidden_differs hidden visible h v = elim (Bool-cases (text_eq hidden visible)) [
  | inl same ↦ absurd (ground (arith, ap is_visible ((text_eq_iff hidden visible).0 same), h, v))
  | inr differs ↦ differs
]

pub moved_unused :
    (n name to : Text) (content : Bytes) (fs : Files)
    → text_eq to n ≡ false
    → lookup n fs ≡ none
    → lookup n (moved name to content fs) ≡ none
moved_unused n name to content fs differs unused =
    lookup-set_item to content n (erase name (set_item name content fs))
    ∙ ground (
      arith,
      lookup-erase name n (set_item name content fs),
      lookup-set_item name content n fs,
      differs,
      unused,
    )

pub visible_differs :
    (visible hidden : Text)
    → is_visible visible ≡ true
    → is_visible hidden ≡ false
    → text_eq visible hidden ≡ false
visible_differs visible hidden v h = elim (Bool-cases (text_eq visible hidden)) [
  | inl same ↦ absurd (ground (arith, ap is_visible ((text_eq_iff visible hidden).0 same), h, v))
  | inr differs ↦ differs
]
