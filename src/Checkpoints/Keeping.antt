-- ===== src/Checkpoints/Keeping.antt =====
-- What is kept of a checkpoint directory by the effects before the commit of
-- EvoNN-Shared/src/evonn_shared/checkpoints.py.
use evo_nn_research.Prelude.{
  ◌≡◌, ◌⊎◌, inl, inr, sym, ap, ◌∙◌, Bool, true, false, List, [], ◌∷◌, ◌++◌, none, some,
  Option-cases, Text, lookup, text_eq_iff, set_item, erase, lookup-set_item, lookup-erase, ok,
  arith, ◌==◌,
}
use evo_nn_research.Checkpoints.Storage.{
  Bytes, Files, Effect, write, rename_exclusive, rename, unlink, perform, perform_all, IsTorn,
  MayLeave, move,
}

-- The name does not start with a dot.
abbrev pub is_visible : Text → Bool
is_visible [] = true
is_visible (c ∷ cs) = elim (c == b'.') [ true ↦ false | false ↦ true ]

-- Every visible file is still there, with what it held.
abbrev pub Keeps : Files → Files → Type 0
Keeps fs gs =
    (n : Text) (b : Bytes) → is_visible n ≡ true → lookup n fs ≡ some b → lookup n gs ≡ some b

-- An effect that creates a file, or moves a hidden one to a name that is free.
abbrev pub IsGentle : Effect → Type 0
IsGentle (write name content) = Unit
IsGentle (rename_exclusive from to) = is_visible from ≡ false
IsGentle (rename from to) = ⊥
IsGentle (unlink name) = is_visible name ≡ false

abbrev pub AreGentle : List Effect → Type 0
AreGentle [] = Unit
AreGentle (e ∷ es) = IsGentle e × AreGentle es

create-Keeps :
    (name : Text) (content : Bytes) (fs : Files)
    → lookup name fs ≡ none
    → Keeps fs (set_item name content fs)
create-Keeps name content fs free n b visible there =
    lookup-set_item name content n fs ∙ ground (arith, text_eq_iff name n, free, there)

erase-Keeps : (name : Text) (fs : Files) → is_visible name ≡ false → Keeps fs (erase name fs)
erase-Keeps name fs hidden n b visible there =
    lookup-erase name n fs ∙ ground (arith, text_eq_iff name n, hidden, visible, there)

move-Keeps :
    (from to : Text) (fs gs : Files)
    → is_visible from ≡ false
    → lookup to fs ≡ none
    → move from to fs ≡ ok gs
    → Keeps fs gs
move-Keeps from to fs gs hidden free h n b visible there = elim (Option-cases (lookup from fs)) [
  | inl gone ↦ absurd (ground (arith, h, gone))
  | inr (content, found) ↦
      let kept = erase-Keeps from fs hidden n b visible there in
      let free' : lookup to (erase from fs) ≡ none =
        lookup-erase from to fs ∙ ground (arith, free) in
      let same : set_item to content (erase from fs) ≡ gs = ground (arith, h, found) in
      ap (lookup n) (sym same) ∙ create-Keeps to content (erase from fs) free' n b visible kept
]

perform-Keeps : (e : Effect) (fs gs : Files) → IsGentle e → perform e fs ≡ ok gs → Keeps fs gs
unfolding perform
perform-Keeps (write name content) fs gs g h = elim (Option-cases (lookup name fs)) [
  | inl free ↦ λ n b visible there.
      let same : set_item name content fs ≡ gs = ground (arith, h, free) in
      ap (lookup n) (sym same) ∙ create-Keeps name content fs free n b visible there
  | inr (c, found) ↦ absurd (ground (arith, h, found))
]
perform-Keeps (rename_exclusive from to) fs gs g h = elim (Option-cases (lookup to fs)) [
  | inl free ↦ move-Keeps from to fs gs g free (ground (arith, h, free))
  | inr (c, found) ↦ absurd (ground (arith, h, found))
]
perform-Keeps (rename from to) fs gs g h = absurd g
perform-Keeps (unlink name) fs gs g h =
    λ n b visible there. ap (lookup n) (sym (cc)) ∙ erase-Keeps name fs g n b visible there

torn-Keeps : (e : Effect) (fs gs : Files) → IsTorn e fs gs → Keeps fs gs
torn-Keeps (write name content) fs gs (free, part, made) =
    λ n b visible there. ap (lookup n) made ∙ create-Keeps name part fs free n b visible there
torn-Keeps (rename_exclusive from to) fs gs t = absurd t
torn-Keeps (rename from to) fs gs t = absurd t
torn-Keeps (unlink name) fs gs t = absurd t

pub leaves-Keeps :
    (es : List Effect) (fs gs : Files) → AreGentle es → MayLeave es fs gs → Keeps fs gs
leaves-Keeps [] fs gs g l = λ n b visible there. ap (lookup n) (sym l) ∙ there
leaves-Keeps (e ∷ es) fs gs (g, gs') l = elim l [
  | inl same ↦ λ n b visible there. ap (lookup n) (sym same) ∙ there
  | inr (inl torn) ↦ torn-Keeps e fs gs torn
  | inr (inr (next, done, rest)) ↦ λ n b visible there.
      leaves-Keeps es next gs gs' rest n b visible
        (perform-Keeps e fs next g done n b visible there)
]

-- Nothing is torn by the last effect of a publication, a rename: either the visible files are kept,
-- or all effects are done.
pub leaves_renamed :
    (es : List Effect) (from to : Text) (fs gs : Files)
    → AreGentle es
    → MayLeave (es ++ rename from to ∷ []) fs gs
    → Keeps fs gs ⊎ (perform_all (es ++ rename from to ∷ []) fs ≡ ok gs)
unfolding perform_all
leaves_renamed [] from to fs gs g l = elim l [
  | inl same ↦ inl (λ n b visible there. ap (lookup n) (sym same) ∙ there)
  | inr (inl torn) ↦ absurd torn
  | inr (inr (next, done, same)) ↦ inr (ground (arith, done, same))
]
leaves_renamed (e ∷ es) from to fs gs (g, gs') l = elim l [
  | inl same ↦ inl (λ n b visible there. ap (lookup n) (sym same) ∙ there)
  | inr (inl torn) ↦ inl (torn-Keeps e fs gs torn)
  | inr (inr (next, done, rest)) ↦ elim (leaves_renamed es from to next gs gs' rest) [
    | inl kept ↦
        inl
          (λ n b visible there. kept n b visible (perform-Keeps e fs next g done n b visible there))
    | inr all ↦ inr (ground (arith, done, all))
  ]
]
