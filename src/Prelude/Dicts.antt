-- ===== src/Prelude/Dicts.antt =====
-- A Python `dict` with text keys, as the list of its items in insertion order.
use mathlib.Core.Path.{◌≡◌, refl, sym, ap, ◌∙◌}
use mathlib.Core.Bool.{true, false}
use mathlib.Core.List.{List, [], ◌∷◌}
use mathlib.Core.Option.{none, some}
use native.Mathlib.Omega.{arith}
use evo_nn_research.Prelude.Tests.{if◌then◌else◌, some_injective}
use evo_nn_research.Prelude.Texts.{Text, text_eq, text_eq_iff, lookup}

-- `del m[k]`
abbrev pub remove {ℓ} : {V : Type ℓ} → Text → List (Text × V) → List (Text × V)
remove k [] = []
remove k ((j, v) ∷ m) = if text_eq j k then m else (j, v) ∷ remove k m

-- `m[k] = v`: in place, or at the end.
abbrev pub set_item {ℓ} : {V : Type ℓ} → Text → V → List (Text × V) → List (Text × V)
set_item k v [] = (k, v) ∷ []
set_item k v ((j, w) ∷ m) = if text_eq j k then (k, v) ∷ m else (j, w) ∷ set_item k v m

-- `OrderedDict(items)`
abbrev pub ordered_dict {ℓ} : {V : Type ℓ} → List (Text × V) → List (Text × V) → List (Text × V)
ordered_dict m [] = m
ordered_dict m ((k, v) ∷ items) = ordered_dict (set_item k v m) items

-- Removes a name, wherever it stands.
abbrev pub erase {ℓ} : {V : Type ℓ} → Text → List (Text × V) → List (Text × V)
erase k [] = []
erase k ((j, v) ∷ m) = if text_eq j k then erase k m else (j, v) ∷ erase k m

pub lookup-set_item :
    {V : Type 0} (k : Text) (v : V) (j : Text) (m : List (Text × V))
    → lookup j (set_item k v m) ≡ (if text_eq k j then some v else lookup j m)
lookup-set_item k v j [] = refl
lookup-set_item k v j ((i, w) ∷ m) =
    ground (arith, lookup-set_item k v j m, text_eq_iff i k, text_eq_iff i j, text_eq_iff k j)

pub lookup-erase :
    {V : Type 0} (k j : Text) (m : List (Text × V))
    → lookup j (erase k m) ≡ (if text_eq k j then none else lookup j m)
lookup-erase k j [] = ground arith
lookup-erase k j ((i, w) ∷ m) =
    ground (arith, lookup-erase k j m, text_eq_iff i k, text_eq_iff i j, text_eq_iff k j)

-- A lookup that succeeds, at the first item or behind it.
pub lookup_head :
    {V : Type 0} (j k : Text) (v w : V) (m : List (Text × V))
    → text_eq j k ≡ true
    → lookup k ((j, v) ∷ m) ≡ some w
    → v ≡ w
lookup_head j k v w m here h =
    some_injective (ap (λ b. if b then some v else lookup k m) (sym here) ∙ h)

pub lookup_tail :
    {V : Type 0} (j k : Text) (v : V) (m : List (Text × V)) {w : V}
    → text_eq j k ≡ false
    → lookup k ((j, v) ∷ m) ≡ some w
    → lookup k m ≡ some w
lookup_tail j k v m differs h = ap (λ b. if b then some v else lookup k m) (sym differs) ∙ h
