-- ===== src/Prelude/Texts.antt =====
-- A Python `str` as the list of its code points, lone surrogates included.
use Prim.Native.Nat.{ℕ}
use Prim.Native.Char.{code}
use Prim.Native.String.{String}
use mathlib.Core.Path.{◌≡◌, refl}
use mathlib.Core.Logic.{◌↔◌}
use mathlib.Core.Bool.{Bool, true, false, ◌&&◌, ◌||◌, not}
use mathlib.Core.List.{List, [], ◌∷◌}
use mathlib.Core.Option.{Option, none, some}
use native.Mathlib.Omega.{arith}
use evo_nn_research.Prelude.Tests.{ltb, ◌==◌, if◌then◌else◌}
use evo_nn_research.Prelude.Lists.{all}

abbrev pub Text : Type 0
Text = List ℕ

-- A literal text.
abbrev pub codes : String → Text
codes String.[] = []
codes (String.◌∷◌ c s) = code c ∷ codes s

-- `a == b` on texts.
abbrev pub text_eq : Text → Text → Bool
text_eq [] [] = true
text_eq [] (y ∷ ys) = false
text_eq (x ∷ xs) [] = false
text_eq (x ∷ xs) (y ∷ ys) = x == y && text_eq xs ys

pub text_eq_iff : (a b : Text) → (text_eq a b ≡ true) ↔ (a ≡ b)
text_eq_iff [] [] = ground arith
text_eq_iff [] (y ∷ ys) = ground arith
text_eq_iff (x ∷ xs) [] = ground arith
text_eq_iff (x ∷ xs) (y ∷ ys) = ground (arith, text_eq_iff xs ys)

pub text_eq_refl : (a : Text) → text_eq a a ≡ true
text_eq_refl a = (text_eq_iff a a).1 refl

-- `value.encode("utf-8")` succeeds: no code point is a surrogate.
unfoldable pub is_utf8 : Text → Bool
is_utf8 = all (λ c. ltb c 0xd800 || (ltb 0xdfff c && ltb c 0x110000))

-- The order of the UTF-8 encodings, which is the order by code points.
unfoldable pub text_lt : Text → Text → Bool
text_lt a [] = false
text_lt [] (y ∷ ys) = true
text_lt (x ∷ xs) (y ∷ ys) = ltb x y || (x == y && text_lt xs ys)

-- `x in xs`
abbrev pub text_in : Text → List Text → Bool
text_in t [] = false
text_in t (x ∷ xs) = text_eq x t || text_in t xs

-- `len(values) == len(set(values))`
unfoldable pub all_distinct : List Text → Bool
all_distinct [] = true
all_distinct (x ∷ xs) = not (text_in x xs) && all_distinct xs

-- `m.get(k)` on a dictionary, as the list of its items.
abbrev pub lookup {ℓ} : {V : Type ℓ} → Text → List (Text × V) → Option V
lookup k [] = none
lookup k ((j, v) ∷ m) = if text_eq j k then some v else lookup k m
