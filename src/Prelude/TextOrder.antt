-- ===== src/Prelude/TextOrder.antt =====
-- The order of texts by their UTF-8 encodings is a strict total order.
use mathlib.Core.Path.{◌≡◌, refl}
use mathlib.Core.Bool.{true, false}
use mathlib.Core.List.{[], ◌∷◌}
use native.Mathlib.Omega.{arith}
use evo_nn_research.Prelude.Texts.{Text, text_lt}

pub text_lt_irrefl : (a : Text) → text_lt a a ≡ false
unfolding text_lt
text_lt_irrefl [] = refl
text_lt_irrefl (x ∷ xs) = ground (arith, text_lt_irrefl xs)

pub text_lt_asymm : (a b : Text) → text_lt a b ≡ true → text_lt b a ≡ false
unfolding text_lt
text_lt_asymm [] [] h = ground arith
text_lt_asymm [] (y ∷ ys) h = refl
text_lt_asymm (x ∷ xs) [] h = ground arith
text_lt_asymm (x ∷ xs) (y ∷ ys) h = ground (arith, text_lt_asymm xs ys)

pub text_lt_trans : (a b c : Text) → text_lt a b ≡ true → text_lt b c ≡ true → text_lt a c ≡ true
unfolding text_lt
text_lt_trans a b [] h k = ground arith
text_lt_trans [] b (z ∷ zs) h k = refl
text_lt_trans (x ∷ xs) [] (z ∷ zs) h k = ground arith
text_lt_trans (x ∷ xs) (y ∷ ys) (z ∷ zs) h k = ground (arith, text_lt_trans xs ys zs)

-- Texts that neither way lies before the other are equal.
pub text_lt_connex : (a b : Text) → text_lt a b ≡ false → text_lt b a ≡ false → a ≡ b
unfolding text_lt
text_lt_connex [] [] h k = refl
text_lt_connex [] (y ∷ ys) h k = ground arith
text_lt_connex (x ∷ xs) [] h k = ground arith
text_lt_connex (x ∷ xs) (y ∷ ys) h k = ground (arith, text_lt_connex xs ys)
