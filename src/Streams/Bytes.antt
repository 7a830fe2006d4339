-- ===== src/Streams/Bytes.antt =====
-- The bytes of a number that EvoNN-Shared/src/evonn_shared/rng.py hashes, and those of a digest.
use evo_nn_research.Prelude.{
  ℕ, zero, suc, ◌+◌, ◌*◌, ◌/◌, ◌%◌, ◌<◌, ◌≡◌, refl, ap, ◌∙◌, Bool, true, List, [], ◌∷◌, ◌++◌, ltb,
  all, length, and-eq-true, arith,
}
use evo_nn_research.Streams.{to_bytes, from_bytes, from_bytes_onto, take_bytes}

abbrev pub are_bytes : List ℕ → Bool
are_bytes = all (λ b. ltb b 256)

-- `lim * 256 ^ k`
abbrev pub scale : ℕ → ℕ → ℕ
scale zero lim = lim
scale (suc k) lim = scale k (lim * 256)

pub below : (n m : ℕ) → ltb n m ≡ true → n < m
below n m h = ground (arith, h)

pub from_bytes_bound :
    (bs : List ℕ) (acc lim : ℕ)
    → acc < lim
    → are_bytes bs ≡ true
    → from_bytes_onto acc bs < scale (length bs) lim
from_bytes_bound [] acc lim h b = h
from_bytes_bound (x ∷ bs) acc lim h b =
    let (small, rest) = and-eq-true (ltb x 256) (are_bytes bs) b in
    let less : x < 256 = below x 256 small in
    from_bytes_bound bs (acc * 256 + x) (lim * 256) (omega (arith, h, less)) rest

pub from_bytes_injective :
    (bs cs : List ℕ) (a b : ℕ)
    → length bs ≡ length cs
    → are_bytes bs ≡ true
    → are_bytes cs ≡ true
    → from_bytes_onto a bs ≡ from_bytes_onto b cs
    → (a ≡ b) × (bs ≡ cs)
from_bytes_injective [] [] a b l u v h = (h, refl)
from_bytes_injective [] (y ∷ cs) a b l u v h = absurd (omega (arith, l))
from_bytes_injective (x ∷ bs) [] a b l u v h = absurd (omega (arith, l))
from_bytes_injective (x ∷ bs) (y ∷ cs) a b l u v h =
    let (small, rest) = and-eq-true (ltb x 256) (are_bytes bs) u in
    let (small', rest') = and-eq-true (ltb y 256) (are_bytes cs) v in
    let less : x < 256 = below x 256 small in
    let less' : y < 256 = below y 256 small' in
    let (here, later) =
      from_bytes_injective bs cs (a * 256 + x) (b * 256 + y) (omega (arith, l)) rest rest' h in
    let first : x ≡ y = omega (arith, here, less, less') in
    (omega (arith, here, less, less'), ap (λ z. z ∷ bs) first ∙ ap (◌∷◌ y) later)

from_bytes-append :
    (bs : List ℕ) (acc b : ℕ)
    → from_bytes_onto acc (bs ++ b ∷ []) ≡ from_bytes_onto acc bs * 256 + b
from_bytes-append [] acc b = refl
from_bytes-append (x ∷ bs) acc b = from_bytes-append bs (acc * 256 + x) b

abbrev pub limit : ℕ → ℕ
limit zero = 1
limit (suc k) = limit k * 256

-- Reading the bytes of a number that fits gives the number.
pub from_bytes-to_bytes : (k n : ℕ) → n < limit k → from_bytes (to_bytes k n) ≡ n
unfolding to_bytes
from_bytes-to_bytes zero n h = omega (arith, h)
from_bytes-to_bytes (suc k) n h =
    let upper : n / 256 < limit k = omega (arith, h) in
    from_bytes-append (to_bytes k (n / 256)) 0 (n % 256)
    ∙ ap (λ m. m * 256 + n % 256) (from_bytes-to_bytes k (n / 256) upper)
    ∙ omega arith

length-append_one : (bs : List ℕ) (b : ℕ) → length (bs ++ b ∷ []) ≡ suc (length bs)
length-append_one [] b = refl
length-append_one (x ∷ bs) b = ap suc (length-append_one bs b)

pub length-to_bytes : (k n : ℕ) → length (to_bytes k n) ≡ k
unfolding to_bytes
length-to_bytes zero n = refl
length-to_bytes (suc k) n =
    length-append_one (to_bytes k (n / 256)) (n % 256) ∙ ap suc (length-to_bytes k (n / 256))

pub append_cancel : (xs as_ bs : List ℕ) → xs ++ as_ ≡ xs ++ bs → as_ ≡ bs
append_cancel [] as_ bs h = h
append_cancel (x ∷ xs) as_ bs h = append_cancel xs as_ bs (ground (arith, h))

pub append_parts :
    (xs ys as_ bs : List ℕ) → length xs ≡ length ys → xs ++ as_ ≡ ys ++ bs → (xs ≡ ys) × (as_ ≡ bs)
append_parts [] [] as_ bs l h = (refl, h)
append_parts [] (y ∷ ys) as_ bs l h = absurd (omega (arith, l))
append_parts (x ∷ xs) [] as_ bs l h = absurd (omega (arith, l))
append_parts (x ∷ xs) (y ∷ ys) as_ bs l h =
    let first : x ≡ y = ground (arith, h) in
    let (a, b) = append_parts xs ys as_ bs (omega (arith, l)) (ground (arith, h)) in
    (ap (λ z. z ∷ xs) first ∙ ap (◌∷◌ y) a, b)

pub take_bytes-are_bytes :
    (n : ℕ) (bs : List ℕ) → are_bytes bs ≡ true → are_bytes (take_bytes n bs) ≡ true
take_bytes-are_bytes zero bs h = refl
take_bytes-are_bytes (suc n) [] h = refl
take_bytes-are_bytes (suc n) (b ∷ bs) h = ground (arith, h, take_bytes-are_bytes n bs)

pub length-take_bytes : (n m : ℕ) (bs : List ℕ) → length bs ≡ n + m → length (take_bytes n bs) ≡ n
length-take_bytes zero m bs h = refl
length-take_bytes (suc n) m [] h = absurd (omega (arith, h))
length-take_bytes (suc n) m (b ∷ bs) h = ap suc (length-take_bytes n m bs (omega (arith, h)))
