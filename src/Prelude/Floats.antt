-- ===== src/Prelude/Floats.antt =====
-- A Python `float`: binary64 as sign, magnitude `mantissa * 2 ^ exponent`, infinities and NaN.
-- Only what the program asks of a float is defined: finiteness, the sign tests, and `float(n)`.
use Prim.Native.Nat.{ℕ, zero, suc, ◌+◌, ◌-◌, ◌*◌, ◌/◌, ◌%◌, ◌^◌, ◌<◌, ◌≤◌}
use mathlib.Core.Path.{◌≡◌, refl}
use mathlib.Core.Bool.{Bool, true, false, not, ◌&&◌, ◌||◌}
use mathlib.Core.Logic.{◌⊎◌, inl, inr}
use mathlib.Core.Option.{Option, none, some}
use native.Mathlib.Omega.{arith}
use native.Mathlib.Decide.{ℕ_discrete}
use evo_nn_research.Prelude.Tests.{ltb, ◌==◌, if◌then◌else◌, Bool-cases}
use evo_nn_research.Prelude.Ints.{ℤ, pos}

pub data Float : Type 0 where
  nan : Float
  infinity : (negative : Bool) → Float
  finite : (negative : Bool) (mantissa : ℕ) (exponent : ℤ) → Float

-- `math.isfinite(x)`
abbrev pub is_finite : Float → Bool
is_finite (finite s m e) = true
is_finite (infinity s) = false
is_finite nan = false

-- `x > 0`: false of a NaN.
abbrev pub is_positive : Float → Bool
is_positive (finite s m e) = not s && ltb 0 m
is_positive (infinity s) = not s
is_positive nan = false

-- `x == 0.0`: both zeros.
abbrev pub is_zero : Float → Bool
is_zero (finite s m e) = m == 0
is_zero _ = false

-- `x >= 0`: the negative zero included, a NaN not.
abbrev pub is_nonneg : Float → Bool
is_nonneg (finite true m e) = m == 0
is_nonneg (finite false m e) = true
is_nonneg (infinity s) = not s
is_nonneg nan = false

pub Float-discrete : Discrete Float
Float-discrete = hlevel ℕ_discrete

-- How often an integer is halved until it has 53 bits.
unfoldable pub excess_bits : (fuel n : ℕ) → ℕ
excess_bits zero n = 0
excess_bits (suc fuel) n =
    let rest = excess_bits fuel (n / 2) in if ltb n (2 ^ 53) then 0 else suc rest

-- `n / unit`, rounded to the nearest integer, and to the even one of two that are as near.
unfoldable pub nearest : (n unit : ℕ) → ℕ
nearest n unit =
    let q = n / unit in
    let r = n % unit in if ltb (2 * r) unit || (2 * r == unit && q % 2 == 0) then q else q + 1

-- From here on integers are rounded to 2 ^ 1024, which is no float.
unfoldable pub float_limit : ℕ
float_limit = 2 ^ 1024 - 2 ^ 970

-- `float(n)`; `none` is the `OverflowError`. An integer below the limit has at most 1024 bits, so
-- that 971 halvings leave at most 53.
unfoldable pub float_of : ℕ → Option Float
float_of n =
    let e = excess_bits 971 n in
    if ltb n float_limit then some (finite false (nearest n (2 ^ e)) (pos e)) else none

-- An integer becomes a finite float that is not negative, or it is too large.
pub float_of-cases :
    (n : ℕ)
    → ((n < float_limit) × (m : ℕ) × (e : ℤ) × (float_of n ≡ some (finite false m e)))
      ⊎ ((float_limit ≤ n) × (float_of n ≡ none))
unfolding float_of
float_of-cases n = elim (Bool-cases (ltb n float_limit)) [
  | inl small ↦
      let e = excess_bits 971 n in
      inl (ground (arith, small), nearest n (2 ^ e), pos e, rw small refl)
  | inr large ↦ inr (ground (arith, large), rw large refl)
]
