-- ===== src/Examples/StreamsExamples.antt =====
-- Streams of EvoNN-Shared/src/evonn_shared/rng.py, under a sum of bytes in place of the hash function.
use evo_nn_research.Prelude.{
  ℕ, zero, suc, ◌+◌, ◌%◌, ◌*◌, ◌^◌, ◌<◌, ◌≡◌, ◌⊎◌, refl, List, [], ◌∷◌, ltb, all, length, true, pos,
  ok, raise, Result, arith,
}
use evo_nn_research.Streams.{search, to_bytes, payload, derive_stream, invalid_root_seed}
use evo_nn_research.Streams.Separation.{IsSha256, Clash, derive_stream_separates}

program : Unit {0}
unfolding to_bytes payload derive_stream
program = tt

repeated : ℕ → ℕ → List ℕ
repeated zero b = []
repeated (suc n) b = b ∷ repeated n b

digest_of : List ℕ → ℕ
digest_of [] = 0
digest_of (b ∷ bs) = (b + 3 * digest_of bs) % 256

abbrev sums : List ℕ → List ℕ
unfolding repeated digest_of
sums bs = repeated 32 (digest_of bs % 256)

length-repeated : (n b : ℕ) → length (repeated n b) ≡ n
unfolding repeated
length-repeated zero b = refl
length-repeated (suc n) b = omega (arith, length-repeated n b)

repeated_bytes : (n b : ℕ) → ltb b 256 ≡ true → all (λ c. ltb c 256) (repeated n b) ≡ true
unfolding repeated
repeated_bytes zero b h = refl
repeated_bytes (suc n) b h = ground (arith, h, repeated_bytes n b)

remainder_small : (n : ℕ) → ltb (n % 256) 256 ≡ true
remainder_small n = ground arith

sums-IsSha256 : IsSha256 sums
unfolding sums
sums-IsSha256 bs = (
  length-repeated 32 (digest_of bs % 256),
  repeated_bytes 32 (digest_of bs % 256) (remainder_small (digest_of bs)),
)

abbrev result_or_zero : {E : Type 0} → Result E ℕ → ℕ
result_or_zero (ok n) = n
result_or_zero (raise e) = 0

abbrev stream_of_seven : ℕ
unfolding program sums
stream_of_seven = result_or_zero (derive_stream sums (pos 7) search)

derived : derive_stream sums (pos 7) search ≡ ok stream_of_seven
unfolding program sums stream_of_seven
derived = refl

seed_too_large : derive_stream sums (pos (2 ^ 256)) search ≡ raise invalid_root_seed
unfolding program
seed_too_large = refl

derive_stream_separates_example :
    (stream_of_seven < 2 ^ 128)
    × (((pos 7 ≡ pos 7) × (search ≡ search)) ⊎ Clash sums (pos 7) search (pos 7) search)
derive_stream_separates_example =
    derive_stream_separates sums (pos 7) (pos 7) search search stream_of_seven sums-IsSha256 derived
      derived
