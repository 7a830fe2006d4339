-- ===== src/Streams.antt =====
-- The derivation of random streams, EvoNN-Shared/src/evonn_shared/rng.py. `hashlib.sha256(...).digest()`
-- is a parameter.
pub mod Bytes
pub mod Separation
use evo_nn_research.Prelude.{
  ℕ, zero, suc, ◌+◌, ◌-◌, ◌*◌, ◌/◌, ◌%◌, ◌^◌, List, [], ◌∷◌, ◌++◌, Text, codes, ℤ, pos, negsuc, ltb,
  Result, ok, raise, reject_if, guard, ◌>>=◌, ◌>>◌,
}

pub data StreamName : Type 0 where
  search data_stream split init order augmentation : StreamName
  mutation benchmark_sampling worker stats : StreamName

-- `name.value`
abbrev pub value : StreamName → Text
value search = codes "search"
value data_stream = codes "data"
value split = codes "split"
value init = codes "init"
value order = codes "order"
value augmentation = codes "augmentation"
value mutation = codes "mutation"
value benchmark_sampling = codes "benchmark_sampling"
value worker = codes "worker"
value stats = codes "stats"

pub data StreamError : Type 0 where
  invalid_root_seed : StreamError

-- `n.to_bytes(k, "big")`, of a number that fits.
unfoldable pub to_bytes : ℕ → ℕ → List ℕ
to_bytes zero n = []
to_bytes (suc k) n = to_bytes k (n / 256) ++ n % 256 ∷ []

abbrev pub from_bytes_onto : ℕ → List ℕ → ℕ
from_bytes_onto acc [] = acc
from_bytes_onto acc (b ∷ bs) = from_bytes_onto (acc * 256 + b) bs

-- `int.from_bytes(bytes, "big")`
abbrev pub from_bytes : List ℕ → ℕ
from_bytes = from_bytes_onto 0

abbrev pub take_bytes : ℕ → List ℕ → List ℕ
take_bytes zero bs = []
take_bytes (suc n) [] = []
take_bytes (suc n) (b ∷ bs) = b ∷ take_bytes n bs

abbrev pub stream_domain : List ℕ
stream_domain = codes "evonn-rng-stream/v1" ++ 0 ∷ []

unfoldable pub payload : ℕ → StreamName → List ℕ
payload root_seed name = stream_domain ++ (to_bytes 32 root_seed ++ 0 ∷ value name)

-- `derive_stream`
unfoldable pub derive_stream : (sha256 : List ℕ → List ℕ) → ℤ → StreamName → Result StreamError ℕ
derive_stream sha256 (negsuc n) name = raise invalid_root_seed
derive_stream sha256 (pos root_seed) name = do
  guard (ltb root_seed (2 ^ 256)) invalid_root_seed
  ok (from_bytes (take_bytes 16 (sha256 (payload root_seed name))))
