-- ===== src/Streams/Separation.antt =====
-- The streams of EvoNN-Shared/src/evonn_shared/rng.py are as separate as the hash function is free of
-- collisions.
use mathlib.Core.Path.{subst}
use evo_nn_research.Prelude.{
  ℕ, ◌^◌, ◌<◌, ◌≡◌, ◌≢◌, refl, sym, ap, ◌∙◌, ◌⊎◌, inl, inr, true, List, [], ◌∷◌, ◌++◌, Text, ℤ, pos,
  negsuc, ltb, ◌==◌, if◌then◌else◌, all, length, text_eq, text_eq_iff, Bool-cases, ok, arith,
}
use evo_nn_research.Streams.Bytes.{
  scale, below, from_bytes_bound, from_bytes_injective, limit, from_bytes-to_bytes, length-to_bytes,
  append_cancel, append_parts, take_bytes-are_bytes, length-take_bytes,
}
use evo_nn_research.Streams.{
  StreamName, search, data_stream, split, init, order, augmentation, mutation, benchmark_sampling,
  worker, stats, value, to_bytes, from_bytes, take_bytes, stream_domain, payload, derive_stream,
}

-- A digest is 32 bytes.
abbrev pub IsSha256 : (List ℕ → List ℕ) → Type 0
IsSha256 sha256 =
    (bs : List ℕ) → (length (sha256 bs) ≡ 32) × (all (λ b. ltb b 256) (sha256 bs) ≡ true)

-- The stream whose name starts with the two characters.
abbrev name_of : Text → StreamName
name_of (c ∷ d ∷ cs) =
    if c == b'd'
    then data_stream
    else if c == b'i'
    then init
    else if c == b'o'
    then order
    else if c == b'a'
    then augmentation
    else if c == b'm'
    then mutation
    else if c == b'b'
    then benchmark_sampling
    else if c == b'w'
    then worker
    else if d == b'e'
    then search
    else if d == b'p'
    then split
    else stats
name_of _ = stats

name_of-value : (s : StreamName) → name_of (value s) ≡ s
name_of-value search = refl
name_of-value data_stream = refl
name_of-value split = refl
name_of-value init = refl
name_of-value order = refl
name_of-value augmentation = refl
name_of-value mutation = refl
name_of-value benchmark_sampling = refl
name_of-value worker = refl
name_of-value stats = refl

payload_injective :
    (a b : ℕ) (s t : StreamName)
    → a < limit 32
    → b < limit 32
    → payload a s ≡ payload b t
    → (a ≡ b) × (s ≡ t)
unfolding payload
payload_injective a b s t ha hb h =
    let bodies =
      append_cancel stream_domain (to_bytes 32 a ++ 0 ∷ value s) (to_bytes 32 b ++ 0 ∷ value t) h in
    let (seeds, names) =
      append_parts (to_bytes 32 a) (to_bytes 32 b) (0 ∷ value s) (0 ∷ value t)
        (length-to_bytes 32 a ∙ sym (length-to_bytes 32 b)) bodies in
    let same_value : value s ≡ value t = append_cancel (0 ∷ []) (value s) (value t) names in
    (
      sym (from_bytes-to_bytes 32 a ha) ∙ ap from_bytes seeds ∙ from_bytes-to_bytes 32 b hb,
      sym (name_of-value s) ∙ ap name_of same_value ∙ name_of-value t,
    )

-- The inputs of the hash function differ for the two seeds and names, and their digests begin with the
-- same 16 bytes.
pub record Clash (sha256 : List ℕ → List ℕ) (a : ℤ) (s : StreamName) (b : ℤ) (t : StreamName)
    : Type 0 where
  pub first : ℕ
  pub second : ℕ
  pub first_is : a ≡ pos first
  pub second_is : b ≡ pos second
  pub differ : payload first s ≢ payload second t
  pub agree : take_bytes 16 (sha256 (payload first s)) ≡ take_bytes 16 (sha256 (payload second t))

-- What was derived comes from a seed that is not too large.
derived :
    (sha256 : List ℕ → List ℕ) (a : ℤ) (s : StreamName) (x : ℕ)
    → derive_stream sha256 a s ≡ ok x
    → (n : ℕ) × (a ≡ pos n)
      × (n < limit 32)
      × (from_bytes (take_bytes 16 (sha256 (payload n s))) ≡ x)
unfolding derive_stream
derived sha256 (negsuc n) s x h = absurd (ground (arith, h))
derived sha256 (pos n) s x h = elim (Bool-cases (ltb n (2 ^ 256))) [
  | inl fits ↦ (n, refl, below n (2 ^ 256) fits, ground (arith, fits, h))
  | inr large ↦ absurd (ground (arith, large, h))
]

payload_cases : (p q : List ℕ) → (p ≡ q) ⊎ (p ≢ q)
payload_cases p q = elim (Bool-cases (text_eq p q)) [
  | inl equal ↦ inl ((text_eq_iff p q).0 equal)
  | inr differ ↦ inr (λ equal. absurd (ground (arith, differ, (text_eq_iff p q).1 equal)))
]

-- A stream that is derived lies below 2 ^ 128; two derivations that give the same stream are of the
-- same seed and name, or the inputs that they hash differ and have digests that begin with the same 16
-- bytes. A digest is 32 bytes.
pub derive_stream_separates :
    (sha256 : List ℕ → List ℕ) (a b : ℤ) (s t : StreamName) (x : ℕ)
    → IsSha256 sha256
    → derive_stream sha256 a s ≡ ok x
    → derive_stream sha256 b t ≡ ok x
    → (x < 2 ^ 128) × (((a ≡ b) × (s ≡ t)) ⊎ Clash sha256 a s b t)
derive_stream_separates sha256 a b s t x digests h g =
    let (n, shape, small, made) = derived sha256 a s x h in
    let (m, shape', small', made') = derived sha256 b t x g in
    let bs = take_bytes 16 (sha256 (payload n s)) in
    let cs = take_bytes 16 (sha256 (payload m t)) in
    let long = length-take_bytes 16 16 (sha256 (payload n s)) (digests (payload n s)).0 in
    let long' = length-take_bytes 16 16 (sha256 (payload m t)) (digests (payload m t)).0 in
    let bytes = take_bytes-are_bytes 16 (sha256 (payload n s)) (digests (payload n s)).1 in
    let bytes' = take_bytes-are_bytes 16 (sha256 (payload m t)) (digests (payload m t)).1 in
    let bound : from_bytes bs < scale (length bs) 1 = from_bytes_bound bs 0 1 (omega arith) bytes in
    let bound' : x < scale 16 1 =
      subst (λ y. y < scale 16 1) made (subst (λ l. from_bytes bs < scale l 1) long bound) in
    let halves : bs ≡ cs =
      (from_bytes_injective bs cs 0 0 (long ∙ sym long') bytes bytes' (made ∙ sym made')).1 in
    (
      bound',
      elim (payload_cases (payload n s) (payload m t)) [
        | inl equal ↦
            let (seeds, names) = payload_injective n m s t small small' equal in
            inl (shape ∙ ap pos seeds ∙ sym shape', names)
        | inr differ ↦ inr (record {
          first = n;
          second = m;
          first_is = shape;
          second_is = shape';
          differ = differ;
          agree = halves;
        })
      ],
    )
