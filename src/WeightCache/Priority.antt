-- ===== src/WeightCache/Priority.antt =====
-- The order in which `inherit` of EvoNN-Shared/src/evonn_shared/weight_cache.py tries the entries: one
-- of the identity that is asked for comes first.
use evo_nn_research.Prelude.{
  lookup, remove, ℕ, ◌≡◌, refl, ap, ◌∙◌, Bool, true, false, not, ◌&&◌, ◌||◌, [], ◌∷◌, ◌++◌, some,
  Bool-cases, Text, All, any, ◌==◌, if◌then◌else◌, lookup_head, lookup_tail, text_eq, text_eq_iff,
  ok, arith, inl, inr,
}
use evo_nn_research.WeightCache.{Arrays, Item, Cache, Model}
use evo_nn_research.WeightCache.Trimming.{Entries}
use evo_nn_research.WeightCache.Invariant.{IsValid}
use evo_nn_research.WeightCache.Inheriting.{
  Request, Report, priority, candidates, insert_candidate, by_priority, is_exact, copy_weights,
  try_candidates, inherit, tuple_lt, is_compatible, float32_buffers, mode_of,
}
use evo_nn_research.WeightCache.Isolation.{IsCandidate, by_priority-All, candidates-All, moved_of}

later_true : (a : Bool) {b : Bool} → b ≡ true → (a || b) ≡ true
later_true true h = refl
later_true false h = h

module _ (np : Arrays) (request : Request) where
  abbrev head_exact : Entries np → Bool
  head_exact [] = false
  head_exact (c ∷ cs) = is_exact np request c.1

  abbrev any_exact : Entries np → Bool
  any_exact = any (λ c. is_exact np request c.1)

  later_exact :
      (a b : Item np)
      → tuple_lt (priority np request a) (priority np request b) ≡ true
      → is_exact np request a ≡ true
      → is_exact np request b ≡ true
  unfolding priority
  later_exact a b h e = elim (Bool-cases (is_exact np request b)) [
    | inl same ↦ same
    | inr other ↦ absurd (ground (arith, h, e, other))
  ]

  earlier_exact :
      (a b : Item np)
      → tuple_lt (priority np request a) (priority np request b) ≡ false
      → is_exact np request b ≡ true
      → is_exact np request a ≡ true
  unfolding priority
  earlier_exact a b h e = elim (Bool-cases (is_exact np request a)) [
    | inl same ↦ same
    | inr other ↦ absurd (ground (arith, h, e, other))
  ]

  insert_first :
      (c : Text × Item np) (cs : Entries np)
      → head_exact (insert_candidate np request c cs) ≡ (is_exact np request c.1 || head_exact cs)
  unfolding insert_candidate
  insert_first c [] = ground arith
  insert_first c (d ∷ cs) =
      elim (Bool-cases (tuple_lt (priority np request c.1) (priority np request d.1))) [
        | inl later ↦ rw later (ground (arith, later_exact c.1 d.1 later))
        | inr first ↦ rw first (ground (arith, earlier_exact c.1 d.1 first))
      ]

  exact_first : (cs : Entries np) → head_exact (by_priority np request cs) ≡ any_exact cs
  unfolding by_priority
  exact_first [] = refl
  exact_first (c ∷ cs) =
      insert_first c (by_priority np request cs)
      ∙ ap (λ b. is_exact np request c.1 || b) (exact_first cs)

  candidate_exact :
      (es : Entries np) (k : Text) (item : Item np)
      → lookup k es ≡ some item
      → text_eq item.namespace request.namespace ≡ true
      → is_exact np request item ≡ true
      → any_exact (candidates np request es) ≡ true
  unfolding candidates
  candidate_exact [] k item h n e = absurd (ground (arith, h))
  candidate_exact ((j, other) ∷ es) k item h n e = elim (Bool-cases (text_eq j k)) [
    | inl here ↦
        let same : other ≡ item = lookup_head j k other item es here h in
        let listed : text_eq other.namespace request.namespace ≡ true =
          ap (λ i. text_eq i.namespace request.namespace) same ∙ n in
        let exactly : is_exact np request other ≡ true =
          ap (λ i. text_eq i.identity request.identity) same ∙ e in
        rw listed (rw exactly refl)
    | inr differs ↦
        let there = lookup_tail j k other es differs h in
        let rest = candidate_exact es k item there n e in
        elim (Bool-cases (text_eq other.namespace request.namespace)) [
          | inl listed ↦ rw listed (later_true (is_exact np request other) rest)
          | inr foreign ↦ rw foreign rest
        ]
  ]

  tried_first :
      (c : Cache np) (model : Model np) (d : Text × Item np) (cs : Entries np)
      → is_exact np request d.1 ≡ true
      → lookup d.0 c.entries ≡ some d.1
      → ((copy_weights np request true d.1.weights model.weights).1 == 0) ≡ false
      → (c' : Cache np) × (model' : Model np) × (r : Report) × (try_candidates np request c model
            (d ∷ cs)
          ≡ ok (c', model', r))
        × (r.source ≡ some request.identity)
  unfolding try_candidates
  tried_first c model d cs e found copied =
      let weights = copy_weights np request (is_exact np request d.1) d.1.weights model.weights in
      let changed : Model np = record model { weights = weights.0 } in
      let tried : (not (is_exact np request d.1)
            && (not request.allow_partial || not (is_compatible np request d.1)))
          ≡ false =
        rw e refl in
      let taken : (weights.1 == 0) ≡ false =
        ap (λ b. (copy_weights np request b d.1.weights model.weights).1 == 0) e ∙ copied in
      (
        record c { entries = remove d.0 c.entries ++ (d.0, d.1) ∷ [] },
        (if is_exact np request d.1
            then record changed { buffers = float32_buffers np request d.1.buffers }
            else changed),
        record {
          mode = mode_of np request d.1 weights.1 model;
          source = some d.1.identity;
          copied_parameters = weights.1;
        },
        rw (tried, taken, moved_of np request d.0 d.1 c.entries found) refl,
        ap some ((text_eq_iff d.1.identity request.identity).0 e),
      )

  from_first :
      (c : Cache np) (model : Model np) (cs : Entries np)
      → All (IsCandidate np request c.entries) cs
      → head_exact cs ≡ true
      → ((k : Text) (saved : Item np)
          → lookup k c.entries ≡ some saved
          → is_exact np request saved ≡ true
          → ((copy_weights np request true saved.weights model.weights).1 == 0) ≡ false)
      → (c' : Cache np) × (model' : Model np) × (r : Report) × (try_candidates np request c model cs
          ≡ ok (c', model', r))
        × (r.source ≡ some request.identity)
  from_first c model [] hs e copies = absurd (ground (arith, e))
  from_first c model (d ∷ cs) (h, hs) e copies =
      tried_first c model d cs e h.0 (copies d.0 d.1 h.0 e)

  -- If the cache is right, has an entry of the namespace and the identity that were asked for, and no
  -- entry of that identity fails to give the model a parameter, then inherit takes from that identity,
  -- whatever other entries there are and in whatever order they stand.
  pub inherit_exact :
      (entry_size : Text → Item np → ℕ) (c : Cache np) (model : Model np) (key : Text)
      (item : Item np)
      → IsValid np entry_size c
      → lookup key c.entries ≡ some item
      → item.namespace ≡ request.namespace
      → item.identity ≡ request.identity
      → ((k : Text) (saved : Item np)
          → lookup k c.entries ≡ some saved
          → is_exact np request saved ≡ true
          → ((copy_weights np request true saved.weights model.weights).1 == 0) ≡ false)
      → (c' : Cache np) × (model' : Model np) × (r : Report) × (inherit np request c model
          ≡ ok (c', model', r))
        × (r.source ≡ some request.identity)
  unfolding inherit
  inherit_exact entry_size c model key item v found named identified copies =
      let listed = candidates np request c.entries in
      let known =
        by_priority-All np request c.entries listed
          (candidates-All np request c.entries c.entries v.distinct (λ k i there. there)) in
      let exactly =
        exact_first listed
        ∙ candidate_exact c.entries key item found
            ((text_eq_iff item.namespace request.namespace).1 named)
            ((text_eq_iff item.identity request.identity).1 identified) in
      from_first c model (by_priority np request listed) known exactly copies
