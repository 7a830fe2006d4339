-- ===== src/Contract/Identifiers.antt =====
-- `_canonical_id` of EvoNN-Shared/src/evonn_shared/budgets.py against the grammar of identifiers.
use mathlib.Core.List.{cons≢nil}
use evo_nn_research.Prelude.{
  ℕ, ◌≡◌, ◌≢◌, ◌↔◌, refl, ap, Bool, true, false, List, [], ◌∷◌, ◌++◌, Text, All, arith, inl, inr,
  Bool-cases, ok,
}
use evo_nn_research.Contract.{is_lower, is_alnum, id_tail, matches_canonical_id, canonical_id}

abbrev AreAlnum : Text → Type 0
AreAlnum = All (λ c. is_alnum c ≡ true)

-- What follows one underscore: at least one lower-case letter or digit, and nothing else.
abbrev pub IsSegment : Text → Type 0
IsSegment s = (s ≢ []) × AreAlnum s

abbrev pub join_segments : List Text → Text
join_segments [] = []
join_segments (s ∷ ss) = b'_' ∷ (s ++ join_segments ss)

-- A letter, then letters and digits, then segments behind an underscore each.
pub record IsIdentifier (t : Text) : Type 0 where
  pub first : ℕ
  pub body : Text
  pub segments : List Text
  pub first_is_lower : is_lower first ≡ true
  pub body_is_alnum : AreAlnum body
  pub are_segments : All IsSegment segments
  pub split : t ≡ first ∷ (body ++ join_segments segments)

record IsTail (after : Bool) (cs : Text) : Type 0 where
  body : Text
  segments : List Text
  body_is_alnum : AreAlnum body
  are_segments : All IsSegment segments
  nonempty : after ≡ true → body ≢ []
  split : cs ≡ body ++ join_segments segments

id_tail-IsTail : (after : Bool) (cs : Text) → id_tail after cs ≡ true → IsTail after cs
unfolding id_tail
id_tail-IsTail after [] h = record {
  body = [];
  segments = [];
  body_is_alnum = tt;
  are_segments = tt;
  nonempty = λ e. absurd (ground arith);
  split = refl;
}
id_tail-IsTail after (c ∷ cs) h = elim (Bool-cases (is_alnum c)) [
  | inl alnum ↦
      let t : IsTail false cs = id_tail-IsTail false cs (ground arith) in
      record {
        body = c ∷ t.body;
        segments = t.segments;
        body_is_alnum = (alnum, t.body_is_alnum);
        are_segments = t.are_segments;
        nonempty = λ e. cons≢nil;
        split = ap (◌∷◌ c) t.split;
      }
  | inr other ↦
      let t : IsTail true cs = id_tail-IsTail true cs (ground arith) in
      record {
        body = [];
        segments = t.body ∷ t.segments;
        body_is_alnum = tt;
        are_segments = ((t.nonempty refl, t.body_is_alnum), t.are_segments);
        nonempty = λ e. absurd (ground arith);
        split = ground (arith, t.split);
      }
]

IsTail-id_tail :
    (after : Bool) (body : Text) (segments : List Text)
    → AreAlnum body
    → All IsSegment segments
    → (after ≡ true → body ≢ [])
    → id_tail after (body ++ join_segments segments) ≡ true
unfolding id_tail
IsTail-id_tail true [] segments _ _ n = absurd (n refl refl)
IsTail-id_tail false [] [] _ _ n = refl
IsTail-id_tail false [] (s ∷ ss) _ h n = IsTail-id_tail true s ss h.0.1 h.1 (λ _. h.0.0)
IsTail-id_tail after (c ∷ body) segments a h n =
    ground (arith, IsTail-id_tail false body segments a.1 h (λ e. absurd (ground arith)))

-- `_canonical_id` accepts a text, and returns it unchanged, exactly when the text is an
-- identifier: a lower-case letter, then letters and digits, then segments of at least one letter
-- or digit behind one underscore each.
pub canonical_id_iff : (t : Text) → (canonical_id t ≡ ok t) ↔ IsIdentifier t
unfolding canonical_id matches_canonical_id
canonical_id_iff [] = (λ h. absurd (ground arith), λ i. absurd (ground (arith, i.split)))
canonical_id_iff (c ∷ cs) = (
  λ h.
      let t : IsTail false cs = id_tail-IsTail false cs (ground arith) in
      record {
        first = c;
        body = t.body;
        segments = t.segments;
        first_is_lower = ground arith;
        body_is_alnum = t.body_is_alnum;
        are_segments = t.are_segments;
        split = ap (◌∷◌ c) t.split;
      },
  λ i. ground (
    arith,
    i.split,
    i.first_is_lower,
    IsTail-id_tail false i.body i.segments i.body_is_alnum i.are_segments
        (λ e. absurd (ground arith)),
  ),
)
