-- ===== src/Telemetry/Paths.antt =====
-- `_artifact_path` of EvoNN-Shared/src/evonn_shared/telemetry.py: which paths it accepts, and where
-- they lead.
use mathlib.Core.List.{append_assoc, append-nil}
use evo_nn_research.Prelude.{
  ℕ, ◌≡◌, ◌≢◌, ◌↔◌, inl, inr, refl, sym, ap, ◌∙◌, true, false, List, [], ◌∷◌, ◌++◌, Text, arith, ok,
  All, any, is_utf8, Bool-cases, ==_iff, text_eq, text_eq_iff, ◌==◌, if◌then◌else◌, codes,
}
use evo_nn_research.Telemetry.{
  artifact_path, split_from, split_slash, is_special, starts_with_slash,
}
use evo_nn_research.Budgets.{is_empty}

-- `"/".join` of at least one component.
abbrev pub join_slash : Text → List Text → Text
join_slash component [] = component
join_slash component (next ∷ rest) = component ++ b'/' ∷ join_slash next rest

-- A file name: not empty, no dots alone, no slash.
pub record IsName (name : Text) : Type 0 where
  pub nonempty : name ≢ []
  pub not_here : name ≢ codes "."
  pub not_up : name ≢ codes ".."
  pub no_slash : All (λ c. c ≢ b'/') name

-- Names, joined by single slashes, without a NUL or a backslash.
pub record IsSafePath (value : Text) : Type 0 where
  pub valid_text : is_utf8 value ≡ true
  pub no_nul : All (λ c. c ≢ 0) value
  pub no_backslash : All (λ c. c ≢ 0x5c) value
  pub first : Text
  pub rest : List Text
  pub first_is_name : IsName first
  pub are_names : All IsName rest
  pub split : value ≡ join_slash first rest

is_special_iff :
    (t : Text) → (is_special t ≡ false) ↔ ((t ≢ []) × (t ≢ codes ".") × (t ≢ codes ".."))
unfolding is_special
is_special_iff [] = ground arith
is_special_iff (c ∷ []) = ground arith
is_special_iff (c ∷ d ∷ []) = ground arith
is_special_iff (c ∷ d ∷ e ∷ cs) = ground arith

no_slash-append :
    (a b : Text) → All (λ c. c ≢ b'/') a → All (λ c. c ≢ b'/') b → All (λ c. c ≢ b'/') (a ++ b)
no_slash-append [] b h k = k
no_slash-append (x ∷ a) b h k = (h.0, no_slash-append a b h.1 k)

-- What the split of a text is made of.
record Parts (component value : Text) : Type 0 where
  first : Text
  rest : List Text
  result : split_from component value ≡ first ∷ rest
  first_slash : All (λ c. c ≢ b'/') first
  rest_slash : All (All (λ c. c ≢ b'/')) rest
  joined : component ++ value ≡ join_slash first rest

split_from-cons :
    (component : Text) (c : ℕ) (cs : Text)
    → (c == b'/') ≡ false
    → split_from component (c ∷ cs) ≡ split_from (component ++ c ∷ []) cs
unfolding split_from
split_from-cons component c cs h = ground arith

split_from-slash :
    (component : Text) (c : ℕ) (cs : Text)
    → (c == b'/') ≡ true
    → split_from component (c ∷ cs) ≡ component ∷ split_from [] cs
unfolding split_from
split_from-slash component c cs h = ground arith

split_from-Parts : (component value : Text) → All (λ c. c ≢ b'/') component → Parts component value
unfolding split_from
split_from-Parts component [] h = record {
  first = component;
  rest = [];
  result = refl;
  first_slash = h;
  rest_slash = tt;
  joined = append-nil component;
}
split_from-Parts component (c ∷ cs) h = elim (Bool-cases (c == b'/')) [
  | inl slash ↦
      let s = split_from-Parts [] cs tt in
      record {
        first = component;
        rest = s.first ∷ s.rest;
        result = split_from-slash component c cs slash ∙ ap (◌∷◌ component) s.result;
        first_slash = h;
        rest_slash = (s.first_slash, s.rest_slash);
        joined = ground (arith, s.joined, (==_iff c b'/').0 slash);
      }
  | inr other ↦
      let s =
        split_from-Parts (component ++ c ∷ []) cs
          (no_slash-append component (c ∷ []) h (ground arith)) in
      record {
        first = s.first;
        rest = s.rest;
        result = split_from-cons component c cs other ∙ s.result;
        first_slash = s.first_slash;
        rest_slash = s.rest_slash;
        joined = sym (append_assoc component (c ∷ []) cs) ∙ s.joined;
      }
]

join_slash-cons :
    (c : ℕ) (cs : Text) (rest : List Text) → join_slash (c ∷ cs) rest ≡ c ∷ join_slash cs rest
join_slash-cons c cs [] = refl
join_slash-cons c cs (next ∷ rest) = refl

split_join :
    (component first : Text) (rest : List Text)
    → All (λ c. c ≢ b'/') first
    → All (All (λ c. c ≢ b'/')) rest
    → split_from component (join_slash first rest) ≡ (component ++ first) ∷ rest
unfolding split_from
split_join component [] [] h k = ap (λ t. t ∷ []) (sym (append-nil component))
split_join component [] (next ∷ rest) h k =
    split_from-slash component b'/' (join_slash next rest) refl
    ∙ ground (arith, append-nil component, split_join [] next rest k.0 k.1)
split_join component (c ∷ cs) rest h k =
    ap (split_from component) (join_slash-cons c cs rest)
    ∙ (split_from-cons component c (join_slash cs rest) (ground (arith, h.0))
        ∙ (split_join (component ++ c ∷ []) cs rest h.1 k
            ∙ ap (λ t. t ∷ rest) (append_assoc component (c ∷ []) cs)))

plain_names :
    (ts : List Text) → All (All (λ c. c ≢ b'/')) ts → any is_special ts ≡ false → All IsName ts
plain_names [] h k = tt
plain_names (t ∷ ts) h k = (
  record {
    nonempty = ((is_special_iff t).0 (ground arith)).0;
    not_here = ((is_special_iff t).0 (ground arith)).1;
    not_up = ((is_special_iff t).0 (ground arith)).2;
    no_slash = h.0;
  },
  plain_names ts h.1 (ground arith),
)

names_are_plain : (ts : List Text) → All IsName ts → any is_special ts ≡ false
names_are_plain [] h = refl
names_are_plain (t ∷ ts) h =
    let n : IsName t = h.0 in
    ground (arith, names_are_plain ts h.1, (is_special_iff t).1 (n.nonempty, n.not_here, n.not_up))

names_have_no_slash : (ts : List Text) → All IsName ts → All (All (λ c. c ≢ b'/')) ts
names_have_no_slash [] h = tt
names_have_no_slash (t ∷ ts) h = (h.0.no_slash, names_have_no_slash ts h.1)

absent_iff : (n : ℕ) (t : Text) → (any (λ c. c == n) t ≡ false) ↔ All (λ c. c ≢ n) t
absent_iff n [] = ground arith
absent_iff n (c ∷ cs) = ground (arith, absent_iff n cs)

join_slash-begins :
    (first : Text) (rest : List Text)
    → IsName first
    → (is_empty (join_slash first rest) ≡ false)
      × (starts_with_slash (join_slash first rest) ≡ false)
join_slash-begins [] rest n = absurd (n.nonempty refl)
join_slash-begins (c ∷ cs) rest n = (
  ap is_empty (join_slash-cons c cs rest),
  ap starts_with_slash (join_slash-cons c cs rest) ∙ ground (arith, n.no_slash.0),
)

-- An artifact path is accepted, and returned unchanged, exactly when it is valid text without a NUL
-- or a backslash that consists of file names joined by single slashes; a file name is neither
-- empty nor one or two dots, and has no slash.
pub artifact_path_iff : (v : Text) → (artifact_path v ≡ ok v) ↔ IsSafePath v
unfolding artifact_path
artifact_path_iff v = (
  λ h.
      let s = split_from-Parts [] v tt in
      let plain : any is_special (s.first ∷ s.rest) ≡ false = ground (arith, s.result) in
      let names = plain_names (s.first ∷ s.rest) (s.first_slash, s.rest_slash) plain in
      record {
        valid_text = ground arith;
        no_nul = (absent_iff 0 v).0 (ground arith);
        no_backslash = (absent_iff 0x5c v).0 (ground arith);
        first = s.first;
        rest = s.rest;
        first_is_name = names.0;
        are_names = names.1;
        split = s.joined;
      },
  λ p.
      let plain =
        ap (λ t. any is_special (split_slash t)) p.split
        ∙ (ap (any is_special) (
              split_join [] p.first p.rest p.first_is_name.no_slash
                (names_have_no_slash p.rest p.are_names))
            ∙ names_are_plain (p.first ∷ p.rest) (p.first_is_name, p.are_names)) in
      let begins = join_slash-begins p.first p.rest p.first_is_name in
      ground (
        arith,
        plain,
        p.valid_text,
        (absent_iff 0 v).1 p.no_nul,
        (absent_iff 0x5c v).1 p.no_backslash,
        ap is_empty p.split ∙ begins.0,
        ap starts_with_slash p.split ∙ begins.1,
      ),
)

-- The directory above, and no directory above the root.
abbrev pub up : List Text → List Text
up [] = []
up (name ∷ []) = []
up (name ∷ next ∷ rest) = name ∷ up (next ∷ rest)

-- What a component means to a file system, in a directory given by the names that lead to it: an
-- empty component and a dot stay, two dots go up, a name goes down.
unfoldable pub enter : List Text → Text → List Text
enter directory [] = directory
enter directory (c ∷ cs) =
    if text_eq (c ∷ cs) (codes ".")
    then directory
    else if text_eq (c ∷ cs) (codes "..")
    then up directory
    else directory ++ (c ∷ cs) ∷ []

abbrev enter_all : List Text → List Text → List Text
enter_all directory [] = directory
enter_all directory (t ∷ ts) = enter_all (enter directory t) ts

-- The walk along a path, with the component that was read so far: it ends at a slash and at the end.
unfoldable pub walk : List Text → Text → Text → List Text
walk directory component [] = enter directory component
walk directory component (c ∷ cs) =
    if c == b'/'
    then walk (enter directory component) [] cs
    else walk directory (component ++ c ∷ []) cs

-- Where a path leads in a directory: one that begins with a slash is walked from the root.
unfoldable pub resolve : List Text → Text → List Text
resolve directory [] = directory
resolve directory (c ∷ cs) = if c == b'/' then walk [] [] cs else walk directory [] (c ∷ cs)

enter-name : (directory : List Text) (t : Text) → IsName t → enter directory t ≡ directory ++ t ∷ []
unfolding enter
enter-name directory [] n = absurd (n.nonempty refl)
enter-name directory (c ∷ cs) n =
    rw (not_eq (c ∷ cs) (codes ".") n.not_here, not_eq (c ∷ cs) (codes "..") n.not_up) refl
  where
    not_eq : (a b : Text) → a ≢ b → text_eq a b ≡ false
    not_eq a b h = ground (arith, text_eq_iff a b)

enter_all-names :
    (directory ts : List Text) → All IsName ts → enter_all directory ts ≡ directory ++ ts
enter_all-names directory [] n = sym (append-nil directory)
enter_all-names directory (t ∷ ts) n =
    ap (λ d. enter_all d ts) (enter-name directory t n.0)
    ∙ (enter_all-names (directory ++ t ∷ []) ts n.1 ∙ append_assoc directory (t ∷ []) ts)

walk-slash :
    (directory : List Text) (component cs : Text)
    → walk directory component (b'/' ∷ cs) ≡ walk (enter directory component) [] cs
unfolding walk
walk-slash directory component cs = refl

walk-other :
    (directory : List Text) (component : Text) (c : ℕ) (cs : Text)
    → c ≢ b'/'
    → walk directory component (c ∷ cs) ≡ walk directory (component ++ c ∷ []) cs
unfolding walk
walk-other directory component c cs h = ground (arith, h)

walk_join :
    (directory : List Text) (component first : Text) (rest : List Text)
    → All (λ c. c ≢ b'/') first
    → All (All (λ c. c ≢ b'/')) rest
    → walk directory component (join_slash first rest)
      ≡ enter_all directory ((component ++ first) ∷ rest)
walk_join directory component [] [] h k =
    unfold walk in ap (enter directory) (sym (append-nil component))
walk_join directory component [] (next ∷ rest) h k =
    walk-slash directory component (join_slash next rest)
    ∙ walk_join (enter directory component) [] next rest k.0 k.1
    ∙ ap (λ t. enter_all (enter directory t) (next ∷ rest)) (sym (append-nil component))
walk_join directory component (c ∷ cs) rest h k =
    ap (walk directory component) (join_slash-cons c cs rest)
    ∙ walk-other directory component c (join_slash cs rest) h.0
    ∙ walk_join directory (component ++ c ∷ []) cs rest h.1 k
    ∙ ap (λ t. enter_all directory (t ∷ rest)) (append_assoc component (c ∷ []) cs)

relative :
    (directory : List Text) (v : Text)
    → is_empty v ≡ false
    → starts_with_slash v ≡ false
    → resolve directory v ≡ walk directory [] v
unfolding resolve
relative directory [] e h = absurd (ground (arith, e))
relative directory (c ∷ cs) e h = ground (arith, h)

-- An accepted artifact path consists of one or more file names joined by single slashes and,
-- resolved in any directory, leads to the place strictly below that directory which these names
-- name.
pub resolve-below :
    (directory : List Text) (v : Text)
    → artifact_path v ≡ ok v
    → (first : Text) × (rest : List Text) × (v ≡ join_slash first rest)
      × All IsName (first ∷ rest)
      × (resolve directory v ≡ directory ++ first ∷ rest)
resolve-below directory v h =
    let p : IsSafePath v = (artifact_path_iff v).0 h in
    let begins = join_slash-begins p.first p.rest p.first_is_name in
    let names : All IsName (p.first ∷ p.rest) = (p.first_is_name, p.are_names) in
    (
      p.first,
      p.rest,
      p.split,
      names,
      relative directory v (ap is_empty p.split ∙ begins.0)
            (ap starts_with_slash p.split ∙ begins.1)
          ∙ ap (walk directory []) p.split
          ∙ walk_join directory [] p.first p.rest p.first_is_name.no_slash
              (names_have_no_slash p.rest p.are_names)
          ∙ enter_all-names directory (p.first ∷ p.rest) names,
    )
