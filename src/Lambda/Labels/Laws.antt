-- ===== src/Lambda/Labels/Laws.antt =====
-- The three tests on labels, and how they differ.
use actionsspot.Prelude.{
  String, ◌≡◌, refl, Bool, true, List, [], ◌∷◌, all, member, ◌||◌, str_eq, eq_iff, arith, sym, ◌∙◌,
}
use actionsspot.Lambda.Labels.{contains, has_all, labels_match, covers, is_counted}

contains_lem : (slice : List String) (item : String) → contains slice item ≡ member item slice
unfolding contains
contains_lem [] item = refl
contains_lem (s ∷ slice) item =
    ground (arith, contains_lem slice item, eq_iff s item, eq_iff item s)

abbrev pub held : List String → String → Bool
held runner label = member label runner

-- "self-hosted" counts as held by every runner.
abbrev pub held_or_implicit : List String → String → Bool
held_or_implicit runner label = str_eq label "self-hosted" || member label runner

has_all_lem : (runner required : List String) → has_all runner required ≡ all (held runner) required
unfolding has_all
has_all_lem runner [] = refl
has_all_lem runner (label ∷ required) =
    ground (arith, has_all_lem runner required, contains_lem runner label)

covers_lem :
    (runner required : List String)
    → covers runner required ≡ all (held_or_implicit runner) required
unfolding covers
covers_lem runner [] = refl
covers_lem runner (label ∷ required) =
    ground (arith, covers_lem runner required, contains_lem runner label)

-- Of a job with labels, the workflow filter asks that the runner has each of them, and the demand
-- analysis that it has each of them but "self-hosted".
pub labels_tests :
    (runner : List String) (label : String) (required : List String)
    → (labels_match (label ∷ required) runner ≡ all (held runner) (label ∷ required))
      × (is_counted runner (label ∷ required) ≡ all (held_or_implicit runner) (label ∷ required))
unfolding labels_match is_counted
labels_tests runner label required =
    (has_all_lem runner (label ∷ required), covers_lem runner (label ∷ required))

-- The runner has each label that is required; where none is, it has "self-hosted".
abbrev pub serves : List String → List String → Bool
serves runner [] = member "self-hosted" runner
serves runner (label ∷ required) = all (held runner) (label ∷ required)

pub serves_lem :
    (runner required : List String) → labels_match required runner ≡ serves runner required
unfolding labels_match
serves_lem runner [] = contains_lem runner "self-hosted"
serves_lem runner (label ∷ required) = has_all_lem runner (label ∷ required)

same_held :
    (runner required : List String)
    → member "self-hosted" runner ≡ true
    → all (held_or_implicit runner) required ≡ all (held runner) required
same_held runner [] h = refl
same_held runner (label ∷ required) h =
    ground (arith, same_held runner required h, eq_iff label "self-hosted")

-- For a runner that has the label "self-hosted" the two tests agree on every job with labels.
pub labels_agree :
    (runner : List String) (label : String) (required : List String)
    → member "self-hosted" runner ≡ true
    → is_counted runner (label ∷ required) ≡ labels_match (label ∷ required) runner
labels_agree runner label required h =
    let tests = labels_tests runner label required in
    tests.1 ∙ same_held runner (label ∷ required) h ∙ sym tests.0
