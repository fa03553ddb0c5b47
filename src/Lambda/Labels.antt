-- ===== src/Lambda/Labels.antt =====
-- Which jobs a runner's labels serve: labelsMatch and contains of github-runner-scaler/ghe_client.go,
-- and the test in analyzeWorkflowJobs of github-runner-scaler/crd_logic.go.
pub mod Laws
use actionsspot.Prelude.{
  String, Bool, true, false, List, [], ◌∷◌, is_empty, str_eq, if◌then◌else◌, not,
}

unfoldable pub contains : List String → String → Bool
contains [] item = false
contains (s ∷ slice) item = let rest = contains slice item in if str_eq s item then true else rest

-- The loop over the labels that a job requires.
unfoldable pub has_all : List String → List String → Bool
has_all runner [] = true
has_all runner (label ∷ required) =
    let rest = has_all runner required in if not (contains runner label) then false else rest

unfoldable pub labels_match : List String → List String → Bool
labels_match [] runner = contains runner "self-hosted"
labels_match (label ∷ required) runner = has_all runner (label ∷ required)

-- The loop of analyzeWorkflowJobs: "self-hosted" is not asked for.
unfoldable pub covers : List String → List String → Bool
covers runner [] = true
covers runner (label ∷ required) =
    let rest = covers runner required in
    if str_eq label "self-hosted" then rest else if not (contains runner label) then false else rest

-- A job without labels is skipped.
unfoldable pub is_counted : List String → List String → Bool
is_counted runner [] = false
is_counted runner (label ∷ required) = covers runner (label ∷ required)
