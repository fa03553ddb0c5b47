-- ===== src/Lambda/Client/Runs.antt =====
-- github-runner-scaler/ghe_client.go: the workflow runs of all repositories, and the demand.
use actionsspot.Prelude.{
  ℕ, ◌==◌, ◌+ℤ◌, ℤ, pos, String, ◌+++◌, contains_text, split_char, Bool, true, false, Option, none,
  some, List, [], ◌∷◌, ◌++◌, if◌then◌else◌,
}
use actionsspot.Effect.{
  History, Env, Result, ok, err, crash, Exec, pure, lift, wrapped, attempt, ◌>>=◌,
}
use actionsspot.Lambda.Types.{Repository, WorkflowRun, WorkflowRunsList}
use actionsspot.Lambda.Config.{Config}
use actionsspot.Lambda.Client.{
  deref, get_repositories_in_organization, get_repository_workflow_runs, is_github_actions_enabled,
}

abbrev pub repository_of : String → String → Repository
repository_of owner name = record {
  name = name;
  full_name = owner +++ "/" +++ name;
  owner = some (record { login = owner });
}

-- What is between the slashes: two parts are an owner and a name, any other number is skipped.
abbrev of_parts : List String → List Repository
of_parts (owner ∷ name ∷ []) = repository_of owner name ∷ []
of_parts _ = []

abbrev pub configured : String → List String → List Repository
configured organization [] = []
configured organization (repo_name ∷ names) =
    (if contains_text repo_name "/"
      then of_parts (split_char b'/' repo_name)
      else repository_of organization repo_name ∷ [])
    ++ configured organization names

abbrev no_runs : WorkflowRunsList
no_runs = record { total_count = pos 0; workflow_runs = [] }

-- An error is logged, and the repository skipped.
abbrev pub found_runs : Result WorkflowRunsList → Exec History WorkflowRunsList
found_runs (ok runs) = pure runs
found_runs (err e) = pure no_runs
found_runs (crash m) = lift (crash m)

-- The variables that pointers lead to, by their addresses.
abbrev pub Address : Type 0
Address = ℕ

abbrev pub Store : Type 0
Store = Address → Option Repository

abbrev pub assign : Address → Repository → Store → Store
assign variable repo store address = if address == variable then some repo else store address

-- The variable `repo` of the loop: the module is of go 1.21, where all rounds share one.
abbrev pub repo_variable : Address
repo_variable = 0

-- `run.Repository = &repo`: each run of a round, with the address that it is given.
abbrev pub point_to : Address → List WorkflowRun → List (WorkflowRun × Address)
point_to variable [] = []
point_to variable (run ∷ runs) = (run, variable) ∷ point_to variable runs

-- The runs as a reader finds them, through their pointers.
abbrev pub follow : Store → List (WorkflowRun × Address) → List WorkflowRun
follow store [] = []
follow store ((run, address) ∷ runs) = record run { repository = store address } ∷ follow store runs

-- What the loop changes: its variable, allRuns and totalCount.
pub record Loop : Type 0 where
  pub store : Store
  pub all_runs : List (WorkflowRun × Address)
  pub total_count : ℤ

abbrev pub before_loop : Loop
before_loop = record { store = λ address. none; all_runs = []; total_count = pos 0 }

abbrev pub after_round : Repository → WorkflowRunsList → Loop → Loop
after_round repo found loop = record {
  store = assign repo_variable repo loop.store;
  all_runs = loop.all_runs ++ point_to repo_variable found.workflow_runs;
  total_count = loop.total_count +ℤ found.total_count;
}

module _ (env : Env) (c : Config) where
  abbrev pub if_enabled : String → String → String → Bool → Exec History WorkflowRunsList
  if_enabled status owner name false = pure no_runs
  if_enabled status owner name true = do
    answer ← attempt (get_repository_workflow_runs env c owner name status)
    found_runs answer

  -- One round: no run for a repository that is skipped.
  unfoldable pub repository_runs : String → Repository → Exec History WorkflowRunsList
  repository_runs status repo = do
    owner ← deref repo.owner
    enabled ← is_github_actions_enabled env c owner.login repo.name
    if_enabled status owner.login repo.name enabled

  unfoldable pub collect_runs : String → List Repository → Loop → Exec History Loop
  collect_runs status [] loop = pure loop
  collect_runs status (repo ∷ repos) loop = do
    found ← repository_runs status repo
    collect_runs status repos (after_round repo found loop)

  -- The configured repositories, or all those of the organization.
  abbrev pub repositories : List String → Exec History (List Repository)
  repositories [] = wrapped "failed to get repositories" (get_repositories_in_organization env c)
  repositories (name ∷ names) = pure (configured c.organization_name (name ∷ names))

  abbrev pub list_of : Loop → WorkflowRunsList
  list_of loop = record {
    total_count = loop.total_count;
    workflow_runs = follow loop.store loop.all_runs;
  }

  abbrev pub find_runs : String → Exec History (List Repository) → Exec History WorkflowRunsList
  find_runs status repos_to_ask = do
    repos ← repos_to_ask
    loop ← collect_runs status repos before_loop
    pure (list_of loop)

  unfoldable pub get_workflow_runs_across_repos : String → Exec History WorkflowRunsList
  get_workflow_runs_across_repos status = find_runs status (repositories c.repository_names)

  abbrev pub get_queued_workflow_runs : Exec History WorkflowRunsList
  get_queued_workflow_runs = get_workflow_runs_across_repos "queued"

  abbrev pub get_running_workflow_runs : Exec History WorkflowRunsList
  get_running_workflow_runs = get_workflow_runs_across_repos "in_progress"
