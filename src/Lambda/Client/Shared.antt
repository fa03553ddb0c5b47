-- ===== src/Lambda/Client/Shared.antt =====
-- The loop of getWorkflowRunsAcrossRepos gives all runs a pointer to one variable.
use actionsspot.Prelude.{String, ◌≡◌, refl, subst, ◌∙◌, ap, Option, none, some, List, [], ◌∷◌, ◌++◌}
use actionsspot.Effect.{History, Env, ok, pure, ◌>>=◌}
use actionsspot.Effect.Returns.{OfValue, Returns, Returns-any, Returns-bind, Returns-pure}
use actionsspot.Lambda.Types.{Repository, WorkflowRun, WorkflowRunsList}
use actionsspot.Lambda.Config.{Config}
use actionsspot.Lambda.Client.Runs.{
  Address, Store, Loop, before_loop, after_round, repo_variable, repository_runs, follow,
  collect_runs, configured, get_workflow_runs_across_repos, point_to, repositories, find_runs,
  list_of,
}

abbrev pub last_repository : List Repository → Option Repository
last_repository [] = none
last_repository (repo ∷ []) = some repo
last_repository (repo ∷ next ∷ repos) = last_repository (next ∷ repos)

-- All the runs have one repository.
abbrev pub AllOf : Option Repository → List WorkflowRun → Type 0
AllOf shared [] = Unit
AllOf shared (run ∷ runs) = (run.repository ≡ shared) × AllOf shared runs

-- All the runs have a pointer to the loop's variable.
abbrev Pointed : List (WorkflowRun × Address) → Type 0
Pointed [] = Unit
Pointed ((run, address) ∷ runs) = (address ≡ repo_variable) × Pointed runs

append-Pointed :
    (xs : List (WorkflowRun × Address)) (runs : List WorkflowRun)
    → Pointed xs
    → Pointed (xs ++ point_to repo_variable runs)
append-Pointed [] [] h = tt
append-Pointed [] (run ∷ runs) h = (refl, append-Pointed [] runs tt)
append-Pointed ((run, address) ∷ xs) runs h = (h.0, append-Pointed xs runs h.1)

follow-AllOf :
    (store : Store) (xs : List (WorkflowRun × Address))
    → Pointed xs
    → AllOf (store repo_variable) (follow store xs)
follow-AllOf store [] h = tt
follow-AllOf store ((run, address) ∷ xs) h = (ap store h.0, follow-AllOf store xs h.1)

-- What the variable holds after the rounds of the repositories.
abbrev after_rounds : Option Repository → List Repository → Option Repository
after_rounds before [] = before
after_rounds before (repo ∷ repos) = after_rounds (some repo) repos

after_rounds_lem :
    (before : Option Repository) (repo : Repository) (repos : List Repository)
    → after_rounds before (repo ∷ repos) ≡ last_repository (repo ∷ repos)
after_rounds_lem before repo [] = refl
after_rounds_lem before repo (next ∷ repos) = after_rounds_lem (some repo) next repos

last_lem : (repos : List Repository) → after_rounds none repos ≡ last_repository repos
last_lem [] = refl
last_lem (repo ∷ repos) = after_rounds_lem none repo repos

-- The loop's variable holds `held`, and every run points to it.
abbrev Shares : Option Repository → Loop → Type 0
Shares held loop = (loop.store repo_variable ≡ held) × Pointed loop.all_runs

module _ (env : Env) (c : Config) (status : String) where
  collect-Shares :
      (repos : List Repository) (loop : Loop)
      → Pointed loop.all_runs
      → Returns
          (Shares (after_rounds (loop.store repo_variable) repos))
          (collect_runs env c status repos loop)
  unfolding collect_runs
  collect-Shares [] loop h = Returns-pure _ loop (refl, h)
  collect-Shares (repo ∷ repos) loop h =
      Returns-bind _ _ _ _ (Returns-any (repository_runs env c status repo)) λ found x.
        collect-Shares repos (after_round repo found loop)
          (append-Pointed loop.all_runs found.workflow_runs h)

  list-AllOf :
      (repos : List Repository) (loop : Loop)
      → Shares (after_rounds none repos) loop
      → AllOf (last_repository repos) (list_of env c loop).workflow_runs
  list-AllOf repos loop h =
      subst (λ o. AllOf o (follow loop.store loop.all_runs)) (h.0 ∙ last_lem repos)
        (follow-AllOf loop.store loop.all_runs h.1)

  find-AllOf :
      (repos : List Repository)
      → Returns
          (λ list. AllOf (last_repository repos) list.workflow_runs)
          (find_runs env c status (pure repos))
  unfolding pure ◌>>=◌
  find-AllOf repos =
      Returns-bind _ _ _ _ (collect-Shares repos before_loop tt)
        λ loop held. Returns-pure _ _ (list-AllOf repos loop held)

-- With the repositories configured, every run that is found in any of them points to the last one
-- that is configured, whichever repository it is of.
pub runs_share_last :
    (env : Env) (c : Config) (status name : String) (names : List String) (h : History)
    (list : WorkflowRunsList)
    → c.repository_names ≡ name ∷ names
    → (get_workflow_runs_across_repos env c status h).0 ≡ ok list
    → AllOf (last_repository (configured c.organization_name (name ∷ names))) list.workflow_runs
unfolding get_workflow_runs_across_repos
runs_share_last env c status name names h list e found =
    let repos = configured c.organization_name (name ∷ names) in
    let asked : (find_runs env c status (repositories env c (name ∷ names)) h).0 ≡ ok list =
      subst (λ ns. (find_runs env c status (repositories env c ns) h).0 ≡ ok list) e found in
    subst (OfValue λ l. AllOf (last_repository repos) l.workflow_runs) asked
      ((find-AllOf env c status repos).value h)
