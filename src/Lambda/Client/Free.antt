-- ===== src/Lambda/Client/Free.antt =====
-- No call of the client asks for a spot instance.
use actionsspot.Prelude.{
  ℕ, zero, suc, ◌+◌, ℤ, String, Bool, true, false, Option, none, some, List, [], ◌∷◌, arith,
}
use actionsspot.Json.{Json}
use actionsspot.Effect.{History, Env, Response, Result, ok, err, crash, Exec}
use actionsspot.Effect.Calls.{Calls}
use actionsspot.Effect.Limits.{free_rules, Free-bind}
use actionsspot.Lambda.Types.{Repository, WorkflowRun, WorkflowRunsList}
use actionsspot.Lambda.Config.{Config}
use actionsspot.Lambda.Aws.Requests.{spots}
use actionsspot.Lambda.Client.{
  deref, get_json, make_request, is_enabled, more_repositories, repository_pages,
  get_self_hosted_runners, get_registration_token, get_repositories_in_organization,
  get_repository_workflow_runs, get_workflow_jobs, is_github_actions_enabled, remove_runner,
}
use actionsspot.Lambda.Client.Cost.{Calls-make_request, Calls-get_json}
use actionsspot.Lambda.Client.Runs.{
  found_runs, if_enabled, repository_runs, Loop, collect_runs, repositories,
  get_workflow_runs_across_repos,
}
use actionsspot.Lambda.Client.Filter.{
  if_listed, filter_repository, filter_run, filter_runs, filter_workflows_matching_labels,
}

pub Free-deref : {A : Type 0} (o : Option A) → Calls spots 0 (deref o)
unfolding deref
Free-deref none = record { most = λ h. omega arith }
Free-deref (some a) = record { most = λ h. omega arith }

module _ (env : Env) (c : Config) where
  pub Free-make_request : (method url : String) → Calls spots 0 (make_request env c method url)
  Free-make_request method url = Calls-make_request spots 0 env c method url λ req. omega arith

  pub Free-get_json :
      {A : Type 0} (f : Json → Option A) (method : String) (status : ℕ) (url what : String)
      → Calls spots 0 (get_json env c f method status url what)
  Free-get_json f method status url what =
      Calls-get_json spots 0 env c f method status url what λ req. omega arith

  Free-more_repositories :
      (next : List Repository → Exec History (List Repository)) (page : ℕ)
      (all repos : List Repository)
      → ((rs : List Repository) → Calls spots 0 (next rs))
      → Calls spots 0 (more_repositories env c next page all repos)
  Free-more_repositories next page all [] k = search free_rules
  Free-more_repositories next page all (r ∷ rs) k = search (free_rules, k) depth 6

  Free-pages :
      (fuel page : ℕ) (all : List Repository) → Calls spots 0 (repository_pages env c fuel page all)
  unfolding repository_pages
  Free-pages zero page all = search free_rules
  Free-pages (suc fuel) page all =
      Free-bind _ _ (Free-get_json _ _ _ _ _)
        λ repos. Free-more_repositories _ page all repos (λ rs. Free-pages fuel (page + 1) rs)

  pub Free-organization : Calls spots 0 (get_repositories_in_organization env c)
  unfolding get_repositories_in_organization
  Free-organization = Free-pages 10 1 []

  Free-is_enabled : (r : Result Response) → Calls spots 0 (is_enabled env c r)
  Free-is_enabled (ok resp) = search free_rules
  Free-is_enabled (err e) = search free_rules
  Free-is_enabled (crash m) = search free_rules

  pub Free-enabled :
      (owner repo : String) → Calls spots 0 (is_github_actions_enabled env c owner repo)
  unfolding is_github_actions_enabled
  Free-enabled owner repo = search (free_rules, Free-make_request, Free-is_enabled) depth 8

  pub Free-runs :
      (owner repo status : String)
      → Calls spots 0 (get_repository_workflow_runs env c owner repo status)
  unfolding get_repository_workflow_runs
  Free-runs owner repo status = Free-get_json _ _ _ _ _

  pub Free-jobs :
      (owner repo : String) (id : ℤ) → Calls spots 0 (get_workflow_jobs env c owner repo id)
  unfolding get_workflow_jobs
  Free-jobs owner repo id = Free-get_json _ _ _ _ _

  pub Free-runners : Calls spots 0 (get_self_hosted_runners env c)
  unfolding get_self_hosted_runners
  Free-runners = Free-get_json _ _ _ _ _

  pub Free-token : Calls spots 0 (get_registration_token env c)
  unfolding get_registration_token
  Free-token = Free-get_json _ _ _ _ _

  pub Free-remove : (id : ℤ) → Calls spots 0 (remove_runner env c id)
  unfolding remove_runner
  Free-remove id = search (free_rules, Free-make_request) depth 8

  Free-found : (r : Result WorkflowRunsList) → Calls spots 0 (found_runs r)
  Free-found (ok runs) = search free_rules
  Free-found (err e) = search free_rules
  Free-found (crash m) = search free_rules

  Free-if_enabled :
      (status owner name : String) (b : Bool) → Calls spots 0 (if_enabled env c status owner name b)
  Free-if_enabled status owner name false = search free_rules
  Free-if_enabled status owner name true = search (free_rules, Free-runs, Free-found) depth 8

  Free-repository_runs :
      (status : String) (repo : Repository) → Calls spots 0 (repository_runs env c status repo)
  unfolding repository_runs
  Free-repository_runs status repo =
      search (free_rules, Free-deref, Free-enabled, Free-if_enabled) depth 8

  Free-collect_runs :
      (status : String) (repos : List Repository) (loop : Loop)
      → Calls spots 0 (collect_runs env c status repos loop)
  unfolding collect_runs
  Free-collect_runs status [] loop = search free_rules
  Free-collect_runs status (repo ∷ repos) loop =
      Free-bind _ _ (Free-repository_runs status repo) λ found. Free-collect_runs status repos _

  Free-repositories : (names : List String) → Calls spots 0 (repositories env c names)
  Free-repositories [] = search (free_rules, Free-organization)
  Free-repositories (name ∷ names) = search free_rules

  pub Free-across : (status : String) → Calls spots 0 (get_workflow_runs_across_repos env c status)
  unfolding get_workflow_runs_across_repos
  Free-across status = search (free_rules, Free-repositories, Free-collect_runs) depth 8

  module _ (labels : List String) where
    Free-if_listed :
        (run : WorkflowRun) (repo : Repository) (b : Bool)
        → Calls spots 0 (if_listed env c labels run repo b)
    Free-if_listed run repo false = search free_rules
    Free-if_listed run repo true = search (free_rules, Free-deref, Free-jobs) depth 8

    Free-filter_repository :
        (run : WorkflowRun) (o : Option Repository)
        → Calls spots 0 (filter_repository env c labels run o)
    Free-filter_repository run none = search free_rules
    Free-filter_repository run (some repo) =
        search (free_rules, Free-deref, Free-enabled, Free-if_listed) depth 10

    Free-filter_runs :
        (runs matching : List WorkflowRun) → Calls spots 0 (filter_runs env c labels runs matching)
    unfolding filter_runs filter_run
    Free-filter_runs [] matching = search free_rules
    Free-filter_runs (run ∷ runs) matching =
        Free-bind _ _ (Free-filter_repository run run.repository) λ kept. Free-filter_runs runs _

    pub Free-filter :
        (runs : List WorkflowRun)
        → Calls spots 0 (filter_workflows_matching_labels env c labels runs)
    unfolding filter_workflows_matching_labels
    Free-filter runs = Free-filter_runs runs []
