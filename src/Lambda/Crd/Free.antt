-- ===== src/Lambda/Crd/Free.antt =====
-- The demand analysis asks for no spot instance.
use actionsspot.Prelude.{ℤ, String, List, [], ◌∷◌}
use actionsspot.Effect.{Env, Result, ok, err, crash}
use actionsspot.Effect.Calls.{Calls}
use actionsspot.Effect.Limits.{free_rules, Free-bind}
use actionsspot.Lambda.Types.{Repository, WorkflowRun, WorkflowRunsList}
use actionsspot.Lambda.Config.{Config}
use actionsspot.Lambda.Aws.Requests.{spots}
use actionsspot.Lambda.Client.Free.{
  Free-deref, Free-jobs, Free-runs, Free-enabled, Free-organization,
}
use actionsspot.Lambda.Crd.{
  JobCount, analyze_workflow_jobs, analyze_run, analyze_runs, on_runs, analyze_repository,
  analyze_repositories, enabled_repositories, to_process, get_repositories_to_process,
  analyze_job_demand,
}

module _ (env : Env) (c : Config) where
  Free-workflow_jobs :
      (owner repo : String) (id : ℤ) → Calls spots 0 (analyze_workflow_jobs env c owner repo id)
  unfolding analyze_workflow_jobs
  Free-workflow_jobs owner repo id = search (free_rules, Free-jobs) depth 8

  Free-run :
      (owner repo : String) (run : WorkflowRun) (n : JobCount)
      → Calls spots 0 (analyze_run env c owner repo run n)
  unfolding analyze_run
  Free-run owner repo run n = search (free_rules, Free-workflow_jobs) depth 10

  Free-all_runs :
      (owner repo : String) (runs : List WorkflowRun) (n : JobCount)
      → Calls spots 0 (analyze_runs env c owner repo runs n)
  unfolding analyze_runs
  Free-all_runs owner repo [] n = search free_rules
  Free-all_runs owner repo (run ∷ runs) n =
      Free-bind _ _ (Free-run owner repo run n) λ n'. Free-all_runs owner repo runs n'

  Free-on_runs :
      (owner repo : String) (n : JobCount) (r : Result WorkflowRunsList)
      → Calls spots 0 (on_runs env c owner repo n r)
  Free-on_runs owner repo n (ok runs) = Free-all_runs owner repo runs.workflow_runs n
  Free-on_runs owner repo n (err e) = search free_rules
  Free-on_runs owner repo n (crash m) = search free_rules

  Free-repository :
      (repo : Repository) (n : JobCount) → Calls spots 0 (analyze_repository env c repo n)
  unfolding analyze_repository
  Free-repository repo n = search (free_rules, Free-deref, Free-runs, Free-on_runs) depth 10

  Free-repositories :
      (repos : List Repository) (n : JobCount) → Calls spots 0 (analyze_repositories env c repos n)
  unfolding analyze_repositories
  Free-repositories [] n = search free_rules
  Free-repositories (repo ∷ repos) n =
      Free-bind _ _ (Free-repository repo n) λ n'. Free-repositories repos n'

  Free-enabled_repositories :
      (repos enabled : List Repository) → Calls spots 0 (enabled_repositories env c repos enabled)
  unfolding enabled_repositories
  Free-enabled_repositories [] enabled = search free_rules
  Free-enabled_repositories (repo ∷ repos) enabled = Free-bind _ _ (Free-deref repo.owner) λ owner.
      Free-bind _ _ (Free-enabled env c owner.login repo.name)
        λ b. Free-enabled_repositories repos _

  Free-to_process : (names : List String) → Calls spots 0 (to_process env c names)
  Free-to_process [] = search (free_rules, Free-organization, Free-enabled_repositories) depth 8
  Free-to_process (name ∷ names) = search free_rules

  pub Free-analyze_job_demand : Calls spots 0 (analyze_job_demand env c)
  unfolding analyze_job_demand get_repositories_to_process
  Free-analyze_job_demand = search (free_rules, Free-to_process, Free-repositories) depth 10
