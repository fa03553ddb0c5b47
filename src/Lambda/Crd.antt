-- ===== src/Lambda/Crd.antt =====
-- github-runner-scaler/crd_logic.go: the demand, counted job by job.
pub mod Laws
pub mod Free
use actionsspot.Prelude.{
  ◌+ℤ◌, ℤ, pos, String, ◌+++◌, contains_text, split_char, Bool, true, false, Option, none, some,
  List, [], ◌∷◌, ◌++◌, map, str_eq, if◌then◌else◌, not,
}
use actionsspot.Effect.{
  History, Env, Error, Result, ok, err, crash, Exec, pure, fail, lift, wrapped, attempt, ◌>>=◌,
  ◌>>◌,
}
use actionsspot.Lambda.Types.{Repository, WorkflowJob, WorkflowRun, WorkflowRunsList}
use actionsspot.Lambda.Config.{Config}
use actionsspot.Lambda.Labels.{is_counted}
use actionsspot.Lambda.Client.{
  deref, get_repositories_in_organization, get_repository_workflow_runs, get_workflow_jobs,
  is_github_actions_enabled,
}
use actionsspot.Lambda.Client.Runs.{repository_of}

pub record JobCount : Type 0 where
  pub total : ℤ
  pub queued : ℤ
  pub in_progress : ℤ
  pub completed : ℤ
  pub unknown : ℤ
  pub necessary_replicas : ℤ

pub record JobAnalysisResult : Type 0 where
  pub queued : ℤ
  pub in_progress : ℤ
  pub unknown : ℤ

abbrev pub no_jobs : JobAnalysisResult
no_jobs = record { queued = pos 0; in_progress = pos 0; unknown = pos 0 }

-- The switch on the status of a job that is counted.
unfoldable pub count_status : String → JobAnalysisResult → JobAnalysisResult
count_status status r =
    if str_eq status "completed"
    then r
    else if str_eq status "in_progress"
    then record r { in_progress = r.in_progress +ℤ pos 1 }
    else if str_eq status "queued"
    then record r { queued = r.queued +ℤ pos 1 }
    else record r { unknown = r.unknown +ℤ pos 1 }

-- The loop over the jobs of a run: a job that the labels do not serve is skipped.
unfoldable pub count_jobs : List String → List WorkflowJob → JobAnalysisResult → JobAnalysisResult
unfolding count_status
count_jobs runner_labels [] r = r
count_jobs runner_labels (job ∷ jobs) r =
    count_jobs runner_labels jobs
      (if is_counted runner_labels job.labels then count_status job.status r else r)

abbrev counted : List String → Result (List WorkflowJob) → Result JobAnalysisResult
counted runner_labels (ok jobs) = ok (count_jobs runner_labels jobs no_jobs)
counted runner_labels (err e) = ok no_jobs
counted runner_labels (crash m) = crash m

-- A run whose status is neither completed, in progress nor queued is unknown; a completed one's
-- jobs are not asked for.
abbrev add_completed : JobCount → JobCount
add_completed n = record n { completed = n.completed +ℤ pos 1 }

abbrev add_unknown : JobCount → JobCount
add_unknown n = record n { unknown = n.unknown +ℤ pos 1 }

unfoldable pub add_jobs : JobAnalysisResult → JobCount → JobCount
add_jobs r n = record n {
  in_progress = n.in_progress +ℤ r.in_progress;
  queued = n.queued +ℤ r.queued;
  unknown = n.unknown +ℤ r.unknown;
}

-- "owner/repo"; with another number of slashes the whole text is the repository's name.
abbrev of_parts : String → String → List String → Repository
of_parts organization repo_name (owner ∷ name ∷ []) = repository_of owner name
of_parts organization repo_name _ = repository_of organization repo_name

abbrev configured_repository : String → String → Repository
configured_repository organization repo_name =
    if contains_text repo_name "/"
    then of_parts organization repo_name (split_char b'/' repo_name)
    else repository_of organization repo_name

module _ (env : Env) (c : Config) where
  unfoldable pub analyze_workflow_jobs : String → String → ℤ → Exec History JobAnalysisResult
  analyze_workflow_jobs owner repo run_id = do
    answer ← attempt (get_workflow_jobs env c owner repo run_id)
    lift (counted c.runner_labels answer)

  abbrev pub add_run_jobs : String → String → ℤ → JobCount → Exec History JobCount
  add_run_jobs owner repo run_id n = do
    r ← analyze_workflow_jobs owner repo run_id
    pure (add_jobs r n)

  unfoldable pub analyze_run : String → String → WorkflowRun → JobCount → Exec History JobCount
  analyze_run owner repo run n =
      let n' = record n { total = n.total +ℤ pos 1 } in
      if str_eq run.status "completed"
      then pure (add_completed n')
      else if str_eq run.status "in_progress"
      then add_run_jobs owner repo run.id n'
      else if str_eq run.status "queued"
      then add_run_jobs owner repo run.id n'
      else pure (add_unknown n')

  unfoldable pub analyze_runs :
      String → String → List WorkflowRun → JobCount → Exec History JobCount
  analyze_runs owner repo [] n = pure n
  analyze_runs owner repo (run ∷ runs) n = do
    n' ← analyze_run owner repo run n
    analyze_runs owner repo runs n'

  abbrev pub on_runs : String → String → JobCount → Result WorkflowRunsList → Exec History JobCount
  on_runs owner repo n (ok runs) = analyze_runs owner repo runs.workflow_runs n
  on_runs owner repo n (err e) = pure n
  on_runs owner repo n (crash m) = lift (crash m)

  -- A repository whose runs are not to be had is skipped.
  unfoldable pub analyze_repository : Repository → JobCount → Exec History JobCount
  analyze_repository repo n = do
    owner ← deref repo.owner
    answer ← attempt (get_repository_workflow_runs env c owner.login repo.name "")
    on_runs owner.login repo.name n answer

  unfoldable pub analyze_repositories : List Repository → JobCount → Exec History JobCount
  analyze_repositories [] n = pure n
  analyze_repositories (repo ∷ repos) n = do
    n' ← analyze_repository repo n
    analyze_repositories repos n'

  unfoldable pub enabled_repositories :
      List Repository → List Repository → Exec History (List Repository)
  enabled_repositories [] enabled = pure enabled
  enabled_repositories (repo ∷ repos) enabled = do
    owner ← deref repo.owner
    is_enabled ← is_github_actions_enabled env c owner.login repo.name
    enabled_repositories repos (if is_enabled then enabled ++ repo ∷ [] else enabled)

  abbrev pub all_enabled : Exec History (List Repository)
  all_enabled = do repos ← get_repositories_in_organization env c; enabled_repositories repos []

  abbrev pub to_process : List String → Exec History (List Repository)
  to_process [] = all_enabled
  to_process (name ∷ names) = pure (map (configured_repository c.organization_name) (name ∷ names))

  unfoldable pub get_repositories_to_process : Exec History (List Repository)
  get_repositories_to_process = to_process c.repository_names

  unfoldable pub analyze_job_demand : Exec History JobCount
  analyze_job_demand = do
    repos ← wrapped "failed to get repositories" get_repositories_to_process
    n ← analyze_repositories repos (record {
      total = pos 0;
      queued = pos 0;
      in_progress = pos 0;
      completed = pos 0;
      unknown = pos 0;
      necessary_replicas = pos 0;
    })
    pure (record n { necessary_replicas = n.queued +ℤ n.in_progress })
