-- ===== src/Lambda/Client/Filter.antt =====
-- github-runner-scaler/ghe_client.go: FilterWorkflowsMatchingLabels.
use actionsspot.Prelude.{
  ◌-ℤ◌, pos, String, contains_text, Bool, true, false, ◌&&◌, ◌||◌, Option, none, some, List, [],
  ◌∷◌, ◌++◌, any, str_eq, if◌then◌else◌,
}
use actionsspot.Effect.{History, Env, Result, ok, err, crash, Exec, pure, lift, attempt, ◌>>=◌}
use actionsspot.Lambda.Types.{Repository, WorkflowJob, WorkflowRun}
use actionsspot.Lambda.Config.{Config}
use actionsspot.Lambda.Labels.{labels_match}
use actionsspot.Lambda.Client.{deref, get_workflow_jobs, is_github_actions_enabled}

-- The labels that a job asks for: RunsOn where Labels is empty.
abbrev pub job_labels : WorkflowJob → List String
job_labels job = elim job.labels [ [] ↦ job.runs_on | label ∷ labels ↦ label ∷ labels ]

-- The jobs that wait for a runner, and whose labels the runner has.
unfoldable pub is_matching : List String → WorkflowJob → Bool
is_matching configured job =
    (str_eq job.status "queued" || str_eq job.status "waiting")
    && labels_match (job_labels job) configured

-- The job that stands for those of a test repository whose jobs are not to be had.
abbrev pub placeholder : List String → WorkflowRun → WorkflowRun
placeholder configured run = record run {
  jobs = record { id = pos 0 -ℤ run.id; status = "queued"; runs_on = []; labels = configured } ∷ [];
}

abbrev pub on_jobs :
    List String → WorkflowRun → Repository → Result (List WorkflowJob) → Result (List WorkflowRun)
on_jobs configured run repo (ok jobs) =
    ok (if any (is_matching configured) jobs then record run { jobs = jobs } ∷ [] else [])
on_jobs configured run repo (err e) = ok (
    if contains_text repo.full_name "test-spot-runner" && str_eq run.status "queued"
    then placeholder configured run ∷ []
    else [])
on_jobs configured run repo (crash m) = crash m

module _ (env : Env) (c : Config) (configured : List String) where
  abbrev pub if_listed : WorkflowRun → Repository → Bool → Exec History (List WorkflowRun)
  if_listed run repo false = pure []
  if_listed run repo true = do
    owner ← deref repo.owner
    answer ← attempt (get_workflow_jobs env c owner.login repo.name run.id)
    lift (on_jobs configured run repo answer)

  -- Only one repository is asked again whether its actions are enabled.
  abbrev pub is_listed : Repository → Exec History Bool
  is_listed repo =
      if contains_text repo.full_name "prepared-images-collection"
      then (do owner ← deref repo.owner; is_github_actions_enabled env c owner.login repo.name)
      else pure true

  abbrev pub filter_repository : WorkflowRun → Option Repository → Exec History (List WorkflowRun)
  filter_repository run none = pure []
  filter_repository run (some repo) = do listed ← is_listed repo; if_listed run repo listed

  -- One round: the run with its jobs where it is kept, and nothing where it is not.
  unfoldable pub filter_run : WorkflowRun → Exec History (List WorkflowRun)
  filter_run run = filter_repository run run.repository

  unfoldable pub filter_runs : List WorkflowRun → List WorkflowRun → Exec History (List WorkflowRun)
  filter_runs [] matching = pure matching
  filter_runs (run ∷ runs) matching = do kept ← filter_run run; filter_runs runs (matching ++ kept)

  unfoldable pub filter_workflows_matching_labels :
      List WorkflowRun → Exec History (List WorkflowRun)
  filter_workflows_matching_labels workflows = filter_runs workflows []
