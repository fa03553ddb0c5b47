-- ===== src/Lambda/Pipeline.antt =====
-- github-runner-scaler/pipeline_monitor.go: the older way, by queued workflow runs and idle runners.
pub mod Laws
pub mod Cleanup
pub mod Limit
use actionsspot.Prelude.{
  ◌+ℤ◌, ◌-ℤ◌, ltb_ℤ, eqb_ℤ, pos_part, ℕ, zero, suc, ◌+◌, ℤ, pos, String, ◌+++◌, decimal, Bool, true,
  false, not, ◌&&◌, List, [], ◌∷◌, length, select, str_eq, if◌then◌else◌,
}
use actionsspot.Effect.{
  History, Env, Error, Result, ok, err, crash, Exec, pure, fail, lift, wrapped, attempt, ◌>>=◌,
  ◌>>◌,
}
use actionsspot.Lambda.Types.{SelfHostedRunner, SelfHostedRunnerList, WorkflowRun}
use actionsspot.Lambda.Config.{Config}
use actionsspot.Lambda.Client.{get_self_hosted_runners, get_registration_token, remove_runner}
use actionsspot.Lambda.Client.Runs.{get_queued_workflow_runs, get_running_workflow_runs}
use actionsspot.Lambda.Client.Filter.{filter_workflows_matching_labels}
use actionsspot.Lambda.Aws.{create_spot_instance_for_pipeline, now, terminate_runner_instance}

pub record PipelineStatus : Type 0 where
  pub queued_pipelines : List WorkflowRun
  pub running_pipelines : List WorkflowRun
  pub available_runners : List SelfHostedRunner
  pub busy_runners : List SelfHostedRunner
  pub runners_needed : ℤ
  pub can_create_runners : Bool

abbrev pub is_online : SelfHostedRunner → Bool
is_online runner = str_eq runner.status "online"

-- The online runners, by whether they are busy.
abbrev pub busy : List SelfHostedRunner → List SelfHostedRunner
busy = select λ runner. is_online runner && runner.busy

abbrev pub available : List SelfHostedRunner → List SelfHostedRunner
available = select λ runner. is_online runner && not runner.busy

-- One runner for each queued run, less the available ones.
unfoldable pub wanted : ℤ → ℤ → ℤ
wanted queued_count available_count =
    if ltb_ℤ (pos 0) queued_count && eqb_ℤ available_count (pos 0)
    then queued_count
    else if ltb_ℤ available_count queued_count
    then queued_count -ℤ available_count
    else pos 0

-- The limit on the number of runners.
pub limited : ℤ → ℤ → ℤ → ℤ
limited max_runners current_total needed =
    if ltb_ℤ max_runners (current_total +ℤ needed)
    then (let left = max_runners -ℤ current_total in if ltb_ℤ left (pos 0) then pos 0 else left)
    else needed

-- The runners that are being created count as none (getCurrentPendingRunners).
abbrev current_pending_runners : ℤ
current_pending_runners = pos 0

pub analyze_pipeline_status :
    Config → List WorkflowRun → List WorkflowRun → List SelfHostedRunner → PipelineStatus
analyze_pipeline_status c queued running runners =
    let current_total = pos (length (select is_online runners)) +ℤ current_pending_runners in
    let needed =
      limited c.max_runners current_total
        (wanted (pos (length queued)) (pos (length (available runners)))) in
    record {
      queued_pipelines = queued;
      running_pipelines = running;
      available_runners = available runners;
      busy_runners = busy runners;
      runners_needed = needed;
      can_create_runners = ltb_ℤ (pos 0) needed && ltb_ℤ current_total c.max_runners;
    }

module _ (env : Env) (c : Config) where
  unfoldable pub check_pending_pipelines : Exec History PipelineStatus
  check_pending_pipelines = do
    all_queued ← wrapped "failed to get queued workflows" (get_queued_workflow_runs env c)
    queued ←
        wrapped "failed to filter matching workflows"
          (filter_workflows_matching_labels env c c.runner_labels all_queued.workflow_runs)
    all_running ← wrapped "failed to get running workflows" (get_running_workflow_runs env c)
    running ←
        wrapped "failed to filter running workflows"
          (filter_workflows_matching_labels env c c.runner_labels all_running.workflow_runs)
    runners ← wrapped "failed to get runners" (get_self_hosted_runners env c)
    pure (analyze_pipeline_status c queued running runners.runners)

  -- The loop of the creation: `i` counts the rounds; a failure is logged.
  unfoldable pub create_pipeline_runners : String → ℕ → ℕ → Exec History (Unit {0})
  create_pipeline_runners token i zero = pure tt
  create_pipeline_runners token i (suc n) = do
    time ← now env c
    attempt (
        create_spot_instance_for_pipeline env c
          ("lambda-runner-" +++ decimal time +++ "-" +++ decimal i) token c.runner_labels)
    create_pipeline_runners token (i + 1) n

  unfoldable pub create_runners_for_pending_pipelines : PipelineStatus → Exec History (Unit {0})
  create_runners_for_pending_pipelines status =
      if not (ltb_ℤ (pos 0) status.runners_needed)
      then pure tt
      else if not status.can_create_runners
      then pure tt
      else (do
        token ← wrapped "failed to get registration token" (get_registration_token env c)
        create_pipeline_runners token.token 0 (pos_part status.runners_needed))

  -- The instance is terminated once the runner is removed.
  abbrev pub on_removed : SelfHostedRunner → Result (Unit {0}) → Exec History (Unit {0})
  on_removed runner (ok _) = do attempt (terminate_runner_instance env c runner.name); pure tt
  on_removed runner (err e) = pure tt
  on_removed runner (crash m) = lift (crash m)

  pub cleanup_runner : SelfHostedRunner → Exec History (Unit {0})
  cleanup_runner runner =
      if str_eq runner.status "offline"
      then (do removed ← attempt (remove_runner env c runner.id); on_removed runner removed)
      else pure tt

  pub cleanup_each : List SelfHostedRunner → Exec History (Unit {0})
  cleanup_each [] = pure tt
  cleanup_each (runner ∷ runners) = do cleanup_runner runner; cleanup_each runners

  unfoldable pub cleanup_offline_runners : Exec History (Unit {0})
  cleanup_offline_runners = do runners ← get_self_hosted_runners env c; cleanup_each runners.runners

  unfoldable pub monitor_and_scale : Exec History (Unit {0})
  monitor_and_scale = do
    status ← wrapped "failed to check pending pipelines" check_pending_pipelines
    if ltb_ℤ (pos 0) status.runners_needed
        then wrapped "failed to create runners" (create_runners_for_pending_pipelines status)
        else pure tt
    if c.cleanup_offline_runners then (do attempt cleanup_offline_runners; pure tt) else pure tt
