-- ===== src/Lambda/Demand.antt =====
-- github-runner-scaler/ghe_client.go: the analysis of the demand for runners.
pub mod Laws
use actionsspot.Prelude.{ℤ, pos, ◌+ℤ◌, ltb_ℤ, eqb_ℤ, ◌&&◌, List, [], ◌∷◌, str_eq, if◌then◌else◌}
use actionsspot.Effect.{History, Env, Exec, pure, wrapped, ◌>>=◌}
use actionsspot.Lambda.Types.{SelfHostedRunner, SelfHostedRunnerList, WorkflowRunsList}
use actionsspot.Lambda.Config.{Config}
use actionsspot.Lambda.Client.{get_self_hosted_runners}
use actionsspot.Lambda.Client.Runs.{get_queued_workflow_runs}

pub record RunnerDemandAnalysis : Type 0 where
  pub total_runners : ℤ
  pub online_runners : ℤ
  pub busy_runners : ℤ
  pub idle_runners : ℤ
  pub queued_jobs : ℤ
  pub estimated_need : ℤ

-- The loop over the runners.
pub count_runners : List SelfHostedRunner → RunnerDemandAnalysis → RunnerDemandAnalysis
count_runners [] a = a
count_runners (runner ∷ runners) a = count_runners runners (
    if str_eq runner.status "online"
    then (let a' = record a { online_runners = a.online_runners +ℤ pos 1 } in
        if runner.busy
        then record a' { busy_runners = a'.busy_runners +ℤ pos 1 }
        else record a' { idle_runners = a'.idle_runners +ℤ pos 1 })
    else a)

-- Runners are needed where jobs wait and no runner is idle.
abbrev pub estimate : RunnerDemandAnalysis → RunnerDemandAnalysis
estimate a =
    if ltb_ℤ (pos 0) a.queued_jobs && eqb_ℤ a.idle_runners (pos 0)
    then record a { estimated_need = a.queued_jobs }
    else a

abbrev pub no_demand : ℤ → ℤ → RunnerDemandAnalysis
no_demand total_runners queued_jobs = record {
  total_runners = total_runners;
  online_runners = pos 0;
  busy_runners = pos 0;
  idle_runners = pos 0;
  queued_jobs = queued_jobs;
  estimated_need = pos 0;
}

pub demand_of : SelfHostedRunnerList → WorkflowRunsList → RunnerDemandAnalysis
unfolding count_runners
demand_of runners queued_runs =
    estimate (count_runners runners.runners (no_demand runners.total_count queued_runs.total_count))

pub analyze_runner_demand : Env → Config → Exec History RunnerDemandAnalysis
analyze_runner_demand env c = do
  runners ← wrapped "failed to get runners" (get_self_hosted_runners env c)
  queued_runs ← wrapped "failed to get queued runs" (get_queued_workflow_runs env c)
  pure (demand_of runners queued_runs)
