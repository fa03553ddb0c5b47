-- ===== src/Lambda/Handler/Limit.antt =====
-- How many spot instances one invocation of the function asks for, on either way.
use actionsspot.Prelude.{ℕ, ◌+◌, ◌<◌, ◌≤◌, ◌^◌, pos, pos_part, String, ◌≡◌, length, select, arith}
use actionsspot.Effect.{History, Env, Result, ok, err, crash, lift, wrapped, ◌>>=◌, ◌>>◌}
use actionsspot.Effect.Calls.{weight, Calls, Calls-bind, Calls-lift, Calls-wrapped, Calls-attempt}
use actionsspot.Effect.Returns.{OfValue, Returns}
use actionsspot.Effect.Limits.{Calls-le, Calls-after, Returns-wrapped, Returns-attempt}
use actionsspot.Lambda.Types.{SelfHostedRunnerList}
use actionsspot.Lambda.Config.{Config, load_config}
use actionsspot.Lambda.Aws.Requests.{spots}
use actionsspot.Lambda.Client.{get_self_hosted_runners}
use actionsspot.Lambda.Client.Runs.{get_workflow_runs_across_repos}
use actionsspot.Lambda.Client.Free.{Free-runners}
use actionsspot.Lambda.Crd.{JobCount, analyze_job_demand}
use actionsspot.Lambda.Crd.Free.{Free-analyze_job_demand}
use actionsspot.Lambda.Pipeline.{is_online}
use actionsspot.Lambda.Pipeline.Laws.{online_le}
use actionsspot.Lambda.Pipeline.Limit.{Short, Calls-monitor}
use actionsspot.Lambda.Handler.{
  execute_crd_based_scaling, on_demand, new_aws_infrastructure, scale_once, handler,
}
use actionsspot.Lambda.Handler.Laws.{runners_to_create_lem, needed_for, Calls-create_if_needed}

-- A demand that an int holds, with room.
abbrev pub Countable : JobCount → Type 0
Countable count = (n : ℕ) × (count.necessary_replicas ≡ pos n) × (n < 2 ^ 62)

module _ (env : Env) (c : Config) (m : ℕ) (limit : c.max_runners ≡ pos m) (small : m < 2 ^ 62)
    (few_runners : Returns (λ rs. Short rs.runners) (get_self_hosted_runners env c))
    (few_queued : Returns
      (λ runs. Short runs.workflow_runs)
      (get_workflow_runs_across_repos env c "queued"))
    (few_jobs : Returns Countable (analyze_job_demand env c)) where
  needed_within :
      (count : JobCount) (runners : SelfHostedRunnerList)
      → Countable count
      → Short runners.runners
      → pos_part (needed_for env c count runners) ≤ m
  needed_within count runners (n, e, less) short =
      let a = length (select is_online runners.runners) in
      rw
        (
          e,
          runners_to_create_lem c m n a limit small less
              (omega (arith, online_le runners.runners, short)),
        )
        (omega arith)

  Calls-execute :
      (count : JobCount) → Countable count → Calls spots m (execute_crd_based_scaling env c count)
  unfolding execute_crd_based_scaling
  Calls-execute count countable =
      Calls-after _ _ _ m (Returns-wrapped _ _ _ few_runners)
        (Calls-wrapped _ _ 0 (Free-runners env c))
        λ runners short.
          Calls-le _ _ m (needed_within count runners countable short)
            (Calls-create_if_needed env c (needed_for env c count runners))

  Calls-on_demand : (r : Result JobCount) → OfValue Countable r → Calls spots m (on_demand env c r)
  Calls-on_demand (ok count) countable = Calls-execute count countable
  Calls-on_demand (err e) _ = Calls-monitor env c m limit small few_runners few_queued
  Calls-on_demand (crash x) _ = Calls-le _ 0 m (omega arith) (Calls-lift _)

  Calls-scale_once : Calls spots m (scale_once env c)
  unfolding scale_once
  Calls-scale_once =
      Calls-after _ _ _ m (Returns-attempt _ _ few_jobs)
        (Calls-attempt _ 0 (Free-analyze_job_demand env c)) Calls-on_demand

  Calls-loaded :
      (aws : Result (Unit {0}))
      → Calls spots m (
          wrapped "failed to initialize AWS infrastructure" (new_aws_infrastructure aws)
          >> scale_once env c)
  Calls-loaded aws = Calls-le _ (0 + m) m (omega arith) (
      Calls-bind _ _ 0 m (Calls-wrapped _ _ 0 (Calls-wrapped _ _ 0 (Calls-lift _)))
        λ _. Calls-scale_once)

  -- Under a configuration that is loaded, with a limit that is not negative, and where an int counts
  -- the runners, the queued runs and the demand: one invocation of the function asks for no more spot
  -- instances than the limit, whichever way it takes and whatever else is answered.
  pub handler_within_limit :
      (getenv : String → String) (aws : Result (Unit {0})) (h : History)
      → load_config env getenv ≡ ok c
      → weight spots (handler env getenv aws h).1 ≤ weight spots h + m
  unfolding handler ◌>>=◌ lift wrapped
  handler_within_limit getenv aws h loaded = rw loaded ((Calls-loaded aws).most h)
