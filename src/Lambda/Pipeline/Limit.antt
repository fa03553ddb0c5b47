-- ===== src/Lambda/Pipeline/Limit.antt =====
-- How many spot instances the fallback asks for, with its cleanup.
use actionsspot.Prelude.{
  ℕ, zero, suc, ◌+◌, ◌<◌, ◌≤◌, ◌^◌, pos, pos_part, ◌≡◌, String, Bool, true, false, Option, none,
  some, List, [], ◌∷◌, ◌++◌, length, length-append, arith,
}
use actionsspot.Effect.{Env, Result, ok, err, crash}
use actionsspot.Effect.Calls.{Calls, Calls-bind, Calls-wrapped, Calls-attempt, Calls-pure, Calls-if}
use actionsspot.Effect.Exactly.{Exactly-Calls}
use actionsspot.Effect.Returns.{
  OfValue, Returns, Returns-bind, Returns-pure, Returns-lift, Returns-any,
}
use actionsspot.Effect.Limits.{free_rules, Free-bind, Calls-le, Calls-after, Returns-wrapped}
use actionsspot.Lambda.Types.{Repository, SelfHostedRunner, WorkflowJob, WorkflowRun}
use actionsspot.Lambda.Config.{Config}
use actionsspot.Lambda.Aws.{
  describe_instances, terminate_instances, terminate_found, terminate_runner_instance,
}
use actionsspot.Lambda.Aws.Requests.{spots, Exactly-now, Exactly-create_spot_for_pipeline}
use actionsspot.Lambda.Client.{get_self_hosted_runners}
use actionsspot.Lambda.Client.Runs.{get_workflow_runs_across_repos}
use actionsspot.Lambda.Client.Filter.{
  on_jobs, if_listed, filter_repository, filter_run, filter_runs, filter_workflows_matching_labels,
}
use actionsspot.Lambda.Client.Free.{Free-runners, Free-token, Free-remove, Free-across, Free-filter}
use actionsspot.Lambda.Pipeline.{
  PipelineStatus, analyze_pipeline_status, check_pending_pipelines, create_pipeline_runners,
  create_runners_for_pending_pipelines, on_removed, cleanup_runner, cleanup_each,
  cleanup_offline_runners, monitor_and_scale,
}
use actionsspot.Lambda.Pipeline.Laws.{analyze_pipeline_status_lem}

-- A list that an int counts, with room.
abbrev pub Short : {A : Type 0} → List A → Type 0
Short xs = length xs < 2 ^ 62

module _ (env : Env) (c : Config) where
  Free-describe : (name : String) → Calls spots 0 (describe_instances env c name)
  unfolding describe_instances
  Free-describe name = record { most = λ h. omega arith }

  Free-terminate : (ids : List String) → Calls spots 0 (terminate_instances env c ids)
  unfolding terminate_instances
  Free-terminate ids = record { most = λ h. omega arith }

  Free-terminate_found : (ids : List String) → Calls spots 0 (terminate_found env c ids)
  Free-terminate_found [] = search free_rules
  Free-terminate_found (id ∷ ids) = search (free_rules, Free-terminate) depth 6

  Free-terminate_runner : (name : String) → Calls spots 0 (terminate_runner_instance env c name)
  unfolding terminate_runner_instance
  Free-terminate_runner name = search (free_rules, Free-describe, Free-terminate_found) depth 8

  Free-on_removed :
      (runner : SelfHostedRunner) (r : Result (Unit {0}))
      → Calls spots 0 (on_removed env c runner r)
  Free-on_removed runner (ok u) = search (free_rules, Free-terminate_runner) depth 8
  Free-on_removed runner (err e) = search free_rules
  Free-on_removed runner (crash m) = search free_rules

  Free-cleanup_each : (runners : List SelfHostedRunner) → Calls spots 0 (cleanup_each env c runners)
  unfolding cleanup_each cleanup_runner
  Free-cleanup_each [] = search free_rules
  Free-cleanup_each (runner ∷ runners) =
      Free-bind _ _ (search (free_rules, Free-remove, Free-on_removed) depth 8)
        λ _. Free-cleanup_each runners

  Free-cleanup : Calls spots 0 (cleanup_offline_runners env c)
  unfolding cleanup_offline_runners
  Free-cleanup = search (free_rules, Free-runners, Free-cleanup_each) depth 8

  Calls-create_pipeline :
      (token : String) (i n : ℕ) → Calls spots n (create_pipeline_runners env c token i n)
  unfolding create_pipeline_runners
  Calls-create_pipeline token i zero = Calls-pure tt 0
  Calls-create_pipeline token i (suc n) = Calls-le _ (0 + (1 + n)) (suc n) (omega arith) (
      Calls-bind _ _ 0 (1 + n) (Exactly-Calls _ 0 (Exactly-now env c)) λ time.
        Calls-bind _ _ 1 n
          (Calls-attempt _ 1
            (Exactly-Calls _ 1 (Exactly-create_spot_for_pipeline env c _ token c.runner_labels)))
          λ r. Calls-create_pipeline token (i + 1) n)

  Free-check : Calls spots 0 (check_pending_pipelines env c)
  unfolding check_pending_pipelines
  Free-check = search (free_rules, Free-across, Free-filter, Free-runners) depth 16

  Calls-pending :
      (status : PipelineStatus)
      → Calls spots
          (pos_part status.runners_needed)
          (create_runners_for_pending_pipelines env c status)
  unfolding create_runners_for_pending_pipelines
  Calls-pending status = Calls-if _ (Calls-pure tt _) (
      Calls-if _ (Calls-pure tt _) (
        Calls-le _ (0 + pos_part status.runners_needed) _ (omega arith) (
          Calls-bind _ _ 0 _ (Calls-wrapped _ _ 0 (Free-token env c))
            λ token. Calls-create_pipeline token.token 0 _)))

  -- The filter keeps no more runs than it is given.
  AtMost : ℕ → List WorkflowRun → Type 0
  AtMost n runs = length runs ≤ n

  kept-AtMost :
      (labels : List String) (run : WorkflowRun) (repo : Repository) (r : Result (List WorkflowJob))
      → OfValue (AtMost 1) (on_jobs labels run repo r)
  unfolding AtMost
  kept-AtMost labels run repo (ok jobs) = ground arith
  kept-AtMost labels run repo (err e) = ground arith
  kept-AtMost labels run repo (crash m) = tt

  if_listed-AtMost :
      (labels : List String) (run : WorkflowRun) (repo : Repository) (b : Bool)
      → Returns (AtMost 1) (if_listed env c labels run repo b)
  unfolding AtMost
  if_listed-AtMost labels run repo false = Returns-pure _ _ (omega arith)
  if_listed-AtMost labels run repo true = Returns-bind _ _ _ _ (Returns-any _) λ owner _.
      Returns-bind _ _ _ _ (Returns-any _)
        λ answer _. Returns-lift _ _ (kept-AtMost labels run repo answer)

  filter_run-AtMost :
      (labels : List String) (run : WorkflowRun) (o : Option Repository)
      → Returns (AtMost 1) (filter_repository env c labels run o)
  unfolding AtMost
  filter_run-AtMost labels run none = Returns-pure _ _ (omega arith)
  filter_run-AtMost labels run (some repo) =
      Returns-bind _ _ _ _ (Returns-any _) λ b _. if_listed-AtMost labels run repo b

  filter_runs-AtMost :
      (labels : List String) (runs matching : List WorkflowRun) (n : ℕ)
      → length matching + length runs ≤ n
      → Returns (AtMost n) (filter_runs env c labels runs matching)
  unfolding AtMost filter_runs filter_run
  filter_runs-AtMost labels [] matching n le = Returns-pure _ _ (omega arith)
  filter_runs-AtMost labels (run ∷ runs) matching n le =
      Returns-bind _ _ _ _ (filter_run-AtMost labels run run.repository) λ kept one.
        filter_runs-AtMost labels runs (matching ++ kept) n
          (omega (arith, length-append matching kept))

  -- A limit that is not negative, and lists that an int counts.
  module _ (m : ℕ) (limit : c.max_runners ≡ pos m) (small : m < 2 ^ 62)
      (few_runners : Returns (λ rs. Short rs.runners) (get_self_hosted_runners env c))
      (few_queued : Returns
        (λ runs. Short runs.workflow_runs)
        (get_workflow_runs_across_repos env c "queued")) where
    needed_within :
        (queued running : List WorkflowRun) (runners : List SelfHostedRunner)
        → Short queued
        → Short runners
        → pos_part (analyze_pipeline_status c queued running runners).runners_needed ≤ m
    needed_within queued running runners q r =
        rw (analyze_pipeline_status_lem c m queued running runners limit small q r).0 (omega arith)

    Returns-check :
        Returns (λ status. pos_part status.runners_needed ≤ m) (check_pending_pipelines env c)
    unfolding check_pending_pipelines filter_workflows_matching_labels AtMost
    Returns-check = Returns-bind _ _ _ _ (Returns-wrapped _ _ _ few_queued) λ all q.
        Returns-bind _ (AtMost (length all.workflow_runs)) _ _
          (Returns-wrapped _ _ _
            (filter_runs-AtMost c.runner_labels all.workflow_runs [] _ (omega arith)))
          λ queued few. Returns-bind _ _ _ _ (Returns-any _) λ all_running _.
            Returns-bind _ _ _ _ (Returns-any _) λ running _.
              Returns-bind _ _ _ _ (Returns-wrapped _ _ _ few_runners) λ runners r.
                Returns-pure _ _
                  (needed_within queued running runners.runners (omega (arith, few, q)) r)

    pub Calls-monitor : Calls spots m (monitor_and_scale env c)
    unfolding monitor_and_scale
    Calls-monitor =
        Calls-after _ _ _ m (Returns-wrapped _ _ _ Returns-check) (Calls-wrapped _ _ 0 Free-check)
          λ status within. Calls-le _ (m + 0) m (omega arith) (
            Calls-bind _ _ m 0
              (Calls-if _ (Calls-wrapped _ _ m (Calls-le _ _ m within (Calls-pending status)))
                (Calls-pure tt m))
              λ _.
                Calls-if _
                  (Calls-bind _ _ 0 0 (Calls-attempt _ 0 Free-cleanup) λ _. Calls-pure tt 0)
                  (Calls-pure tt 0))
