-- ===== src/Tests/Spots.antt =====
-- Runs of the Lambda function that ask for spot instances.
use actionsspot.Json.{Json, text, array, object, nil, cons, end, field, at_key}
use actionsspot.Prelude.{
  contains_text, atoi, String, true, ◌∷◌, ◌+◌, ◌<◌, ◌≤◌, pos, ◌+ℤ◌, ◌-ℤ◌, ◌≡◌, refl, some, [],
  length, select, str_eq, if◌then◌else◌, eqb_ℤ, arith,
}
use actionsspot.Effect.{Env, replied, ok, do_request, ◌>>=◌}
use actionsspot.Effect.Calls.{weight}
use actionsspot.Lambda.Types.{decode_runner, decode_runner_list, decode_token}
use actionsspot.Lambda.Client.{get_registration_token, get_self_hosted_runners, make_request}
use actionsspot.Lambda.Aws.{
  now, create_spot_instance_for_pipeline, request_spot_instances, store_runner_record,
}
use actionsspot.Lambda.Aws.Requests.{spots}
use actionsspot.Lambda.Pipeline.{is_online, available, busy, wanted}
use actionsspot.Lambda.Demand.{demand_of}
use actionsspot.Lambda.Demand.Laws.{demand_of_lem}
use actionsspot.Lambda.Minimum.{maintain_min_runners}
use actionsspot.Lambda.Minimum.Laws.{maintain_min_runners_lem}
use actionsspot.Lambda.Handler.{
  execute_crd_based_scaling, create_needed, create_one, runners_to_create,
}
use actionsspot.Lambda.Config.{Config, load_config}
use actionsspot.Lambda.Handler.Limit.{handler_within_limit}
use actionsspot.Lambda.Handler.{handler}
use actionsspot.Lambda.Handler.Progress.{execute_makes_progress}
use actionsspot.Effect.Returns.{Returns}
use actionsspot.Lambda.Pipeline.Limit.{Short}
use actionsspot.Lambda.Handler.Limit.{Countable}
use actionsspot.Lambda.Client.{
  deref, is_github_actions_enabled, get_repository_workflow_runs, get_workflow_jobs,
}
use actionsspot.Lambda.Client.Runs.{get_workflow_runs_across_repos, collect_runs, repository_runs}
use actionsspot.Lambda.Types.{decode_runs, decode_workflow_run, decode_workflow_job}
use actionsspot.Lambda.Labels.{is_counted, covers}
use actionsspot.Lambda.Crd.{
  count_jobs, analyze_job_demand, add_jobs, analyze_repositories, analyze_repository, analyze_run,
  analyze_runs, analyze_workflow_jobs, get_repositories_to_process,
}
use actionsspot.Tests.{env}
use actionsspot.Tests.Serverless.{c, demand, one_online, listing}

-- A token is created, with status 201; all else is listed, with 200.
abbrev creating : Env
creating = record listing {
  answer = λ h req. replied (record {
    status = if str_eq req.method "POST" then 201 else 200;
    request_id = "";
    body = some "runners";
  });
}

demand_of_example :
    demand_of one_online (record { total_count = pos 2; workflow_runs = [] }) ≡ record {
      total_runners = pos 0;
      online_runners = pos (length (select is_online one_online.runners));
      busy_runners = pos (length (busy one_online.runners));
      idle_runners = pos (length (available one_online.runners));
      queued_jobs = pos 2;
      estimated_need =
          if eqb_ℤ (pos (length (available one_online.runners))) (pos 0)
          then wanted (pos 2) (pos (length (available one_online.runners)))
          else pos 0;
    }
demand_of_example =
    demand_of_lem one_online (record { total_count = pos 2; workflow_runs = [] }) (omega arith)

maintain_min_runners_example :
    ((maintain_min_runners env c (λ h. pos 1) (pos 2) []).0 ≡ ok tt)
    × (weight spots (maintain_min_runners env c (λ h. pos 1) (pos 2) []).1 ≡ weight spots [] + 2)
maintain_min_runners_example =
    maintain_min_runners_lem env c (λ h. pos 1) (λ h req. tt) (λ h item. tt) 2 [] (omega arith)

execute_makes_progress_example :
    weight spots [] < weight spots (execute_crd_based_scaling creating c demand []).1
unfolding get_self_hosted_runners ◌>>=◌ make_request do_request decode_runner_list at_key
    decode_runner execute_crd_based_scaling create_needed create_one runners_to_create ◌+ℤ◌ ◌-ℤ◌ now
    get_registration_token decode_token create_spot_instance_for_pipeline request_spot_instances
    store_runner_record
execute_makes_progress_example =
    execute_makes_progress creating c demand one_online [] (get_self_hosted_runners creating c []).1
      3 7 refl refl refl (omega arith) (omega arith) (omega arith) tt

abbrev queued_job : Json
queued_job =
    object
      (field "status" (text "queued") (field "labels" (array (cons (text "self-hosted") nil)) end))

-- One runner is online, and one repository has a queued run with two queued jobs.
abbrev busy_day : Env
busy_day = record creating {
  unmarshal = λ s. some (array (cons (text "tools") nil));
  decode = λ s. some (
      object (
        field "runners"
          (array
            (cons (object (field "name" (text "r1") (field "status" (text "online") end))) nil))
          (field "workflow_runs" (array (cons (object (field "status" (text "queued") end)) nil))
            (field "jobs" (array (cons queued_job (cons queued_job nil))) end))));
}

abbrev getenv : String → String
getenv name = if str_eq name "REPOSITORY_NAMES" then "names" else ""

abbrev loaded : Config
loaded = record {
  github_token = "";
  github_enterprise_url = "https://TelenorSwedenAB.ghe.com";
  organization_name = "TelenorSweden";
  min_runners = pos 0;
  max_runners = pos 10;
  ec2_instance_type = "t3.medium";
  ec2_ami = "";
  ec2_subnet_id = "";
  ec2_security_group_id = "";
  ec2_key_pair_name = "";
  ec2_spot_price = "0.05";
  dynamo_db_table_name = "github-runners";
  runner_labels = [];
  cleanup_offline_runners = true;
  repository_names = "tools" ∷ [];
}

busy_day_runners : Returns (λ rs. Short rs.runners) (get_self_hosted_runners busy_day loaded)
unfolding get_self_hosted_runners ◌>>=◌ make_request do_request decode_runner_list at_key
    decode_runner
busy_day_runners = record { value = λ h. omega arith }

busy_day_queued :
    Returns
      (λ runs. Short runs.workflow_runs)
      (get_workflow_runs_across_repos busy_day loaded "queued")
unfolding ◌>>=◌ make_request do_request at_key get_workflow_runs_across_repos collect_runs
    contains_text repository_runs deref is_github_actions_enabled get_repository_workflow_runs
    decode_runs decode_workflow_run decode_workflow_job
busy_day_queued = record { value = λ h. omega arith }

busy_day_jobs : Returns Countable (analyze_job_demand busy_day loaded)
unfolding ◌>>=◌ make_request do_request at_key contains_text deref get_repository_workflow_runs
    decode_runs decode_workflow_run decode_workflow_job analyze_job_demand get_workflow_jobs
    add_jobs analyze_repositories analyze_repository analyze_run analyze_runs analyze_workflow_jobs
    get_repositories_to_process ◌+ℤ◌ count_jobs is_counted covers
busy_day_jobs = record { value = λ h. (2, refl, omega arith) }

handler_within_limit_example :
    weight spots (handler busy_day getenv (ok tt) []).1 ≤ weight spots [] + 10
unfolding load_config atoi
handler_within_limit_example =
    handler_within_limit busy_day loaded 10 refl (omega arith) busy_day_runners busy_day_queued
      busy_day_jobs getenv (ok tt) [] refl
