-- ===== src/Tests/Serverless.antt =====
-- Runs of the Lambda function of github-runner-scaler.
use actionsspot.Prelude.{
  ◌+ℤ◌, contains_text, split_char, ◌+◌, ◌-◌, ◌≤◌, min, pos, pos_part, String, ◌≡◌, refl, true,
  false, none, some, List, [], ◌∷◌, all, length, select, ltb_ℤ, arith,
}
use actionsspot.Json.{integer, text, array, object, nil, cons, end, field, at_key}
use actionsspot.Effect.{Env, Response, replied, do_request, ◌>>=◌}
use actionsspot.Effect.Calls.{weight}
use actionsspot.Lambda.Types.{
  Repository, decode_runs, decode_workflow_run, decode_workflow_job, SelfHostedRunner,
  SelfHostedRunnerList, WorkflowJob, WorkflowRun, decode_runner, decode_runner_list,
}
use actionsspot.Lambda.Config.{Config}
use actionsspot.Lambda.Labels.{contains, covers, has_all, is_counted, labels_match}
use actionsspot.Lambda.Labels.Laws.{held, held_or_implicit, labels_tests}
use actionsspot.Lambda.Client.{
  deref, is_github_actions_enabled, get_repository_workflow_runs, get_workflow_jobs,
  get_repositories_in_organization, get_self_hosted_runners, make_request, repository_pages,
}
use actionsspot.Lambda.Client.Pages.{get_repositories_bounds, one}
use actionsspot.Lambda.Client.Runs.{
  configured, repository_of, collect_runs, repository_runs, get_workflow_runs_across_repos,
}
use actionsspot.Lambda.Client.Shared.{AllOf, last_repository, runs_share_last}
use actionsspot.Lambda.Client.Filter.{
  filter_workflows_matching_labels, filter_runs, filter_run, is_matching,
}
use actionsspot.Lambda.Client.Matching.{has_match, filter_keeps_matching}
use actionsspot.Lambda.Crd.{JobCount, count_jobs, no_jobs}
use actionsspot.Lambda.Crd.Laws.{count_jobs_lem}
use actionsspot.Lambda.Pipeline.{analyze_pipeline_status, cleanup_each, is_online}
use actionsspot.Lambda.Pipeline.Laws.{analyze_pipeline_status_lem}
use actionsspot.Lambda.Pipeline.Cleanup.{cleanup_only_offline}
use actionsspot.Lambda.Handler.{execute_crd_based_scaling, runners_to_create}
use actionsspot.Lambda.Handler.Laws.{execute_within_limit, runners_to_create_lem}
use actionsspot.Lambda.Aws.Requests.{spots}
use actionsspot.Tests.{env}

abbrev pub c : Config
c = record {
  github_token = "token";
  github_enterprise_url = "https://ghe.example";
  organization_name = "org";
  min_runners = pos 5;
  max_runners = pos 3;
  ec2_instance_type = "t3.medium";
  ec2_ami = "ami";
  ec2_subnet_id = "subnet";
  ec2_security_group_id = "group";
  ec2_key_pair_name = "key";
  ec2_spot_price = "0.05";
  dynamo_db_table_name = "github-runners";
  runner_labels = "self-hosted" ∷ "linux" ∷ [];
  cleanup_offline_runners = true;
  repository_names = "tools" ∷ "other/site" ∷ [];
}

abbrev online : SelfHostedRunner
online = record { id = pos 0; name = "r1"; os = ""; status = "online"; busy = false; labels = [] }

abbrev offline : SelfHostedRunner
offline = record online { name = "r2"; status = "offline" }

abbrev pub one_online : SelfHostedRunnerList
one_online = record { total_count = pos 0; runners = online ∷ [] }

abbrev response : Response
response = record { status = 200; request_id = ""; body = some "runners" }

-- Every answer lists one online runner.
abbrev pub listing : Env
listing = record env {
  answer = λ h req. replied response;
  decode = λ s. some (
      object (
        field "runners"
          (array
            (cons (object (field "name" (text "r1") (field "status" (text "online") end))) nil))
          end));
}

abbrev job : String → List String → WorkflowJob
job status labels = record { id = pos 1; status = status; runs_on = []; labels = labels }

abbrev jobs : List WorkflowJob
jobs =
    job "queued" ("linux" ∷ [])
    ∷ job "in_progress" ("self-hosted" ∷ [])
    ∷ job "queued" ("windows" ∷ [])
    ∷ job "queued" []
    ∷ job "waiting" ("linux" ∷ [])
    ∷ []

abbrev run : WorkflowRun
run = record {
  id = pos 9;
  status = "queued";
  conclusion = "";
  runner_name = "";
  repository = none;
  jobs = [];
}

labels_tests_example :
    (labels_match ("self-hosted" ∷ "linux" ∷ []) ("linux" ∷ [])
      ≡ all (held ("linux" ∷ [])) ("self-hosted" ∷ "linux" ∷ []))
    × (is_counted ("linux" ∷ []) ("self-hosted" ∷ "linux" ∷ [])
        ≡ all (held_or_implicit ("linux" ∷ [])) ("self-hosted" ∷ "linux" ∷ []))
labels_tests_example = labels_tests ("linux" ∷ []) "self-hosted" ("linux" ∷ [])

count_jobs_example :
    count_jobs c.runner_labels jobs no_jobs
    ≡ record { queued = pos 1; in_progress = pos 1; unknown = pos 1 }
unfolding is_counted covers contains
count_jobs_example = count_jobs_lem c.runner_labels jobs (omega arith)

get_repositories_bounds_example :
    (weight one (get_repositories_in_organization listing c []).1 ≤ 10)
    × (repository_pages listing c 12 1 [] [] ≡ get_repositories_in_organization listing c [])
get_repositories_bounds_example = get_repositories_bounds listing c 12 [] (omega arith)

-- Each repository has one queued run, with a queued job.
abbrev queueing : Env
queueing = record env {
  answer = λ h req. replied response;
  decode = λ s. some (
      object (
        field "workflow_runs"
          (array
            (cons (object (field "id" (integer (pos 9)) (field "status" (text "queued") end))) nil))
          (field "jobs"
            (array (
              cons
                (object (
                  field "id" (integer (pos 1)) (
                    field "status" (text "queued")
                      (field "labels" (array (cons (text "linux") nil)) end))))
                nil))
            end)));
}

abbrev run_of : Repository → WorkflowRun
run_of repo = record run { repository = some repo }

-- The first of the two runs is of the repository "tools".
runs_share_last_example :
    AllOf
      (last_repository (configured "org" ("tools" ∷ "other/site" ∷ [])))
      (run_of (repository_of "other" "site") ∷ run_of (repository_of "other" "site") ∷ [])
unfolding get_workflow_runs_across_repos collect_runs repository_runs deref
    is_github_actions_enabled get_repository_workflow_runs make_request do_request ◌>>=◌ at_key
    decode_runs decode_workflow_run contains_text split_char ◌+ℤ◌
runs_share_last_example =
    runs_share_last queueing c "queued" "tools" ("other/site" ∷ []) []
      (record {
        total_count = pos 0;
        workflow_runs =
            run_of (repository_of "other" "site") ∷ run_of (repository_of "other" "site") ∷ [];
      })
      refl refl

abbrev tools_run : WorkflowRun
tools_run = run_of (repository_of "org" "tools")

filter_keeps_matching_example :
    all
      (has_match ("linux" ∷ []))
      (record tools_run { jobs = job "queued" ("linux" ∷ []) ∷ [] } ∷ [])
    ≡ true
unfolding filter_workflows_matching_labels filter_runs filter_run deref get_workflow_jobs
    make_request do_request ◌>>=◌ at_key decode_workflow_job contains_text is_matching labels_match
    has_all contains
filter_keeps_matching_example =
    filter_keeps_matching queueing c "linux" [] (tools_run ∷ []) []
      (record tools_run { jobs = job "queued" ("linux" ∷ []) ∷ [] } ∷ []) refl

-- Three queued runs, one idle runner and a limit of three: two more.
analyze_pipeline_status_example :
    let status = analyze_pipeline_status c (run ∷ run ∷ run ∷ []) [] (online ∷ offline ∷ []) in
    (status.runners_needed
      ≡ pos (
          min
            (3 - length status.available_runners)
            (3 - length (select is_online (online ∷ offline ∷ [])))))
    × (status.can_create_runners ≡ ltb_ℤ (pos 0) status.runners_needed)
    × (length status.available_runners + length status.busy_runners
        ≡ length (select is_online (online ∷ offline ∷ [])))
analyze_pipeline_status_example =
    analyze_pipeline_status_lem c 3 (run ∷ run ∷ run ∷ []) [] (online ∷ offline ∷ []) refl
      (omega arith) (omega arith) (omega arith)

cleanup_only_offline_example :
    cleanup_each listing c (online ∷ offline ∷ []) [] ≡ cleanup_each listing c (offline ∷ []) []
cleanup_only_offline_example = cleanup_only_offline listing c (online ∷ offline ∷ []) []

-- Seven replicas needed, two active runners and a limit of three; the minimum of five is not reached.
runners_to_create_example : pos_part (runners_to_create c (pos 7) (pos 2)) ≡ 1
runners_to_create_example =
    runners_to_create_lem c 3 7 2 refl (omega arith) (omega arith) (omega arith)

abbrev pub demand : JobCount
demand = record {
  total = pos 7;
  queued = pos 7;
  in_progress = pos 0;
  completed = pos 0;
  unknown = pos 0;
  necessary_replicas = pos 7;
}

execute_within_limit_example : weight spots (execute_crd_based_scaling listing c demand []).1 ≤ 2
unfolding get_self_hosted_runners ◌>>=◌ make_request do_request decode_runner_list at_key
    decode_runner
execute_within_limit_example =
    execute_within_limit listing c demand one_online [] (get_self_hosted_runners listing c []).1 3 7
      refl refl refl (omega arith) (omega arith) (omega arith)
