-- ===== src/Lambda/Types.antt =====
-- github-runner-scaler/ghe_client.go: the structs of the GitHub Enterprise API, and how
-- encoding/json fills them.
use actionsspot.Prelude.{ℤ, String, Bool, true, false, Option, none, some, List}
use actionsspot.Json.{
  Json, fields_of, at_key, as_int, as_text, as_bool, as_list, as_texts, as_pointer, ◌>>=◌,
}

pub record RunnerLabel : Type 0 where
  pub name : String
  pub type : String

pub record SelfHostedRunner : Type 0 where
  pub id : ℤ
  pub name : String
  pub os : String
  pub status : String
  pub busy : Bool
  pub labels : List RunnerLabel

pub record SelfHostedRunnerList : Type 0 where
  pub total_count : ℤ
  pub runners : List SelfHostedRunner

pub record RegistrationToken : Type 0 where
  pub token : String

pub record Owner : Type 0 where
  pub login : String

pub record Repository : Type 0 where
  pub name : String
  pub full_name : String
  pub owner : Option Owner

pub record WorkflowJob : Type 0 where
  pub id : ℤ
  pub status : String
  pub runs_on : List String
  pub labels : List String

pub record WorkflowRun : Type 0 where
  pub id : ℤ
  pub status : String
  pub conclusion : String
  pub runner_name : String
  pub repository : Option Repository
  pub jobs : List WorkflowJob

pub record WorkflowRunsList : Type 0 where
  pub total_count : ℤ
  pub workflow_runs : List WorkflowRun

abbrev decode_runner_label : Json → Option RunnerLabel
decode_runner_label j = do
  fs ← fields_of j
  n ← as_text (at_key "name" fs)
  t ← as_text (at_key "type" fs)
  some (record { name = n; type = t })

unfoldable pub decode_runner : Json → Option SelfHostedRunner
decode_runner j = do
  fs ← fields_of j
  i ← as_int (at_key "id" fs)
  n ← as_text (at_key "name" fs)
  o ← as_text (at_key "os" fs)
  s ← as_text (at_key "status" fs)
  b ← as_bool (at_key "busy" fs)
  ls ← as_list decode_runner_label (at_key "labels" fs)
  some (record { id = i; name = n; os = o; status = s; busy = b; labels = ls })

unfoldable pub decode_runner_list : Json → Option SelfHostedRunnerList
decode_runner_list j = do
  fs ← fields_of j
  n ← as_int (at_key "total_count" fs)
  rs ← as_list decode_runner (at_key "runners" fs)
  some (record { total_count = n; runners = rs })

abbrev decode_owner : Json → Option Owner
decode_owner j = do fs ← fields_of j; l ← as_text (at_key "login" fs); some (record { login = l })

unfoldable pub decode_repository : Json → Option Repository
decode_repository j = do
  fs ← fields_of j
  n ← as_text (at_key "name" fs)
  f ← as_text (at_key "full_name" fs)
  o ← as_pointer decode_owner (at_key "owner" fs)
  some (record { name = n; full_name = f; owner = o })

unfoldable pub decode_workflow_job : Json → Option WorkflowJob
decode_workflow_job j = do
  fs ← fields_of j
  i ← as_int (at_key "id" fs)
  s ← as_text (at_key "status" fs)
  r ← as_texts (at_key "runs_on" fs)
  ls ← as_texts (at_key "labels" fs)
  some (record { id = i; status = s; runs_on = r; labels = ls })

-- The unnamed struct that GetWorkflowJobs decodes.
abbrev pub decode_jobs : Json → Option (List WorkflowJob)
decode_jobs j = do fs ← fields_of j; as_list decode_workflow_job (at_key "jobs" fs)

unfoldable pub decode_workflow_run : Json → Option WorkflowRun
decode_workflow_run j = do
  fs ← fields_of j
  i ← as_int (at_key "id" fs)
  s ← as_text (at_key "status" fs)
  c ← as_text (at_key "conclusion" fs)
  r ← as_text (at_key "runner_name" fs)
  p ← as_pointer decode_repository (at_key "repository" fs)
  js ← as_list decode_workflow_job (at_key "jobs" fs)
  some (record { id = i; status = s; conclusion = c; runner_name = r; repository = p; jobs = js })

unfoldable pub decode_runs : Json → Option WorkflowRunsList
decode_runs j = do
  fs ← fields_of j
  n ← as_int (at_key "total_count" fs)
  rs ← as_list decode_workflow_run (at_key "workflow_runs" fs)
  some (record { total_count = n; workflow_runs = rs })

-- The token's time of expiry is read by no code: only its validity is kept.
abbrev decode_time : (String → Bool) → Json → Option (Unit {0})
decode_time valid_time j = do s ← as_text j; elim (valid_time s) [ false ↦ none | true ↦ some tt ]

unfoldable pub decode_token : (String → Bool) → Json → Option RegistrationToken
decode_token valid_time j = do
  fs ← fields_of j
  t ← as_text (at_key "token" fs)
  _ ← decode_time valid_time (at_key "expires_at" fs)
  some (record { token = t })
