-- ===== src/Ghaec2/Types/Jobs.antt =====
-- ghaec2/gha_actions_client.go and ghaec2/message_queue_scaler.go: the jobs of the actions service.
use actionsspot.Prelude.{ℤ, String, Bool, Option, none, some, List, if◌then◌else◌}
use actionsspot.Json.{
  Json, null, text, Fields, fields_of, at_key, as_int, as_text, as_list, as_texts, ◌>>=◌,
}

pub record AcquirableJob : Type 0 where
  pub acquire_job_url : String
  pub message_type : String
  pub runner_request_id : ℤ
  pub repository_name : String
  pub owner_name : String
  pub job_workflow_ref : String
  pub event_name : String
  pub request_labels : List String

pub record AcquirableJobList : Type 0 where
  pub count : ℤ
  pub jobs : List AcquirableJob

pub record JobAvailable : Type 0 where
  pub message_type : String
  pub runner_request_id : ℤ
  pub repository_name : String
  pub owner_name : String
  pub job_workflow_ref : String
  pub event_name : String
  pub request_labels : List String

-- The times are read by no code: only their validity is kept, in the decoder.
pub record JobMessageBase : Type 0 where
  pub message_type : String
  pub runner_request_id : ℤ
  pub repository_name : String
  pub owner_name : String
  pub job_workflow_ref : String
  pub job_display_name : String
  pub workflow_run_id : ℤ
  pub event_name : String
  pub request_labels : List String

pub record JobStarted : Type 0 where
  pub runner_id : ℤ
  pub runner_name : String
  pub base : JobMessageBase

pub record JobCompleted : Type 0 where
  pub result : String
  pub runner_id : ℤ
  pub runner_name : String
  pub base : JobMessageBase

unfoldable pub decode_acquirable_job : Json → Option AcquirableJob
decode_acquirable_job j = do
  fs ← fields_of j
  u ← as_text (at_key "acquireJobUrl" fs)
  t ← as_text (at_key "messageType" fs)
  i ← as_int (at_key "runnerRequestId" fs)
  r ← as_text (at_key "repositoryName" fs)
  o ← as_text (at_key "ownerName" fs)
  w ← as_text (at_key "jobWorkflowRef" fs)
  e ← as_text (at_key "eventName" fs)
  ls ← as_texts (at_key "requestLabels" fs)
  some (record {
    acquire_job_url = u;
    message_type = t;
    runner_request_id = i;
    repository_name = r;
    owner_name = o;
    job_workflow_ref = w;
    event_name = e;
    request_labels = ls;
  })

unfoldable pub decode_acquirable_job_list : Json → Option AcquirableJobList
decode_acquirable_job_list j = do
  fs ← fields_of j
  n ← as_int (at_key "count" fs)
  jobs ← as_list decode_acquirable_job (at_key "value" fs)
  some (record { count = n; jobs = jobs })

unfoldable pub decode_job_available : Json → Option JobAvailable
decode_job_available j = do
  fs ← fields_of j
  t ← as_text (at_key "messageType" fs)
  i ← as_int (at_key "runnerRequestId" fs)
  r ← as_text (at_key "repositoryName" fs)
  o ← as_text (at_key "ownerName" fs)
  w ← as_text (at_key "jobWorkflowRef" fs)
  e ← as_text (at_key "eventName" fs)
  ls ← as_texts (at_key "requestLabels" fs)
  some (record {
    message_type = t;
    runner_request_id = i;
    repository_name = r;
    owner_name = o;
    job_workflow_ref = w;
    event_name = e;
    request_labels = ls;
  })

-- A time.Time field: null or a text that time.Time's UnmarshalJSON takes.
abbrev as_time : (String → Bool) → Json → Option (Unit {0})
as_time valid_time null = some tt
as_time valid_time (text s) = if valid_time s then some tt else none
as_time valid_time _ = none

unfoldable pub decode_job_base : (String → Bool) → Fields → Option JobMessageBase
decode_job_base valid_time fs = do
  t ← as_text (at_key "messageType" fs)
  i ← as_int (at_key "runnerRequestId" fs)
  r ← as_text (at_key "repositoryName" fs)
  o ← as_text (at_key "ownerName" fs)
  w ← as_text (at_key "jobWorkflowRef" fs)
  d ← as_text (at_key "jobDisplayName" fs)
  run ← as_int (at_key "workflowRunId" fs)
  e ← as_text (at_key "eventName" fs)
  ls ← as_texts (at_key "requestLabels" fs)
  _ ← as_time valid_time (at_key "queueTime" fs)
  _ ← as_time valid_time (at_key "scaleSetAssignTime" fs)
  _ ← as_time valid_time (at_key "runnerAssignTime" fs)
  _ ← as_time valid_time (at_key "finishTime" fs)
  some (record {
    message_type = t;
    runner_request_id = i;
    repository_name = r;
    owner_name = o;
    job_workflow_ref = w;
    job_display_name = d;
    workflow_run_id = run;
    event_name = e;
    request_labels = ls;
  })

unfoldable pub decode_job_started : (String → Bool) → Json → Option JobStarted
decode_job_started valid_time j = do
  fs ← fields_of j
  i ← as_int (at_key "runnerId" fs)
  n ← as_text (at_key "runnerName" fs)
  base ← decode_job_base valid_time fs
  some (record { runner_id = i; runner_name = n; base = base })

unfoldable pub decode_job_completed : (String → Bool) → Json → Option JobCompleted
decode_job_completed valid_time j = do
  fs ← fields_of j
  r ← as_text (at_key "result" fs)
  i ← as_int (at_key "runnerId" fs)
  n ← as_text (at_key "runnerName" fs)
  base ← decode_job_base valid_time fs
  some (record { result = r; runner_id = i; runner_name = n; base = base })
