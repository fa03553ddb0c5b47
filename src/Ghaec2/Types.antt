-- ===== src/Ghaec2/Types.antt =====
-- The wire types of ghaec2/gha_actions_client.go, and how encoding/json fills them.
pub mod Jobs
pub use Jobs.{
  AcquirableJob, AcquirableJobList, JobAvailable, JobMessageBase, JobStarted, JobCompleted,
}
unfoldable pub use Jobs.{
  decode_acquirable_job, decode_acquirable_job_list, decode_job_available, decode_job_base,
  decode_job_started, decode_job_completed,
}
use actionsspot.Prelude.{
  ℤ, pos, String, Bool, false, Option, none, some, List, [], ◌∷◌, map, is_blank, if◌then◌else◌,
}
use actionsspot.Json.{
  Json, null, boolean, integer, text, object, Items, nil, cons, Fields, end, field, fields_of,
  at_key, as_int, as_text, as_bool, as_list, as_texts, as_pointer, ◌>>=◌,
}

pub record Label : Type 0 where
  pub id : ℤ
  pub name : String
  pub type : String

pub record RunnerSetting : Type 0 where
  pub ephemeral : Bool
  pub is_elastic : Bool
  pub disable_update : Bool

pub record RunnerScaleSet : Type 0 where
  pub id : ℤ
  pub name : String
  pub runner_group_id : ℤ
  pub labels : List Label
  pub runner_setting : RunnerSetting

pub record RunnerScaleSetStatistic : Type 0 where
  pub total_available_jobs : ℤ
  pub total_acquired_jobs : ℤ
  pub total_assigned_jobs : ℤ
  pub total_running_jobs : ℤ
  pub total_registered_runners : ℤ
  pub total_busy_runners : ℤ
  pub total_idle_runners : ℤ

pub record RunnerScaleSetSession : Type 0 where
  pub session_id : Option String
  pub owner_name : String
  pub runner_scale_set : Option RunnerScaleSet
  pub message_queue_url : String
  pub message_queue_access_token : String
  pub statistics : Option RunnerScaleSetStatistic

pub record RunnerScaleSetMessage : Type 0 where
  pub message_id : ℤ
  pub message_type : String
  pub body : String
  pub statistics : Option RunnerScaleSetStatistic

abbrev pub decode_label : Json → Option Label
decode_label j = do
  fs ← fields_of j
  i ← as_int (at_key "id" fs)
  n ← as_text (at_key "name" fs)
  t ← as_text (at_key "type" fs)
  some (record { id = i; name = n; type = t })

abbrev decode_runner_setting : Json → Option RunnerSetting
decode_runner_setting j = do
  fs ← fields_of j
  e ← as_bool (at_key "ephemeral" fs)
  i ← as_bool (at_key "isElastic" fs)
  d ← as_bool (at_key "disableUpdate" fs)
  some (record { ephemeral = e; is_elastic = i; disable_update = d })

unfoldable pub decode_scale_set : Json → Option RunnerScaleSet
decode_scale_set j = do
  fs ← fields_of j
  i ← as_int (at_key "id" fs)
  n ← as_text (at_key "name" fs)
  g ← as_int (at_key "runnerGroupId" fs)
  ls ← as_list decode_label (at_key "labels" fs)
  r ← decode_runner_setting (at_key "runnerSetting" fs)
  some (record { id = i; name = n; runner_group_id = g; labels = ls; runner_setting = r })

unfoldable pub decode_statistic : Json → Option RunnerScaleSetStatistic
decode_statistic j = do
  fs ← fields_of j
  available ← as_int (at_key "totalAvailableJobs" fs)
  acquired ← as_int (at_key "totalAcquiredJobs" fs)
  assigned ← as_int (at_key "totalAssignedJobs" fs)
  running ← as_int (at_key "totalRunningJobs" fs)
  registered ← as_int (at_key "totalRegisteredRunners" fs)
  busy ← as_int (at_key "totalBusyRunners" fs)
  idle ← as_int (at_key "totalIdleRunners" fs)
  some (record {
    total_available_jobs = available;
    total_acquired_jobs = acquired;
    total_assigned_jobs = assigned;
    total_running_jobs = running;
    total_registered_runners = registered;
    total_busy_runners = busy;
    total_idle_runners = idle;
  })

-- uuid.UUID unmarshals from a text that `parse_uuid` takes.
abbrev pub as_uuid_pointer : (String → Option String) → Json → Option (Option String)
as_uuid_pointer parse_uuid null = some none
as_uuid_pointer parse_uuid (text s) = do u ← parse_uuid s; some (some u)
as_uuid_pointer parse_uuid _ = none

unfoldable pub decode_session : (String → Option String) → Json → Option RunnerScaleSetSession
decode_session parse_uuid j = do
  fs ← fields_of j
  i ← as_uuid_pointer parse_uuid (at_key "sessionId" fs)
  owner ← as_text (at_key "ownerName" fs)
  scale_set ← as_pointer decode_scale_set (at_key "runnerScaleSet" fs)
  url ← as_text (at_key "messageQueueUrl" fs)
  token ← as_text (at_key "messageQueueAccessToken" fs)
  statistics ← as_pointer decode_statistic (at_key "statistics" fs)
  some (record {
    session_id = i;
    owner_name = owner;
    runner_scale_set = scale_set;
    message_queue_url = url;
    message_queue_access_token = token;
    statistics = statistics;
  })

unfoldable pub decode_message : Json → Option RunnerScaleSetMessage
decode_message j = do
  fs ← fields_of j
  i ← as_int (at_key "messageId" fs)
  t ← as_text (at_key "messageType" fs)
  b ← as_text (at_key "body" fs)
  statistics ← as_pointer decode_statistic (at_key "statistics" fs)
  some (record { message_id = i; message_type = t; body = b; statistics = statistics })

-- extractLabelNames
abbrev pub extract_label_names : List Label → List String
extract_label_names = map λ l. l.name

-- json.Marshal of the session that a new session is asked with: empty fields marked omitempty
-- are left out, the scale set's own are not.
unfoldable pub new_session_body : ℤ → String → Json
new_session_body scale_set_id owner =
    let scale_set =
      field "runnerScaleSet"
        (object (
          field "id" (integer scale_set_id) (
            field "name" (text "ghaec2-scaler") (
              field "runnerGroupId" (integer (pos 0)) (
                field "labels" null (
                  field "runnerSetting"
                    (object (
                      field "ephemeral" (boolean false) (
                        field "isElastic" (boolean false)
                          (field "disableUpdate" (boolean false) end))))
                    end))))))
        end in
    object (if is_blank owner then scale_set else field "ownerName" (text owner) scale_set)

abbrev pub items : List Json → Items
items [] = nil
items (j ∷ js) = cons j (items js)
