-- ===== src/Listener/Types.antt =====
-- github-runner-scaler/ghalistener-ec2/gha_actions_client.go: the structs of the actions service that
-- differ from those of ghaec2; statistics and messages are the same.
use actionsspot.Prelude.{ℤ, String, Bool, Option, some, List, [], ◌∷◌, is_blank, if◌then◌else◌}
use actionsspot.Json.{
  Json, text, array, object, Items, nil, cons, Fields, end, field, fields_of, at_key, as_int,
  as_text, as_list, as_pointer, as_text_pointer, ◌>>=◌,
}
use actionsspot.Ghaec2.Types.{
  RunnerScaleSetStatistic, decode_statistic, as_uuid_pointer, decode_job_base, JobMessageBase,
}

pub record Label : Type 0 where
  pub type : String
  pub name : String

pub record RunnerScaleSet : Type 0 where
  pub id : ℤ
  pub name : String
  pub runner_group_id : ℤ
  pub runner_group_name : String
  pub labels : List Label
  pub statistics : Option RunnerScaleSetStatistic

pub record RunnerScaleSetSession : Type 0 where
  pub session_id : Option String
  pub owner_name : String
  pub runner_scale_set : Option RunnerScaleSet
  pub message_queue_url : String
  pub message_queue_access_token : String
  pub statistics : Option RunnerScaleSetStatistic

pub record JobAvailable : Type 0 where
  pub acquire_job_url : String
  pub base : JobMessageBase

pub record ActionsServiceAdminConnection : Type 0 where
  pub actions_service_url : Option String
  pub admin_token : Option String

abbrev decode_label : Json → Option Label
decode_label j = do
  fs ← fields_of j
  t ← as_text (at_key "type" fs)
  n ← as_text (at_key "name" fs)
  some (record { type = t; name = n })

unfoldable pub decode_scale_set : Json → Option RunnerScaleSet
decode_scale_set j = do
  fs ← fields_of j
  i ← as_int (at_key "id" fs)
  n ← as_text (at_key "name" fs)
  g ← as_int (at_key "runnerGroupId" fs)
  gn ← as_text (at_key "runnerGroupName" fs)
  ls ← as_list decode_label (at_key "labels" fs)
  st ← as_pointer decode_statistic (at_key "statistics" fs)
  some (record {
    id = i;
    name = n;
    runner_group_id = g;
    runner_group_name = gn;
    labels = ls;
    statistics = st;
  })

unfoldable pub decode_session : (String → Option String) → Json → Option RunnerScaleSetSession
decode_session parse_uuid j = do
  fs ← fields_of j
  i ← as_uuid_pointer parse_uuid (at_key "sessionId" fs)
  o ← as_text (at_key "ownerName" fs)
  s ← as_pointer decode_scale_set (at_key "runnerScaleSet" fs)
  u ← as_text (at_key "messageQueueUrl" fs)
  t ← as_text (at_key "messageQueueAccessToken" fs)
  st ← as_pointer decode_statistic (at_key "statistics" fs)
  some (record {
    session_id = i;
    owner_name = o;
    runner_scale_set = s;
    message_queue_url = u;
    message_queue_access_token = t;
    statistics = st;
  })

unfoldable pub decode_job_available : (String → Bool) → Json → Option JobAvailable
decode_job_available valid_time j = do
  fs ← fields_of j
  u ← as_text (at_key "acquireJobUrl" fs)
  b ← decode_job_base valid_time fs
  some (record { acquire_job_url = u; base = b })

abbrev pub decode_job_message : (String → Bool) → Json → Option JobMessageBase
decode_job_message valid_time j = do fs ← fields_of j; decode_job_base valid_time fs

unfoldable pub decode_connection : Json → Option ActionsServiceAdminConnection
decode_connection j = do
  fs ← fields_of j
  u ← as_text_pointer (at_key "url" fs)
  t ← as_text_pointer (at_key "token" fs)
  some (record { actions_service_url = u; admin_token = t })

-- json.Marshal of the session that is asked with: only the owner, where there is one.
abbrev pub session_body : String → Json
session_body owner =
    if is_blank owner then object end else object (field "ownerName" (text owner) end)

abbrev label_items : List String → Items
label_items [] = nil
label_items (label ∷ labels) =
    cons (object (field "type" (text "string") (field "name" (text label) end)))
      (label_items labels)

abbrev labels_field : List String → Fields
labels_field [] = end
labels_field (label ∷ labels) = field "labels" (array (label_items (label ∷ labels))) end

-- json.Marshal of the scale set that is created: the name and the labels, each where not empty.
abbrev pub scale_set_body : String → List String → Json
scale_set_body name labels =
    object (
      if is_blank name then labels_field labels else field "name" (text name) (labels_field labels))
