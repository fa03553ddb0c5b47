-- ===== src/Tests.antt =====
-- The outside, the configuration and the states that the concrete runs are about.
pub mod Session
pub mod Decision
pub mod Starting
pub mod Serverless
pub mod Listening
pub mod Processes
pub mod Spots
pub mod Serving
use actionsspot.Prelude.{
  ℤ, pos, String, ◌+++◌, decimal, Bool, true, Option, none, some, List, [], ◌∷◌, length, str_eq,
  if◌then◌else◌,
}
use actionsspot.Json.{Json, null, integer, text, array, object, nil, cons, end, field}
use actionsspot.Effect.{Env, broken, ok}
use actionsspot.Ghaec2.Types.{
  RunnerScaleSet, RunnerScaleSetSession, RunnerScaleSetStatistic, RunnerScaleSetMessage,
}
use actionsspot.Ghaec2.Config.{Config}
use actionsspot.Ghaec2.Client.{Client}
use actionsspot.Ghaec2.Tracker.{Instance, Instances}
use actionsspot.Ghaec2.Scaler.{Scaler}

abbrev pub job_json : Json
job_json =
    object
      (field "messageType" (text "JobAvailable") (field "runnerRequestId" (integer (pos 7)) end))

abbrev refusal : String → Json
refusal why = object (field "message" (text why) (field "documentation_url" (text "docs") end))

-- Every request is refused by the network; two bodies are known, and the others are explanations.
abbrev pub env : Env
env = record {
  answer = λ h req. broken "connection refused";
  parse_url = λ s. some (record { origin = s; path = ""; params = [] });
  url_string = λ u. u.origin;
  unmarshal = λ s. some (if str_eq s "batch" then array (cons job_json nil) else refusal s);
  decode = λ s. none;
  valid_time = λ s. true;
  parse_uuid = some;
  now = λ h. 100;
  show_time = decimal;
  encode_base64 = λ s. s;
  random_hex = λ h n. "ab";
  jitter = λ h. 0;
  hostname = "host";
  new_uuid = λ h. "0000000" +++ decimal (length h);
  visit = λ h ks. ks;
  spot_answer = λ h req. ok ("sir-1" ∷ []);
  describe_answer = λ h name. ok [];
  terminate_answer = λ h ids. ok tt;
  put_answer = λ h item. ok tt;
}

abbrev pub config : Config
config = record {
  github_token = "token";
  github_enterprise_url = "https://ghe.example/";
  organization_name = "org";
  runner_labels = "linux" ∷ [];
  runner_scale_set_id = pos 6;
  runner_scale_set_name = "set";
  runner_group_id = pos 1;
  min_runners = pos 1;
  max_runners = pos 3;
  aws_region = "eu-north-1";
  ec2_subnet_id = "subnet";
  ec2_security_group_id = "group";
  ec2_key_pair_name = "key";
  ec2_instance_type = "t3.medium";
  ec2_ami = "ami";
  ec2_spot_price = "0.05";
}

abbrev pub client : Client
client = record {
  base_url = "https://ghe.example";
  token = "token";
  actions_service_url = "https://actions.example";
  admin_token = "admin";
  admin_token_expiry = 9000;
  config = none;
}

abbrev pub session : RunnerScaleSetSession
session = record {
  session_id = some "s";
  owner_name = "host-ab";
  runner_scale_set = none;
  message_queue_url = "https://queue.example";
  message_queue_access_token = "queue";
  statistics = none;
}

abbrev pub instance_in : String → String → ℤ → Instance
instance_in id state job = record {
  instance_id = id;
  launch_time = 0;
  state = state;
  job_id = job;
  runner_id = pos 0;
  labels = "linux" ∷ [];
  last_activity = 0;
}

abbrev scaler_with : Instances → Scaler
scaler_with instances = record {
  config = config;
  client = client;
  scale_set = none;
  session = some session;
  last_message_id = pos 4;
  instances = instances;
  history = [];
}

-- One pending instance; and two idle ones beside one that has a job.
abbrev pub starting : Scaler
starting = scaler_with (("i-a", instance_in "i-a" "pending" (pos 0)) ∷ [])

abbrev pub crowded : Scaler
crowded = scaler_with (
    ("i-a", instance_in "i-a" "running" (pos 0))
    ∷ ("i-b", instance_in "i-b" "running" (pos 9))
    ∷ ("i-c", instance_in "i-c" "running" (pos 0))
    ∷ [])

abbrev pub statistics : RunnerScaleSetStatistic
statistics = record {
  total_available_jobs = pos 1;
  total_acquired_jobs = pos 0;
  total_assigned_jobs = pos 2;
  total_running_jobs = pos 0;
  total_registered_runners = pos 0;
  total_busy_runners = pos 0;
  total_idle_runners = pos 0;
}

abbrev pub message_with : String → RunnerScaleSetMessage
message_with body = record {
  message_id = pos 5;
  message_type = "RunnerScaleSetJobMessages";
  body = body;
  statistics = some statistics;
}
