-- ===== src/Tests/Listening.antt =====
-- Runs of the listener of github-runner-scaler/ghalistener-ec2.
use mathlib.Core.List.Perm
use actionsspot.Prelude.{pos, ◌≡◌, refl, ◌↔◌, none, some, [], ◌∷◌}
use actionsspot.Json.{field, integer, object, text, end, at_key}
use actionsspot.Effect.{Env, do_request, ok, replied, ◌>>=◌}
use actionsspot.Ghaec2.Types.{RunnerScaleSetMessage, decode_message, decode_statistic}
use actionsspot.Listener.Config.{Config, required_names, validate}
use actionsspot.Listener.Config.Laws.{IsValid, listener_validate_iff}
use actionsspot.Listener.Client.{get_message, new_client}
use actionsspot.Listener.Types.{RunnerScaleSetSession}
use actionsspot.Listener.Scaler.{
  GhaListenerScaler, ask_message, call, deref, gets, poll_and_process_messages,
}
use actionsspot.Listener.Scaler.Laws.{poll_records}
use actionsspot.Effect.Fails.{IsValue}
use actionsspot.Listener.Scaler.Start.{run}
use actionsspot.Listener.Scaler.Ending.{run_never_succeeds}
use actionsspot.Tests.{env}

abbrev c : Config
c = record {
  github_token = "token";
  github_enterprise_url = "https://ghe.example/";
  organization_name = "org";
  runner_labels = "linux" ∷ [];
  runner_scale_set_id = pos 6;
  runner_scale_set_name = "set";
  min_runners = pos 1;
  max_runners = pos 3;
  aws_region = "us-east-1";
  ec2_subnet_id = "subnet";
  ec2_security_group_id = "group";
  ec2_key_pair_name = "key";
  ec2_instance_type = "t3.medium";
  ec2_ami = "ami";
  ec2_spot_price = "0.05";
  repository_names = [];
}

abbrev session : RunnerScaleSetSession
session = record {
  session_id = some "s";
  owner_name = "host";
  runner_scale_set = none;
  message_queue_url = "https://queue.example";
  message_queue_access_token = "queue";
  statistics = none;
}

abbrev listening : GhaListenerScaler
listening = record {
  config = c;
  actions_client = new_client "https://ghe.example/" "token";
  scale_set = none;
  session = some session;
  last_message_id = pos 4;
  current_runners = pos 0;
  history = [];
}

-- Every answer is the message 5, with a body and with an assigned job.
abbrev messaging : Env
messaging = record env {
  answer = λ h req. replied (record { status = 200; request_id = ""; body = some "message" });
  decode = λ s. some (
      object (
        field "messageId" (integer (pos 5)) (
          field "body" (text "job")
            (field "statistics" (object (field "totalAssignedJobs" (integer (pos 2)) end)) end))));
}

abbrev received : RunnerScaleSetMessage
received = record {
  message_id = pos 5;
  message_type = "";
  body = "job";
  statistics = some (record {
    total_available_jobs = pos 0;
    total_acquired_jobs = pos 0;
    total_assigned_jobs = pos 2;
    total_running_jobs = pos 0;
    total_registered_runners = pos 0;
    total_busy_runners = pos 0;
    total_idle_runners = pos 0;
  });
}

poll_records_example : poll_and_process_messages messaging listening ≡ (
  ok tt,
  record (ask_message messaging listening).1 { last_message_id = pos 5; current_runners = pos 0 },
)
unfolding ◌>>=◌ gets deref call get_message do_request decode_message at_key decode_statistic
poll_records_example =
    poll_records messaging listening (ask_message messaging listening).1 received refl

listener_validate_iff_example : (validate required_names c ≡ ok tt) ↔ IsValid c
listener_validate_iff_example = listener_validate_iff required_names c (Perm.refl required_names)

run_never_succeeds_example : ¬ IsValue (run messaging 2 listening).0
run_never_succeeds_example = run_never_succeeds messaging 2 listening
