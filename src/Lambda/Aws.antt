-- ===== src/Lambda/Aws.antt =====
-- github-runner-scaler/main.go: spot instances, their termination and their records.
pub mod Requests
use actionsspot.Prelude.{
  ℕ, ℤ, pos, String, ◌+++◌, is_blank, decimal, show_int, join, List, [], ◌∷◌, ◌++◌, if◌then◌else◌,
}
use actionsspot.Effect.{
  spot, describe, terminate, put_item, SpotRequest, History, Env, plain, ok, Exec, pure, fail,
  wrapped, attempt, ◌>>=◌, ◌>>◌,
}
use actionsspot.Lambda.Config.{Config}
use actionsspot.Lambda.UserData.{
  generate_user_data_script_for_job, generate_user_data_script_with_token,
}

-- The times are kept as seconds.
pub record RunnerRecord : Type 0 where
  pub runner_id : String
  pub instance_id : String
  pub job_request_id : ℤ
  pub status : String
  pub created_at : ℕ
  pub updated_at : ℕ
  pub spot_request_id : String

-- Of an item of DynamoDB: an attribute that is empty is left out.
abbrev attribute : String → String → List (String × String)
attribute key value = if is_blank value then [] else (key, value) ∷ []

module _ (env : Env) (c : Config) where
  unfoldable pub store_runner_record : RunnerRecord → Exec History (Unit {0})
  store_runner_record r h =
      let item =
        ("runner_id", r.runner_id)
        ∷ ("job_request_id", show_int r.job_request_id)
        ∷ ("status", r.status)
        ∷ ("created_at", env.show_time r.created_at)
        ∷ ("updated_at", env.show_time r.updated_at)
        ∷ (attribute "instance_id" r.instance_id
            ++ attribute "spot_request_id" r.spot_request_id) in
      (env.put_answer h item, put_item item ∷ h)

  -- What the two requests have in common.
  abbrev spot_request : String → List (String × String) → SpotRequest
  spot_request user_data tags = record {
    price = c.ec2_spot_price;
    image_id = c.ec2_ami;
    instance_type = c.ec2_instance_type;
    key_name = c.ec2_key_pair_name;
    security_group = c.ec2_security_group_id;
    subnet = c.ec2_subnet_id;
    user_data = env.encode_base64 user_data;
    tags = tags;
  }

  unfoldable pub request_spot_instances : SpotRequest → Exec History (List String)
  request_spot_instances req h = (env.spot_answer h req, spot req ∷ h)

  unfoldable pub now : Exec History ℕ
  now h = (ok (env.now h), h)

  -- The first request's id, once the record is stored; a failure to store it is only logged.
  abbrev pub on_requests : (String → ℕ → RunnerRecord) → List String → Exec History String
  on_requests record_of [] = fail (plain "no spot instance requests created")
  on_requests record_of (id ∷ ids) = do
    time ← now
    attempt (store_runner_record (record_of id time))
    pure id

  unfoldable pub create_spot_instance : ℤ → List String → Exec History String
  create_spot_instance job_id labels = do
    ids ← wrapped "failed to request spot instance" (
        request_spot_instances (
          spot_request (generate_user_data_script_for_job job_id labels) (
            ("Name", "github-runner-job-" +++ show_int job_id)
            ∷ ("Purpose", "github-actions-runner")
            ∷ ("JobID", show_int job_id)
            ∷ ("ManagedBy", "github-runner-scaler-lambda")
            ∷ [])))
    on_requests
        (λ id time. record {
          runner_id = "runner-" +++ show_int job_id +++ "-" +++ decimal time;
          instance_id = "";
          job_request_id = job_id;
          status = "pending";
          created_at = time;
          updated_at = time;
          spot_request_id = id;
        })
        ids

  -- The record of a runner that serves no job of its own.
  abbrev pub pipeline_record : String → String → ℕ → RunnerRecord
  pipeline_record runner_name id time = record {
    runner_id = runner_name;
    instance_id = "";
    job_request_id = pos 0;
    status = "pending";
    created_at = time;
    updated_at = time;
    spot_request_id = id;
  }

  unfoldable pub create_spot_instance_for_pipeline :
      String → String → List String → Exec History String
  create_spot_instance_for_pipeline runner_name registration_token labels = do
    created ← now
    ids ← wrapped "failed to request spot instance" (
        request_spot_instances (
          spot_request
            (generate_user_data_script_with_token c runner_name registration_token labels)
            (("Name", runner_name)
              ∷ ("Purpose", "github-actions-runner")
              ∷ ("RunnerName", runner_name)
              ∷ ("ManagedBy", "github-runner-scaler-lambda")
              ∷ ("CreatedAt", env.show_time created)
              ∷ [])))
    on_requests (pipeline_record runner_name) ids

  -- DescribeInstances, filtered by the tag RunnerName and by the states running and pending: the
  -- ids of each reservation's instances.
  unfoldable pub describe_instances : String → Exec History (List (List String))
  describe_instances runner_name h = (env.describe_answer h runner_name, describe runner_name ∷ h)

  unfoldable pub terminate_instances : List String → Exec History (Unit {0})
  terminate_instances ids h = (env.terminate_answer h ids, terminate ids ∷ h)

  abbrev pub instance_ids : List (List String) → List String
  instance_ids [] = []
  instance_ids (reservation ∷ reservations) = reservation ++ instance_ids reservations

  abbrev pub terminate_found : List String → Exec History (Unit {0})
  terminate_found [] = pure tt
  terminate_found (id ∷ ids) =
      wrapped "failed to terminate instances" (terminate_instances (id ∷ ids))

  unfoldable pub terminate_runner_instance : String → Exec History (Unit {0})
  terminate_runner_instance runner_name = do
    reservations ← wrapped "failed to describe instances" (describe_instances runner_name)
    terminate_found (instance_ids reservations)
