-- ===== src/Lambda/Config.antt =====
-- github-runner-scaler/main.go: the configuration, from environment variables.
use actionsspot.Prelude.{
  ℤ, String, is_blank, ◌+++◌, Bool, Option, none, some, List, [], atoi, if◌then◌else◌, ◌||◌, str_eq,
}
use actionsspot.Json.{as_texts}
use actionsspot.Effect.{Env, plain, wrap, Result, ok, err, unmarshal_as}
use actionsspot.Ghaec2.Config.{or_default, ◌and_then◌}

pub record Config : Type 0 where
  pub github_token : String
  pub github_enterprise_url : String
  pub organization_name : String
  pub min_runners : ℤ
  pub max_runners : ℤ
  pub ec2_instance_type : String
  pub ec2_ami : String
  pub ec2_subnet_id : String
  pub ec2_security_group_id : String
  pub ec2_key_pair_name : String
  pub ec2_spot_price : String
  pub dynamo_db_table_name : String
  pub runner_labels : List String
  pub cleanup_offline_runners : Bool
  pub repository_names : List String

abbrev parsed_int : String → Option ℤ → Result ℤ
parsed_int name none = err (wrap ("invalid " +++ name) (plain "invalid syntax"))
parsed_int name (some n) = ok n

-- strconv.ParseBool, whose error is dropped: false.
abbrev parse_bool : String → Bool
parse_bool s =
    str_eq s "1"
    || str_eq s "t"
    || str_eq s "T"
    || str_eq s "true"
    || str_eq s "TRUE"
    || str_eq s "True"

abbrev decoded_names : String → Option (List String) → Result (List String)
decoded_names name none = err (wrap ("invalid " +++ name +++ " JSON") (plain "invalid character"))
decoded_names name (some names) = ok names

module _ (env : Env) (getenv : String → String) where
  abbrev get_env_or_default : String → String → String
  get_env_or_default key default = or_default (getenv key) default

  -- A JSON array of texts; an unset variable is no text.
  abbrev names_var : String → Result (List String)
  names_var name =
      if is_blank (getenv name)
      then ok []
      else decoded_names name (unmarshal_as env as_texts (getenv name))

  unfoldable pub load_config : Result Config
  load_config =
      parsed_int "MIN_RUNNERS" (atoi (get_env_or_default "MIN_RUNNERS" "0")) and_then λ min_runners.
      parsed_int "MAX_RUNNERS" (atoi (get_env_or_default "MAX_RUNNERS" "10"))
      and_then λ max_runners. names_var "RUNNER_LABELS" and_then λ labels.
          names_var "REPOSITORY_NAMES" and_then λ repositories. ok (record {
            github_token = getenv "GITHUB_TOKEN";
            github_enterprise_url =
                get_env_or_default "GITHUB_ENTERPRISE_URL" "https://TelenorSwedenAB.ghe.com";
            organization_name = get_env_or_default "ORGANIZATION_NAME" "TelenorSweden";
            min_runners = min_runners;
            max_runners = max_runners;
            ec2_instance_type = get_env_or_default "EC2_INSTANCE_TYPE" "t3.medium";
            ec2_ami = getenv "EC2_AMI_ID";
            ec2_subnet_id = getenv "EC2_SUBNET_ID";
            ec2_security_group_id = getenv "EC2_SECURITY_GROUP_ID";
            ec2_key_pair_name = getenv "EC2_KEY_PAIR_NAME";
            ec2_spot_price = get_env_or_default "EC2_SPOT_PRICE" "0.05";
            dynamo_db_table_name = get_env_or_default "DYNAMODB_TABLE_NAME" "github-runners";
            runner_labels = labels;
            cleanup_offline_runners =
                parse_bool (get_env_or_default "CLEANUP_OFFLINE_RUNNERS" "true");
            repository_names = repositories;
          })
