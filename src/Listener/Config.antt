-- ===== src/Listener/Config.antt =====
-- github-runner-scaler/ghalistener-ec2/main.go: the configuration and its validation.
pub mod Laws
use actionsspot.Prelude.{
  ℤ, pos, String, ◌+++◌, is_blank, split_char, trim_space, show_int, not, List, [], ◌∷◌, map,
  str_eq, ltb_ℤ, eqb_ℤ, if◌then◌else◌,
}
use actionsspot.Effect.{plain, Result, ok, err, crash}
use actionsspot.Ghaec2.Config.{check_required, int_var, or_default, runner_labels_var, ◌and_then◌}

pub record Config : Type 0 where
  pub github_token : String
  pub github_enterprise_url : String
  pub organization_name : String
  pub runner_labels : List String
  pub runner_scale_set_id : ℤ
  pub runner_scale_set_name : String
  pub min_runners : ℤ
  pub max_runners : ℤ
  pub aws_region : String
  pub ec2_subnet_id : String
  pub ec2_security_group_id : String
  pub ec2_key_pair_name : String
  pub ec2_instance_type : String
  pub ec2_ami : String
  pub ec2_spot_price : String
  pub repository_names : List String

abbrev repositories_var : String → List String
repositories_var repos = if is_blank repos then [] else map trim_space (split_char b',' repos)

unfoldable pub load_config : (String → String) → Result Config
load_config getenv = int_var getenv "RUNNER_SCALE_SET_ID" (pos 0) and_then λ scale_set_id.
    int_var getenv "MIN_RUNNERS" (pos 0) and_then λ min_runners.
    int_var getenv "MAX_RUNNERS" (pos 10) and_then λ max_runners. ok (record {
      github_token = getenv "GITHUB_TOKEN";
      github_enterprise_url = getenv "GITHUB_ENTERPRISE_URL";
      organization_name = getenv "ORGANIZATION_NAME";
      runner_labels = runner_labels_var (getenv "RUNNER_LABELS");
      runner_scale_set_id = scale_set_id;
      runner_scale_set_name = getenv "RUNNER_SCALE_SET_NAME";
      min_runners = min_runners;
      max_runners = max_runners;
      aws_region = or_default (getenv "AWS_REGION") "us-east-1";
      ec2_subnet_id = getenv "EC2_SUBNET_ID";
      ec2_security_group_id = getenv "EC2_SECURITY_GROUP_ID";
      ec2_key_pair_name = getenv "EC2_KEY_PAIR_NAME";
      ec2_instance_type = or_default (getenv "EC2_INSTANCE_TYPE") "t3.medium";
      ec2_ami = getenv "EC2_AMI_ID";
      ec2_spot_price = or_default (getenv "EC2_SPOT_PRICE") "0.05";
      repository_names = repositories_var (getenv "REPOSITORY_NAMES");
    })

abbrev pub required_names : List String
required_names =
    "GITHUB_TOKEN" ∷ "GITHUB_ENTERPRISE_URL" ∷ "ORGANIZATION_NAME" ∷ "RUNNER_SCALE_SET_NAME"
    ∷ "EC2_SUBNET_ID" ∷ "EC2_SECURITY_GROUP_ID" ∷ "EC2_KEY_PAIR_NAME" ∷ "EC2_AMI_ID" ∷ []

abbrev pub required_value : Config → String → String
required_value c name =
    if str_eq name "GITHUB_TOKEN"
    then c.github_token
    else if str_eq name "GITHUB_ENTERPRISE_URL"
    then c.github_enterprise_url
    else if str_eq name "ORGANIZATION_NAME"
    then c.organization_name
    else if str_eq name "RUNNER_SCALE_SET_NAME"
    then c.runner_scale_set_name
    else if str_eq name "EC2_SUBNET_ID"
    then c.ec2_subnet_id
    else if str_eq name "EC2_SECURITY_GROUP_ID"
    then c.ec2_security_group_id
    else if str_eq name "EC2_KEY_PAIR_NAME"
    then c.ec2_key_pair_name
    else c.ec2_ami

abbrev pub check_numbers : Config → Result (Unit {0})
check_numbers c =
    if eqb_ℤ c.runner_scale_set_id (pos 0)
    then err (plain "RUNNER_SCALE_SET_ID is required and must be > 0")
    else if not (ltb_ℤ (pos 0) c.max_runners)
    then err (plain "MAX_RUNNERS must be > 0")
    else if ltb_ℤ c.min_runners (pos 0)
    then err (plain "MIN_RUNNERS must be >= 0")
    else if ltb_ℤ c.max_runners c.min_runners
    then err (
        plain (
          "MIN_RUNNERS ("
          +++ show_int c.min_runners
          +++ ") cannot be greater than MAX_RUNNERS ("
          +++ show_int c.max_runners
          +++ ")"))
    else ok tt

-- `order` is the order in which the map of required values is visited.
pub validate : List String → Config → Result (Unit {0})
validate order c = check_required (required_value c) order and_then λ _. check_numbers c
