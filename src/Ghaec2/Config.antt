-- ===== src/Ghaec2/Config.antt =====
-- ghaec2/main.go: the configuration, from environment variables, and its validation.
pub mod Required
pub mod Laws
use actionsspot.Prelude.{
  ℤ, pos, String, ◌+++◌, is_blank, has_prefix, split_char, trim_space, trim_suffix, atoi, show_int,
  not, none, some, List, [], ◌∷◌, map, str_eq, ltb_ℤ, if◌then◌else◌,
}
use actionsspot.Effect.{plain, wrap, Result, ok, err, crash}

pub record Config : Type 0 where
  pub github_token : String
  pub github_enterprise_url : String
  pub organization_name : String
  pub runner_labels : List String
  pub runner_scale_set_id : ℤ
  pub runner_scale_set_name : String
  pub runner_group_id : ℤ
  pub min_runners : ℤ
  pub max_runners : ℤ
  pub aws_region : String
  pub ec2_subnet_id : String
  pub ec2_security_group_id : String
  pub ec2_key_pair_name : String
  pub ec2_instance_type : String
  pub ec2_ami : String
  pub ec2_spot_price : String

-- An unset variable keeps the default; a set one has to be a number.
abbrev pub int_var : (String → String) → String → ℤ → Result ℤ
int_var getenv name default =
    if is_blank (getenv name) then ok default else elim (atoi (getenv name)) [
      | none ↦ err (wrap ("invalid " +++ name) (plain "invalid syntax"))
      | some n ↦ ok n
    ]

abbrev pub or_default : String → String → String
or_default value default = if is_blank value then default else value

abbrev pub runner_labels_var : String → List String
runner_labels_var labels =
    if is_blank labels
    then "self-hosted" ∷ "linux" ∷ "x64" ∷ "ghalistener-managed" ∷ []
    else map trim_space (split_char b',' labels)

infixl 5 ◌and_then◌
abbrev pub ◌and_then◌ {ℓ κ} : {A : Type ℓ} {B : Type κ} → Result A → (A → Result B) → Result B
ok a and_then f = f a
err e and_then f = err e
crash m and_then f = crash m

-- `getenv name` is "" where the variable is unset.
unfoldable pub load_config : (String → String) → Result Config
load_config getenv = int_var getenv "RUNNER_SCALE_SET_ID" (pos 0) and_then λ scale_set_id.
    int_var getenv "RUNNER_GROUP_ID" (pos 1) and_then λ group_id.
    int_var getenv "MIN_RUNNERS" (pos 0) and_then λ min_runners.
    int_var getenv "MAX_RUNNERS" (pos 10) and_then λ max_runners. ok (record {
      github_token = getenv "GITHUB_TOKEN";
      github_enterprise_url = trim_suffix (getenv "GITHUB_ENTERPRISE_URL") "/";
      organization_name = getenv "ORGANIZATION_NAME";
      runner_labels = runner_labels_var (getenv "RUNNER_LABELS");
      runner_scale_set_id = scale_set_id;
      runner_scale_set_name = or_default (getenv "RUNNER_SCALE_SET_NAME") "ghaec2-scaler";
      runner_group_id = group_id;
      min_runners = min_runners;
      max_runners = max_runners;
      aws_region = or_default (getenv "AWS_REGION") "eu-north-1";
      ec2_subnet_id = getenv "EC2_SUBNET_ID";
      ec2_security_group_id = getenv "EC2_SECURITY_GROUP_ID";
      ec2_key_pair_name = getenv "EC2_KEY_PAIR_NAME";
      ec2_instance_type = or_default (getenv "EC2_INSTANCE_TYPE") "t3.medium";
      ec2_ami = getenv "EC2_AMI_ID";
      ec2_spot_price = or_default (getenv "EC2_SPOT_PRICE") "0.05";
    })

-- The map `required`, as its keys and a lookup.
abbrev pub required_names : List String
required_names =
    "GITHUB_TOKEN" ∷ "GITHUB_ENTERPRISE_URL" ∷ "ORGANIZATION_NAME" ∷ "EC2_SUBNET_ID"
    ∷ "EC2_SECURITY_GROUP_ID" ∷ "EC2_KEY_PAIR_NAME" ∷ "EC2_AMI_ID" ∷ []

abbrev pub required_value : Config → String → String
required_value c name =
    if str_eq name "GITHUB_TOKEN"
    then c.github_token
    else if str_eq name "GITHUB_ENTERPRISE_URL"
    then c.github_enterprise_url
    else if str_eq name "ORGANIZATION_NAME"
    then c.organization_name
    else if str_eq name "EC2_SUBNET_ID"
    then c.ec2_subnet_id
    else if str_eq name "EC2_SECURITY_GROUP_ID"
    then c.ec2_security_group_id
    else if str_eq name "EC2_KEY_PAIR_NAME"
    then c.ec2_key_pair_name
    else c.ec2_ami

-- `for name, value := range required`, over the names in the order that the map gives them.
abbrev pub check_required : (String → String) → List String → Result (Unit {0})
check_required value [] = ok tt
check_required value (name ∷ names) =
    if is_blank (value name)
    then err (plain ("required environment variable " +++ name +++ " is not set"))
    else check_required value names

abbrev pub check_bounds : Config → Result (Unit {0})
check_bounds c =
    if not (ltb_ℤ (pos 0) c.max_runners)
    then err (plain "MAX_RUNNERS must be > 0")
    else if ltb_ℤ c.min_runners (pos 0)
    then err (plain "MIN_RUNNERS must be >= 0")
    else if ltb_ℤ c.max_runners c.min_runners
    then err (
        plain (
          "MIN_RUNNERS ("
          +++ show_int c.min_runners
          +++ ") cannot be greater than MAX_RUNNERS ("
          +++ show_int c.max_runners
          +++ ")"))
    else ok tt

abbrev pub trim_url : String → String
trim_url url = trim_suffix (trim_suffix url "/") "/api/v3"

-- `order` is the order in which the map of required values is visited.
unfoldable pub validate : List String → Config → Result (Unit {0}) × Config
validate order c = elim (check_required (required_value c) order) [
  | ok _ ↦
      if not (has_prefix c.github_enterprise_url "https://")
      then (err (plain "GITHUB_ENTERPRISE_URL must start with 'https://'"), c)
      else let c' = record c { github_enterprise_url = trim_url c.github_enterprise_url } in
        (check_bounds c', c')
  | err e ↦ (err e, c)
  | crash m ↦ (crash m, c)
]
