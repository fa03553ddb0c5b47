-- ===== src/Lambda/Handler.antt =====
-- github-runner-scaler/main.go: the handler of the Lambda function.
pub mod Laws
pub mod Progress
pub mod Limit
use actionsspot.Prelude.{
  ◌+ℤ◌, ◌-ℤ◌, ltb_ℤ, leb, ◌==◌, pos_part, ℕ, zero, suc, ◌+◌, ℤ, pos, String, ◌+++◌, decimal,
  show_int, Bool, true, false, not, ◌&&◌, List, [], ◌∷◌, length, select, if◌then◌else◌,
}
use actionsspot.Effect.{
  History, Env, Error, plain, Result, ok, err, crash, Exec, pure, fail, lift, wrapped, attempt,
  ◌>>=◌, ◌>>◌,
}
use actionsspot.Lambda.Types.{RegistrationToken, SelfHostedRunnerList}
use actionsspot.Lambda.Config.{Config, load_config}
use actionsspot.Lambda.Client.{get_self_hosted_runners, get_registration_token}
use actionsspot.Lambda.Crd.{JobCount, analyze_job_demand}
use actionsspot.Lambda.Aws.{create_spot_instance_for_pipeline, now}
use actionsspot.Lambda.Pipeline.{is_online, monitor_and_scale}

-- The number of runners to create, from the replicas needed and the active runners.
unfoldable pub runners_to_create : Config → ℤ → ℤ → ℤ
runners_to_create c necessary_replicas active_runners =
    let needed = necessary_replicas -ℤ active_runners in
    let capped =
      if ltb_ℤ c.max_runners (active_runners +ℤ needed)
      then (let left = c.max_runners -ℤ active_runners in
          if ltb_ℤ left (pos 0) then pos 0 else left)
      else needed in
    if ltb_ℤ capped (pos 0) && ltb_ℤ c.min_runners active_runners then pos 0 else capped

module _ (env : Env) (c : Config) where
  -- One runner is created or not; the number of those that were goes on.
  abbrev pub on_created : {A : Type 0} → ℕ → Result A → Exec History ℕ
  on_created n (ok _) = pure (n + 1)
  on_created n (err e) = pure n
  on_created n (crash m) = lift (crash m)

  abbrev pub on_token : ℕ → ℕ → ℕ → Result RegistrationToken → Exec History ℕ
  on_token time i n (ok token) = do
    created ← attempt (
        create_spot_instance_for_pipeline env c
          ("arc-lambda-runner-" +++ decimal time +++ "-" +++ decimal (i + 1)) token.token
          c.runner_labels)
    on_created n created
  on_token time i n (err e) = pure n
  on_token time i n (crash m) = lift (crash m)

  unfoldable pub create_one : ℕ → ℕ → Exec History ℕ
  create_one i n = do
    time ← now env c
    token ← attempt (get_registration_token env c)
    on_token time i n token

  -- The loop from round `i`, with `n` runners created so far.
  unfoldable pub create_needed : ℕ → ℕ → ℕ → Exec History ℕ
  create_needed i n zero = pure n
  create_needed i n (suc rounds) = do n' ← create_one i n; create_needed (i + 1) n' rounds

  abbrev pub on_success_count : ℤ → ℕ → Exec History (Unit {0})
  on_success_count needed zero =
      fail (plain ("failed to create any of the " +++ show_int needed +++ " needed runners"))
  on_success_count needed (suc n) = pure tt

  abbrev pub create_if_needed : ℤ → Exec History (Unit {0})
  create_if_needed needed = if not (ltb_ℤ (pos 0) needed) then pure tt else (do
    success_count ← create_needed 0 0 (pos_part needed)
    on_success_count needed success_count)

  unfoldable pub execute_crd_based_scaling : JobCount → Exec History (Unit {0})
  execute_crd_based_scaling job_count = do
    runners ← wrapped "failed to get current runners" (get_self_hosted_runners env c)
    create_if_needed (
        runners_to_create c job_count.necessary_replicas
          (pos (length (select is_online runners.runners))))

  abbrev pub on_demand : Result JobCount → Exec History (Unit {0})
  on_demand (ok job_count) = execute_crd_based_scaling job_count
  on_demand (err e) = monitor_and_scale env c
  on_demand (crash m) = lift (crash m)

  -- The older way is the fallback where the demand analysis fails.
  unfoldable pub scale_once : Exec History (Unit {0})
  scale_once = do demand ← attempt (analyze_job_demand env c); on_demand demand

-- `aws` is what loading the AWS configuration gives.
abbrev pub new_aws_infrastructure : Result (Unit {0}) → Exec History (Unit {0})
new_aws_infrastructure aws = wrapped "failed to load AWS config" (lift aws)

unfoldable pub handler : Env → (String → String) → Result (Unit {0}) → Exec History (Unit {0})
handler env getenv aws = do
  c ← wrapped "failed to load config" (lift (load_config env getenv))
  wrapped "failed to initialize AWS infrastructure" (new_aws_infrastructure aws)
  scale_once env c
