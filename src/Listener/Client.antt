-- ===== src/Listener/Client.antt =====
-- github-runner-scaler/ghalistener-ec2/gha_actions_client.go: the client of the actions service.
use actionsspot.Prelude.{
  ℕ, ◌+◌, ◌==◌, ltb, ℤ, pos, ltb_ℤ, String, ◌+++◌, show_int, trim_suffix, not, ◌&&◌, Option, none,
  some, List, [], if◌then◌else◌,
}
use actionsspot.Json.{Json}
use actionsspot.Effect.{
  Response, History, Env, Error, plain, actions, ok, err, Exec, pure, fail, lift, wrapped, ◌>>=◌,
  ◌>>◌, new_request, do_request, set_header, decode_body, read_lenient,
}
use actionsspot.Ghaec2.Types.{
  AcquirableJobList, RunnerScaleSetMessage, decode_acquirable_job_list, decode_message,
}
use actionsspot.Lambda.Types.{decode_token}
use actionsspot.Listener.Types.{
  ActionsServiceAdminConnection, RunnerScaleSet, RunnerScaleSetSession, decode_connection,
  decode_scale_set, decode_session, scale_set_body, session_body,
}

abbrev scale_set_endpoint : String
scale_set_endpoint = "_apis/runtime/runnerscalesets"

abbrev api_version : String
api_version = "6.0-preview"

pub record ActionsServiceClient : Type 0 where
  pub base_url : String
  pub token : String
  pub actions_token_url : String
  pub admin_token : String
  pub admin_token_expiry : ℕ

-- NewActionsServiceClient: the zero time has long passed.
unfoldable pub new_client : String → String → ActionsServiceClient
new_client enterprise_url token = record {
  base_url = trim_suffix enterprise_url "/";
  token = token;
  actions_token_url = "";
  admin_token = "";
  admin_token_expiry = 0;
}

unfoldable pub parse_error_response : Response → Error
parse_error_response resp = actions resp.status resp.request_id (read_lenient resp) none

module _ (env : Env) where
  -- The five minutes before the token expires count as expired.
  unfoldable pub refresh_token_if_needed : ActionsServiceClient → Exec History (Unit {0})
  refresh_token_if_needed c h =
      if ltb (env.now h + 300) c.admin_token_expiry
      then (ok tt, h)
      else (err (plain "token refresh not implemented - restart service to get new token"), h)

  -- The text that all calls have in common.
  abbrev send : String → String → String → Option Json → Exec History Response
  send method url authorization body = do
    req ← lift (new_request env method url body)
    wrapped "failed to execute request" (
        do_request env (
          set_header "Content-Type" "application/json"
            (set_header "Authorization" authorization req)))

  abbrev service_url : ActionsServiceClient → String → String
  service_url c path =
      c.actions_token_url +++ "/" +++ scale_set_endpoint +++ path +++ "?api-version="
      +++ api_version

  unfoldable pub get_registration_token : ActionsServiceClient → String → Exec History String
  get_registration_token c org = do
    resp ←
        send "POST"
          (c.base_url +++ "/api/v3/orgs/" +++ org +++ "/actions/runners/registration-token")
          ("token " +++ c.token) none
    if not (resp.status == 201) then fail (parse_error_response resp) else (do
      token ← lift (decode_body env (decode_token env.valid_time) resp "failed to decode response")
      pure token.token)

  unfoldable pub get_actions_service_admin_connection :
      ActionsServiceClient → String → Exec History ActionsServiceAdminConnection
  get_actions_service_admin_connection c reg_token = do
    resp ←
        send "POST" (c.base_url +++ "/api/v3/actions/runner-groups/1/runners/registration-token")
          ("RemoteAuth " +++ reg_token) none
    if not (resp.status == 200)
        then fail (parse_error_response resp)
        else lift (decode_body env decode_connection resp "failed to decode response")

  abbrev connect :
      ActionsServiceClient → Option String → Option String → Exec History ActionsServiceClient
  connect c (some url) (some token) h = (
    ok (record c {
      actions_token_url = url;
      admin_token = token;
      admin_token_expiry = env.now h + 3600;
    }),
    h,
  )
  connect c _ _ h = (err (plain "invalid Actions Service connection response"), h)

  -- The client with its service's address and token; an error leaves the client as it was.
  unfoldable pub initialize : ActionsServiceClient → String → Exec History ActionsServiceClient
  initialize c org = do
    reg_token ← wrapped "failed to get registration token" (get_registration_token c org)
    connection ←
        wrapped "failed to get Actions Service admin connection"
          (get_actions_service_admin_connection c reg_token)
    connect c connection.actions_service_url connection.admin_token

  unfoldable pub create_runner_scale_set :
      ActionsServiceClient → String → List String → Exec History RunnerScaleSet
  create_runner_scale_set c name labels = do
    resp ←
        send "POST" (service_url c "") ("Bearer " +++ c.admin_token)
          (some (scale_set_body name labels))
    if not (resp.status == 200) && not (resp.status == 201)
        then fail (parse_error_response resp)
        else lift (decode_body env decode_scale_set resp "failed to decode response")

  -- getRunnerScaleSetByName is a stub that finds none, so that a scale set is always created.
  unfoldable pub get_or_create_runner_scale_set :
      ActionsServiceClient → String → List String → Exec History RunnerScaleSet
  get_or_create_runner_scale_set c name labels = do
    wrapped "failed to refresh token" (refresh_token_if_needed c)
    create_runner_scale_set c name labels

  unfoldable get_acquirable_jobs : ActionsServiceClient → ℤ → Exec History AcquirableJobList
  get_acquirable_jobs c scale_set_id = do
    wrapped "failed to refresh token" (refresh_token_if_needed c)
    resp ←
        send "GET" (service_url c ("/" +++ show_int scale_set_id +++ "/acquirablejobs"))
          ("Bearer " +++ c.admin_token) none
    if resp.status == 204
        then pure (record { count = pos 0; jobs = [] })
        else if not (resp.status == 200)
        then fail (parse_error_response resp)
        else lift (decode_body env decode_acquirable_job_list resp "failed to decode response")

  unfoldable pub create_message_session :
      ActionsServiceClient → ℤ → String → Exec History RunnerScaleSetSession
  create_message_session c scale_set_id owner = do
    wrapped "failed to refresh token" (refresh_token_if_needed c)
    resp ←
        send "POST" (service_url c ("/" +++ show_int scale_set_id +++ "/sessions"))
          ("Bearer " +++ c.admin_token) (some (session_body owner))
    if not (resp.status == 200)
        then fail (parse_error_response resp)
        else lift (decode_body env (decode_session env.parse_uuid) resp "failed to decode response")

  abbrev some_message : RunnerScaleSetMessage → Exec History (Option RunnerScaleSetMessage)
  some_message message = pure (some message)

  -- The parameters are encoded in the order of their names.
  unfoldable pub get_message : String → String → ℤ → ℤ → Exec History (Option RunnerScaleSetMessage)
  get_message url token last_message_id max_capacity = do
    let capacity =
        if ltb_ℤ (pos 0) max_capacity then "&runnerCapacity=" +++ show_int max_capacity else ""
    resp ←
        send "POST" (url +++ "?lastMessageId=" +++ show_int last_message_id +++ capacity)
          ("Bearer " +++ token) none
    if resp.status == 204
        then pure none
        else if not (resp.status == 200)
        then fail (parse_error_response resp)
        else (do
          message ← lift (decode_body env decode_message resp "failed to decode response")
          some_message message)
