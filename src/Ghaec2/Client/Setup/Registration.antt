-- ===== src/Ghaec2/Client/Setup/Registration.antt =====
-- ghaec2/gha_actions_client.go: the registration token, and the registration with its retries.
use Prim.Native.String.{slice}
use actionsspot.Prelude.{
  ℕ, zero, suc, ◌+◌, ◌*◌, ◌^◌, ◌==◌, ltb, min, String, ◌+++◌, contains_text, decimal, Bool, not,
  ◌&&◌, ◌||◌, Option, none, some, ◌∷◌, if◌then◌else◌,
}
use actionsspot.Json.{Json, text, object, end, field, as_pointer}
use actionsspot.Effect.{
  Request, Response, History, Env, Error, plain, wrap, Result, ok, err, crash, Exec, pure, fail,
  lift, wrapped, ◌>>=◌, ◌>>◌, do_request, set_header, decode_body, read_all, read_lenient, sleep,
  unmarshal_as, Event,
}
use actionsspot.Lambda.Types.{RegistrationToken, decode_token}
use actionsspot.Listener.Types.{ActionsServiceAdminConnection, decode_connection}
use actionsspot.Ghaec2.Client.{Client, GitHubConfig, parse_error_response}
use actionsspot.Ghaec2.Client.Setup.Requests.{own_request, new_github_api_request}

abbrev pub is_html : String → Bool
is_html body = contains_text body "<html" || contains_text body "<!DOCTYPE"

-- The milliseconds before a retry: doubled each time, with a jitter, up to twenty seconds.
unfoldable pub retry_delay : ℕ → ℕ → ℕ
retry_delay retry jitter = min (500 * 2 ^ retry + jitter) 20000

module _ (env : Env) where
  abbrev token_of : String → Result RegistrationToken
  token_of body =
      if is_html body
      then err (
          plain (
            "registration token endpoint returned HTML instead of JSON. This indicates your GHES version may not support this API endpoint. Response: "
            +++ slice body 0 500))
      else elim (unmarshal_as env (decode_token env.valid_time) body) [
        | none ↦ err (
            wrap ("failed to decode registration token (body: " +++ slice body 0 200 +++ ")")
              (plain "invalid JSON"))
        | some token ↦ ok token
      ]

  unfoldable pub get_registration_token : Client → String → Exec History RegistrationToken
  get_registration_token c org = do
    resp ←
        own_request env c "POST" ("/orgs/" +++ org +++ "/actions/runners/registration-token")
          "failed to create request" "failed to send request"
    if ltb resp.status 200 || not (ltb resp.status 300)
        then fail (parse_error_response env resp)
        else (do body ← lift (read_all resp "failed to read response body"); lift (token_of body))

  abbrev inner_error : Option String → Error
  inner_error none = plain "unexpected EOF"
  inner_error (some body) = plain body

  unfoldable pub draw_delay : ℕ → Exec History (Unit {0})
  draw_delay retry h = (ok tt, sleep (retry_delay retry (env.jitter h)) ∷ Event.drew ∷ h)

  -- What a response leads to: `retry_it` is for the two statuses that are tried again.
  abbrev pub on_registration : Exec History Response → Response → Exec History Response
  on_registration retry_it resp =
      if not (ltb resp.status 200) && ltb resp.status 300
      then pure resp
      else if resp.status == 404 || is_html (read_lenient resp)
      then fail (
          plain (
            "Actions Service API not supported on this GitHub Enterprise Server version. "
            +++ "The endpoint '/actions/runner-registration' returned HTML instead of JSON. "
            +++ "Please upgrade to a GHES version that supports Actions Service API (3.5+) or use traditional runners"))
      else if not (resp.status == 401) && not (resp.status == 403)
      then fail (
          wrap ("Actions Service registration failed (status: " +++ decimal resp.status +++ ")")
            (inner_error resp.body))
      else retry_it

  -- What follows a response with one of the two statuses; `retry` counts this try in.
  abbrev pub retry_or_give_up : ℕ → Response → Exec History Response → Exec History Response
  retry_or_give_up retry resp again =
      if ltb 5 retry
      then fail
          (wrap "unable to register with Actions Service after 5 retries" (inner_error resp.body))
      else (draw_delay retry >> again)

  -- The loop, with as many rounds as the fuel. The request is the same each time, and its body, a
  -- buffer, is read by the first one.
  unfoldable pub register : ℕ → ℕ → Request → Exec History Response
  register zero retry req = lift (crash "out of fuel")
  register (suc fuel) retry req = do
    resp ← wrapped "failed to issue the request" (do_request env req)
    on_registration
        (retry_or_give_up (retry + 1) resp (register fuel (retry + 1) (record req { body = none })))
        resp

  abbrev checked_connection :
      Option ActionsServiceAdminConnection → Result ActionsServiceAdminConnection
  checked_connection none = crash "nil pointer dereference"
  checked_connection (some connection) = elim connection.actions_service_url [
    | none ↦ err (plain "invalid Actions Service connection response - missing URL or token")
    | some url ↦ elim connection.admin_token [
      | none ↦ err (plain "invalid Actions Service connection response - missing URL or token")
      | some token ↦ ok connection
    ]
  ]

  abbrev registration_body : GitHubConfig → Json
  registration_body config = object (
      field "url" (text (env.url_string config.config_url))
        (field "runner_event" (text "register") end))

  abbrev pub config_of : Option GitHubConfig → Exec History GitHubConfig
  config_of none = lift (crash "nil pointer dereference")
  config_of (some config) = pure config

  -- The loop gives up by itself in the sixth round.
  unfoldable pub get_admin_connection :
      Client → RegistrationToken → Exec History ActionsServiceAdminConnection
  get_admin_connection c reg_token = do
    config ← config_of c.config
    req ← wrapped "failed to create new GitHub API request" (
        new_github_api_request env c "POST" "/actions/runner-registration"
          (some (registration_body config)))
    resp ← register 6 0 (
        set_header "Authorization" ("RemoteAuth " +++ reg_token.token)
          (set_header "Content-Type" "application/json" req))
    connection ← lift (
        decode_body env (as_pointer decode_connection) resp
          "failed to decode Actions Service response")
    lift (checked_connection connection)
