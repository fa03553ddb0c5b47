-- ===== src/Ghaec2/Client/Setup.antt =====
-- ghaec2/gha_actions_client.go: how the client gets its service's address and its token.
pub mod Requests
pub mod Checks
pub mod Registration
use Prim.Native.String.{slice}
use actionsspot.Prelude.{
  ℕ, zero, suc, ◌+◌, ◌*◌, ◌^◌, ◌==◌, ltb, min, String, ◌+++◌, contains_text, has_prefix, is_blank,
  split_char, trim_char, trim_suffix, decimal, Bool, not, ◌&&◌, ◌||◌, Option, none, some, List, [],
  ◌∷◌, if◌then◌else◌,
}
use actionsspot.Json
use actionsspot.Json.{
  Json, text, object, end, field, fields_of, at_key, as_text, as_text_pointer, as_pointer,
}
use actionsspot.Effect.{
  Url, Request, Response, History, Env, Error, plain, wrap, Result, ok, err, crash, Exec, pure,
  fail, lift, wrapped, attempt, ◌>>=◌, ◌>>◌, new_request, do_request, set_header, decode_body,
  read_all, read_lenient, sleep, unmarshal_as, Event,
}
use actionsspot.Lambda.Types.{RegistrationToken, decode_token}
use actionsspot.Listener.Types.{ActionsServiceAdminConnection, decode_connection}
use actionsspot.Ghaec2.Client.{Client, GitHubConfig, organization, repository, parse_error_response}
use actionsspot.Ghaec2.Client.Setup.Requests.{parse_github_config_from_url}
use actionsspot.Ghaec2.Client.Setup.Checks.{verify_token, check_ghes_compatibility}
use actionsspot.Ghaec2.Client.Setup.Registration.{get_registration_token, get_admin_connection}

-- NewActionsServiceClient
unfoldable pub new_client : String → String → Client
new_client enterprise_url token = record {
  base_url = trim_suffix enterprise_url "/";
  token = token;
  actions_service_url = "";
  admin_token = "";
  admin_token_expiry = 0;
  config = none;
}

module _ (env : Env) where
  abbrev connect : Client → Option String → Option String → Exec History Client
  connect c (some url) (some token) h = (
    ok (record c {
      actions_service_url = url;
      admin_token = token;
      admin_token_expiry = env.now h + 3600;
    }),
    h,
  )
  connect c _ _ h =
      (err (plain "invalid Actions Service connection response - missing URL or token"), h)

  unfoldable pub initialize_config : Client → String → Result Client
  initialize_config c org = elim (parse_github_config_from_url env (c.base_url +++ "/" +++ org)) [
    | ok config ↦ ok (record c { config = some config })
    | err e ↦ err (wrap "failed to parse GitHub config URL" e)
    | crash m ↦ crash m
  ]

  -- The client after it; an error ends the program, so that what it left behind is not read.
  unfoldable pub initialize : Client → String → Exec History Client
  initialize c org = do
    c' ← wrapped "failed to initialize config" (lift (initialize_config c org))
    wrapped "token verification failed" (verify_token env c' org)
    check_ghes_compatibility env c'
    reg_token ← wrapped "failed to get registration token" (get_registration_token env c' org)
    connection ←
        wrapped "failed to get Actions Service admin connection"
          (get_admin_connection env c' reg_token)
    connect c' connection.actions_service_url connection.admin_token
