-- ===== src/Ghaec2/Client/Setup/Checks.antt =====
-- ghaec2/gha_actions_client.go: the checks of the token and of the server's version.
use actionsspot.Prelude.{
  ◌==◌, String, ◌+++◌, has_prefix, is_blank, decimal, Bool, not, ◌||◌, Option, none, some,
  if◌then◌else◌,
}
use actionsspot.Json
use actionsspot.Json.{
  Json, text, object, end, field, fields_of, at_key, as_text, as_text_pointer, as_pointer,
}
use actionsspot.Effect.{
  Response, History, Env, plain, Result, ok, err, crash, Exec, pure, fail, lift, attempt, ◌>>=◌,
  ◌>>◌, do_request, read_lenient,
}
use actionsspot.Ghaec2.Client.{Client}
use actionsspot.Ghaec2.Client.Setup.Requests.{own_request, new_github_api_request}

-- The versions that the check refuses, by the beginning of their text.
unfoldable pub is_refused_version : String → Bool
is_refused_version version =
    has_prefix version "3.0"
    || has_prefix version "3.1"
    || has_prefix version "3.2"
    || has_prefix version "3.3"
    || has_prefix version "3.4"

abbrev decode_version : Json → Option String
decode_version j = Json.◌>>=◌ (fields_of j) λ fs.
    Json.◌>>=◌ (as_text (at_key "github_services_ghe_version" fs)) λ ghe.
      Json.◌>>=◌ (as_text (at_key "installed_version" fs))
        λ installed. some (if is_blank ghe then installed else ghe)

module _ (env : Env) where
  abbrev check_user : Response → Exec History (Unit {0})
  check_user resp =
      if resp.status == 401
      then fail (
          plain
            "GitHub token is invalid or expired. Please check your GITHUB_TOKEN environment variable")
      else if not (resp.status == 200)
      then fail (
          plain (
            "token verification failed (status: "
            +++ decimal resp.status
            +++ "): "
            +++ read_lenient resp))
      else pure tt

  abbrev check_organization : String → Response → Exec History (Unit {0})
  check_organization org resp =
      if resp.status == 404
      then fail
          (plain ("organization '" +++ org +++ "' not found or token doesn't have access to it"))
      else if not (resp.status == 200)
      then fail (
          plain (
            "organization access check failed (status: "
            +++ decimal resp.status
            +++ "): "
            +++ read_lenient resp))
      else pure tt

  abbrev check_permissions : Response → Exec History (Unit {0})
  check_permissions resp =
      if resp.status == 403
      then fail (
          plain
            "token doesn't have Actions permissions. Please ensure the token has 'actions:read' or 'admin:org' scope")
      else pure tt

  unfoldable pub verify_token : Client → String → Exec History (Unit {0})
  verify_token c org = do
    user ←
        own_request env c "GET" "/user" "failed to create user request"
          "failed to execute user request"
    check_user user
    found ←
        own_request env c "GET" ("/orgs/" +++ org) "failed to create org request"
          "failed to execute org request"
    check_organization org found
    permissions ←
        own_request env c "GET" ("/orgs/" +++ org +++ "/actions/permissions")
          "failed to create actions permissions request"
          "failed to execute actions permissions request"
    check_permissions permissions

  abbrev check_version : Option String → Exec History (Unit {0})
  check_version none = pure tt
  check_version (some version) =
      if is_refused_version version
      then fail (
          plain (
            "GitHub Enterprise Server version " +++ version
            +++ " detected. Actions Service API requires GHES 3.5 or later. "
            +++ "Please upgrade your GHES instance or use traditional runners"))
      else pure tt

  abbrev body_version : Option String → Option String
  body_version none = none
  body_version (some body) = Json.◌>>=◌ (env.decode body) decode_version

  -- Where there is no answer the check passes.
  abbrev on_meta : Result Response → Exec History (Unit {0})
  on_meta (ok resp) = if resp.status == 200 then check_version (body_version resp.body) else pure tt
  on_meta (err e) = pure tt
  on_meta (crash m) = lift (crash m)

  abbrev ask_meta : Client → Exec History Response
  ask_meta c = do req ← new_github_api_request env c "GET" "/api/v3/meta" none; do_request env req

  unfoldable pub check_ghes_compatibility : Client → Exec History (Unit {0})
  check_ghes_compatibility c = do meta ← attempt (ask_meta c); on_meta meta
