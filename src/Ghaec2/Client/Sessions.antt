-- ===== src/Ghaec2/Client/Sessions.antt =====
-- ghaec2/gha_actions_client.go: message sessions.
use actionsspot.Prelude.{
  ℤ, String, ◌+++◌, show_int, decimal, not, ◌&&◌, Option, none, some, ◌==◌, if◌then◌else◌,
}
use actionsspot.Effect.{
  History, Env, plain, wrap, Exec, pure, fail, lift, wrapped, ◌>>=◌, ◌>>◌, new_request, do_request,
  set_header, read_lenient, decode_body,
}
use actionsspot.Ghaec2.Types.{RunnerScaleSetSession, decode_session, new_session_body}
use actionsspot.Ghaec2.Client.{
  Client, scale_set_endpoint, api_version, parse_error_response, refresh_token_if_needed,
  make_actions_service_request,
}

module _ (env : Env) where
  unfoldable pub create_message_session : Client → ℤ → String → Exec History RunnerScaleSetSession
  create_message_session c scale_set_id owner = do
    wrapped "failed to refresh token" (refresh_token_if_needed env c)
    req ← lift (
        new_request env "POST"
          (c.actions_service_url
            +++ "/"
            +++ scale_set_endpoint
            +++ "/"
            +++ show_int scale_set_id
            +++ "/sessions?api-version="
            +++ api_version)
          (some (new_session_body scale_set_id owner)))
    resp ← wrapped "failed to execute request" (
        do_request env (
          set_header "Content-Type" "application/json"
            (set_header "Authorization" ("Bearer " +++ c.admin_token) req)))
    if not (resp.status == 200)
        then fail (parse_error_response env resp)
        else lift (decode_body env (decode_session env.parse_uuid) resp "failed to decode response")

  unfoldable pub refresh_message_session :
      Client → ℤ → Option String → Exec History RunnerScaleSetSession
  refresh_message_session c scale_set_id none = fail (plain "session ID is nil")
  refresh_message_session c scale_set_id (some session_id) = do
    resp ← wrapped "failed to refresh message session" (
        make_actions_service_request env c "POST"
          (c.actions_service_url
            +++ "/"
            +++ scale_set_endpoint
            +++ "/"
            +++ show_int scale_set_id
            +++ "/sessions/"
            +++ session_id)
          none)
    if not (resp.status == 200)
        then fail (
            plain (
              "failed to refresh message session (HTTP "
              +++ decimal resp.status
              +++ "): "
              +++ read_lenient resp))
        else lift (
            decode_body env (decode_session env.parse_uuid) resp
              "failed to decode session response")

  pub delete_message_session : Client → ℤ → Option String → Exec History (Unit {0})
  delete_message_session c scale_set_id none = pure tt
  delete_message_session c scale_set_id (some session_id) = do
    resp ← wrapped "failed to delete message session" (
        make_actions_service_request env c "DELETE"
          (c.actions_service_url
            +++ "/"
            +++ scale_set_endpoint
            +++ "/"
            +++ show_int scale_set_id
            +++ "/sessions/"
            +++ session_id
            +++ "?api-version="
            +++ api_version)
          none)
    if not (resp.status == 200) && not (resp.status == 204)
        then fail (
            plain (
              "failed to delete message session (HTTP "
              +++ decimal resp.status
              +++ "): "
              +++ read_lenient resp))
        else pure tt

  unfoldable force_delete_session : Client → ℤ → String → Exec History (Unit {0})
  unfolding delete_message_session
  force_delete_session c scale_set_id session_id = elim (env.parse_uuid session_id) [
    | none ↦ fail (wrap "invalid session ID format" (plain "invalid UUID"))
    | some u ↦ delete_message_session c scale_set_id (some u)
  ]

get_admin_token : Client → String
get_admin_token c = c.admin_token

-- A stub: it only logs.
get_active_sessions : Client → ℤ → Exec History (Unit {0})
get_active_sessions c scale_set_id = pure tt
