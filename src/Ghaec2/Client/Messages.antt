-- ===== src/Ghaec2/Client/Messages.antt =====
-- ghaec2/gha_actions_client.go: the message queue and the jobs of a scale set.
use actionsspot.Prelude.{
  ℤ, pos, String, ◌+++◌, is_blank, show_int, decimal, not, ◌||◌, ◌&&◌, Option, none, some, List, [],
  map, ◌==◌, ltb_ℤ, eqb_ℤ, if◌then◌else◌,
}
use actionsspot.Json
use actionsspot.Json.{Json, integer, array, object, end, field, fields_of, at_key, as_int, as_list}
use actionsspot.Effect.{
  Url, Request, Response, History, Env, plain, wrap, Result, ok, err, Exec, pure, fail, lift,
  wrapped, ◌>>=◌, ◌>>◌, new_request, do_request, set_header, set_param, read_lenient, decode_body,
  unmarshal_as,
}
use actionsspot.Ghaec2.Types.{
  RunnerScaleSetMessage, decode_message, AcquirableJobList, decode_acquirable_job_list, items,
}
use actionsspot.Ghaec2.Client.{
  Client, scale_set_endpoint, api_version, parse_error_response, refresh_token_if_needed,
}

abbrev ids_body : List ℤ → Json
ids_body ids = object (field "requestIds" (array (items (map integer ids))) end)

abbrev decode_ids : Json → Option (List ℤ)
decode_ids j = Json.◌>>=◌ (fields_of j) λ fs. as_list as_int (at_key "value" fs)

module _ (env : Env) where
  abbrev pub message_request : Url → String → ℤ → Exec History Request
  message_request u access_token max_capacity = do
    req ← lift (new_request env "GET" (env.url_string u) none)
    pure (
        set_header "X-GitHub-Actions-Scale-Set-Max-Capacity" (show_int max_capacity) (
          set_header "User-Agent" "ghaec2-scaler/1.0" (
            set_header "Authorization" ("Bearer " +++ access_token)
              (set_header "Accept" "application/json; api-version=6.0-preview" req))))

  abbrev pub decoded_message : Option RunnerScaleSetMessage → Result (Option RunnerScaleSetMessage)
  decoded_message none = err (wrap "failed to decode response" (plain "invalid message"))
  decoded_message (some m) = ok (some m)

  abbrev pub message_text : Option String → Result (Option RunnerScaleSetMessage)
  message_text none = err (wrap "failed to read response body" (plain "unexpected EOF"))
  message_text (some body) = decoded_message (unmarshal_as env decode_message body)

  -- 202 means that there is no message.
  abbrev pub read_message : Response → Result (Option RunnerScaleSetMessage)
  read_message resp =
      if resp.status == 202
      then ok none
      else if not (resp.status == 200)
      then err (parse_error_response env resp)
      else message_text resp.body

  -- The poll sends the last message's id only where there is one.
  abbrev pub with_last_id : ℤ → Url → Url
  with_last_id last u =
      if ltb_ℤ (pos 0) last then set_param "lastMessageId" (show_int last) u else u

  abbrev pub ask_for_message :
      String → ℤ → ℤ → Option Url → Exec History (Option RunnerScaleSetMessage)
  ask_for_message access_token last capacity none =
      fail (wrap "failed to parse message queue URL" (plain "parse"))
  ask_for_message access_token last capacity (some u) =
      if ltb_ℤ capacity (pos 0)
      then fail (plain "maxCapacity must be greater than or equal to 0")
      else do
        req ← message_request (with_last_id last u) access_token capacity
        resp ← wrapped "failed to execute request" (do_request env req)
        lift (read_message resp)

  unfoldable pub get_message : String → String → ℤ → ℤ → Exec History (Option RunnerScaleSetMessage)
  get_message url access_token last_message_id max_capacity =
      ask_for_message access_token last_message_id max_capacity (env.parse_url url)

  unfoldable pub acquire_jobs : Client → ℤ → String → List ℤ → Exec History (List ℤ)
  acquire_jobs c scale_set_id token ids = do
    req ← lift (
        new_request env "POST"
          (c.actions_service_url
            +++ "/"
            +++ scale_set_endpoint
            +++ "/"
            +++ show_int scale_set_id
            +++ "/jobs")
          (some (ids_body ids)))
    resp ← wrapped "failed to execute request" (
        do_request env (
          set_header "User-Agent" "ghaec2-scaler/1.0" (
            set_header "Content-Type" "application/json"
              (set_header "Authorization" ("Bearer " +++ token) req))))
    if not (resp.status == 200)
        then fail (
            plain (
              "failed to acquire jobs (HTTP "
              +++ decimal resp.status
              +++ "): "
              +++ read_lenient resp))
        else lift (decode_body env decode_ids resp "failed to decode acquire jobs response")

  abbrev pub send_delete : String → ℤ → Option Url → Exec History (Unit {0})
  send_delete access_token message_id none =
      fail (wrap "failed to parse message queue URL" (plain "parse"))
  send_delete access_token message_id (some u) = do
    req ← lift (
        new_request env "DELETE" (env.url_string (set_param "messageId" (show_int message_id) u))
          none)
    resp ← wrapped "failed to execute request" (
        do_request env (
          set_header "User-Agent" "ghaec2-scaler/1.0"
            (set_header "Authorization" ("Bearer " +++ access_token) req)))
    if not (resp.status == 200) && not (resp.status == 204)
        then fail (
            plain (
              "failed to delete message (HTTP "
              +++ decimal resp.status
              +++ "): "
              +++ read_lenient resp))
        else pure tt

  -- Nothing is sent for an empty url or the message id 0.
  unfoldable pub delete_message : String → String → ℤ → Exec History (Unit {0})
  delete_message url access_token message_id =
      if is_blank url || eqb_ℤ message_id (pos 0)
      then pure tt
      else send_delete access_token message_id (env.parse_url url)

  unfoldable pub get_acquirable_jobs : Client → ℤ → Exec History AcquirableJobList
  get_acquirable_jobs c scale_set_id = do
    wrapped "failed to refresh token" (refresh_token_if_needed env c)
    req ← lift (
        new_request env "GET"
          (c.actions_service_url
            +++ "/"
            +++ scale_set_endpoint
            +++ "/"
            +++ show_int scale_set_id
            +++ "/acquirablejobs?api-version="
            +++ api_version)
          none)
    resp ← wrapped "failed to execute request" (
        do_request env (
          set_header "Content-Type" "application/json"
            (set_header "Authorization" ("Bearer " +++ c.admin_token) req)))
    if resp.status == 204
        then pure (record { count = pos 0; jobs = [] })
        else if not (resp.status == 200)
        then fail (parse_error_response env resp)
        else lift (decode_body env decode_acquirable_job_list resp "failed to decode response")
