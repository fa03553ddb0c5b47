-- ===== src/Ghaec2/Client/ScaleSets.antt =====
-- ghaec2/gha_actions_client.go: finding a runner scale set, or creating one.
use actionsspot.Prelude.{
  ◌==◌, ℤ, pos, eqb_ℤ, String, ◌+++◌, is_blank, is_empty, decimal, show_int, member, Bool, true,
  false, not, ◌&&◌, ◌||◌, Option, none, some, List, [], ◌∷◌, str_eq, if◌then◌else◌, map,
}
use actionsspot.Json
use actionsspot.Json.{
  Json, text, integer, boolean, array, object, end, field, fields_of, at_key, as_int, as_list,
}
use actionsspot.Effect.{
  Response, History, Env, plain, wrap, Result, ok, err, crash, Exec, pure, fail, lift, wrapped,
  attempt, ◌>>=◌, ◌>>◌, read_all, unmarshal_as,
}
use actionsspot.Ghaec2.Types.{RunnerScaleSet, decode_scale_set, extract_label_names, items}
use actionsspot.Ghaec2.Client.{
  Client, api_version, make_actions_service_request, scale_set_endpoint,
}

-- Every requested label exists, and there is one.
abbrev pub all_exist : List String → List String → Bool
all_exist existing [] = true
all_exist existing (label ∷ requested) =
    let rest = all_exist existing requested in if not (member label existing) then false else rest

unfoldable pub labels_match : List String → List String → Bool
labels_match existing requested = all_exist existing requested && not (is_empty requested)

-- The loop over the scale sets: the first that has the name, or labels that match.
unfoldable pub matching_scale_set :
    String → List String → List RunnerScaleSet → Option RunnerScaleSet
matching_scale_set name requested [] = none
matching_scale_set name requested (ss ∷ sets) =
    if str_eq ss.name name
    then some ss
    else if labels_match (extract_label_names ss.labels) requested
    then some ss
    else matching_scale_set name requested sets

unfoldable pub named_scale_set : String → List RunnerScaleSet → Option RunnerScaleSet
named_scale_set name [] = none
named_scale_set name (ss ∷ sets) =
    if str_eq ss.name name then some ss else named_scale_set name sets

abbrev decode_sets : Json → Option (List RunnerScaleSet)
decode_sets j = Json.◌>>=◌ (fields_of j) λ fs.
    Json.◌>>=◌ (as_int (at_key "count" fs)) λ count. as_list decode_scale_set (at_key "value" fs)

abbrev pub label_body : String → Json
label_body label = object (field "name" (text label) (field "type" (text "User") end))

-- json.Marshal of a map writes its keys in order.
abbrev pub scale_set_payload : String → List String → ℤ → Json
scale_set_payload name labels runner_group_id = object (
    field "labels" (array (items (map label_body labels))) (
      field "name" (text name) (
        field "runnerGroupId" (integer runner_group_id) (
          field "runnerSetting"
            (object (
              field "disableUpdate" (boolean false)
                (field "ephemeral" (boolean true) (field "isElastic" (boolean true) end))))
            end))))

module _ (env : Env) (c : Client) where
  -- No slash stands between the service's address and the endpoint.
  abbrev sets_url : String
  sets_url = c.actions_service_url +++ scale_set_endpoint +++ "?api-version=" +++ api_version

  abbrev parsed_sets : String → Result (List RunnerScaleSet)
  parsed_sets body = elim (unmarshal_as env decode_sets body) [
    | none ↦ err (wrap "failed to parse scale sets response" (plain "invalid JSON"))
    | some sets ↦ ok sets
  ]

  -- The status of the answer is not looked at.
  abbrev list_scale_sets : Exec History (List RunnerScaleSet)
  list_scale_sets = do
    resp ←
        wrapped "failed to list scale sets" (make_actions_service_request env c "GET" sets_url none)
    body ← lift (read_all resp "failed to read response")
    lift (parsed_sets body)

  -- For the log alone.
  unfoldable pub list_existing_scale_sets : Exec History (Unit {0})
  list_existing_scale_sets = do
    resp ←
        wrapped "failed to list scale sets" (make_actions_service_request env c "GET" sets_url none)
    body ← lift (read_all resp "failed to read response")
    pure tt

  unfoldable pub find_existing_scale_set :
      String → List String → Exec History (Option RunnerScaleSet)
  find_existing_scale_set name requested = do
    sets ← list_scale_sets
    pure (matching_scale_set name requested sets)

  abbrev pub found_by_name :
      String → Result (List RunnerScaleSet) → Exec History (Option RunnerScaleSet)
  found_by_name name (ok sets) = pure (named_scale_set name sets)
  found_by_name name (err e) = pure none
  found_by_name name (crash m) = lift (crash m)

  -- Any error counts as none found.
  unfoldable pub find_existing_scale_set_by_name : String → Exec History (Option RunnerScaleSet)
  find_existing_scale_set_by_name name = do sets ← attempt list_scale_sets; found_by_name name sets

  abbrev pub decoded : Option RunnerScaleSet → Result RunnerScaleSet
  decoded none = err (wrap "failed to decode scale set response" (plain "invalid JSON"))
  decoded (some ss) =
      if eqb_ℤ ss.id (pos 0) || is_blank ss.name
      then err (
          plain (
            "invalid scale set response: ID="
            +++ show_int ss.id
            +++ ", Name='"
            +++ ss.name
            +++ "'"))
      else ok ss

  abbrev pub created : Response → String → Result RunnerScaleSet
  created resp body =
      if resp.status == 403
      then err (
          plain
            "insufficient permissions to create scale set. Try using an existing scale set like 'arc-runner-set'")
      else if not (resp.status == 200) && not (resp.status == 201)
      then err
          (plain ("failed to create scale set (status " +++ decimal resp.status +++ "): " +++ body))
      else decoded (unmarshal_as env decode_scale_set body)

  unfoldable pub create_scale_set : String → List String → ℤ → Exec History RunnerScaleSet
  create_scale_set name labels runner_group_id = do
    resp ← wrapped "failed to create scale set request" (
        make_actions_service_request env c "POST" sets_url
          (some (scale_set_payload name labels runner_group_id)))
    body ← lift (read_all resp "failed to read response body")
    lift (created resp body)

  abbrev pub by_name :
      String → List String → ℤ → Option RunnerScaleSet → Exec History RunnerScaleSet
  by_name name labels runner_group_id (some ss) = pure ss
  by_name name labels runner_group_id none =
      if is_blank name || is_empty labels
      then fail (plain "cannot create scale set: name and labels are required")
      else create_scale_set name labels runner_group_id

  abbrev pub after_search :
      String → List String → ℤ → Result (Option RunnerScaleSet) → Exec History RunnerScaleSet
  after_search name labels runner_group_id (ok (some ss)) = pure ss
  after_search name labels runner_group_id (crash m) = lift (crash m)
  after_search name labels runner_group_id _ = do
    named ← find_existing_scale_set_by_name name
    by_name name labels runner_group_id named

  -- A set with the name or the labels, then one with the name, then a new one.
  unfoldable pub get_or_create_runner_scale_set :
      String → List String → ℤ → Exec History RunnerScaleSet
  get_or_create_runner_scale_set name labels runner_group_id = do
    attempt list_existing_scale_sets
    found ← attempt (find_existing_scale_set name labels)
    after_search name labels runner_group_id found
