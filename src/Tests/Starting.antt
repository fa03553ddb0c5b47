-- ===== src/Tests/Starting.antt =====
-- Runs of the start of ghaec2: the registration and the scale set.
use actionsspot.Prelude.{arith, false, refl, ◌⊎◌, ◌+◌, ◌≤◌, pos, ◌≡◌, true, some, [], ◌∷◌}
use actionsspot.Json.{at_key, field, integer, text, object, array, cons, nil, end}
use actionsspot.Effect.{◌>>=◌, do_request, Env, Request, replied}
use actionsspot.Effect.Calls.{weight}
use actionsspot.Ghaec2.Types.{RunnerScaleSet, decode_scale_set}
use actionsspot.Ghaec2.Client.{Client, make_actions_service_request, organization}
use actionsspot.Ghaec2.Client.Setup.Registration.{get_admin_connection, register}
use actionsspot.Ghaec2.Client.Retries.{registration_bounds, requests, waiting}
use actionsspot.Ghaec2.Client.ScaleSets.{
  create_scale_set, find_existing_scale_set, find_existing_scale_set_by_name,
  get_or_create_runner_scale_set, labels_match, list_existing_scale_sets, matching_scale_set,
  named_scale_set,
}
use actionsspot.Ghaec2.Client.Found.Create.{Created}
use actionsspot.Ghaec2.Client.Found.{answers, scale_set-Usable}
use actionsspot.Tests.{client, env}

abbrev request : Request
request = record {
  method = "POST";
  url = record { origin = "https://ghe.example"; path = "/api/v3"; params = [] };
  headers = [];
  body = some (object end);
}

abbrev registering : Client
registering = record client {
  config = some (record {
    config_url = request.url;
    scope = organization;
    organization = "org";
    enterprise = "";
    repository = "";
  });
}

-- Every answer is a refusal with status 401.
abbrev unauthorized : Env
unauthorized = record env {
  answer = λ h req. replied (record { status = 401; request_id = ""; body = some "no" });
}

-- Every answer lists one scale set, of another name, and is a new one itself.
abbrev listed : Env
listed = record env {
  answer = λ h req. replied (record { status = 200; request_id = ""; body = some "sets" });
  unmarshal = λ s. some (
      object (
        field "value"
          (array
            (cons (object (field "id" (integer (pos 3)) (field "name" (text "other") end))) nil))
          (field "id" (integer (pos 6)) (field "name" (text "set") end))));
}

registration_bounds_example :
    (weight requests (get_admin_connection unauthorized registering (record { token = "t" }) []).1
      ≤ weight requests [] + 6)
    × (weight waiting (get_admin_connection unauthorized registering (record { token = "t" }) []).1
        ≤ weight waiting [] + 100000)
    × (register unauthorized 9 0 request [] ≡ register unauthorized 6 0 request [])
registration_bounds_example =
    registration_bounds unauthorized registering (record { token = "t" }) 9 request [] (omega arith)

abbrev new_set : RunnerScaleSet
new_set = record {
  id = pos 6;
  name = "set";
  runner_group_id = pos 0;
  labels = [];
  runner_setting = record { ephemeral = false; is_elastic = false; disable_update = false };
}

-- No listed set answers to the name or the label, so that one is created.
scale_set-Usable_example :
    (answers "wanted" ("linux" ∷ []) new_set ≡ true)
    ⊎ Created "wanted"
        ("linux" ∷ [])
        listed
        client
        (pos 1)
        new_set
        (get_or_create_runner_scale_set listed client "wanted" ("linux" ∷ []) (pos 1) []).1
unfolding get_or_create_runner_scale_set ◌>>=◌ list_existing_scale_sets make_actions_service_request
    do_request find_existing_scale_set at_key decode_scale_set matching_scale_set labels_match
    find_existing_scale_set_by_name named_scale_set create_scale_set
scale_set-Usable_example =
    scale_set-Usable "wanted" ("linux" ∷ []) listed client (pos 1) [] new_set refl
