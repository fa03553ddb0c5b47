-- ===== src/Tests/Processes.antt =====
-- Whole runs of the process of ghaec2/main.go, and of the tracker.
use mathlib.Core.List.Perm
use actionsspot.Prelude.{
  pos, String, ◌≡◌, subst, some, List, [], ◌∷◌, map, true, false, str_eq, if◌then◌else◌, arith,
  atoi, trim_suffix,
}
use actionsspot.Effect.{◌>>=◌, do_request, History, Result, ok}
use actionsspot.Effect.Fails.{IsFinished}
use actionsspot.Ghaec2.Types.{decode_scale_set}
use actionsspot.Ghaec2.Config.{Config, load_config, required_names, validate}
use actionsspot.Ghaec2.Config.Laws.{IsValid}
use actionsspot.Ghaec2.Client.Setup.{initialize, initialize_config}
use actionsspot.Ghaec2.Client.Setup.Requests.{parse_github_config_from_url, new_github_api_request}
use actionsspot.Ghaec2.Client.Setup.Checks.{verify_token}
use actionsspot.Ghaec2.Client.ScaleSets.{scale_set_payload}
use actionsspot.Ghaec2.Client.Payload.{user_label, decode-scale_set_payload}
use actionsspot.Ghaec2.Tracker.Refines.{
  Call, created, started, scaled_down, view, run as run_calls, run_meaning, tracker_refines,
}
use actionsspot.Ghaec2.Scaler.Polling.{quiet}
use actionsspot.Ghaec2.Scaler.Start.{initialize_actions_service, run}
use actionsspot.Ghaec2.Scaler.{gets, call}
use actionsspot.Ghaec2.Process.{main}
use actionsspot.Ghaec2.Process.Laws.{main_never_finishes, main_starts-IsValid}
use actionsspot.Tests.{crowded, env, instance_in}

-- Every variable is a number, but for the address.
abbrev getenv : String → String
getenv name = if str_eq name "GITHUB_ENTERPRISE_URL" then "https://ghe.example" else "5"

-- The AWS configuration is loaded.
abbrev loaded : Result (Unit {0})
loaded = ok tt

abbrev calls : List Call
calls =
    created "i-d" (instance_in "i-d" "pending" (pos 0))
    ∷ started ("i-c" ∷ "i-a" ∷ []) (pos 0) (pos 7) 50
    ∷ scaled_down ("i-d" ∷ "i-a" ∷ "i-b" ∷ "i-c" ∷ []) (pos 1)
    ∷ []

tracker_refines_example :
    view (run_calls calls crowded.instances) ≡ run_meaning calls (view crowded.instances)
tracker_refines_example = tracker_refines calls crowded.instances

decode-scale_set_payload_example :
    decode_scale_set (scale_set_payload "set" ("linux" ∷ "x64" ∷ []) (pos 1))
    ≡ some (record {
      id = pos 0;
      name = "set";
      runner_group_id = pos 1;
      labels = map user_label ("linux" ∷ "x64" ∷ []);
      runner_setting = record { ephemeral = true; is_elastic = true; disable_update = false };
    })
decode-scale_set_payload_example =
    decode-scale_set_payload "set" ("linux" ∷ "x64" ∷ []) (pos 1) (omega arith) (omega arith)

main_never_finishes_example :
    ¬ IsFinished (main env required_names (ok tt) loaded (quiet ∷ []) getenv []).0
main_never_finishes_example =
    main_never_finishes env required_names (ok tt) loaded (quiet ∷ []) getenv []

abbrev IsNonempty : History → Type 0
IsNonempty [] = ⊥
IsNonempty (e ∷ h) = Unit

main_starts-IsValid_example :
    (c : Config) × (load_config getenv ≡ ok c) × IsValid c × (loaded ≡ ok tt)
unfolding main load_config validate run atoi trim_suffix ◌>>=◌ initialize_actions_service gets call
    initialize initialize_config parse_github_config_from_url verify_token new_github_api_request
    do_request
main_starts-IsValid_example =
    main_starts-IsValid env required_names (ok tt) loaded (quiet ∷ []) getenv []
      (Perm.refl required_names) (λ e. subst IsNonempty e tt)
