-- ===== src/Ghaec2/Scaler/Start.antt =====
-- ghaec2/message_queue_scaler.go: a scaler's start, and its run to the end.
use actionsspot.Prelude.{pos, none, some, List, []}
use actionsspot.Effect.{History, Env, Result, ok, err, crash, Exec, wrapped, ◌>>=◌, ◌>>◌}
use actionsspot.Ghaec2.Types.{RunnerScaleSet}
use actionsspot.Ghaec2.Config.{Config}
use actionsspot.Ghaec2.Client.{Client}
use actionsspot.Ghaec2.Client.Setup.{initialize, new_client}
use actionsspot.Ghaec2.Client.ScaleSets.{get_or_create_runner_scale_set}
use actionsspot.Ghaec2.Scaler.{Scaler, call, cleanup_session, create_message_session, gets}
use actionsspot.Ghaec2.Scaler.Polling.{Tick, start_message_polling}

-- NewMessageQueueScaler
unfoldable pub new_scaler : Config → History → Scaler
new_scaler config h = record {
  config = config;
  client = new_client config.github_enterprise_url config.github_token;
  scale_set = none;
  session = none;
  last_message_id = pos 0;
  instances = [];
  history = h;
}

unfoldable pub set_client : Client → Exec Scaler (Unit {0})
set_client client s = (ok tt, record s { client = client })

-- The configuration's id of the scale set is overwritten.
unfoldable pub set_scale_set : RunnerScaleSet → Exec Scaler (Unit {0})
set_scale_set scale_set s = (
  ok tt,
  record s {
    scale_set = some scale_set;
    config = record s.config { runner_scale_set_id = scale_set.id };
  },
)

module _ (env : Env) where
  unfoldable pub initialize_actions_service : Exec Scaler (Unit {0})
  initialize_actions_service = do
    client ← gets λ s. s.client
    config ← gets λ s. s.config
    ready ←
        wrapped "failed to initialize Actions Service client"
          (call (initialize env client config.organization_name))
    set_client ready

  unfoldable pub initialize_scale_set : Exec Scaler (Unit {0})
  initialize_scale_set = do
    client ← gets λ s. s.client
    config ← gets λ s. s.config
    scale_set ← wrapped "failed to get or create scale set" (
        call (
          get_or_create_runner_scale_set env client config.runner_scale_set_name
            config.runner_labels config.runner_group_id))
    set_scale_set scale_set

  -- A panic of a deferred call is the end, whatever was returned; else that stays the result.
  abbrev pub after_deferred : Result (Unit {0}) → Result (Unit {0}) → Result (Unit {0})
  after_deferred r (ok _) = r
  after_deferred r (err _) = r
  after_deferred r (crash m) = crash m

  -- A deferred call: it is made whatever the result.
  abbrev pub deferred :
      Exec Scaler (Unit {0}) → Result (Unit {0}) × Scaler → Result (Unit {0}) × Scaler
  deferred m (r, s) = (after_deferred r (m s).0, (m s).1)

  unfoldable pub poll_and_clean_up : List Tick → Exec Scaler (Unit {0})
  poll_and_clean_up ticks s = deferred (cleanup_session env) (start_message_polling env ticks s)

  unfoldable pub run : List Tick → Exec Scaler (Unit {0})
  run ticks = do
    wrapped "failed to initialize Actions Service" initialize_actions_service
    wrapped "failed to initialize scale set" initialize_scale_set
    wrapped "failed to create message session" (create_message_session env)
    poll_and_clean_up ticks
