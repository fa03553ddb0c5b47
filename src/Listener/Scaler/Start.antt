-- ===== src/Listener/Scaler/Start.antt =====
-- github-runner-scaler/ghalistener-ec2/scaler.go: the listener's start, and its run to the end.
use actionsspot.Prelude.{ℕ, pos, is_blank, Option, none, some, if◌then◌else◌}
use actionsspot.Effect.{
  History, Env, Result, ok, err, crash, Exec, pure, lift, wrapped, ◌>>=◌, ◌>>◌,
}
use actionsspot.Listener.Types.{RunnerScaleSet, RunnerScaleSetSession}
use actionsspot.Listener.Config.{Config}
use actionsspot.Listener.Client.{
  ActionsServiceClient, create_message_session as client_create, get_or_create_runner_scale_set,
  initialize, new_client,
}
use actionsspot.Listener.Scaler.{
  Action, GhaListenerScaler, call, gets, message_polling_loop, scale_if_any,
}

module _ (env : Env) where
  unfoldable set_scale_set : RunnerScaleSet → Action (Unit {0})
  set_scale_set scale_set s = (
    ok tt,
    record s {
      scale_set = some scale_set;
      config = record s.config { runner_scale_set_id = scale_set.id };
    },
  )

  pub initialize_scale_set : Action (Unit {0})
  initialize_scale_set = do
    client ← gets λ s. s.actions_client
    config ← gets λ s. s.config
    scale_set ← wrapped "failed to get or create scale set" (
        call (
          get_or_create_runner_scale_set env client config.runner_scale_set_name
            config.runner_labels))
    set_scale_set scale_set

  unfoldable set_session : RunnerScaleSetSession → Action (Unit {0})
  set_session session s = (ok tt, record s { session = some session; last_message_id = pos 0 })

  pub create_message_session : Action (Unit {0})
  create_message_session = do
    client ← gets λ s. s.actions_client
    config ← gets λ s. s.config
    session ← wrapped "failed to create message session" (
        call (
          client_create env client config.runner_scale_set_id
            (if is_blank env.hostname then "gha-listener-scaler" else env.hostname)))
    set_session session

  abbrev pub initial_scaling : Option RunnerScaleSetSession → Action (Unit {0})
  initial_scaling none = lift (crash "nil pointer dereference")
  initial_scaling (some session) = scale_if_any env session.statistics

  -- A stub: it makes no call.
  pub cleanup_session : Action (Unit {0})
  cleanup_session = pure tt

  -- A deferred call: it is made whatever the result, which stays the result.
  abbrev pub deferred :
      Action (Unit {0})
      → Result (Unit {0}) × GhaListenerScaler
      → Result (Unit {0}) × GhaListenerScaler
  deferred m (r, s) = (r, (m s).1)

  unfoldable pub with_session : ℕ → Action (Unit {0})
  with_session rounds = do
    session ← gets λ s. s.session
    initial_scaling session
    message_polling_loop env rounds

  unfoldable pub poll_and_clean_up : ℕ → Action (Unit {0})
  poll_and_clean_up rounds s = deferred cleanup_session (with_session rounds s)

  unfoldable pub run : ℕ → Action (Unit {0})
  run rounds = do
    wrapped "failed to initialize scale set" initialize_scale_set
    wrapped "failed to create message session" create_message_session
    poll_and_clean_up rounds

-- NewGHAListenerScaler
unfoldable pub new_scaler : Env → Config → Exec History GhaListenerScaler
new_scaler env config h =
    let (r, t) =
      wrapped "failed to initialize Actions Service client"
        (initialize env (new_client config.github_enterprise_url config.github_token)
          config.organization_name)
        h in
    (started r t, t)
  where
    started : Result ActionsServiceClient → History → Result GhaListenerScaler
    started (ok client) t = ok (record {
      config = config;
      actions_client = client;
      scale_set = none;
      session = none;
      last_message_id = pos 0;
      current_runners = pos 0;
      history = t;
    })
    started (err e) t = err e
    started (crash m) t = crash m
