-- ===== src/Ghaec2/Scaler.antt =====
-- ghaec2/message_queue_scaler.go: the scaler's state, its session, and its scaling decision.
pub mod Keeps
pub mod Batch
pub mod Expiry
pub mod Acknowledge
pub mod Following
pub mod Frame
pub mod Lifetime
pub mod Desired
pub mod Scaling
pub mod Whole
pub mod Limit
pub mod Pending
pub mod Parse
pub mod Messages
pub mod Polling
pub mod Start
use Prim.Native.String.{slice}
use actionsspot.Prelude.{
  ℕ, zero, suc, ◌+◌, ℤ, pos, pos_part, String, ◌+++◌, is_blank, contains_text, Bool, true, false,
  not, ◌||◌, Option, none, some, List, [], ◌∷◌, length, map, str_eq, ltb_ℤ, ◌-ℤ◌, if◌then◌else◌,
}
use actionsspot.Effect.{
  Event, drew, History, Env, Error, plain, wrap, error_text, Result, ok, err, crash, Exec, pure,
  fail, lift, wrapped, attempt, ◌>>=◌, ◌>>◌,
}
use actionsspot.Ghaec2.Types.{RunnerScaleSet, RunnerScaleSetSession}
use actionsspot.Ghaec2.Config.{Config}
use actionsspot.Ghaec2.Client.{Client}
use actionsspot.Ghaec2.Client.Sessions.{
  create_message_session as client_create, refresh_message_session, delete_message_session,
}
use actionsspot.Ghaec2.Tracker.{Instances, keys, insert, job_started, terminate_idle}

pub record Scaler : Type 0 where
  pub config : Config
  pub client : Client
  pub scale_set : Option RunnerScaleSet
  pub session : Option RunnerScaleSetSession
  pub last_message_id : ℤ
  pub instances : Instances
  pub history : History

-- A call of the client: it sees the history alone.
unfoldable pub call : {A : Type 0} → Exec History A → Exec Scaler A
call m s = let (r, h) = m s.history in (r, record s { history = h })

unfoldable pub gets : {A : Type 0} → (Scaler → A) → Exec Scaler A
gets f s = (ok (f s), s)

-- A read through a pointer; nil is a panic.
unfoldable pub deref : {A : Type 0} → Option A → Exec Scaler A
deref none s = (crash "nil pointer dereference", s)
deref (some a) s = (ok a, s)

pub set_session : RunnerScaleSetSession → Exec Scaler (Unit {0})
set_session session s = (ok tt, record s { session = some session })

-- isMessageQueueTokenExpiredError
unfoldable pub is_token_expired : Error → Bool
is_token_expired e =
    str_eq (error_text e) "message queue token expired" || str_eq (error_text e) "unauthorized"

-- The bounds that a desired number of runners is brought into.
unfoldable pub desired_runners : Config → ℤ → ℤ
desired_runners c assigned_jobs =
    let raised = if ltb_ℤ assigned_jobs c.min_runners then c.min_runners else assigned_jobs in
    if ltb_ℤ c.max_runners raised then c.max_runners else raised

module _ (env : Env) where
  pub refresh_session : Exec Scaler (Unit {0})
  refresh_session = do
    client ← gets λ s. s.client
    current ← gets λ s. s.session
    session ← deref current
    scale_set ← deref session.runner_scale_set
    renewed ←
        wrapped "refresh message session failed"
          (call (refresh_message_session env client scale_set.id session.session_id))
    set_session renewed

  unfoldable pub random_suffix : ℕ → Exec Scaler String
  random_suffix n s = (ok (env.random_hex s.history n), record s { history = drew ∷ s.history })

  unfoldable pub start_session : RunnerScaleSetSession → Exec Scaler (Unit {0})
  start_session session s = (ok tt, record s { session = some session; last_message_id = pos 0 })

  abbrev pub retry_session : Error → Exec Scaler RunnerScaleSetSession
  retry_session e =
      if contains_text (error_text e) "already has an active session"
      then (do
        suffix ← random_suffix 8
        client ← gets λ s. s.client
        config ← gets λ s. s.config
        wrapped "failed to create message session after retry"
            (call (client_create env client config.runner_scale_set_id ("ghaec2-" +++ suffix))))
      else fail (wrap "failed to create message session" e)

  abbrev pub first_or_retry : Result RunnerScaleSetSession → Exec Scaler RunnerScaleSetSession
  first_or_retry (ok session) = pure session
  first_or_retry (err e) = retry_session e
  first_or_retry (crash m) = lift (crash m)

  -- One retry under another owner, where the service reports a conflicting session.
  unfoldable pub create_message_session : Exec Scaler (Unit {0})
  create_message_session = do
    suffix ← random_suffix 4
    let host = if is_blank env.hostname then "ghaec2-scaler" else env.hostname
    client ← gets λ s. s.client
    config ← gets λ s. s.config
    first ←
        attempt
          (call (client_create env client config.runner_scale_set_id (host +++ "-" +++ suffix)))
    session ← first_or_retry first
    start_session session

  abbrev pub delete_session : RunnerScaleSetSession → Option String → Exec Scaler (Unit {0})
  delete_session session none = pure tt
  delete_session session (some id) = do
    scale_set ← deref session.runner_scale_set
    client ← gets λ s. s.client
    attempt (call (delete_message_session env client scale_set.id (some id)))
    pure tt

  abbrev pub cleanup_current : Option RunnerScaleSetSession → Exec Scaler (Unit {0})
  cleanup_current none = pure tt
  cleanup_current (some session) = delete_session session session.session_id

  -- Deletes the session at the end; an error is only logged.
  unfoldable pub cleanup_session : Exec Scaler (Unit {0})
  cleanup_session = do current ← gets λ s. s.session; cleanup_current current

  -- A new instance is tracked as "pending", with no job and no runner.
  unfoldable pub create_runner : Exec Scaler (Unit {0})
  create_runner s =
      let id = "i-" +++ slice (env.new_uuid s.history) 0 8 in
      (
        ok tt,
        record s {
          history = drew ∷ s.history;
          instances =
              insert id
                (record {
                  instance_id = id;
                  launch_time = env.now s.history;
                  state = "pending";
                  job_id = pos 0;
                  runner_id = pos 0;
                  labels = s.config.runner_labels;
                  last_activity = env.now s.history;
                })
                s.instances;
        },
      )

  -- The loop of the scale-up: a failure is logged, and the loop goes on.
  unfoldable pub create_runners : ℕ → Exec Scaler (Unit {0})
  create_runners zero = pure tt
  create_runners (suc n) = do attempt create_runner; create_runners n

  pub terminate_idle_runners : ℤ → Exec Scaler (Unit {0})
  terminate_idle_runners count s = (
    ok tt,
    record s {
      instances = terminate_idle (env.visit s.history (keys s.instances)) count s.instances;
    },
  )

  pub handle_job_started : ℤ → ℤ → Exec Scaler (Unit {0})
  handle_job_started runner_id request_id s = (
    ok tt,
    record s {
      instances =
          job_started (env.visit s.history (keys s.instances)) runner_id request_id
            (env.now s.history) s.instances;
    },
  )

  unfoldable pub get_current_runner_count : Exec Scaler ℤ
  get_current_runner_count s = (ok (pos (length s.instances)), s)

  abbrev scale_up : ℤ → ℤ → Exec Scaler (Unit {0})
  scale_up desired current =
      if ltb_ℤ current desired then create_runners (pos_part (desired -ℤ current)) else pure tt

  abbrev scale_down : ℤ → ℤ → Exec Scaler (Unit {0})
  scale_down desired current =
      if ltb_ℤ desired current
      then (do attempt (terminate_idle_runners (current -ℤ desired)); pure tt)
      else pure tt

  -- The completed jobs are logged, and decide nothing.
  unfoldable pub handle_desired_runner_count : ℤ → ℤ → Exec Scaler ℤ
  handle_desired_runner_count assigned_jobs completed_jobs = do
    current ← wrapped "failed to get current runner count" get_current_runner_count
    config ← gets λ s. s.config
    let desired = desired_runners config assigned_jobs
    scale_up desired current
    scale_down desired current
    pure desired
