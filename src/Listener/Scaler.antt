-- ===== src/Listener/Scaler.antt =====
-- github-runner-scaler/ghalistener-ec2/scaler.go: the listener, from its session to a job's message.
pub mod Laws
pub mod Start
pub mod Ending
use actionsspot.Prelude.{
  ℕ, zero, suc, ◌+ℤ◌, ◌-ℤ◌, ltb_ℤ, pos_part, ℤ, pos, String, is_blank, Bool, true, false, not, ◌&&◌,
  Option, none, some, List, [], ◌∷◌, str_eq, if◌then◌else◌,
}
use actionsspot.Effect.{
  History, Env, Error, Result, ok, err, crash, Exec, pure, fail, lift, wrapped, attempt, ◌>>=◌,
  ◌>>◌, unmarshal_as, plain,
}
use actionsspot.Ghaec2.Types.{JobMessageBase, RunnerScaleSetMessage, RunnerScaleSetStatistic}
use actionsspot.Lambda.Labels.{has_all}
use actionsspot.Listener.Types.{
  JobAvailable, RunnerScaleSet, RunnerScaleSetSession, decode_job_available, decode_job_message,
}
use actionsspot.Listener.Config.{Config}
use actionsspot.Listener.Client.{
  ActionsServiceClient, create_message_session as client_create, get_message,
  get_or_create_runner_scale_set, initialize, new_client,
}

pub record GhaListenerScaler : Type 0 where
  pub config : Config
  pub actions_client : ActionsServiceClient
  pub scale_set : Option RunnerScaleSet
  pub session : Option RunnerScaleSetSession
  pub last_message_id : ℤ
  pub current_runners : ℤ
  pub history : History

abbrev pub Action : Type 0 → Type 0
Action = Exec GhaListenerScaler

unfoldable pub call : {A : Type 0} → Exec History A → Action A
call m s = let (r, h) = m s.history in (r, record s { history = h })

unfoldable pub gets : {A : Type 0} → (GhaListenerScaler → A) → Action A
gets f s = (ok (f s), s)

unfoldable pub deref : {A : Type 0} → Option A → Action A
deref none s = (crash "nil pointer dereference", s)
deref (some a) s = (ok a, s)

-- The pending jobs, brought into the bounds.
unfoldable pub desired_runners : Config → RunnerScaleSetStatistic → ℤ
desired_runners c stats =
    let pending = stats.total_available_jobs +ℤ stats.total_assigned_jobs in
    let raised = if ltb_ℤ pending c.min_runners then c.min_runners else pending in
    if ltb_ℤ c.max_runners raised then c.max_runners else raised

-- The three stubs: no runner is counted, created or terminated.
pub get_current_runner_count : Action ℤ
get_current_runner_count s = (ok (pos 0), s)

pub create_runner : Action (Unit {0})
create_runner s = (ok tt, s)

pub terminate_idle_runners : ℤ → Action (Unit {0})
terminate_idle_runners count s = (ok tt, s)

pub set_current_runners : ℤ → Action (Unit {0})
set_current_runners n s = (ok tt, record s { current_runners = n })

pub create_runners : ℕ → Action (Unit {0})
create_runners zero = pure tt
create_runners (suc n) = do attempt create_runner; create_runners n

abbrev pub scale_up : ℤ → ℤ → Action (Unit {0})
scale_up desired current =
    if ltb_ℤ current desired then create_runners (pos_part (desired -ℤ current)) else pure tt

-- No more are terminated than the service counts as idle.
abbrev pub scale_down : ℤ → ℤ → ℤ → Action (Unit {0})
scale_down desired current idle =
    if ltb_ℤ desired current && ltb_ℤ (pos 0) idle
    then (do
      let extra = current -ℤ desired
      attempt (terminate_idle_runners (if ltb_ℤ idle extra then idle else extra))
      pure tt)
    else pure tt

pub scale_based_on_statistics : RunnerScaleSetStatistic → Action (Unit {0})
scale_based_on_statistics stats = do
  config ← gets λ s. s.config
  current ← wrapped "failed to get current runner count" get_current_runner_count
  set_current_runners current
  scale_up (desired_runners config stats) current
  scale_down (desired_runners config stats) current stats.total_idle_runners

-- Whether all labels of the job are among the runner's.
abbrev pub labels_match : List String → List String → Bool
labels_match job_labels runner_labels = has_all runner_labels job_labels

pub handle_job_available : JobAvailable → Action (Unit {0})
handle_job_available job = do
  config ← gets λ s. s.config
  if not (labels_match job.base.request_labels config.runner_labels) then pure tt else (do
    current ← wrapped "failed to get current runner count" get_current_runner_count
    if ltb_ℤ current config.max_runners then create_runner else pure tt)

-- The other messages are logged.
pub handle_job_message : JobMessageBase → Action (Unit {0})
handle_job_message job = pure tt

abbrev pub as_job_message : Option JobMessageBase → Action (Unit {0})
as_job_message none = pure tt
as_job_message (some job) = handle_job_message job

module _ (env : Env) where
  abbrev pub as_available : String → Option JobAvailable → Action (Unit {0})
  as_available body none =
      as_job_message (unmarshal_as env (decode_job_message env.valid_time) body)
  as_available body (some job) =
      if str_eq job.base.message_type "JobAvailable"
      then handle_job_available job
      else as_job_message (unmarshal_as env (decode_job_message env.valid_time) body)

  pub process_message_body : RunnerScaleSetMessage → Action (Unit {0})
  process_message_body message =
      as_available message.body
        (unmarshal_as env (decode_job_available env.valid_time) message.body)

  pub set_last_message_id : ℤ → Action (Unit {0})
  set_last_message_id i s = (ok tt, record s { last_message_id = i })

  abbrev pub scale_if_any : Option RunnerScaleSetStatistic → Action (Unit {0})
  scale_if_any none = pure tt
  scale_if_any (some stats) = do attempt (scale_based_on_statistics stats); pure tt

  abbrev pub process_if_any : RunnerScaleSetMessage → Action (Unit {0})
  process_if_any message =
      if is_blank message.body
      then pure tt
      else (do attempt (process_message_body message); pure tt)

  -- The message is taken as handled before it is; the errors of its handling are logged.
  abbrev on_message : Option RunnerScaleSetMessage → Action (Unit {0})
  on_message none = pure tt
  on_message (some message) = do
    set_last_message_id message.message_id
    scale_if_any message.statistics
    process_if_any message

  abbrev pub ask_message : Action (Option RunnerScaleSetMessage)
  ask_message = do
    current ← gets λ s. s.session
    session ← deref current
    last ← gets λ s. s.last_message_id
    config ← gets λ s. s.config
    call (
        get_message env session.message_queue_url session.message_queue_access_token last
          config.max_runners)

  pub poll_and_process_messages : Action (Unit {0})
  poll_and_process_messages = do
    message ← wrapped "failed to get message" ask_message
    on_message message

  -- One round for each tick, until the context is done; no error ends the loop.
  unfoldable pub message_polling_loop : ℕ → Action (Unit {0})
  message_polling_loop zero = fail (plain "context canceled")
  message_polling_loop (suc rounds) = do
    attempt poll_and_process_messages
    message_polling_loop rounds
