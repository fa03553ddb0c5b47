-- ===== src/Ghaec2/Scaler/Messages.antt =====
-- ghaec2/message_queue_scaler.go: a message's way through the scaler.
use actionsspot.Prelude.{ℤ, pos, String, Option, List, [], ◌∷◌, map, length, if◌then◌else◌}
use actionsspot.Effect.{
  Env, wrap, Result, ok, err, crash, Exec, pure, fail, lift, wrapped, attempt, ◌>>=◌, ◌>>◌,
}
use actionsspot.Ghaec2.Types.{RunnerScaleSetMessage, JobAvailable, JobStarted}
use actionsspot.Ghaec2.Client.Messages.{get_message as client_get, acquire_jobs, delete_message}
use actionsspot.Ghaec2.Scaler.{
  Scaler, call, gets, deref, is_token_expired, refresh_session, handle_job_started,
  handle_desired_runner_count,
}
use actionsspot.Ghaec2.Scaler.Parse.{ParsedMessage, parse_message}

-- A call that is made again, after a refresh of the session, where its error says that the token
-- expired. This is the common text of getMessage, acquireAvailableJobs and deleteLastMessage.
module _ (env : Env) {A : Type 0} (retry : Exec Scaler A) (after what : String) where
  abbrev pub recover : Result A → Exec Scaler A
  recover (ok a) = pure a
  recover (err e) =
      if is_token_expired e
      then (do refresh_session env; wrapped after retry)
      else fail (wrap what e)
  recover (crash m) = lift (crash m)

module _ (env : Env) where
  abbrev pub ask_message : Exec Scaler (Option RunnerScaleSetMessage)
  ask_message = do
    config ← gets λ s. s.config
    last ← gets λ s. s.last_message_id
    current ← gets λ s. s.session
    session ← deref current
    call (
        client_get env session.message_queue_url session.message_queue_access_token last
          config.max_runners)

  unfoldable pub get_message : Exec Scaler (Option RunnerScaleSetMessage)
  get_message = do
    first ← attempt ask_message
    recover env ask_message "failed to get next message after session refresh"
        "failed to get next message" first

  abbrev pub ask_jobs : List ℤ → Exec Scaler String → Exec Scaler (List ℤ)
  ask_jobs ids token_of = do
    client ← gets λ s. s.client
    config ← gets λ s. s.config
    token ← token_of
    call (acquire_jobs env client config.runner_scale_set_id token ids)

  abbrev session_token : Exec Scaler String
  session_token = do
    current ← gets λ s. s.session
    session ← deref current
    pure session.message_queue_access_token

  -- The first request carries the admin token, the one after a refresh the session's.
  unfoldable pub acquire_available_jobs : List JobAvailable → Exec Scaler (List ℤ)
  acquire_available_jobs jobs = do
    let ids = map (λ job. job.runner_request_id) jobs
    first ← attempt (ask_jobs ids (gets λ s. s.client.admin_token))
    recover env (ask_jobs ids session_token) "failed to acquire jobs after session refresh"
        "failed to acquire jobs" first

  abbrev pub ask_delete : Exec Scaler (Unit {0})
  ask_delete = do
    last ← gets λ s. s.last_message_id
    current ← gets λ s. s.session
    session ← deref current
    call (delete_message env session.message_queue_url session.message_queue_access_token last)

  unfoldable pub delete_last_message : Exec Scaler (Unit {0})
  delete_last_message = do
    first ← attempt ask_delete
    recover env ask_delete "failed to delete last message after session refresh"
        "failed to delete last message" first

  abbrev pub acquire_step : List JobAvailable → Exec Scaler (Unit {0})
  acquire_step [] = pure tt
  acquire_step (job ∷ jobs) = do
    wrapped "failed to acquire jobs" (acquire_available_jobs (job ∷ jobs))
    pure tt

  unfoldable pub set_last_message_id : ℤ → Exec Scaler (Unit {0})
  set_last_message_id i s = (ok tt, record s { last_message_id = i })

  unfoldable pub handle_jobs_started : List JobStarted → Exec Scaler (Unit {0})
  handle_jobs_started [] = pure tt
  handle_jobs_started (job ∷ jobs) = do
    wrapped "failed to handle job started"
        (handle_job_started env job.runner_id job.base.runner_request_id)
    handle_jobs_started jobs

  -- What handleMessage does once the jobs are acquired.
  unfoldable pub settle : RunnerScaleSetMessage → ParsedMessage → Exec Scaler (Unit {0})
  settle msg parsed = do
    set_last_message_id msg.message_id
    wrapped "failed to delete message" delete_last_message
    handle_jobs_started parsed.jobs_started
    wrapped "failed to handle desired runner count" (
        handle_desired_runner_count env parsed.statistics.total_assigned_jobs
          (pos (length parsed.jobs_completed)))
    pure tt

  -- The jobs are acquired before the message is taken as handled and deleted.
  unfoldable pub handle_message : RunnerScaleSetMessage → Exec Scaler (Unit {0})
  handle_message msg = do
    parsed ← wrapped "failed to parse message" (lift (parse_message env msg))
    acquire_step parsed.jobs_available
    settle msg parsed
