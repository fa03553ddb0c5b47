-- ===== src/Ghaec2/Scaler/Frame.antt =====
-- A predicate on the scaler's state that the steps below keep is kept by every action: the rules of
-- Maintains, at each action of the scaler.
use actionsspot.Prelude.{ℕ, ℤ, pos, String, Option, none, some, List, [], ◌∷◌, length}
use actionsspot.Effect.{History, Env, Result, ok, err, crash, Exec, pure, wrapped, ◌>>=◌, ◌>>◌}
use actionsspot.Ghaec2.Types.{
  RunnerScaleSetMessage, RunnerScaleSetSession, JobAvailable, JobStarted,
}
use actionsspot.Ghaec2.Scaler.{
  Scaler, call, set_session, refresh_session, handle_job_started, handle_desired_runner_count,
}
use actionsspot.Ghaec2.Scaler.Keeps.{Maintains, Maintains-bind, keeps_rules}
use actionsspot.Ghaec2.Scaler.Messages.{
  recover, get_message, acquire_available_jobs, delete_last_message, acquire_step,
  set_last_message_id, handle_jobs_started, settle, handle_message,
}
use actionsspot.Ghaec2.Scaler.Parse.{ParsedMessage}
use actionsspot.Ghaec2.Scaler.Polling.{
  Tick, periodic, diagnostic, quiet, sleep_ms, run_diagnostics, on_tick, after_null, on_message,
  on_answer, poll_once, poll_loop,
}

-- The steps that write to the state, but for the last message's id.
pub record Frame (env : Env) (P : Scaler → Type 0) : Type 0 where
  pub history : (s : Scaler) (h : History) → P s → P (record s { history = h })
  pub session : (s : Scaler) (x : RunnerScaleSetSession) → P s → P (record s { session = some x })
  pub desired : (a c : ℤ) (s : Scaler) → P s → P (handle_desired_runner_count env a c s).1
  pub started : (s : Scaler) (r q : ℤ) → P s → P (handle_job_started env r q s).1

module _ (env : Env) (P : Scaler → Type 0) (frame : Frame env P) where
  pub Maintains-call : {A : Type 0} (m : Exec History A) → Maintains P (call m)
  unfolding call
  Maintains-call m = record { at = λ s h. frame.history s _ h }

  Maintains-set_session : (x : RunnerScaleSetSession) → Maintains P (set_session x)
  unfolding set_session
  Maintains-set_session x = record { at = λ s h. frame.session s x h }

  pub Maintains-desired : (a c : ℤ) → Maintains P (handle_desired_runner_count env a c)
  Maintains-desired a c = record { at = frame.desired a c }

  Maintains-job_started : (r q : ℤ) → Maintains P (handle_job_started env r q)
  Maintains-job_started r q = record { at = λ s h. frame.started s r q h }

  ruleset own_rules =
      (keeps_rules, Maintains-call, Maintains-set_session, Maintains-desired, Maintains-job_started)

  Maintains-refresh_session : Maintains P (refresh_session env)
  unfolding refresh_session
  Maintains-refresh_session = search own_rules depth 12

  Maintains-recover :
      {A : Type 0} (retry : Exec Scaler A) (after what : String) (r : Result A)
      → Maintains P retry
      → Maintains P (recover env retry after what r)
  Maintains-recover retry after what (ok a) k = search own_rules
  Maintains-recover retry after what (err e) k =
      search (own_rules, Maintains-refresh_session) depth 8
  Maintains-recover retry after what (crash m) k = search own_rules

  Maintains-get_message : Maintains P (get_message env)
  unfolding get_message
  Maintains-get_message = search (own_rules, Maintains-recover) depth 12

  Maintains-acquire : (jobs : List JobAvailable) → Maintains P (acquire_available_jobs env jobs)
  unfolding acquire_available_jobs
  Maintains-acquire jobs = search (own_rules, Maintains-recover) depth 12

  Maintains-delete : Maintains P (delete_last_message env)
  unfolding delete_last_message
  Maintains-delete = search (own_rules, Maintains-recover) depth 12

  pub Maintains-acquire_step : (jobs : List JobAvailable) → Maintains P (acquire_step env jobs)
  Maintains-acquire_step [] = search own_rules
  Maintains-acquire_step (job ∷ jobs) = search (own_rules, Maintains-acquire) depth 8

  Maintains-jobs_started : (jobs : List JobStarted) → Maintains P (handle_jobs_started env jobs)
  unfolding handle_jobs_started
  Maintains-jobs_started [] = search own_rules
  Maintains-jobs_started (job ∷ jobs) =
      Maintains-bind
        (wrapped "failed to handle job started"
          (handle_job_started env job.runner_id job.base.runner_request_id))
        (λ _. handle_jobs_started env jobs) (search own_rules) (λ _. Maintains-jobs_started jobs)

  -- What settling a message does after it has set the id.
  pub Maintains-settled :
      (msg : RunnerScaleSetMessage) (parsed : ParsedMessage) (s : Scaler)
      → P (record s { last_message_id = msg.message_id })
      → P (settle env msg parsed s).1
  unfolding settle ◌>>=◌ set_last_message_id
  Maintains-settled msg parsed s h = rest.at (record s { last_message_id = msg.message_id }) h
    where
      rest : Maintains P (do
        wrapped "failed to delete message" (delete_last_message env)
        handle_jobs_started env parsed.jobs_started
        wrapped "failed to handle desired runner count" (
            handle_desired_runner_count env parsed.statistics.total_assigned_jobs
              (pos (length parsed.jobs_completed)))
        pure tt)
      rest =
          search (own_rules, Maintains-delete, Maintains-jobs_started, Maintains-desired) depth 16

-- Where the predicate does not depend on the last message's id either, all of the loop keeps it.
module _ (env : Env) (P : Scaler → Type 0) (frame : Frame env P)
    (marked : (s : Scaler) (i : ℤ) → P s → P (record s { last_message_id = i })) where
  Maintains-set_last_message_id : (i : ℤ) → Maintains P (set_last_message_id env i)
  unfolding set_last_message_id
  Maintains-set_last_message_id i = record { at = λ s h. marked s i h }

  Maintains-sleep_ms : (i : ℕ) → Maintains P (sleep_ms i)
  unfolding sleep_ms
  Maintains-sleep_ms i = record { at = λ s h. frame.history s _ h }

  ruleset poll_rules =
      (keeps_rules, Maintains-call, Maintains-set_last_message_id, Maintains-sleep_ms)

  Maintains-settle :
      (msg : RunnerScaleSetMessage) (parsed : ParsedMessage) → Maintains P (settle env msg parsed)
  unfolding settle
  Maintains-settle msg parsed =
      search (poll_rules, Maintains-delete, Maintains-jobs_started, Maintains-desired) depth 16

  Maintains-handle_message : (msg : RunnerScaleSetMessage) → Maintains P (handle_message env msg)
  unfolding handle_message
  Maintains-handle_message msg =
      search (poll_rules, Maintains-acquire_step, Maintains-settle) depth 16

  Maintains-diagnostics : Maintains P (run_diagnostics env)
  unfolding run_diagnostics
  Maintains-diagnostics = search poll_rules depth 8

  Maintains-on_tick : (tick : Tick) → Maintains P (on_tick env tick)
  Maintains-on_tick periodic = search poll_rules
  Maintains-on_tick diagnostic = search (poll_rules, Maintains-diagnostics) depth 8
  Maintains-on_tick quiet = search poll_rules

  Maintains-after_null : (r : Result ℤ) → Maintains P (after_null env r)
  Maintains-after_null (ok a) = search poll_rules
  Maintains-after_null (err e) = search poll_rules
  Maintains-after_null (crash m) = search poll_rules

  Maintains-on_message : (o : Option RunnerScaleSetMessage) → Maintains P (on_message env o)
  Maintains-on_message none = search (poll_rules, Maintains-desired, Maintains-after_null) depth 8
  Maintains-on_message (some msg) = search (poll_rules, Maintains-handle_message) depth 8

  Maintains-on_answer : (r : Result (Option RunnerScaleSetMessage)) → Maintains P (on_answer env r)
  Maintains-on_answer (ok o) = Maintains-on_message o
  Maintains-on_answer (err e) = search poll_rules
  Maintains-on_answer (crash m) = search poll_rules

  Maintains-poll_once : (tick : Tick) → Maintains P (poll_once env tick)
  unfolding poll_once
  Maintains-poll_once tick =
      search (poll_rules, Maintains-on_tick, Maintains-get_message, Maintains-on_answer) depth 8

  pub Maintains-poll_loop : (ticks : List Tick) → Maintains P (poll_loop env ticks)
  unfolding poll_loop
  Maintains-poll_loop [] = search poll_rules
  Maintains-poll_loop (tick ∷ ticks) =
      Maintains-bind (poll_once env tick) (λ _. poll_loop env ticks) (Maintains-poll_once tick)
        (λ _. Maintains-poll_loop ticks)
