-- ===== src/Ghaec2/Scaler/Polling.antt =====
-- ghaec2/message_queue_scaler.go: the polling loop. The select of each round is a `Tick`, and a
-- list of them stands for the rounds until the context is done.
use actionsspot.Prelude.{ℤ, pos, Option, none, some, List, [], ◌∷◌}
use actionsspot.Effect.{
  sleep, Env, plain, Result, ok, err, crash, Exec, pure, fail, lift, wrapped, attempt, ◌>>=◌, ◌>>◌,
}
use actionsspot.Ghaec2.Types.{RunnerScaleSetMessage, RunnerScaleSetStatistic}
use actionsspot.Ghaec2.Client.Messages.{get_acquirable_jobs}
use actionsspot.Ghaec2.Scaler.{Scaler, call, gets, deref, handle_desired_runner_count}
use actionsspot.Ghaec2.Scaler.Messages.{get_message, handle_message}

pub data Tick : Type 0 where
  periodic diagnostic quiet : Tick

unfoldable pub sleep_ms : Prim.Native.Nat.ℕ → Exec Scaler (Unit {0})
sleep_ms n s = (ok tt, record s { history = sleep n ∷ s.history })

module _ (env : Env) where
  -- Asks for the acquirable jobs and logs; it never fails.
  unfoldable pub run_diagnostics : Exec Scaler (Unit {0})
  run_diagnostics = do
    client ← gets λ s. s.client
    config ← gets λ s. s.config
    attempt (call (get_acquirable_jobs env client config.runner_scale_set_id))
    pure tt

  abbrev pub on_tick : Tick → Exec Scaler (Unit {0})
  on_tick diagnostic = do attempt (run_diagnostics); pure tt
  on_tick periodic = pure tt
  on_tick quiet = pure tt

  abbrev pub after_null : Result ℤ → Exec Scaler (Unit {0})
  after_null (ok _) = sleep_ms 5000
  after_null (err _) = pure tt
  after_null (crash m) = lift (crash m)

  abbrev pub on_message : Option RunnerScaleSetMessage → Exec Scaler (Unit {0})
  on_message none = do
    handled ← attempt (handle_desired_runner_count env (pos 0) (pos 0))
    after_null handled
  on_message (some msg) = do attempt (handle_message env msg); pure tt

  abbrev pub on_answer : Result (Option RunnerScaleSetMessage) → Exec Scaler (Unit {0})
  on_answer (ok answer) = on_message answer
  on_answer (err _) = sleep_ms 5000
  on_answer (crash m) = lift (crash m)

  -- One round of the loop: no error ends it.
  unfoldable pub poll_once : Tick → Exec Scaler (Unit {0})
  poll_once tick = do on_tick tick; answer ← attempt (get_message env); on_answer answer

  unfoldable pub poll_loop : List Tick → Exec Scaler (Unit {0})
  poll_loop [] = fail (plain "context canceled")
  poll_loop (tick ∷ ticks) = do poll_once tick; poll_loop ticks

  -- The statistics of the new session are handled first.
  abbrev pub after_start : List Tick → Option RunnerScaleSetStatistic → Exec Scaler (Unit {0})
  after_start ticks none = fail (plain "session statistics is nil")
  after_start ticks (some statistics) = do
    wrapped "handling initial message failed"
        (handle_desired_runner_count env statistics.total_assigned_jobs (pos 0))
    poll_loop ticks

  unfoldable pub start_message_polling : List Tick → Exec Scaler (Unit {0})
  start_message_polling ticks = do
    current ← gets λ s. s.session
    session ← deref current
    after_start ticks session.statistics
