-- ===== src/Listener/Scaler/Ending.antt =====
-- How the listener's run ends.
use actionsspot.Prelude.{ℕ, zero, suc}
use actionsspot.Effect.{Env}
use actionsspot.Effect.Fails.{Fails, Fails-bind, Fails-fail, IsValue}
use actionsspot.Listener.Scaler.{GhaListenerScaler, message_polling_loop}
use actionsspot.Listener.Scaler.Start.{with_session, poll_and_clean_up, run}

module _ (env : Env) where
  polling_loop-Fails : (rounds : ℕ) → Fails (message_polling_loop env rounds)
  unfolding message_polling_loop
  polling_loop-Fails zero = Fails-fail _
  polling_loop-Fails (suc rounds) = Fails-bind _ _ λ _. polling_loop-Fails rounds

  with_session-Fails : (rounds : ℕ) → Fails (with_session env rounds)
  unfolding with_session
  with_session-Fails rounds = Fails-bind _ _ λ o. Fails-bind _ _ λ _. polling_loop-Fails rounds

  clean_up-Fails : (rounds : ℕ) → Fails (poll_and_clean_up env rounds)
  unfolding poll_and_clean_up
  clean_up-Fails rounds = record { never = λ s. (with_session-Fails rounds).never s }

  run-Fails : (rounds : ℕ) → Fails (run env rounds)
  unfolding run
  run-Fails rounds = Fails-bind _ _ λ _. Fails-bind _ _ λ _. clean_up-Fails rounds

  -- Whatever is answered and however many rounds pass before a shutdown, the listener's run never
  -- returns without an error: a shutdown, too, is returned as one.
  pub run_never_succeeds : (rounds : ℕ) (s : GhaListenerScaler) → ¬ IsValue (run env rounds s).0
  run_never_succeeds rounds = (run-Fails rounds).never
