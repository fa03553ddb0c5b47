-- ===== src/Ghaec2/Process/Laws.antt =====
-- How the process ends, and what it needs to begin.
use mathlib.Core.List.{Perm}
use actionsspot.Prelude.{String, ◌≡◌, ◌≢◌, Option, none, some, List, [], ◌∷◌}
use actionsspot.Effect.{History, Env, Result, ok, err, crash}
use actionsspot.Effect.Fails.{
  IsValue, Fails, Fails-bind, Fails-fail, IsFinished, exit_of-failed, or_exit-failed,
  or_exit-passed,
}
use actionsspot.Ghaec2.Types.{RunnerScaleSetStatistic}
use actionsspot.Ghaec2.Config.{Config, load_config, validate, required_names}
use actionsspot.Ghaec2.Config.Laws.{IsValid, validate_ok}
use actionsspot.Ghaec2.Scaler.Polling.{Tick, poll_loop, start_message_polling, after_start}
use actionsspot.Ghaec2.Scaler.Start.{new_scaler, after_deferred, poll_and_clean_up, run}
use actionsspot.Ghaec2.Scaler.{cleanup_session}
use actionsspot.Ghaec2.Process.{main}

module _ (env : Env) where
  poll_loop-Fails : (ticks : List Tick) → Fails (poll_loop env ticks)
  unfolding poll_loop
  poll_loop-Fails [] = Fails-fail _
  poll_loop-Fails (tick ∷ ticks) = Fails-bind _ _ λ _. poll_loop-Fails ticks

  after_start-Fails :
      (ticks : List Tick) (o : Option RunnerScaleSetStatistic) → Fails (after_start env ticks o)
  after_start-Fails ticks none = Fails-fail _
  after_start-Fails ticks (some st) = Fails-bind _ _ λ _. poll_loop-Fails ticks

  polling-Fails : (ticks : List Tick) → Fails (start_message_polling env ticks)
  unfolding start_message_polling
  polling-Fails ticks = Fails-bind _ _ λ o. Fails-bind _ _ λ x. after_start-Fails ticks x.statistics

  after_deferred-failed :
      (r deferred : Result (Unit {0})) → ¬ IsValue r → ¬ IsValue (after_deferred env r deferred)
  after_deferred-failed r (ok _) h = h
  after_deferred-failed r (err _) h = h
  after_deferred-failed r (crash m) h = λ v. v

  clean_up-Fails : (ticks : List Tick) → Fails (poll_and_clean_up env ticks)
  unfolding poll_and_clean_up
  clean_up-Fails ticks = record {
    never = λ s.
        let (r, t) = start_message_polling env ticks s in
        after_deferred-failed r (cleanup_session env t).0 ((polling-Fails ticks).never s);
  }

  run-Fails : (ticks : List Tick) → Fails (run env ticks)
  unfolding run
  run-Fails ticks = Fails-bind _ _ λ _. Fails-bind _ _ λ _. Fails-bind _ _ λ _. clean_up-Fails ticks

module _ (env : Env) (order : List String) (logger aws : Result (Unit {0})) (ticks : List Tick)
    (getenv : String → String) (h : History) where
  -- The process never ends with status 0: a shutdown by a signal, too, is reported as an error.
  pub main_never_finishes : ¬ IsFinished (main env order logger aws ticks getenv h).0
  unfolding main
  main_never_finishes = or_exit-failed logger _ h λ _ t.
      or_exit-failed (load_config getenv) _ t λ c u. or_exit-failed (validate order c).0 _ u λ _ v.
        or_exit-failed aws _ v
          λ _ w. exit_of-failed _ ((run-Fails env ticks).never (new_scaler (validate order c).1 w))

  -- In whatever order the map of required values is visited: where the process does anything to the
  -- outside, a configuration was loaded that meets every condition, and so was the AWS one.
  pub main_starts-IsValid :
      Perm order required_names
      → (main env order logger aws ticks getenv h).1 ≢ h
      → (c : Config) × (load_config getenv ≡ ok c) × IsValid c × (aws ≡ ok tt)
  unfolding main
  main_starts-IsValid perm acts =
      let (_, _, after_logger) = or_exit-passed logger _ h acts in
      let (c, loaded, after_load) = or_exit-passed (load_config getenv) _ h after_logger in
      let (_, valid, after_check) = or_exit-passed (validate order c).0 _ h after_load in
      let (_, ready, _) = or_exit-passed aws _ h after_check in
      (c, loaded, validate_ok order c perm valid, ready)
