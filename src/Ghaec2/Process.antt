-- ===== src/Ghaec2/Process.antt =====
-- ghaec2/main.go: the process, from its configuration to the end of the scaler's run.
pub mod Laws
use actionsspot.Prelude.{String, List}
use actionsspot.Effect.{History, Env, Result}
use actionsspot.Effect.Fails.{Exit, exit_of, or_exit}
use actionsspot.Ghaec2.Config.{Config, load_config, validate}
use actionsspot.Ghaec2.Scaler.Polling.{Tick}
use actionsspot.Ghaec2.Scaler.Start.{new_scaler, run}

-- `logger` is what zap.NewProduction gives, and `aws` what loading the AWS configuration gives;
-- `order` is the order in which Validate visits its map. A signal ends the list of ticks.
module _ (env : Env) (order : List String) (logger aws : Result (Unit {0}))
    (ticks : List Tick) where
  abbrev pub run_scaler : Config → History → Exit × History
  run_scaler c h = let (r, s) = run env ticks (new_scaler c h) in (exit_of r, s.history)

  abbrev pub validated : Result (Unit {0}) × Config → History → Exit × History
  validated (r, c) = or_exit r λ _. or_exit aws λ _. run_scaler c

  unfoldable pub main : (String → String) → History → Exit × History
  main getenv = or_exit logger λ _. or_exit (load_config getenv) λ c. validated (validate order c)
