-- ===== src/Ghaec2/Scaler/Whole.antt =====
-- A predicate on the scaler's state that its steps keep is kept by a whole run, from the start of
-- the scaler to the clean-up at its end.
use actionsspot.Prelude.{ℤ, pos, ℕ, String, Option, none, some, List}
use actionsspot.Effect.{History, Env, Result, ok, err, crash, Exec}
use actionsspot.Ghaec2.Types.{RunnerScaleSet, RunnerScaleSetSession, RunnerScaleSetStatistic}
use actionsspot.Ghaec2.Client.{Client}
use actionsspot.Ghaec2.Scaler.{
  Scaler, call, random_suffix, start_session, first_or_retry, create_message_session,
  delete_session, cleanup_current, cleanup_session,
}
use actionsspot.Ghaec2.Scaler.Keeps.{Maintains, Maintains-bind, keeps_rules}
use actionsspot.Ghaec2.Scaler.Frame.{Frame, Maintains-call, Maintains-desired, Maintains-poll_loop}
use actionsspot.Ghaec2.Scaler.Polling.{Tick, poll_loop, start_message_polling, after_start}
use actionsspot.Ghaec2.Scaler.Start.{
  set_client, set_scale_set, initialize_actions_service, initialize_scale_set, poll_and_clean_up,
  run,
}

-- The steps that write to the state.
pub record Life (env : Env) (P : Scaler → Type 0) : Type 0 where
  pub frame : Frame env P
  pub marked : (s : Scaler) (i : ℤ) → P s → P (record s { last_message_id = i })
  pub client : (s : Scaler) (c : Client) → P s → P (record s { client = c })
  pub scale_set :
      (s : Scaler) (x : RunnerScaleSet)
      → P s
      → P (record s { scale_set = some x; config = record s.config { runner_scale_set_id = x.id } })

module _ (env : Env) (P : Scaler → Type 0) (life : Life env P) where
  Maintains-own_call : {A : Type 0} (m : Exec History A) → Maintains P (call m)
  Maintains-own_call m = Maintains-call env P life.frame m

  Maintains-suffix : (n : ℕ) → Maintains P (random_suffix env n)
  unfolding random_suffix
  Maintains-suffix n = record { at = λ s h. life.frame.history s _ h }

  Maintains-start_session : (x : RunnerScaleSetSession) → Maintains P (start_session env x)
  unfolding start_session
  Maintains-start_session x = record {
    at = λ s h. life.marked _ (pos 0) (life.frame.session s x h);
  }

  Maintains-set_client : (c : Client) → Maintains P (set_client c)
  unfolding set_client
  Maintains-set_client c = record { at = λ s h. life.client s c h }

  Maintains-set_scale_set : (x : RunnerScaleSet) → Maintains P (set_scale_set x)
  unfolding set_scale_set
  Maintains-set_scale_set x = record { at = λ s h. life.scale_set s x h }

  ruleset run_rules = (
    keeps_rules, Maintains-own_call, Maintains-suffix, Maintains-start_session,
    Maintains-set_client, Maintains-set_scale_set,
  )

  Maintains-first_or_retry : (r : Result RunnerScaleSetSession) → Maintains P (first_or_retry env r)
  Maintains-first_or_retry (ok x) = search run_rules
  Maintains-first_or_retry (err e) = search run_rules depth 12
  Maintains-first_or_retry (crash m) = search run_rules

  Maintains-session : Maintains P (create_message_session env)
  unfolding create_message_session
  Maintains-session = search (run_rules, Maintains-first_or_retry) depth 16

  Maintains-initialize : Maintains P (initialize_actions_service env)
  unfolding initialize_actions_service
  Maintains-initialize = search run_rules depth 12

  Maintains-scale_set : Maintains P (initialize_scale_set env)
  unfolding initialize_scale_set
  Maintains-scale_set = search run_rules depth 12

  Maintains-delete_session :
      (x : RunnerScaleSetSession) (o : Option String) → Maintains P (delete_session env x o)
  Maintains-delete_session x none = search run_rules
  Maintains-delete_session x (some id) = search run_rules depth 12

  Maintains-cleanup_current :
      (o : Option RunnerScaleSetSession) → Maintains P (cleanup_current env o)
  Maintains-cleanup_current none = search run_rules
  Maintains-cleanup_current (some x) = Maintains-delete_session x x.session_id

  Maintains-cleanup : Maintains P (cleanup_session env)
  unfolding cleanup_session
  Maintains-cleanup = search (run_rules, Maintains-cleanup_current) depth 8

  Maintains-after_start :
      (ticks : List Tick) (o : Option RunnerScaleSetStatistic)
      → Maintains P (after_start env ticks o)
  Maintains-after_start ticks none = search run_rules
  Maintains-after_start ticks (some st) =
      Maintains-bind _ (λ _. poll_loop env ticks)
        (search (run_rules, Maintains-desired env P life.frame) depth 8)
        (λ _. Maintains-poll_loop env P life.frame life.marked ticks)

  Maintains-polling : (ticks : List Tick) → Maintains P (start_message_polling env ticks)
  unfolding start_message_polling
  Maintains-polling ticks = search (run_rules, Maintains-after_start) depth 12

  Maintains-poll_and_clean_up : (ticks : List Tick) → Maintains P (poll_and_clean_up env ticks)
  unfolding poll_and_clean_up
  Maintains-poll_and_clean_up ticks = record {
    at = λ s h. Maintains-cleanup.at _ ((Maintains-polling ticks).at s h);
  }

  pub Maintains-run : (ticks : List Tick) → Maintains P (run env ticks)
  unfolding run
  Maintains-run ticks =
      search
        (
          run_rules, Maintains-initialize, Maintains-scale_set, Maintains-session,
          Maintains-poll_and_clean_up,
        )
        depth 12
