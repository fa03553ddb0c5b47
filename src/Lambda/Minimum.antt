-- ===== src/Lambda/Minimum.antt =====
-- github-runner-scaler/main.go: the entry points that no other code calls, among them the one that
-- keeps a minimum of runners.
pub mod Laws
use actionsspot.Prelude.{ℕ, zero, suc, ℤ, pos, pos_part, ◌-ℤ◌, ltb_ℤ, not, if◌then◌else◌}
use actionsspot.Effect.{
  History, Env, Error, Result, ok, err, crash, Exec, pure, lift, attempt, ◌>>=◌, ◌>>◌,
}
use actionsspot.Lambda.Config.{Config}
use actionsspot.Lambda.Aws.{create_spot_instance}
use actionsspot.Lambda.Pipeline.{monitor_and_scale}

-- `unix_nano` is time.Now().UnixNano(), the id of the job that is none.
module _ (env : Env) (c : Config) (unix_nano : History → ℤ) where
  -- The source's stub: it asks nothing, and returns 0.
  pub get_current_runner_count : Exec History ℤ
  get_current_runner_count = pure (pos 0)

  abbrev pub or_none : Result ℤ → Exec History ℤ
  or_none (ok n) = pure n
  or_none (err e) = pure (pos 0)
  or_none (crash m) = lift (crash m)

  pub create_minimum_runner : Exec History (Unit {0})
  create_minimum_runner h =
      (do attempt (create_spot_instance env c (unix_nano h) c.runner_labels); pure tt) h

  -- The loop: a failure is logged.
  pub create_minimum_runners : ℕ → Exec History (Unit {0})
  create_minimum_runners zero = pure tt
  create_minimum_runners (suc n) = do create_minimum_runner; create_minimum_runners n

  abbrev pub create_missing : ℤ → Exec History (Unit {0})
  create_missing needed =
      if not (ltb_ℤ (pos 0) needed) then pure tt else create_minimum_runners (pos_part needed)

  pub maintain_min_runners : ℤ → Exec History (Unit {0})
  maintain_min_runners min_runners = if not (ltb_ℤ (pos 0) min_runners) then pure tt else (do
    counted ← attempt get_current_runner_count
    current ← or_none counted
    create_missing (min_runners -ℤ current))

-- The older main logic.
execute_runner_scaling : Env → Config → Exec History (Unit {0})
execute_runner_scaling env c = monitor_and_scale env c
