-- ===== src/Ghaec2/Scaler/Scaling.antt =====
-- A predicate that a creation and a scale-down's loop keep is kept by the scaling decision.
use actionsspot.Prelude.{ℕ, zero, suc, ℤ}
use actionsspot.Effect.{Env, attempt}
use actionsspot.Ghaec2.Scaler.{
  Scaler, create_runner, create_runners, terminate_idle_runners, get_current_runner_count,
  handle_desired_runner_count,
}
use actionsspot.Ghaec2.Scaler.Keeps.{Maintains, Maintains-bind, keeps_rules}

module _ (env : Env) (P : Scaler → Type 0) (create : (s : Scaler) → P s → P (create_runner env s).1)
    (terminate : (c : ℤ) (s : Scaler) → P s → P (terminate_idle_runners env c s).1) where
  Maintains-create_runner : Maintains P (create_runner env)
  Maintains-create_runner = record { at = create }

  Maintains-terminate : (count : ℤ) → Maintains P (terminate_idle_runners env count)
  Maintains-terminate count = record { at = terminate count }

  Maintains-count : Maintains P (get_current_runner_count env)
  unfolding get_current_runner_count
  Maintains-count = record { at = λ s h. h }

  Maintains-create_runners : (k : ℕ) → Maintains P (create_runners env k)
  unfolding create_runners
  Maintains-create_runners zero = search keeps_rules
  Maintains-create_runners (suc k) =
      Maintains-bind (attempt (create_runner env)) (λ _. create_runners env k)
        (search (keeps_rules, Maintains-create_runner)) (λ _. Maintains-create_runners k)

  Maintains-scaling : (a c : ℤ) → Maintains P (handle_desired_runner_count env a c)
  unfolding handle_desired_runner_count
  Maintains-scaling a c =
      search (keeps_rules, Maintains-terminate, Maintains-count, Maintains-create_runners) depth 12

  pub desired_keeps : (a c : ℤ) (s : Scaler) → P s → P (handle_desired_runner_count env a c s).1
  desired_keeps a c = (Maintains-scaling a c).at
