-- ===== src/Tests/Decision.antt =====
-- Runs of the scaling decision of ghaec2/message_queue_scaler.go, and of ghaec2/main.go.
use mathlib.Core.List.Perm
use actionsspot.Prelude.{◌+◌, min, pos, ◌≤ℤ◌, ◌≡◌, refl, ◌↔◌, [], ◌∷◌, length, arith, decimal}
use actionsspot.Effect.{ok}
use actionsspot.Ghaec2.Config.{load_config, required_names, trim_url, validate}
use actionsspot.Ghaec2.Config.Laws.{IsNumeric, IsOk, IsValid, load_config_iff, validate_iff}
use actionsspot.Ghaec2.Tracker.{insert, lookup}
use actionsspot.Ghaec2.Tracker.Named.{idle_keys}
use actionsspot.Ghaec2.Scaler.{create_runner, desired_runners, handle_desired_runner_count}
use actionsspot.Ghaec2.Scaler.Desired.{
  desired_runners_bounds, scale_down_keeps_busy, scale_down_removes, scale_up_reaches,
}
use actionsspot.Tests.{config, crowded, env, starting}

desired_runners_bounds_example :
    (pos 1 ≤ℤ desired_runners config (pos 9))
    × (desired_runners config (pos 9) ≤ℤ pos 3)
    × ((desired_runners config (pos 9) ≡ pos 9) ↔ ((pos 1 ≤ℤ pos 9) × (pos 9 ≤ℤ pos 3)))
desired_runners_bounds_example = desired_runners_bounds config (pos 9) (omega arith)

-- Three assigned jobs and one instance: two are created.
scale_up_reaches_example :
    ((handle_desired_runner_count env (pos 3) (pos 0) starting).0 ≡ ok (pos 3))
    × (pos (length (handle_desired_runner_count env (pos 3) (pos 0) starting).1.instances) ≡ pos 3)
unfolding desired_runners create_runner lookup decimal insert
scale_up_reaches_example =
    scale_up_reaches env (pos 3) (pos 0) starting (omega arith, omega arith) (omega arith)
      (refl, (refl, tt))

-- No assigned job and three instances, of which two are idle: two go.
scale_down_removes_example :
    length (handle_desired_runner_count env (pos 0) (pos 0) crowded).1.instances
      + min 2 (length (idle_keys ("i-a" ∷ "i-b" ∷ "i-c" ∷ []) crowded.instances))
    ≡ 3
unfolding desired_runners lookup
scale_down_removes_example =
    scale_down_removes env (pos 0) (pos 0) crowded (omega arith) (omega arith) (omega arith)
      (refl, (refl, (refl, tt))) (refl, (refl, (refl, tt))) (refl, (refl, (refl, tt)))

scale_down_keeps_busy_example :
    lookup "i-b" (handle_desired_runner_count env (pos 0) (pos 0) crowded).1.instances
    ≡ lookup "i-b" crowded.instances
unfolding desired_runners lookup
scale_down_keeps_busy_example =
    scale_down_keeps_busy env (pos 0) (pos 0) crowded "i-b" (omega arith) (refl, (refl, (refl, tt)))
      refl

validate_iff_example :
    (validate required_names config
      ≡ (ok tt, record config { github_enterprise_url = trim_url config.github_enterprise_url }))
    ↔ IsValid config
validate_iff_example = validate_iff required_names config (Perm.refl required_names)

load_config_iff_example : IsOk (load_config (λ name. "5")) ↔ (
    IsNumeric (λ name. "5") "RUNNER_SCALE_SET_ID"
    × IsNumeric (λ name. "5") "RUNNER_GROUP_ID"
    × IsNumeric (λ name. "5") "MIN_RUNNERS"
    × IsNumeric (λ name. "5") "MAX_RUNNERS")
load_config_iff_example = load_config_iff λ name. "5"
