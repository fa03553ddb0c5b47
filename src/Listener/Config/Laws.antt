-- ===== src/Listener/Config/Laws.antt =====
-- What a configuration that passes validation satisfies.
use mathlib.Core.List.{Perm}
use actionsspot.Prelude.{pos, ◌≤ℤ◌, ◌<ℤ◌, eqb_ℤ, String, ◌≡◌, ◌↔◌, true, false, List, arith}
use actionsspot.Effect.{ok}
use actionsspot.Ghaec2.Config.Required.{all_filled, all_filled-perm, check_required_iff}
use actionsspot.Listener.Config.{Config, check_numbers, required_names, required_value, validate}

-- The conditions; the scale set's id may be negative.
pub record IsValid (c : Config) : Type 0 where
  pub present : all_filled (required_value c) required_names ≡ true
  pub some_id : eqb_ℤ c.runner_scale_set_id (pos 0) ≡ false
  pub some_runner : pos 0 <ℤ c.max_runners
  pub no_negative : pos 0 ≤ℤ c.min_runners
  pub ordered : c.min_runners ≤ℤ c.max_runners

check_numbers_iff :
    (c : Config)
    → (check_numbers c ≡ ok tt) ↔ (
        (eqb_ℤ c.runner_scale_set_id (pos 0) ≡ false)
        × (pos 0 <ℤ c.max_runners)
        × (pos 0 ≤ℤ c.min_runners)
        × (c.min_runners ≤ℤ c.max_runners))
check_numbers_iff c = ground arith

-- In whatever order the map of required values is visited, validation passes exactly the
-- configurations that meet every condition.
pub listener_validate_iff :
    (order : List String) (c : Config)
    → Perm order required_names
    → (validate order c ≡ ok tt) ↔ IsValid c
unfolding validate
listener_validate_iff order c d = ground (
  arith,
  check_required_iff (required_value c) order,
  check_numbers_iff c,
  all_filled-perm (required_value c) d,
)
