-- ===== src/Ghaec2/Config/Laws.antt =====
-- What a configuration that passes validation satisfies, and what is refused.
use mathlib.Core.List.{Perm}
use actionsspot.Prelude.{
  pos, ◌≤ℤ◌, ◌<ℤ◌, String, ◌≡◌, ◌↔◌, ◌≢◌, is_blank, has_prefix, true, none, List, atoi, arith, ◌⊎◌,
}
use actionsspot.Effect.{Result, ok, err, crash}
use actionsspot.Ghaec2.Config.Required.{all_filled, all_filled-perm, check_required_iff}
use actionsspot.Ghaec2.Config.{
  Config, load_config, required_names, required_value, check_bounds, trim_url, validate,
}

-- The conditions, each on its own.
pub record IsValid (c : Config) : Type 0 where
  pub present : all_filled (required_value c) required_names ≡ true
  pub https : has_prefix c.github_enterprise_url "https://" ≡ true
  pub some_runner : pos 0 <ℤ c.max_runners
  pub no_negative : pos 0 ≤ℤ c.min_runners
  pub ordered : c.min_runners ≤ℤ c.max_runners

check_bounds_iff :
    (c : Config)
    → (check_bounds c ≡ ok tt)
      ↔ ((pos 0 <ℤ c.max_runners) × (pos 0 ≤ℤ c.min_runners) × (c.min_runners ≤ℤ c.max_runners))
check_bounds_iff c = ground arith

-- In whatever order the map of required values is visited, validation passes exactly the
-- configurations that meet every condition, and then changes the enterprise url alone.
pub validate_iff :
    (order : List String) (c : Config)
    → Perm order required_names
    → (validate order c
        ≡ (ok tt, record c { github_enterprise_url = trim_url c.github_enterprise_url }))
      ↔ IsValid c
unfolding validate
validate_iff order c d =
    let same = all_filled-perm (required_value c) d in
    ground (arith, check_required_iff (required_value c) order, check_bounds_iff c, same)

pub validate_ok :
    (order : List String) (c : Config)
    → Perm order required_names
    → (validate order c).0 ≡ ok tt
    → IsValid c
unfolding validate
validate_ok order c d e =
    let same = all_filled-perm (required_value c) d in
    ground (arith, check_required_iff (required_value c) order, check_bounds_iff c, same)

-- The variable is unset, or a number that an int holds.
abbrev pub IsNumeric : (String → String) → String → Type 0
IsNumeric getenv name = (is_blank (getenv name) ≡ true) ⊎ (atoi (getenv name) ≢ none)

abbrev pub IsOk {ℓ} : {A : Type ℓ} → Result A → Type 0
IsOk (ok a) = Unit
IsOk (err e) = ⊥
IsOk (crash m) = ⊥

-- A configuration is loaded exactly when each of the four numeric variables is unset or a number
-- that an int holds.
pub load_config_iff :
    (getenv : String → String)
    → IsOk (load_config getenv) ↔ (
        IsNumeric getenv "RUNNER_SCALE_SET_ID"
        × IsNumeric getenv "RUNNER_GROUP_ID"
        × IsNumeric getenv "MIN_RUNNERS"
        × IsNumeric getenv "MAX_RUNNERS")
unfolding load_config
load_config_iff getenv = ground arith
