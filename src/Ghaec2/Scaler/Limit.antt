-- ===== src/Ghaec2/Scaler/Limit.antt =====
-- The tracker stays within the configured maximum, for a whole run.
use actionsspot.Prelude.{
  ℕ, zero, suc, ◌+◌, ◌-◌, ◌≤◌, ℤ, pos, pos_part, ltb_ℤ, ◌<ℤ◌, ◌-ℤ◌, ◌≤ℤ◌, InInt64, ◌≡◌, refl, ◌∙◌,
  length, arith, Bool-cases, inl, inr, List,
}
use actionsspot.Effect.{History, Env}
use actionsspot.Ghaec2.Config.{Config}
use actionsspot.Ghaec2.Tracker.{keys}
use actionsspot.Ghaec2.Tracker.Laws.{length-job_started}
use actionsspot.Ghaec2.Tracker.Size.{insert_adds_one, terminate_idle_adds_none}
use actionsspot.Ghaec2.Scaler.{
  Scaler, create_runner, terminate_idle_runners, handle_job_started, desired_runners,
  handle_desired_runner_count,
}
use actionsspot.Ghaec2.Scaler.Desired.{
  gap_up, test_of_lt, grow, current, desired, decision_up, decision_down, decision_stay,
}
use actionsspot.Ghaec2.Scaler.Whole.{Life, Maintains-run}
use actionsspot.Ghaec2.Scaler.Start.{new_scaler, run}
use actionsspot.Ghaec2.Scaler.Polling.{Tick}

-- The maximum is `limit`, and no more instances are tracked than it says.
abbrev pub Within : ℤ → Scaler → Type 0
Within limit s = (s.config.max_runners ≡ limit) × (length s.instances ≤ pos_part limit)

grow_adds :
    (env : Env) (n : ℕ) (s : Scaler)
    → ((grow env n s).config.max_runners ≡ s.config.max_runners)
      × (length (grow env n s).instances ≤ length s.instances + n)
unfolding grow create_runner
grow_adds env zero s = (refl, omega arith)
grow_adds env (suc n) s =
    let next = grow_adds env n (create_runner env s).1 in
    (next.0, omega (arith, next.1, insert_adds_one _ _ s.instances))

-- Whatever the bounds, the decision is not above the maximum.
desired_below : (c : Config) (a : ℤ) → desired_runners c a ≤ℤ c.max_runners
unfolding desired_runners
desired_below c a = ground arith

-- Above the current number it is a number of Go's.
desired_range :
    (c : Config) (a : ℤ) (n : ℕ)
    → InInt64 c.max_runners
    → pos n <ℤ desired_runners c a
    → InInt64 (desired_runners c a)
desired_range c a n r h = ground (arith, desired_below c a)

module _ (env : Env) (limit : ℤ) (range : InInt64 limit) where
  Within-up :
      (a c : ℤ) (s : Scaler)
      → current env s <ℤ desired env a s
      → Within limit s
      → Within limit (handle_desired_runner_count env a c s).1
  Within-up a c s up h =
      let below = desired_below s.config a in
      let goal = desired env a s in
      let n = length s.instances in
      let grown = grow_adds env (pos_part goal - n) s in
      rw
        (
          decision_up env a c s (test_of_lt (current env s) goal up),
          gap_up goal n (desired_range s.config a n (rw h.0 range) up) up,
        )
        (grown.0 ∙ h.0, ground (arith, below, grown.1, h.0, h.1, up))

  Within-desired :
      (a c : ℤ) (s : Scaler)
      → Within limit s
      → Within limit (handle_desired_runner_count env a c s).1
  unfolding terminate_idle_runners
  Within-desired a c s h = elim (Bool-cases (ltb_ℤ (current env s) (desired env a s))) [
    | inl up ↦ Within-up a c s (ground arith) h
    | inr enough ↦ elim (Bool-cases (ltb_ℤ (desired env a s) (current env s))) [
      | inl down ↦ rw (decision_down env a c s down) (
        h.0,
        omega (
          arith,
          h.1,
          terminate_idle_adds_none (env.visit s.history (keys s.instances))
              (current env s -ℤ desired env a s) s.instances,
        ),
      )
      | inr stay ↦ rw (decision_stay env a c s (ground arith)) h
    ]
  ]

  Within-life : Life env (Within limit)
  unfolding handle_job_started
  Within-life = record {
    frame = record {
      history = λ s x h. h;
      session = λ s x h. h;
      desired = Within-desired;
      started = λ s r q h. (h.0, rw (length-job_started _ r q _ s.instances) h.1);
    };
    marked = λ s i h. h;
    client = λ s c h. h;
    scale_set = λ s x h. h;
  }

-- From a new scaler to the end of its run, whatever the bounds, the answers and the messages are and
-- however the run ends, no more instances are tracked than the configured maximum, a number of
-- Go's int, says; a negative one allows none.
pub run_within_limit :
    (env : Env) (config : Config) (h : History) (ticks : List Tick)
    → InInt64 config.max_runners
    → length (run env ticks (new_scaler config h)).1.instances ≤ pos_part config.max_runners
unfolding new_scaler
run_within_limit env config h ticks range =
    ((Maintains-run env (Within config.max_runners) (Within-life env config.max_runners range)
        ticks).at
      (new_scaler config h) (refl, omega arith)).1
