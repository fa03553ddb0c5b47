-- ===== src/Ghaec2/Scaler/Desired.antt =====
-- The scaling decision: its bounds, and what a scale-up and a scale-down do to the tracker.
use Prim.Native.String.{slice}
use actionsspot.Prelude.{
  ℕ, zero, suc, ◌+◌, ◌-◌, ◌<◌, ◌^◌, min, ℤ, pos, negsuc, pos_part, ◌≤ℤ◌, ◌<ℤ◌, ltb_ℤ, InInt64, ◌-ℤ◌,
  -ℤ_exact, String, ◌+++◌, ◌≡◌, refl, ◌∙◌, ◌↔◌, true, false, none, length, arith,
}
use actionsspot.Effect.{Env, ok, ◌>>=◌}
use actionsspot.Ghaec2.Config.{Config}
use actionsspot.Ghaec2.Tracker.{keys, lookup, is_idle, passes}
use actionsspot.Ghaec2.Tracker.Named.{Named, idle_keys}
use actionsspot.Ghaec2.Tracker.Laws.{
  Unique, Distinct, length-insert, terminate_idle_count, terminate_idle_keeps_busy,
}
use actionsspot.Ghaec2.Scaler.{
  Scaler, gets, create_runner, create_runners, terminate_idle_runners, get_current_runner_count,
  desired_runners, handle_desired_runner_count,
}

-- With ordered bounds the decision lies within them, and it is the number of assigned jobs
-- exactly when that lies within them.
pub desired_runners_bounds :
    (c : Config) (assigned : ℤ)
    → c.min_runners ≤ℤ c.max_runners
    → (c.min_runners ≤ℤ desired_runners c assigned)
      × (desired_runners c assigned ≤ℤ c.max_runners)
      × ((desired_runners c assigned ≡ assigned)
          ↔ ((c.min_runners ≤ℤ assigned) × (assigned ≤ℤ c.max_runners)))
unfolding desired_runners
desired_runners_bounds c assigned h = ground arith

pub gap_up : (d : ℤ) (n : ℕ) → InInt64 d → pos n <ℤ d → d -ℤ pos n ≡ pos (pos_part d - n)
gap_up (pos d) n r h = -ℤ_exact (pos d) (pos n) (ground arith) ∙ ground arith
gap_up (negsuc d) n r h = absurd (omega arith)

gap_down :
    (d : ℤ) (n : ℕ) → n < 2 ^ 63 → pos 0 ≤ℤ d → d <ℤ pos n → pos n -ℤ d ≡ pos (n - pos_part d)
gap_down (pos d) n r p h = -ℤ_exact (pos n) (pos d) (ground arith) ∙ ground arith
gap_down (negsuc d) n r p h = absurd (omega arith)

pub test_of_lt : (a b : ℤ) → a <ℤ b → ltb_ℤ a b ≡ true
test_of_lt a b h = ground arith

-- The key that the next instance gets.
abbrev next_key : Env → Scaler → String
next_key env s = "i-" +++ slice (env.new_uuid s.history) 0 8

module _ (env : Env) where
  -- The states that a number of creations leads through.
  unfoldable pub grow : ℕ → Scaler → Scaler
  grow zero s = s
  grow (suc n) s = grow n (create_runner env s).1

  -- In each of `n` creations the key drawn is new.
  abbrev Fresh : ℕ → Scaler → Type 0
  Fresh zero s = Unit
  Fresh (suc n) s = (lookup (next_key env s) s.instances ≡ none) × Fresh n (create_runner env s).1

  create_runners_lem : (n : ℕ) (s : Scaler) → create_runners env n s ≡ (ok tt, grow n s)
  unfolding create_runners grow ◌>>=◌ create_runner
  create_runners_lem zero s = refl
  create_runners_lem (suc n) s = create_runners_lem n (create_runner env s).1

  length-create_runner :
      (s : Scaler)
      → lookup (next_key env s) s.instances ≡ none
      → length (create_runner env s).1.instances ≡ length s.instances + 1
  unfolding create_runner
  length-create_runner s h = length-insert _ _ s.instances h

  length-grow :
      (n : ℕ) (s : Scaler) → Fresh n s → length (grow n s).instances ≡ length s.instances + n
  unfolding grow
  length-grow zero s h = omega arith
  length-grow (suc n) s h =
      omega (arith, length-grow n (create_runner env s).1 h.1, length-create_runner s h.0)

  abbrev pub current : Scaler → ℤ
  current s = pos (length s.instances)

  abbrev pub desired : ℤ → Scaler → ℤ
  desired assigned s = desired_runners s.config assigned

  pub decision_up :
      (a c : ℤ) (s : Scaler)
      → ltb_ℤ (current s) (desired a s) ≡ true
      → handle_desired_runner_count env a c s
        ≡ (ok (desired a s), grow (pos_part (desired a s -ℤ current s)) s)
  unfolding handle_desired_runner_count ◌>>=◌ gets get_current_runner_count
  decision_up a c s h = ground (arith, create_runners_lem (pos_part (desired a s -ℤ current s)) s)

  pub decision_down :
      (a c : ℤ) (s : Scaler)
      → ltb_ℤ (desired a s) (current s) ≡ true
      → handle_desired_runner_count env a c s
        ≡ (ok (desired a s), (terminate_idle_runners env (current s -ℤ desired a s) s).1)
  unfolding handle_desired_runner_count ◌>>=◌ gets get_current_runner_count terminate_idle_runners
  decision_down a c s h = ground arith

  pub decision_stay :
      (a c : ℤ) (s : Scaler)
      → desired a s ≡ current s
      → handle_desired_runner_count env a c s ≡ (ok (desired a s), s)
  unfolding handle_desired_runner_count ◌>>=◌ gets get_current_runner_count
  decision_stay a c s h = ground arith

  -- A scale-up to a decision that an int64 holds reaches it exactly, when the keys that it draws are
  -- new; the decision is returned, and no error.
  pub scale_up_reaches :
      (a c : ℤ) (s : Scaler)
      → InInt64 (desired a s)
      → current s <ℤ desired a s
      → Fresh (pos_part (desired a s) - length s.instances) s
      → ((handle_desired_runner_count env a c s).0 ≡ ok (desired a s))
        × (pos (length (handle_desired_runner_count env a c s).1.instances) ≡ desired a s)
  scale_up_reaches a c s range h fresh =
      rw
        (
          decision_up a c s (test_of_lt (current s) (desired a s) h),
          gap_up (desired a s) (length s.instances) range h,
          length-grow (pos_part (desired a s) - length s.instances) s fresh,
        )
        (refl, ground (arith))

  -- A scale-down of fewer than 2^63 instances to a decision that is not negative removes as many as
  -- there are too many, or all the idle ones if these are fewer, when the tracker has one entry for
  -- each key, each instance under its own id, and the loop over it visits no key twice.
  pub scale_down_removes :
      (a c : ℤ) (s : Scaler)
      → length s.instances < 2 ^ 63
      → pos 0 ≤ℤ desired a s
      → desired a s <ℤ current s
      → Unique s.instances
      → Named s.instances
      → Distinct (env.visit s.history (keys s.instances))
      → length (handle_desired_runner_count env a c s).1.instances
          + min
              (length s.instances - pos_part (desired a s))
              (length (idle_keys (env.visit s.history (keys s.instances)) s.instances))
        ≡ length s.instances
  unfolding terminate_idle_runners
  scale_down_removes a c s small nonneg h unique named distinct =
      let order = env.visit s.history (keys s.instances) in
      let n = length s.instances - pos_part (desired a s) in
      rw
        (
          decision_down a c s (test_of_lt (desired a s) (current s) h),
          gap_down (desired a s) (length s.instances) small nonneg h,
        )
        (terminate_idle_count order n s.instances distinct unique named)

  -- Where the decision is below the current number and each instance stands under its own id, an
  -- instance that is not idle keeps its entry.
  pub scale_down_keeps_busy :
      (a c : ℤ) (s : Scaler) (k : String)
      → desired a s <ℤ current s
      → Named s.instances
      → passes is_idle (lookup k s.instances) ≡ false
      → lookup k (handle_desired_runner_count env a c s).1.instances ≡ lookup k s.instances
  unfolding terminate_idle_runners
  scale_down_keeps_busy a c s k h named busy =
      rw (decision_down a c s (test_of_lt (desired a s) (current s) h)) (
        terminate_idle_keeps_busy (env.visit s.history (keys s.instances))
          (current s -ℤ desired a s) s.instances k named busy)
