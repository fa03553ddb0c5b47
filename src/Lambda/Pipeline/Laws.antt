-- ===== src/Lambda/Pipeline/Laws.antt =====
-- How many runners the older way asks for.
use actionsspot.Prelude.{
  ℕ, ◌+◌, ◌-◌, ◌<◌, ◌≤◌, ◌^◌, min, pos, ◌+ℤ◌, ltb_ℤ, +ℤ_exact, sub_pos, ◌≡◌, refl, ◌∙◌, List, [],
  ◌∷◌, length, select, arith,
}
use actionsspot.Lambda.Types.{SelfHostedRunner, WorkflowRun}
use actionsspot.Lambda.Config.{Config}
use actionsspot.Lambda.Pipeline.{
  available, busy, is_online, wanted, limited, analyze_pipeline_status,
}

add_pos : (a b : ℕ) → a < 2 ^ 62 → b < 2 ^ 62 → pos a +ℤ pos b ≡ pos (a + b)
add_pos a b h k = +ℤ_exact (pos a) (pos b) (ground arith) ∙ ground arith

add_none : (a : ℕ) → a < 2 ^ 62 → pos a +ℤ pos 0 ≡ pos a
add_none a h = add_pos a 0 h (omega arith) ∙ ground arith

wanted_lem : (q a : ℕ) → q < 2 ^ 62 → a < 2 ^ 62 → wanted (pos q) (pos a) ≡ pos (q - a)
unfolding wanted
wanted_lem q a h k = ground (arith, sub_pos q a h k)

limited_lem :
    (m t n : ℕ)
    → m < 2 ^ 62
    → t < 2 ^ 62
    → n < 2 ^ 62
    → limited (pos m) (pos t) (pos n) ≡ pos (min n (m - t))
unfolding limited
limited_lem m t n h k l = rw (add_pos t n k l, sub_pos m t h k) (ground arith)

split_online :
    (runners : List SelfHostedRunner)
    → length (available runners) + length (busy runners) ≡ length (select is_online runners)
split_online [] = omega arith
split_online (runner ∷ runners) = ground (arith, split_online runners)

pub online_le :
    (runners : List SelfHostedRunner) → length (select is_online runners) ≤ length runners
online_le [] = omega arith
online_le (runner ∷ runners) = ground (arith, online_le runners)

-- With a limit that is not negative, and numbers that an int holds, the runners asked for are one for
-- each queued run less the available runners, cut to what the limit leaves beside the online runners;
-- they can be created exactly when there are any; and every online runner is available or busy.
pub analyze_pipeline_status_lem :
    (c : Config) (m : ℕ) (queued running : List WorkflowRun) (runners : List SelfHostedRunner)
    → c.max_runners ≡ pos m
    → m < 2 ^ 62
    → length queued < 2 ^ 62
    → length runners < 2 ^ 62
    → let status = analyze_pipeline_status c queued running runners in
      (status.runners_needed
        ≡ pos (
            min
              (length queued - length status.available_runners)
              (m - length (select is_online runners))))
      × (status.can_create_runners ≡ ltb_ℤ (pos 0) status.runners_needed)
      × (length status.available_runners + length status.busy_runners
          ≡ length (select is_online runners))
unfolding analyze_pipeline_status
analyze_pipeline_status_lem c m queued running runners e h q r =
    let le = online_le runners in
    let parts = split_online runners in
    let t = length (select is_online runners) in
    let a = length (available runners) in
    rw
      (
        e,
        add_none t (omega arith),
        wanted_lem (length queued) a q (omega arith),
        limited_lem m t (length queued - a) h (omega arith) (omega arith),
      )
      (refl, ground arith, parts)
