-- ===== src/Lambda/Minimum/Laws.antt =====
-- How many spot instances keeping the minimum asks for.
use actionsspot.Prelude.{
  ℕ, zero, suc, ◌+◌, ◌<◌, ◌^◌, ℤ, pos, ◌-ℤ◌, sub_pos, ltb_ℤ, String, List, ◌≡◌, refl, ◌∙◌, true,
  arith,
}
use actionsspot.Effect
use actionsspot.Effect.{History, Env, Result, ok, pure, attempt, ◌>>=◌, ◌>>◌}
use actionsspot.Effect.Calls.{weight}
use actionsspot.Effect.Exactly.{NoPanic, after_attempt}
use actionsspot.Lambda.Config.{Config}
use actionsspot.Lambda.Aws.{create_spot_instance}
use actionsspot.Lambda.Aws.Requests.{spots, Exactly-create_spot, Calm-create_spot}
use actionsspot.Lambda.Minimum.{
  get_current_runner_count, create_minimum_runner, create_minimum_runners, create_missing,
  maintain_min_runners,
}

module _ (env : Env) (c : Config) (unix_nano : History → ℤ)
    (spot_answers : (h : History) (req : Effect.SpotRequest) → NoPanic (env.spot_answer h req))
    (put_answers : (h : History) (item : List (String × String))
      → NoPanic (env.put_answer h item)) where
  one_runner :
      (h : History)
      → (create_minimum_runner env c unix_nano h).0 ≡ ok tt
        × (weight spots (create_minimum_runner env c unix_nano h).1 ≡ weight spots h + 1)
  unfolding create_minimum_runner pure
  one_runner h =
      let made = create_spot_instance env c (unix_nano h) c.runner_labels in
      let calm = Calm-create_spot env c spot_answers put_answers (unix_nano h) c.runner_labels in
      rw (after_attempt made (λ _. pure tt) calm h)
        (refl, (Exactly-create_spot env c (unix_nano h) c.runner_labels).weighs h)

  runners_made :
      (n : ℕ) (h : History)
      → (create_minimum_runners env c unix_nano n h).0 ≡ ok tt
        × (weight spots (create_minimum_runners env c unix_nano n h).1 ≡ weight spots h + n)
  unfolding create_minimum_runners ◌>>=◌ pure
  runners_made zero h = (refl, omega arith)
  runners_made (suc n) h =
      let one = one_runner h in
      let t = (create_minimum_runner env c unix_nano h).1 in
      let later = runners_made n t in rw one.0 (later.0, omega (arith, later.1, one.1))

  missing_made :
      (n : ℤ) (h : History)
      → ltb_ℤ (pos 0) n ≡ true
      → maintain_min_runners env c unix_nano n h ≡ create_missing env c unix_nano (n -ℤ pos 0) h
  unfolding maintain_min_runners get_current_runner_count ◌>>=◌ pure attempt
  missing_made n h e = rw e refl

  -- Where EC2 and DynamoDB answer with values or errors: for a minimum that is not negative and that
  -- an int holds, keeping it succeeds and asks for exactly so many new spot instances, on every call
  -- and however many runners there are.
  pub maintain_min_runners_lem :
      (m : ℕ) (h : History)
      → m < 2 ^ 62
      → ((maintain_min_runners env c unix_nano (pos m) h).0 ≡ ok tt)
        × (weight spots (maintain_min_runners env c unix_nano (pos m) h).1 ≡ weight spots h + m)
  unfolding maintain_min_runners pure
  maintain_min_runners_lem zero h b = (refl, omega arith)
  maintain_min_runners_lem (suc m) h b =
      let exact : pos (suc m) -ℤ pos 0 ≡ pos (suc m) =
        sub_pos (suc m) 0 b (omega arith) ∙ ground arith in
      let wanted : ltb_ℤ (pos 0) (pos (suc m)) ≡ true = ground arith in
      rw (missing_made (pos (suc m)) h wanted, exact, wanted) (runners_made (suc m) h)
