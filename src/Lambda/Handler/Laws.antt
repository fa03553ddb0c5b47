-- ===== src/Lambda/Handler/Laws.antt =====
-- How many spot instances one run of the function asks for.
use actionsspot.Prelude.{
  ℕ, zero, suc, ◌+◌, ◌-◌, ◌<◌, ◌≤◌, ◌^◌, min, ℤ, pos, pos_part, sub_ℕ, ◌+ℤ◌, ltb_ℤ, +ℤ_exact,
  sub_pos, ◌≡◌, refl, ◌∙◌, subst, true, false, not, String, List, length, select, if◌then◌else◌,
  arith,
}
use actionsspot.Effect.{History, Env, Result, ok, err, crash, pure, ◌>>=◌}
use actionsspot.Effect.Calls.{
  weight, Calls, Calls-bind, Calls-lift, Calls-pure, Calls-fail, Calls-attempt,
}
use actionsspot.Effect.Exactly.{Exactly-Calls}
use actionsspot.Lambda.Aws.Requests.{spots, Exactly-now, Exactly-create_spot_for_pipeline}
use actionsspot.Lambda.Types.{SelfHostedRunnerList, RegistrationToken}
use actionsspot.Lambda.Config.{Config}
use actionsspot.Lambda.Client.{get_self_hosted_runners, get_registration_token}
use actionsspot.Lambda.Client.Cost.{Calls-get_json}
use actionsspot.Lambda.Crd.{JobCount}
use actionsspot.Lambda.Aws.{create_spot_instance_for_pipeline, now}
use actionsspot.Lambda.Pipeline.{is_online}
use actionsspot.Lambda.Handler.{
  runners_to_create, create_one, create_needed, create_if_needed, on_created, on_success_count,
  on_token, execute_crd_based_scaling,
}

-- An int's sum with a difference gives the number back.
add_back : (n a : ℕ) → n < 2 ^ 62 → a < 2 ^ 62 → pos a +ℤ sub_ℕ n a ≡ pos n
add_back n a h k = +ℤ_exact (pos a) (sub_ℕ n a) (ground arith) ∙ ground arith

-- With a limit that is not negative, and numbers that an int holds, the runners to create are the
-- replicas needed, cut to the limit, less the active runners. The minimum has no part in it.
pub runners_to_create_lem :
    (c : Config) (m n a : ℕ)
    → c.max_runners ≡ pos m
    → m < 2 ^ 62
    → n < 2 ^ 62
    → a < 2 ^ 62
    → pos_part (runners_to_create c (pos n) (pos a)) ≡ min n m - a
unfolding runners_to_create
runners_to_create_lem c m n a e hm hn ha =
    rw (e, sub_pos n a hn ha, add_back n a hn ha, sub_pos m a hm ha) (ground arith)

module _ (env : Env) (c : Config) where
  Calls-now : Calls spots 0 (now env c)
  Calls-now = Exactly-Calls _ 0 (Exactly-now env c)

  Calls-create_spot :
      (name token : String) (labels : List String)
      → Calls spots 1 (create_spot_instance_for_pipeline env c name token labels)
  Calls-create_spot name token labels =
      Exactly-Calls _ 1 (Exactly-create_spot_for_pipeline env c name token labels)

  Calls-on_created : {A : Type 0} (n : ℕ) (r : Result A) → Calls spots 0 (on_created env c n r)
  Calls-on_created n (ok a) = Calls-pure _ 0
  Calls-on_created n (err e) = Calls-pure _ 0
  Calls-on_created n (crash x) = Calls-lift _

  Calls-on_token :
      (time i n : ℕ) (r : Result RegistrationToken) → Calls spots 1 (on_token env c time i n r)
  Calls-on_token time i n (ok token) =
      Calls-bind _ _ 1 0 (Calls-attempt _ 1 (Calls-create_spot _ _ _)) λ r. Calls-on_created n r
  Calls-on_token time i n (err e) = Calls-pure _ 1
  Calls-on_token time i n (crash x) = record {
    most = λ h. omega (arith, (Calls-lift {w = spots} {A = ℕ} (crash x)).most h);
  }

  Calls-create_one : (i n : ℕ) → Calls spots 1 (create_one env c i n)
  unfolding create_one get_registration_token
  Calls-create_one i n = Calls-bind _ _ 0 1 Calls-now λ time.
      Calls-bind _ _ 0 1
        (Calls-attempt _ 0 (Calls-get_json spots 0 env c _ _ _ _ _ λ req. omega arith))
        λ r. Calls-on_token time i n r

  Calls-create_needed : (rounds i n : ℕ) → Calls spots rounds (create_needed env c i n rounds)
  unfolding create_needed
  Calls-create_needed zero i n = Calls-pure n 0
  Calls-create_needed (suc rounds) i n =
      subst (λ k. Calls spots k (create_needed env c i n (suc rounds))) (ground arith)
        (Calls-bind _ _ 1 rounds (Calls-create_one i n) λ n'. Calls-create_needed rounds (i + 1) n')

  Calls-on_success : (needed : ℤ) (n : ℕ) → Calls spots 0 (on_success_count env c needed n)
  Calls-on_success needed zero = Calls-fail _ 0
  Calls-on_success needed (suc n) = Calls-pure tt 0

  pub Calls-create_if_needed :
      (needed : ℤ) → Calls spots (pos_part needed) (create_if_needed env c needed)
  Calls-create_if_needed needed =
      elim (not (ltb_ℤ (pos 0) needed))
        as (λ b. Calls spots (pos_part needed) (
          if b then pure tt else (do
            success_count ← create_needed env c 0 0 (pos_part needed)
            on_success_count env c needed success_count))) [
              | true ↦ Calls-pure tt _
              | false ↦
                  subst
                    (λ k. Calls spots k (do
                      success_count ← create_needed env c 0 0 (pos_part needed)
                      on_success_count env c needed success_count))
                    (ground arith)
                    (Calls-bind _ _ (pos_part needed) 0 (Calls-create_needed (pos_part needed) 0 0)
                      λ n. Calls-on_success needed n)
            ]

  abbrev pub needed_for : JobCount → SelfHostedRunnerList → ℤ
  needed_for count runners =
      runners_to_create c count.necessary_replicas (pos (length (select is_online runners.runners)))

  pub execute_listed :
      (count : JobCount) (runners : SelfHostedRunnerList) (h t : History)
      → get_self_hosted_runners env c h ≡ (ok runners, t)
      → execute_crd_based_scaling env c count h
        ≡ create_if_needed env c (needed_for count runners) t
  unfolding execute_crd_based_scaling ◌>>=◌
  execute_listed count runners h t listed = rw listed refl

  Calls-get_runners : Calls spots 0 (get_self_hosted_runners env c)
  unfolding get_self_hosted_runners
  Calls-get_runners = Calls-get_json spots 0 env c _ _ _ _ _ λ req. omega arith

  -- With a limit and a demand that are not negative, and numbers that an int holds: where the runners
  -- are listed, one run asks for no more spot instances than the replicas needed, cut to the limit,
  -- are more than the online runners.
  pub execute_within_limit :
      (count : JobCount) (runners : SelfHostedRunnerList) (h t : History) (m n : ℕ)
      → get_self_hosted_runners env c h ≡ (ok runners, t)
      → c.max_runners ≡ pos m
      → count.necessary_replicas ≡ pos n
      → m < 2 ^ 62
      → n < 2 ^ 62
      → length (select is_online runners.runners) < 2 ^ 62
      → weight spots (execute_crd_based_scaling env c count h).1
        ≤ weight spots h + (min n m - length (select is_online runners.runners))
  execute_within_limit count runners h t m n listed em en hm hn ha =
      let a = length (select is_online runners.runners) in
      let before : weight spots t ≤ weight spots h + 0 =
        subst (λ r. weight spots r.1 ≤ weight spots h + 0) listed (Calls-get_runners.most h) in
      let needed : pos_part (needed_for count runners) ≡ min n m - a =
        rw en (runners_to_create_lem c m n a em hm hn ha) in
      rw (execute_listed count runners h t listed)
        (omega (arith, (Calls-create_if_needed (needed_for count runners)).most t, before, needed))
