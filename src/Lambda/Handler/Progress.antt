-- ===== src/Lambda/Handler/Progress.antt =====
-- A run of the function that succeeds although runners are missing has asked for one.
use actionsspot.Prelude.{
  ℕ, zero, suc, ◌+◌, ◌-◌, ◌<◌, ◌≤◌, ◌^◌, min, ℤ, pos, pos_part, ltb_ℤ, ◌≡◌, refl, subst, true,
  String, length, select, arith, Option,
}
use actionsspot.Json.{Json}
use actionsspot.Effect
use actionsspot.Effect.{
  spot, http, History, Env, Request, Result, ok, err, crash, Exec, pure, fail, lift, wrapped,
  attempt, attempt_result, ◌>>=◌, ◌>>◌,
}
use actionsspot.Effect.Calls.{weight}
use actionsspot.Effect.Returns.{OfValue}
use actionsspot.Effect.Fails.{IsValue}
use actionsspot.Effect.Exactly.{
  Exactly, Exactly-first, Exactly-lift, Exactly-wrapped, Exactly-attempt, Exactly-do_request,
}
use actionsspot.Lambda.Types.{SelfHostedRunnerList, RegistrationToken}
use actionsspot.Lambda.Config.{Config}
use actionsspot.Lambda.Client.{
  get_json, make_request, get_self_hosted_runners, get_registration_token,
}
use actionsspot.Lambda.Crd.{JobCount}
use actionsspot.Lambda.Aws.Requests.{spots, Exactly-now, Exactly-create_spot_for_pipeline}
use actionsspot.Lambda.Pipeline.{is_online}
use actionsspot.Lambda.Handler.{
  create_one, create_needed, create_if_needed, on_created, on_success_count, on_token,
  execute_crd_based_scaling,
}
use actionsspot.Lambda.Handler.Laws.{runners_to_create_lem, needed_for, execute_listed}

-- The number that is returned has grown by no more than the instances that were asked for.
record Earned (n : ℕ) (m : Exec History ℕ) : Type 0 where
  earned : (h : History) → OfValue (λ n'. n' + weight spots h ≤ n + weight spots (m h).1) (m h).0

Earned-pure : (n : ℕ) → Earned n (pure n)
unfolding pure
Earned-pure n = record { earned = λ h. omega arith }

Earned-crash : (n : ℕ) (x : String) → Earned n (lift (crash x))
unfolding lift
Earned-crash n x = record { earned = λ h. tt }

Earned-after :
    {A : Type 0} (n : ℕ) (m : Exec History A) (f : A → Exec History ℕ)
    → Exactly spots 0 m
    → ((a : A) → Earned n (f a))
    → Earned n (m >>= f)
unfolding ◌>>=◌
Earned-after {A} n m f free later = record {
  earned = λ h. of_result (m h).0 (m h).1 h (free.weighs h);
}
  where
    of_result :
        (r : Result A) (t h : History)
        → weight spots t ≡ weight spots h + 0
        → OfValue
            (λ n'. n' + weight spots h ≤ n + weight spots (Effect.continue r f t).1)
            (Effect.continue r f t).0
    of_result (ok a) t h e =
        subst (λ w. OfValue (λ n'. n' + w ≤ n + weight spots (f a t).1) (f a t).0) (omega arith)
          ((later a).earned t)
    of_result (err x) t h e = tt
    of_result (crash x) t h e = tt

Earned-bind :
    (n : ℕ) (m : Exec History ℕ) (f : ℕ → Exec History ℕ)
    → Earned n m
    → ((k : ℕ) → Earned k (f k))
    → Earned n (m >>= f)
unfolding ◌>>=◌
Earned-bind n m f first later = record {
  earned = λ h. of_result (m h).0 (m h).1 h (first.earned h);
}
  where
    add_up :
        (r : Result ℕ) (k a b d : ℕ)
        → k + a ≤ n + b
        → OfValue (λ n'. n' + b ≤ k + d) r
        → OfValue (λ n'. n' + a ≤ n + d) r
    add_up (ok n') k a b d e v = omega arith
    add_up (err x) k a b d e v = tt
    add_up (crash x) k a b d e v = tt

    of_result :
        (r : Result ℕ) (t h : History)
        → OfValue (λ k. k + weight spots h ≤ n + weight spots t) r
        → OfValue
            (λ n'. n' + weight spots h ≤ n + weight spots (Effect.continue r f t).1)
            (Effect.continue r f t).0
    of_result (ok k) t h e = add_up (f k t).0 k _ _ _ e ((later k).earned t)
    of_result (err x) t h e = tt
    of_result (crash x) t h e = tt

positive : (n : ℤ) → 0 < pos_part n → ltb_ℤ (pos 0) n ≡ true
positive n h = ground arith

module _ (env : Env) (c : Config) where
  Free-make_request : (method url : String) → Exactly spots 0 (make_request env c method url)
  unfolding make_request
  Free-make_request method url =
      Exactly-first _ _ 0 (Exactly-lift _) λ req. Exactly-do_request spots env _ refl

  Free-get_json :
      {A : Type 0} (f : Json → Option A) (method : String) (status : ℕ) (url what : String)
      → Exactly spots 0 (get_json env c f method status url what)
  Free-get_json f method status url what =
      Exactly-first _ _ 0 (Exactly-wrapped _ _ 0 (Free-make_request method url))
        λ resp. Exactly-lift _

  Free-runners : Exactly spots 0 (get_self_hosted_runners env c)
  unfolding get_self_hosted_runners
  Free-runners = Free-get_json _ _ _ _ _

  created_lem :
      {A : Type 0} (n : ℕ) (r : Result A) (t h : History)
      → weight spots t ≡ weight spots h + 1
      → OfValue
          (λ n'.
            n' + weight spots h
            ≤ n + weight spots (Effect.continue (attempt_result r) (on_created env c n) t).1)
          (Effect.continue (attempt_result r) (on_created env c n) t).0
  unfolding pure lift
  created_lem n (ok a) t h e = omega arith
  created_lem n (err x) t h e = omega arith
  created_lem n (crash x) t h e = tt

  -- One instance is asked for, and one is counted at most.
  Earned-created :
      {A : Type 0} (n : ℕ) (m : Exec History A)
      → Exactly spots 1 m
      → Earned n (attempt m >>= on_created env c n)
  unfolding ◌>>=◌ attempt
  Earned-created n m one = record { earned = λ h. created_lem n (m h).0 (m h).1 h (one.weighs h) }

  Earned-on_token :
      (time i n : ℕ) (r : Result RegistrationToken) → Earned n (on_token env c time i n r)
  Earned-on_token time i n (ok token) =
      Earned-created n _ (Exactly-create_spot_for_pipeline env c _ token.token c.runner_labels)
  Earned-on_token time i n (err e) = Earned-pure n
  Earned-on_token time i n (crash x) = Earned-crash n x

  Earned-create_one : (i n : ℕ) → Earned n (create_one env c i n)
  unfolding create_one get_registration_token
  Earned-create_one i n = Earned-after n _ _ (Exactly-now env c) λ time.
      Earned-after n _ _ (Exactly-attempt _ 0 (Free-get_json _ _ _ _ _))
        λ r. Earned-on_token time i n r

  Earned-create_needed : (rounds i n : ℕ) → Earned n (create_needed env c i n rounds)
  unfolding create_needed
  Earned-create_needed zero i n = Earned-pure n
  Earned-create_needed (suc rounds) i n =
      Earned-bind n _ _ (Earned-create_one i n) λ k. Earned-create_needed rounds (i + 1) k

  succeeded :
      (needed : ℤ) (r : Result ℕ) (t h : History)
      → OfValue (λ n'. n' + weight spots h ≤ 0 + weight spots t) r
      → IsValue (Effect.continue r (on_success_count env c needed) t).0
      → weight spots h < weight spots (Effect.continue r (on_success_count env c needed) t).1
  unfolding fail pure
  succeeded needed (ok zero) t h e v = absurd v
  succeeded needed (ok (suc n)) t h e v = omega arith
  succeeded needed (err x) t h e v = absurd v
  succeeded needed (crash x) t h e v = absurd v

  needed_succeeds :
      (needed : ℤ) (h : History)
      → ltb_ℤ (pos 0) needed ≡ true
      → IsValue (create_if_needed env c needed h).0
      → weight spots h < weight spots (create_if_needed env c needed h).1
  unfolding ◌>>=◌
  needed_succeeds needed h e =
      rw e (succeeded needed _ _ h ((Earned-create_needed (pos_part needed) 0 0).earned h))

  -- With a limit and a demand that are not negative, and numbers that an int holds: where the runners
  -- are listed, and fewer are online than the replicas needed, cut to the limit, a run that succeeds
  -- has asked for one spot instance at least.
  pub execute_makes_progress :
      (count : JobCount) (runners : SelfHostedRunnerList) (h t : History) (m n : ℕ)
      → get_self_hosted_runners env c h ≡ (ok runners, t)
      → c.max_runners ≡ pos m
      → count.necessary_replicas ≡ pos n
      → m < 2 ^ 62
      → n < 2 ^ 62
      → length (select is_online runners.runners) < min n m
      → IsValue (execute_crd_based_scaling env c count h).0
      → weight spots h < weight spots (execute_crd_based_scaling env c count h).1
  execute_makes_progress count runners h t m n listed em en hm hn missing =
      let a = length (select is_online runners.runners) in
      let before : weight spots t ≡ weight spots h + 0 =
        subst (λ r. weight spots r.1 ≡ weight spots h + 0) listed (Free-runners.weighs h) in
      let needed : pos_part (needed_for env c count runners) ≡ min n m - a =
        rw en (runners_to_create_lem c m n a em hm hn (omega arith)) in
      rw (execute_listed env c count runners h t listed) (λ v. omega (
        arith,
        before,
        needed_succeeds (needed_for env c count runners) t (positive _ (omega (arith, needed))) v,
      ))
