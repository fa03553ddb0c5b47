-- ===== src/Lambda/Client/Cost.antt =====
-- What a call of the client weighs: one request.
use actionsspot.Prelude.{ℕ, ◌≤◌, String, Option, subst, arith}
use actionsspot.Json.{Json}
use actionsspot.Effect.{Event, Request, Env, http}
use actionsspot.Effect.Calls.{Calls, Calls-bind, Calls-do_request, Calls-lift, Calls-wrapped}
use actionsspot.Lambda.Config.{Config}
use actionsspot.Lambda.Client.{get_json, make_request}

module _ (w : Event → ℕ) (n : ℕ) (env : Env) (c : Config) where
  pub Calls-make_request :
      (method url : String)
      → ((req : Request) → w (http req) ≤ n)
      → Calls w n (make_request env c method url)
  unfolding make_request
  Calls-make_request method url le =
      subst (λ k. Calls w k (make_request env c method url)) (ground arith)
        (Calls-bind _ _ 0 n (Calls-lift _) λ req. Calls-do_request w n env _ (le _))

  pub Calls-get_json :
      {A : Type 0} (f : Json → Option A) (method : String) (status : ℕ) (url what : String)
      → ((req : Request) → w (http req) ≤ n)
      → Calls w n (get_json env c f method status url what)
  Calls-get_json f method status url what le =
      subst (λ k. Calls w k (get_json env c f method status url what)) (ground arith)
        (Calls-bind _ _ n 0 (Calls-wrapped _ _ n (Calls-make_request method url le))
          λ resp. Calls-lift _)
