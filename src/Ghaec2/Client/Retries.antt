-- ===== src/Ghaec2/Client/Retries.antt =====
-- The retries of the registration with the actions service.
use actionsspot.Prelude.{
  ◌-◌, Option, some, ℕ, zero, suc, ◌+◌, ◌*◌, ◌^◌, ◌≤◌, min, ◌≡◌, refl, ◌==◌, ltb, not, ◌&&◌, ◌||◌,
  true, none, subst, arith,
}
use actionsspot.Effect.{Event, Request, Response, sleep, http, History, Env, Exec, read_lenient}
use actionsspot.Effect.Same.{same_bind, same_else}
use actionsspot.Effect.Limits.{Calls-le}
use actionsspot.Lambda.Types.{RegistrationToken}
use actionsspot.Ghaec2.Client.{Client, GitHubConfig}
use actionsspot.Ghaec2.Client.Setup.Requests.{new_github_api_request}
use actionsspot.Effect.Calls.{
  Calls-lift, Calls-if, weight, Calls, Calls-bind, Calls-do_request, Calls-fail, Calls-pure,
  Calls-wrapped,
}
use actionsspot.Ghaec2.Client.Setup.Registration.{
  draw_delay, is_html, on_registration, register, retry_delay, config_of, get_admin_connection,
}

-- A request weighs one; a wait weighs its milliseconds.
abbrev pub requests : Event → ℕ
requests (http req) = 1
requests _ = 0

abbrev pub waiting : Event → ℕ
waiting (sleep n) = n
waiting _ = 0

module _ (env : Env) where
  Calls-on_registration :
      (w : Event → ℕ) (n : ℕ) (retry_it : Exec History Response) (resp : Response)
      → Calls w n retry_it
      → Calls w n (on_registration env retry_it resp)
  Calls-on_registration w n retry_it resp k =
      Calls-if (not (ltb resp.status 200) && ltb resp.status 300) (Calls-pure _ n) (
        Calls-if (resp.status == 404 || is_html (read_lenient resp)) (Calls-fail _ n)
          (Calls-if (not (resp.status == 401) && not (resp.status == 403)) (Calls-fail _ n) k))

  Calls-delay :
      (w : Event → ℕ) (n retry : ℕ)
      → w Event.drew ≡ 0
      → ((m : ℕ) → m ≤ 20000 → w (sleep m) ≤ n)
      → Calls w n (draw_delay env retry)
  unfolding draw_delay retry_delay
  Calls-delay w n retry d le = record {
    most = λ h. omega (arith, d, le (min (500 * 2 ^ retry + env.jitter h) 20000) (omega arith));
  }

  over : (retry : ℕ) → retry ≡ 5 → ltb 5 (retry + 1) ≡ true
  over retry e = ground arith

  -- A weight that is `r` at most for a request and `d` at most for a wait; `left` retries are open.
  Calls-register :
      (w : Event → ℕ) (r d left fuel retry : ℕ) (req : Request)
      → retry + left ≡ 5
      → w Event.drew ≡ 0
      → ((m : ℕ) → m ≤ 20000 → w (sleep m) ≤ d)
      → ((q : Request) → w (http q) ≤ r)
      → Calls w (r + left * (d + r)) (register env fuel retry req)
  unfolding register
  Calls-register w r d left zero retry req sum none_drawn wait ask =
      Calls-le _ 0 _ (omega arith) (Calls-lift _)
  Calls-register w r d zero (suc fuel) retry req sum none_drawn wait ask =
      Calls-bind _ _ r _ (Calls-wrapped _ _ r (Calls-do_request w r env req (ask req))) λ resp.
        Calls-on_registration w _ _ resp (rw (over retry (omega (arith, sum))) (Calls-fail _ _))
  Calls-register w r d (suc left) (suc fuel) retry req sum none_drawn wait ask =
      subst (λ n. Calls w n (register env (suc fuel) retry req)) (ground arith)
        (Calls-bind _ _ r (d + (r + left * (d + r)))
          (Calls-wrapped _ _ r (Calls-do_request w r env req (ask req)))
          λ resp. Calls-on_registration w _ _ resp (
            Calls-if (ltb 5 (retry + 1)) (Calls-fail _ _) (
              Calls-bind _ _ d _ (Calls-delay w d (retry + 1) none_drawn wait) λ x.
                Calls-register w r d left fuel (retry + 1) (record req { body = none })
                  (omega (arith, sum)) none_drawn wait ask)))

  Calls-config : (w : Event → ℕ) (o : Option GitHubConfig) → Calls w 0 (config_of env o)
  Calls-config w none = Calls-lift _
  Calls-config w (some config) = Calls-pure _ 0

  -- What the registration weighs, from the client's configuration to the connection.
  Calls-connection :
      (w : Event → ℕ) (r d : ℕ) (c : Client) (token : RegistrationToken)
      → w Event.drew ≡ 0
      → ((m : ℕ) → m ≤ 20000 → w (sleep m) ≤ d)
      → ((q : Request) → w (http q) ≤ r)
      → Calls w (r + 5 * (d + r)) (get_admin_connection env c token)
  unfolding get_admin_connection new_github_api_request
  Calls-connection w r d c token none_drawn wait ask =
      Calls-le _ (0 + (0 + 0 + ((r + 5 * (d + r)) + (0 + 0)))) _ (omega arith) (
        Calls-bind _ _ 0 _ (Calls-config w c.config) λ config.
          Calls-bind _ _ (0 + 0) _
            (Calls-wrapped _ _ _
              (Calls-bind _ _ 0 0 (Calls-wrapped _ _ 0 (Calls-lift _)) λ req. Calls-pure _ 0))
            λ req.
              Calls-bind _ _ _ (0 + 0) (Calls-register w r d 5 6 0 _ refl none_drawn wait ask)
                λ resp. Calls-bind _ _ 0 0 (Calls-lift _) λ connection. Calls-lift _)

  same_registration :
      (again₁ again₂ : Exec History Response) (resp : Response) (h : History)
      → again₁ h ≡ again₂ h
      → on_registration env again₁ resp h ≡ on_registration env again₂ resp h
  same_registration again₁ again₂ resp h same =
      same_else (not (ltb resp.status 200) && ltb resp.status 300) _ _ _ h λ a.
        same_else (resp.status == 404 || is_html (read_lenient resp)) _ _ _ h
          λ b. same_else (not (resp.status == 401) && not (resp.status == 403)) _ _ _ h λ c. same

  more_fuel :
      (fuel extra retry : ℕ) (req : Request) (h : History)
      → fuel + retry ≡ 5
      → register env (suc (fuel + extra)) retry req h ≡ register env (suc fuel) retry req h
  unfolding register
  more_fuel zero extra retry req h sum =
      same_bind _ _ _ h
        λ resp t. same_registration _ _ resp t (rw (over retry (omega (arith, sum))) refl)
  more_fuel (suc fuel) extra retry req h sum =
      let same : suc (fuel + extra) ≡ suc fuel + extra = omega arith in
      same_bind _ _ _ h λ resp t. same_registration _ _ resp t (
        same_else (ltb 5 (retry + 1)) _ _ _ t λ within.
          same_bind (draw_delay env (retry + 1))
            (λ _. register env (suc fuel + extra) (retry + 1) (record req { body = none }))
            (λ _. register env (suc fuel) (retry + 1) (record req { body = none })) t
            λ x u.
              subst
                (λ n.
                  register env n (retry + 1) (record req { body = none }) u
                  ≡ register env (suc fuel) (retry + 1) (record req { body = none }) u)
                same
                (more_fuel fuel extra (retry + 1) (record req { body = none }) u
                  (omega (arith, sum))))

  -- Whatever is answered, asking for the admin connection makes six requests at most, and waits a
  -- hundred seconds at most in all; the loop stops by itself, so that with more rounds than the six
  -- that it is given it has the same result and makes the same requests.
  pub registration_bounds :
      (c : Client) (token : RegistrationToken) (rounds : ℕ) (req : Request) (h : History)
      → 6 ≤ rounds
      → (weight requests (get_admin_connection env c token h).1 ≤ weight requests h + 6)
        × (weight waiting (get_admin_connection env c token h).1 ≤ weight waiting h + 100000)
        × (register env rounds 0 req h ≡ register env 6 0 req h)
  registration_bounds c token rounds req h enough =
      let same : suc (5 + (rounds - 6)) ≡ rounds = omega arith in
      (
        (Calls-connection requests 1 0 c token refl (λ m le. omega arith) (λ q. omega arith)).most
            h,
        (Calls-connection waiting 0 20000 c token refl (λ m le. omega arith)
              (λ q. omega arith)).most
            h,
        subst (λ n. register env n 0 req h ≡ register env 6 0 req h) same
            (more_fuel 5 (rounds - 6) 0 req h refl),
      )
