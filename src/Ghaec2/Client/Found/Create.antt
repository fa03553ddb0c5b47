-- ===== src/Ghaec2/Client/Found/Create.antt =====
-- What the request to create a scale set leads to.
use actionsspot.Prelude.{
  false, ℤ, pos, eqb_ℤ, String, ◌≡◌, refl, is_blank, not, ◌&&◌, ◌||◌, Option, none, some, List, ◌∷◌,
  Bool-cases, inl, inr, arith, ◌==◌,
}
use actionsspot.Effect
use actionsspot.Effect.Ends.{OfEnd, Ends, Ends-lift, Ends-wrapped, Ends-then}
use actionsspot.Effect.{
  read_all, Url, Reply, broken, reply_result, request_to, Request, http, replied, lift, do_request,
  ◌>>=◌, Env, Response, History, Result, ok, err, crash, unmarshal_as, attempt, attempt_result,
}
use actionsspot.Effect.Returns.{OfValue}
use actionsspot.Ghaec2.Types.{RunnerScaleSet, decode_scale_set}
use actionsspot.Ghaec2.Client.{Client, make_actions_service_request}
use actionsspot.Ghaec2.Client.ScaleSets.{scale_set_payload, decoded, create_scale_set, created}

module _ (name : String) (labels : List String) (env : Env) (c : Client) (group : ℤ) where
  -- The last event is the request to create the set, and this is its response.
  abbrev Sent : Response → History → Type 0
  Sent resp h =
      (req : Request) × (before : History) × (h ≡ http req ∷ before)
      × (req.method ≡ "POST")
      × (req.body ≡ some (scale_set_payload name labels group))
      × (env.answer before req ≡ replied resp)

  -- The set is what the service answered to the request to create it, with an id and a name.
  abbrev pub Created : RunnerScaleSet → History → Type 0
  Created ss h =
      (resp : Response) × (body : String) × Sent resp h
      × (resp.body ≡ some body)
      × (unmarshal_as env decode_scale_set body ≡ some ss)
      × (eqb_ℤ ss.id (pos 0) ≡ false)
      × (is_blank ss.name ≡ false)

  abbrev IsCreation : Request → Type 0
  IsCreation req = (req.method ≡ "POST") × (req.body ≡ some (scale_set_payload name labels group))

  do_request-Sent :
      (req : Request) (h : History) → IsCreation req → OfEnd Sent (do_request env req h)
  unfolding do_request
  do_request-Sent req h creation = of_reply (env.answer h req) refl
    where
      of_reply :
          (reply : Reply) → env.answer h req ≡ reply → OfEnd Sent (reply_result reply, http req ∷ h)
      of_reply (broken e) asked = tt
      of_reply (replied resp) asked = (req, h, refl, creation.0, creation.1, asked)

  new_request-IsCreation :
      (o : Option Url)
      → OfValue IsCreation (request_to "POST" (some (scale_set_payload name labels group)) o)
  new_request-IsCreation none = tt
  new_request-IsCreation (some u) = (refl, refl)

  Ends-make :
      (url : String)
      → Ends Sent (
          make_actions_service_request env c "POST" url
            (some (scale_set_payload name labels group)))
  unfolding make_actions_service_request
  Ends-make url =
      Ends-then Sent (λ req h. IsCreation req) _ _
        (Ends-lift _ _ λ h. new_request-IsCreation (env.parse_url url))
        λ req h creation. do_request-Sent _ h creation

  decoded-Created :
      (resp : Response) (body : String) (h : History)
      → Sent resp h
      → resp.body ≡ some body
      → (o : Option RunnerScaleSet) → unmarshal_as env decode_scale_set body ≡ o
      → OfValue (λ ss. Created ss h) (decoded env c o)
  decoded-Created resp body h sent read none e = tt
  decoded-Created resp body h sent read (some ss) e =
      elim (Bool-cases (eqb_ℤ ss.id (pos 0) || is_blank ss.name)) [
        | inl bad ↦ rw bad tt
        | inr good ↦ rw good (resp, body, sent, read, e, ground (arith, good), ground (arith, good))
      ]

  created-Created :
      (resp : Response) (body : String) (h : History)
      → Sent resp h
      → resp.body ≡ some body
      → OfValue (λ ss. Created ss h) (created env c resp body)
  created-Created resp body h sent read = elim (Bool-cases (resp.status == 403)) [
    | inl denied ↦ rw denied tt
    | inr allowed ↦ elim (Bool-cases (not (resp.status == 200) && not (resp.status == 201))) [
      | inl failed ↦ rw (allowed, failed) tt
      | inr made ↦ rw (allowed, made) (decoded-Created resp body h sent read _ refl)
    ]
  ]

  read-Created :
      (resp : Response) (h : History)
      → Sent resp h
      → (o : Option String) → resp.body ≡ o
      → OfEnd Created (
          Effect.continue
            (read_all (record resp { body = o }) "failed to read response body")
            (λ body. lift (created env c resp body))
            h)
  unfolding lift
  read-Created resp h sent none e = tt
  read-Created resp h sent (some body) e = created-Created resp body h sent e

  pub Ends-create : Ends Created (create_scale_set env c name labels group)
  unfolding create_scale_set lift ◌>>=◌
  Ends-create =
      Ends-then Created Sent _ _ (Ends-wrapped Sent _ _ (Ends-make _))
        λ resp h sent. read-Created resp h sent resp.body refl
