-- ===== src/Ghaec2/Scaler/Expiry/Errors.antt =====
-- ghaec2/gha_actions_client.go: the texts of the errors of the session's three calls.
use actionsspot.Prelude.{
  ℤ, String, ◌≡◌, refl, Bool, true, false, not, ◌==◌, Option, none, some, List, if◌then◌else◌,
}
use actionsspot.Json.{Json}
use actionsspot.Effect
use actionsspot.Effect.{
  Request, Response, History, Env, Error, plain, wrap, actions, actions_detail, error_text, Result,
  ok, err, crash, Exec, pure, fail, lift, wrapped, wrap_result, attempt, ◌>>=◌, ◌>>◌, do_request,
  unmarshal_as, read_lenient, decode_body, decode_read, decode_json, converted, new_request,
  request_to, Url,
}
use actionsspot.Ghaec2.Types.{RunnerScaleSetMessage, decode_message}
use actionsspot.Ghaec2.Client.{
  decode_gh_error, parse_error_response, error_of_body, gh_error, Client,
}
use actionsspot.Ghaec2.Client.Messages.{
  get_message as client_get, acquire_jobs, delete_message, read_message, message_text,
  decoded_message, ask_for_message, send_delete,
}
use actionsspot.Ghaec2.Scaler.{is_token_expired}
use actionsspot.Ghaec2.Scaler.Expiry.Texts.{
  IsNotice, wrap_not_expired, plain_not_expired, actions_not_expired, capacity_not_expired,
}

-- No error of the result has one of the texts.
abbrev pub Fresh {ℓ} : {A : Type ℓ} → Result A → Type 0
Fresh (ok a) = Unit
Fresh (err e) = is_token_expired e ≡ false
Fresh (crash m) = Unit

pub record Unexpired {S A : Type 0} (m : Exec S A) : Type 0 where
  pub at : (s : S) → Fresh (m s).0

module _ {S A : Type 0} where
  Unexpired-pure : (a : A) → Unexpired {S = S} (pure a)
  unfolding pure
  Unexpired-pure a = record { at = λ s. tt }

  Unexpired-fail : (e : Error) → is_token_expired e ≡ false → Unexpired {S = S} {A = A} (fail e)
  unfolding fail
  Unexpired-fail e h = record { at = λ s. h }

  Unexpired-lift : (r : Result A) → Fresh r → Unexpired {S = S} (lift r)
  unfolding lift
  Unexpired-lift r h = record { at = λ s. h }

  Unexpired-wrapped : (p : String) (m : Exec S A) → IsNotice p → Unexpired (wrapped p m)
  unfolding wrapped
  Unexpired-wrapped p m n = record { at = λ s. go (m s).0 }
    where
      go : (r : Result A) → Fresh (wrap_result p r)
      go (ok a) = tt
      go (err e) = wrap_not_expired p e n
      go (crash x) = tt

  Unexpired-if :
      (b : Bool) (m n : Exec S A) → Unexpired m → Unexpired n → Unexpired (if b then m else n)
  Unexpired-if true m n h k = h
  Unexpired-if false m n h k = k

module _ {S A B : Type 0} where
  pub Unexpired-bind :
      (m : Exec S A) (f : A → Exec S B)
      → Unexpired m
      → ((a : A) → Unexpired (f a))
      → Unexpired (m >>= f)
  unfolding ◌>>=◌
  Unexpired-bind m f hm hf = record { at = λ s. go (m s).0 (m s).1 (hm.at s) }
    where
      go : (r : Result A) (s : S) → Fresh r → Fresh (Effect.continue r f s).0
      go (ok a) s h = (hf a).at s
      go (err e) s h = h
      go (crash x) s h = tt

module _ (env : Env) where
  Fresh-request :
      (method url : String) (body : Option Json) → Fresh (new_request env method url body)
  Fresh-request method url body =
      elim (env.parse_url url) as (λ o. Fresh (request_to method body o)) [
        | none ↦ unfold is_token_expired error_text in refl
        | some u ↦ tt
      ]

  error_response_not_expired :
      (resp : Response) → is_token_expired (parse_error_response env resp) ≡ false
  unfolding parse_error_response
  error_response_not_expired resp =
      elim resp.body
        as (λ o. is_token_expired (error_of_body env resp.status resp.request_id o) ≡ false) [
          | none ↦ actions_not_expired _ _ _ _
          | some b ↦
              elim (unmarshal_as env decode_gh_error b)
                as (λ o. is_token_expired (gh_error env resp.status resp.request_id b o) ≡ false) [
                  | none ↦ actions_not_expired _ _ _ _
                  | some gh ↦ actions_not_expired _ _ _ _
                ]
        ]

  Fresh-decode :
      {A : Type 0} (f : Json → Option A) (resp : Response) (p : String)
      → IsNotice p
      → Fresh (decode_body env f resp p)
  Fresh-decode f resp p n = elim resp.body as (λ o. Fresh (decode_read env f p o)) [
    | none ↦ wrap_not_expired p _ n
    | some b ↦ elim (env.decode b) as (λ o. Fresh (decode_json env f p o)) [
      | none ↦ wrap_not_expired p _ n
      | some j ↦ elim (f j) as (λ o. Fresh (converted p o)) [
        | none ↦ wrap_not_expired p _ n
        | some a ↦ tt
      ]
    ]
  ]

  Fresh-text : (o : Option String) → Fresh (message_text env o)
  Fresh-text none = wrap_not_expired "failed to read response body" _ (refl, refl)
  Fresh-text (some b) =
      elim (unmarshal_as env decode_message b) as (λ o. Fresh (decoded_message env o)) [
        | none ↦ wrap_not_expired "failed to decode response" _ (refl, refl)
        | some m ↦ tt
      ]

  Fresh-if :
      {A : Type 0} (b : Bool) (r q : Result A) → Fresh r → Fresh q → Fresh (if b then r else q)
  Fresh-if true r q h k = h
  Fresh-if false r q h k = k

  Fresh-message : (resp : Response) → Fresh (read_message env resp)
  Fresh-message resp =
      Fresh-if {A = Option RunnerScaleSetMessage} (resp.status == 202) (ok none)
        (if not (resp.status == 200)
          then err (parse_error_response env resp)
          else message_text env resp.body)
        tt
        (Fresh-if {A = Option RunnerScaleSetMessage} (not (resp.status == 200))
          (err (parse_error_response env resp)) (message_text env resp.body)
          (error_response_not_expired resp) (Fresh-text resp.body))

  ask-Unexpired :
      (token : String) (last capacity : ℤ) (o : Option Url)
      → Unexpired (ask_for_message env token last capacity o)
  ask-Unexpired token last capacity none =
      Unexpired-fail _ (wrap_not_expired "failed to parse message queue URL" _ (refl, refl))
  ask-Unexpired token last capacity (some u) =
      Unexpired-if _ _ _ (Unexpired-fail _ capacity_not_expired) (
        Unexpired-bind _ _
          (Unexpired-bind _ _ (Unexpired-lift _ (Fresh-request _ _ _)) (λ req. Unexpired-pure _))
          λ req.
            Unexpired-bind _ _ (Unexpired-wrapped _ _ (refl, refl))
              λ resp. Unexpired-lift _ (Fresh-message resp))

  pub get_message-Unexpired :
      (url token : String) (last capacity : ℤ) → Unexpired (client_get env url token last capacity)
  unfolding client_get
  get_message-Unexpired url token last capacity =
      ask-Unexpired token last capacity (env.parse_url url)

  pub acquire_jobs-Unexpired :
      (c : Client) (i : ℤ) (token : String) (ids : List ℤ)
      → Unexpired (acquire_jobs env c i token ids)
  unfolding acquire_jobs
  acquire_jobs-Unexpired c i token ids =
      Unexpired-bind _ _ (Unexpired-lift _ (Fresh-request _ _ _)) λ req.
        Unexpired-bind _ _ (Unexpired-wrapped _ _ (refl, refl)) λ resp.
          Unexpired-if _ _ _
            (Unexpired-fail _ (plain_not_expired "failed to acquire jobs (HTTP " _ (refl, refl)))
            (Unexpired-lift _ (Fresh-decode _ resp _ (refl, refl)))

  delete-Unexpired :
      (token : String) (i : ℤ) (o : Option Url) → Unexpired (send_delete env token i o)
  delete-Unexpired token i none =
      Unexpired-fail _ (wrap_not_expired "failed to parse message queue URL" _ (refl, refl))
  delete-Unexpired token i (some u) =
      Unexpired-bind _ _ (Unexpired-lift _ (Fresh-request _ _ _)) λ req.
        Unexpired-bind _ _ (Unexpired-wrapped _ _ (refl, refl)) λ resp.
          Unexpired-if _ _ _
            (Unexpired-fail _ (plain_not_expired "failed to delete message (HTTP " _ (refl, refl)))
            (Unexpired-pure tt)

  pub delete_message-Unexpired :
      (url token : String) (i : ℤ) → Unexpired (delete_message env url token i)
  unfolding delete_message
  delete_message-Unexpired url token i =
      Unexpired-if _ _ _ (Unexpired-pure tt) (delete-Unexpired token i (env.parse_url url))
