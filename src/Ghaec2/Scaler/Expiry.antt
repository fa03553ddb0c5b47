-- ===== src/Ghaec2/Scaler/Expiry.antt =====
-- The refresh of a session after an expired token: the texts that it looks for are no error's.
mod Texts
mod Errors
use text.Mathlib.Text.{starts_with}
use actionsspot.Prelude.{
  ℕ, ℤ, String, ◌+++◌, ◌≡◌, refl, sym, ◌∙◌, ap, Bool, true, false, not, ◌||◌, ◌==◌, Option, none,
  some, List, [], ◌∷◌, map, decimal, eq_iff, str_eq, prefix_ne, join, if◌then◌else◌, arith,
  Bool-cases, Option-cases, inl, inr,
}
use actionsspot.Json
use actionsspot.Json.{Json}
use actionsspot.Effect
use actionsspot.Effect.{
  Request, Response, History, Env, Error, plain, wrap, actions, actions_detail, error_text, Result,
  ok, err, crash, Exec, pure, fail, lift, wrapped, wrap_result, attempt, ◌>>=◌, ◌>>◌, do_request,
  unmarshal_as, read_lenient, decode_body, decode_read, decode_json, converted, new_request,
  request_to, Url,
}
use actionsspot.Ghaec2.Types.{RunnerScaleSetMessage, decode_message, JobAvailable}
use actionsspot.Ghaec2.Client.{
  GhError, decode_gh_error, item_messages, parse_error_response, error_of_body, gh_error, Client,
}
use actionsspot.Ghaec2.Client.Messages.{
  get_message as client_get, acquire_jobs, delete_message, message_request, read_message,
  message_text, decoded_message, ask_for_message, send_delete,
}
use actionsspot.Ghaec2.Scaler.{Scaler, call, gets, deref, is_token_expired}
use actionsspot.Ghaec2.Scaler.Messages.{
  ask_message, get_message, ask_jobs, ask_delete, acquire_available_jobs, delete_last_message,
  recover,
}
use actionsspot.Ghaec2.Scaler.Expiry.Errors.{
  Fresh, Unexpired, Unexpired-bind, get_message-Unexpired, acquire_jobs-Unexpired,
  delete_message-Unexpired,
}

module _ (env : Env) where
  Unexpired-gets : {A : Type 0} (f : Scaler → A) → Unexpired (gets f)
  unfolding gets
  Unexpired-gets f = record { at = λ s. tt }

  Unexpired-deref : {A : Type 0} (o : Option A) → Unexpired (deref o)
  unfolding deref
  Unexpired-deref none = record { at = λ s. tt }
  Unexpired-deref (some a) = record { at = λ s. tt }

  Unexpired-call : {A : Type 0} (m : Exec History A) → Unexpired m → Unexpired (call m)
  unfolding call
  Unexpired-call m u = record { at = λ s. u.at s.history }

  ask_message-Unexpired : Unexpired (ask_message env)
  ask_message-Unexpired = Unexpired-bind _ _ (Unexpired-gets _) λ config.
      Unexpired-bind _ _ (Unexpired-gets _) λ last. Unexpired-bind _ _ (Unexpired-gets _) λ current.
        Unexpired-bind _ _ (Unexpired-deref current)
          λ session. Unexpired-call _ (get_message-Unexpired env _ _ _ _)

  ask_jobs-Unexpired :
      (ids : List ℤ) (token_of : Exec Scaler String)
      → Unexpired token_of
      → Unexpired (ask_jobs env ids token_of)
  ask_jobs-Unexpired ids token_of u = Unexpired-bind _ _ (Unexpired-gets _) λ client.
      Unexpired-bind _ _ (Unexpired-gets _) λ config.
        Unexpired-bind _ _ u λ token. Unexpired-call _ (acquire_jobs-Unexpired env _ _ _ _)

  ask_delete-Unexpired : Unexpired (ask_delete env)
  ask_delete-Unexpired = Unexpired-bind _ _ (Unexpired-gets _) λ last.
      Unexpired-bind _ _ (Unexpired-gets _) λ current.
        Unexpired-bind _ _ (Unexpired-deref current)
          λ session. Unexpired-call _ (delete_message-Unexpired env _ _ _)

  recover_result :
      {A : Type 0} (retry : Exec Scaler A) (after what : String) (r : Result A) (t : Scaler)
      → Fresh r
      → Effect.continue (Effect.attempt_result r) (recover env retry after what) t
        ≡ (wrap_result what r, t)
  unfolding ◌>>=◌
  recover_result retry after what (ok a) t h = refl
  recover_result retry after what (err e) t h = rw h
  recover_result retry after what (crash x) t h = refl

  -- A call whose errors are never the two texts is not recovered from: its errors are wrapped.
  recover-Unexpired :
      {A : Type 0} (m retry : Exec Scaler A) (after what : String) (s : Scaler)
      → Unexpired m
      → (attempt m >>= recover env retry after what) s ≡ wrapped what m s
  unfolding ◌>>=◌
  recover-Unexpired m retry after what s u =
      recover_result retry after what (m s).0 (m s).1 (u.at s)

  -- Whatever the service answers, polling, acquiring and deleting are the plain call with its error
  -- wrapped: the session is not refreshed and the call is not made again.
  pub session_never_refreshed :
      (s : Scaler)
      → (get_message env s ≡ wrapped "failed to get next message" (ask_message env) s)
        × ((jobs : List JobAvailable)
            → acquire_available_jobs env jobs s
              ≡ wrapped "failed to acquire jobs"
                  (ask_jobs env
                    (map (λ job. job.runner_request_id) jobs)
                    (gets λ t. t.client.admin_token))
                  s)
        × (delete_last_message env s ≡ wrapped "failed to delete last message" (ask_delete env) s)
  unfolding get_message acquire_available_jobs delete_last_message
  session_never_refreshed s = (
    recover-Unexpired _ _ _ _ s ask_message-Unexpired,
    λ jobs. recover-Unexpired _ _ _ _ s (ask_jobs-Unexpired _ _ (Unexpired-gets _)),
    recover-Unexpired _ _ _ _ s ask_delete-Unexpired,
  )

-- Of an error that the service explains in JSON, the text that err.Error() gives holds the
-- documentation's address and not the explanation: answers that differ in the explanation alone
-- have one text.
pub explanation_lost :
    (env : Env) (status : ℕ) (id body₁ body₂ : String) (gh₁ gh₂ : GhError)
    → unmarshal_as env decode_gh_error body₁ ≡ some gh₁
    → unmarshal_as env decode_gh_error body₂ ≡ some gh₂
    → gh₁.documentation_url ≡ gh₂.documentation_url
    → error_text
        (parse_error_response env (record { status = status; request_id = id; body = some body₁ }))
      ≡ error_text (
          parse_error_response env (record { status = status; request_id = id; body = some body₂ }))
unfolding parse_error_response error_text
explanation_lost env status id body₁ body₂ gh₁ gh₂ p q d = rw (p, q, d)
