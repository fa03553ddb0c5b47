-- ===== src/Ghaec2/Scaler/Following.antt =====
-- The question that follows a message: it asks for what comes after it.
use actionsspot.Prelude.{
  ℤ, pos, ◌<ℤ◌, ◌≤ℤ◌, ltb_ℤ, show_int, String, ◌≡◌, refl, subst, true, false, some, ◌∷◌, arith,
}
use actionsspot.Effect
use actionsspot.Effect.{
  Url, Request, http, History, Env, Result, ok, err, crash, wrapped, lift, pure, do_request, ◌>>=◌,
  set_param, new_request, request_to, Exec,
}
use actionsspot.Ghaec2.Types.{RunnerScaleSetMessage, RunnerScaleSetSession}
use actionsspot.Ghaec2.Client.Messages.{get_message as client_get, read_message}
use actionsspot.Ghaec2.Scaler.{Scaler, call, gets, deref}
use actionsspot.Ghaec2.Scaler.Messages.{ask_message, get_message, acquire_step, handle_message}
use actionsspot.Ghaec2.Scaler.Parse.{ParsedMessage, parse_message}
use actionsspot.Ghaec2.Scaler.Expiry.{session_never_refreshed}
use actionsspot.Ghaec2.Scaler.Acknowledge.{handle_message_acknowledged}

-- One request was made after `h`, to this address.
abbrev pub Asked : Url → History → History → Type 0
Asked u h t = (req : Request) × (t ≡ http req ∷ h) × (req.url ≡ u)

end_state :
    {A B : Type 0} (r : Result A) (f : A → Result B) (t : History)
    → (Effect.continue r (λ a. lift (f a)) t).1 ≡ t
unfolding lift
end_state (ok a) f t = refl
end_state (err e) f t = refl
end_state (crash m) f t = refl

-- The address of the question for what follows message `i`.
abbrev pub following : ℤ → Url → Url
following i = set_param "lastMessageId" (show_int i)

module _ (env : Env) where
  -- An address that is written is read back as it was.
  abbrev pub ReadsBack : Url → Type 0
  ReadsBack u = env.parse_url (env.url_string u) ≡ some u

  get_message-Asked :
      (url token : String) (last capacity : ℤ) (u : Url) (h : History)
      → env.parse_url url ≡ some u
      → pos 0 ≤ℤ capacity
      → pos 0 <ℤ last
      → ReadsBack (following last u)
      → Asked (following last u) h (client_get env url token last capacity h).1
  unfolding client_get ◌>>=◌ lift pure wrapped do_request
  get_message-Asked url token last capacity u h parsed room some_last same =
      let not_negative : ltb_ℤ capacity (pos 0) ≡ false = ground arith in
      let positive : ltb_ℤ (pos 0) last ≡ true = ground arith in
      rw (parsed, not_negative, positive, same) (_, end_state _ (read_message env) _, refl)

  ask_message-Asked :
      (s : Scaler) (session : RunnerScaleSetSession) (u : Url)
      → s.session ≡ some session
      → env.parse_url session.message_queue_url ≡ some u
      → pos 0 ≤ℤ s.config.max_runners
      → pos 0 <ℤ s.last_message_id
      → ReadsBack (following s.last_message_id u)
      → Asked (following s.last_message_id u) s.history (ask_message env s).1.history
  unfolding gets deref call ◌>>=◌
  ask_message-Asked s session u held parsed room some_last same = rw held (
      get_message-Asked session.message_queue_url session.message_queue_access_token
        s.last_message_id s.config.max_runners u s.history parsed room some_last same)

  marked-Asked :
      (t : Scaler) (i : ℤ) (session : RunnerScaleSetSession) (u : Url)
      → t.last_message_id ≡ i
      → t.session ≡ some session
      → env.parse_url session.message_queue_url ≡ some u
      → pos 0 ≤ℤ t.config.max_runners
      → pos 0 <ℤ i
      → ReadsBack (following i u)
      → Asked (following i u) t.history (get_message env t).1.history
  unfolding wrapped
  marked-Asked t i session u marked held read room some_id same =
      subst (λ j. Asked (following j u) t.history (get_message env t).1.history) marked
        (rw (session_never_refreshed env t).0
          (ask_message-Asked t session u held read room (rw marked some_id) (rw marked same)))

  -- After a message with a positive id has been parsed and its jobs have been acquired, the next
  -- question for a message is one request, which asks for what follows that message: where the
  -- session, the capacity and the queue's address are valid, and the address that asks for what
  -- follows is read back as it was written.
  pub next_question :
      (msg : RunnerScaleSetMessage) (s : Scaler) (parsed : ParsedMessage)
      (session : RunnerScaleSetSession) (u : Url)
      → parse_message env msg ≡ ok parsed
      → (acquire_step env parsed.jobs_available s).0 ≡ ok tt
      → (handle_message env msg s).1.session ≡ some session
      → env.parse_url session.message_queue_url ≡ some u
      → pos 0 ≤ℤ (handle_message env msg s).1.config.max_runners
      → pos 0 <ℤ msg.message_id
      → ReadsBack (following msg.message_id u)
      → Asked
          (following msg.message_id u)
          (handle_message env msg s).1.history
          (get_message env (handle_message env msg s).1).1.history
  next_question msg s parsed session u p q held read room some_id same =
      marked-Asked (handle_message env msg s).1 msg.message_id session u
        (handle_message_acknowledged env msg s parsed p q).0 held read room some_id same
