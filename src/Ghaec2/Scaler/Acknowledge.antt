-- ===== src/Ghaec2/Scaler/Acknowledge.antt =====
-- When a message counts as handled: not before its jobs are acquired.
use actionsspot.Prelude.{ℤ, ◌≡◌, refl}
use actionsspot.Effect.{Env, Error, ok, err, ◌>>=◌}
use actionsspot.Ghaec2.Types.{RunnerScaleSetMessage}
use actionsspot.Ghaec2.Scaler.{Scaler, create_runner, terminate_idle_runners, handle_job_started}
use actionsspot.Ghaec2.Scaler.Parse.{ParsedMessage, parse_message}
use actionsspot.Ghaec2.Scaler.Frame.{Frame, Maintains-acquire_step, Maintains-settled}
use actionsspot.Ghaec2.Scaler.Scaling.{desired_keeps}
use actionsspot.Ghaec2.Scaler.Messages.{acquire_step, settle, handle_message}

abbrev LastIs : ℤ → Scaler → Type 0
LastIs i s = s.last_message_id ≡ i

last_frame : (env : Env) (i : ℤ) → Frame env (LastIs i)
unfolding create_runner terminate_idle_runners handle_job_started
last_frame env i = record {
  history = λ s x h. h;
  session = λ s x h. h;
  desired = desired_keeps env (LastIs i) (λ s h. h) (λ c s h. h);
  started = λ s r q h. h;
}

module _ (env : Env) (msg : RunnerScaleSetMessage) where
  -- A message whose jobs are not acquired leaves the last id as it was, and nothing is done after
  -- the acquisition: no delete, no scaling.
  pub handle_message_unacquired :
      (s : Scaler) (parsed : ParsedMessage) (e : Error)
      → parse_message env msg ≡ ok parsed
      → (acquire_step env parsed.jobs_available s).0 ≡ err e
      → (handle_message env msg s ≡ (err e, (acquire_step env parsed.jobs_available s).1))
        × ((handle_message env msg s).1.last_message_id ≡ s.last_message_id)
  unfolding handle_message ◌>>=◌
  handle_message_unacquired s parsed e p q =
      rw (p, q)
        (
          refl,
          (Maintains-acquire_step env (LastIs s.last_message_id) (last_frame env s.last_message_id)
                parsed.jobs_available).at
              s refl,
        )

  -- Once a message that parses has its jobs acquired, it is the last one handled, whatever fails
  -- after that, and the rest is the settling: delete, started jobs, scaling.
  pub handle_message_acknowledged :
      (s : Scaler) (parsed : ParsedMessage)
      → parse_message env msg ≡ ok parsed
      → (acquire_step env parsed.jobs_available s).0 ≡ ok tt
      → ((handle_message env msg s).1.last_message_id ≡ msg.message_id)
        × (handle_message env msg s
            ≡ settle env msg parsed (acquire_step env parsed.jobs_available s).1)
  unfolding handle_message ◌>>=◌
  handle_message_acknowledged s parsed p q =
      rw (p, q)
        (
          Maintains-settled env (LastIs msg.message_id) (last_frame env msg.message_id) msg parsed _
              refl,
          refl,
        )
