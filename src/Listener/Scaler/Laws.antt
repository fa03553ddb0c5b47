-- ===== src/Listener/Scaler/Laws.antt =====
-- What a message does to the listener: with the stubs, it moves the two counters and nothing else.
use actionsspot.Prelude.{
  ℕ, zero, suc, ℤ, pos, ◌≡◌, refl, is_blank, true, false, not, ◌&&◌, ltb_ℤ, ◌-ℤ◌, String, Option,
  none, some, if◌then◌else◌, str_eq, pos_part,
}
use actionsspot.Effect
use actionsspot.Effect.{Env, Error, wrap, Result, ok, err, crash, pure, attempt, ◌>>=◌, ◌>>◌}
use actionsspot.Ghaec2.Types.{JobMessageBase, RunnerScaleSetMessage, RunnerScaleSetStatistic}
use actionsspot.Listener.Types.{JobAvailable, decode_job_message}
use actionsspot.Listener.Scaler.{
  GhaListenerScaler, as_available, as_job_message, ask_message, create_runner, create_runners,
  desired_runners, get_current_runner_count, gets, handle_job_available, handle_job_message,
  labels_match, poll_and_process_messages, process_if_any, process_message_body,
  scale_based_on_statistics, scale_down, scale_if_any, scale_up, set_current_runners,
  set_last_message_id, terminate_idle_runners,
}

create_runners_lem : (n : ℕ) (s : GhaListenerScaler) → create_runners n s ≡ (ok tt, s)
unfolding create_runners create_runner ◌>>=◌
create_runners_lem zero s = refl
create_runners_lem (suc n) s = create_runners_lem n s

scale_up_lem : (d c : ℤ) (s : GhaListenerScaler) → scale_up d c s ≡ (ok tt, s)
scale_up_lem d c s =
    elim (ltb_ℤ c d)
      as (λ b. (if b then create_runners (pos_part (d -ℤ c)) else pure tt) s ≡ (ok tt, s)) [
        | true ↦ create_runners_lem _ s
        | false ↦ unfold pure in refl
      ]

scale_down_lem : (d c idle : ℤ) (s : GhaListenerScaler) → scale_down d c idle s ≡ (ok tt, s)
unfolding terminate_idle_runners ◌>>=◌
scale_down_lem d c idle s =
    elim (ltb_ℤ d c && ltb_ℤ (pos 0) idle)
      as (λ b.
        (if b
            then (do
              attempt (terminate_idle_runners (if ltb_ℤ idle (c -ℤ d) then idle else c -ℤ d))
              pure tt)
            else pure tt)
          s
        ≡ (ok tt, s)) [ true ↦ refl | false ↦ refl ]

-- Whatever the statistics and the bounds, scaling makes no call: it counts no runner, and that is
-- all it does.
pub scale_based_on_statistics_lem :
    (stats : RunnerScaleSetStatistic) (s : GhaListenerScaler)
    → scale_based_on_statistics stats s ≡ (ok tt, record s { current_runners = pos 0 })
unfolding scale_based_on_statistics ◌>>=◌ gets get_current_runner_count set_current_runners
scale_based_on_statistics_lem stats s =
    rw
      (scale_up_lem (desired_runners s.config stats) (pos 0) (record s { current_runners = pos 0 }))
      (scale_down_lem (desired_runners s.config stats) (pos 0) stats.total_idle_runners
        (record s { current_runners = pos 0 }))

handle_job_available_lem :
    (job : JobAvailable) (s : GhaListenerScaler) → handle_job_available job s ≡ (ok tt, s)
unfolding handle_job_available ◌>>=◌ gets get_current_runner_count create_runner
handle_job_available_lem job s =
    elim (not (labels_match job.base.request_labels s.config.runner_labels))
      as (λ b.
        (if b then pure tt else (do
          current ← Effect.wrapped "failed to get current runner count" get_current_runner_count
          if ltb_ℤ current s.config.max_runners then create_runner else pure tt))
          s
        ≡ (ok tt, s)) [
          | true ↦ refl
          | false ↦
              elim (ltb_ℤ (pos 0) s.config.max_runners)
                as (λ b. (if b then create_runner else pure tt) s ≡ (ok tt, s)) [
                  | true ↦ refl
                  | false ↦ refl
                ]
        ]

module _ (env : Env) where
  as_job_message_lem :
      (o : Option JobMessageBase) (s : GhaListenerScaler) → as_job_message o s ≡ (ok tt, s)
  unfolding handle_job_message pure
  as_job_message_lem none s = refl
  as_job_message_lem (some job) s = refl

  as_available_lem :
      (body : String) (o : Option JobAvailable) (s : GhaListenerScaler)
      → as_available env body o s ≡ (ok tt, s)
  as_available_lem body none s = as_job_message_lem _ s
  as_available_lem body (some job) s =
      let other = Effect.unmarshal_as env (decode_job_message env.valid_time) body in
      elim (str_eq job.base.message_type "JobAvailable")
        as (λ b. (if b then handle_job_available job else as_job_message other) s ≡ (ok tt, s)) [
          | true ↦ handle_job_available_lem job s
          | false ↦ as_job_message_lem other s
        ]

  process_lem :
      (message : RunnerScaleSetMessage) (s : GhaListenerScaler)
      → process_if_any env message s ≡ (ok tt, s)
  unfolding process_message_body ◌>>=◌
  process_lem message s =
      elim (is_blank message.body)
        as (λ b.
          (if b then pure tt else (do attempt (process_message_body env message); pure tt)) s
          ≡ (ok tt, s)) [ true ↦ refl | false ↦ rw (as_available_lem message.body _ s) refl ]

  -- The count of runners after a message: none, where it came with statistics.
  abbrev counted : Option RunnerScaleSetStatistic → ℤ → ℤ
  counted none n = n
  counted (some stats) n = pos 0

  scale_if_any_lem :
      (o : Option RunnerScaleSetStatistic) (s : GhaListenerScaler)
      → scale_if_any env o s ≡ (ok tt, record s { current_runners = counted o s.current_runners })
  unfolding ◌>>=◌
  scale_if_any_lem none s = refl
  scale_if_any_lem (some stats) s = rw (scale_based_on_statistics_lem stats s) refl

  -- Of a message that is received, polling records the id and the count of runners; it succeeds,
  -- whatever the statistics and the body are, and makes no call beside the one that asked.
  pub poll_records :
      (s t : GhaListenerScaler) (message : RunnerScaleSetMessage)
      → ask_message env s ≡ (ok (some message), t)
      → poll_and_process_messages env s ≡ (
        ok tt,
        record t {
          last_message_id = message.message_id;
          current_runners = counted message.statistics t.current_runners;
        },
      )
  unfolding poll_and_process_messages ◌>>=◌ set_last_message_id
  poll_records s t message asked =
      let noted = record t { last_message_id = message.message_id } in
      rw (asked, scale_if_any_lem message.statistics noted)
        (process_lem message
          (record noted { current_runners = counted message.statistics noted.current_runners }))

  -- Where the question fails, polling reports its error and changes nothing more than it did.
  pub poll_reports :
      (s t : GhaListenerScaler) (e : Error)
      → ask_message env s ≡ (err e, t)
      → poll_and_process_messages env s ≡ (err (wrap "failed to get message" e), t)
  unfolding poll_and_process_messages ◌>>=◌
  poll_reports s t e asked = rw asked refl
