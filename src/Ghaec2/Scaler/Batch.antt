-- ===== src/Ghaec2/Scaler/Batch.antt =====
-- The batch of a message against a description by filters: what each list of jobs holds.
mod Collect
use actionsspot.Prelude.{◌≡◌, ap, Bool, some, List, ◌∷◌, ◌++◌}
use mathlib.Core.List.{append_assoc, append-nil}
use actionsspot.Json.{Json}
use actionsspot.Effect.{Env, ok}
use actionsspot.Ghaec2.Types.{
  RunnerScaleSetStatistic, RunnerScaleSetMessage, decode_job_available, decode_job_started,
  decode_job_completed,
}
use actionsspot.Ghaec2.Scaler.Parse.{
  message_type_of, add_typed, add_available, add_started, add_completed, add_message, add_messages,
  batch_of, parse_message,
}
use actionsspot.Ghaec2.Scaler.Batch.Collect.{typed, collect, add_messages_lem}

module _ (env : Env) where
  -- Of a message of the batch's type with statistics and an array as its body, the lists are, in the
  -- batch's order, what decodes of the messages of each type; the rest of the batch is skipped.
  pub parse_message_collects :
      (msg : RunnerScaleSetMessage) (statistics : RunnerScaleSetStatistic) (js : List Json)
      → msg.message_type ≡ "RunnerScaleSetJobMessages"
      → msg.statistics ≡ some statistics
      → batch_of env msg.body ≡ ok js
      → parse_message env msg
        ≡ ok (record {
          statistics = statistics;
          jobs_started = collect (typed "JobStarted" (decode_job_started env.valid_time)) js;
          jobs_available = collect (typed "JobAvailable" decode_job_available) js;
          jobs_completed = collect (typed "JobCompleted" (decode_job_completed env.valid_time)) js;
        })
  unfolding parse_message
  parse_message_collects msg statistics js t st b =
      rw (t, st, b) (ap ok (add_messages_lem env js _))
