-- ===== src/Ghaec2/Scaler/Parse.antt =====
-- ghaec2/message_queue_scaler.go: parseMessage, the batch in a message's body.
use actionsspot.Prelude.{
  String, ◌+++◌, is_blank, not, Option, none, some, List, [], ◌∷◌, ◌++◌, str_eq, if◌then◌else◌,
}
use actionsspot.Json
use actionsspot.Json.{Json, fields_of, at_key, as_text, as_raws}
use actionsspot.Effect.{Env, plain, wrap, Result, ok, err, crash, unmarshal_as}
use actionsspot.Ghaec2.Types.{
  RunnerScaleSetStatistic, RunnerScaleSetMessage, JobAvailable, JobStarted, JobCompleted,
  decode_job_available, decode_job_started, decode_job_completed,
}

pub record ParsedMessage : Type 0 where
  pub statistics : RunnerScaleSetStatistic
  pub jobs_started : List JobStarted
  pub jobs_available : List JobAvailable
  pub jobs_completed : List JobCompleted

abbrev pub message_type_of : Json → Option String
message_type_of j = Json.◌>>=◌ (fields_of j) λ fs. as_text (at_key "messageType" fs)

abbrev pub add_available : Option JobAvailable → ParsedMessage → ParsedMessage
add_available none p = p
add_available (some job) p = record p { jobs_available = p.jobs_available ++ job ∷ [] }

abbrev pub add_started : Option JobStarted → ParsedMessage → ParsedMessage
add_started none p = p
add_started (some job) p = record p { jobs_started = p.jobs_started ++ job ∷ [] }

abbrev pub add_completed : Option JobCompleted → ParsedMessage → ParsedMessage
add_completed none p = p
add_completed (some job) p = record p { jobs_completed = p.jobs_completed ++ job ∷ [] }

module _ (env : Env) where
  -- The switch on the type of one message of the batch; what does not decode is skipped.
  abbrev pub add_typed : String → Json → ParsedMessage → ParsedMessage
  add_typed t raw p =
      if str_eq t "JobAvailable"
      then add_available (decode_job_available raw) p
      else if str_eq t "JobStarted"
      then add_started (decode_job_started env.valid_time raw) p
      else if str_eq t "JobCompleted"
      then add_completed (decode_job_completed env.valid_time raw) p
      else p

  unfoldable pub add_message : Json → ParsedMessage → ParsedMessage
  add_message raw p = elim (message_type_of raw) [ none ↦ p | some t ↦ add_typed t raw p ]

  unfoldable pub add_messages : List Json → ParsedMessage → ParsedMessage
  unfolding add_message
  add_messages [] p = p
  add_messages (raw ∷ raws) p = add_messages raws (add_message raw p)

  abbrev pub batch_of : String → Result (List Json)
  batch_of body = if is_blank body then ok [] else elim (unmarshal_as env as_raws body) [
    | none ↦ err (wrap "failed to unmarshal batched messages" (plain "invalid body"))
    | some raws ↦ ok raws
  ]

  abbrev pub parse_batch : RunnerScaleSetStatistic → Result (List Json) → Result ParsedMessage
  parse_batch statistics (err e) = err e
  parse_batch statistics (crash m) = crash m
  parse_batch statistics (ok raws) = ok (
      add_messages raws (record {
        statistics = statistics;
        jobs_started = [];
        jobs_available = [];
        jobs_completed = [];
      }))

  abbrev pub parse_body : String → Option RunnerScaleSetStatistic → Result ParsedMessage
  parse_body body none = err (plain "invalid message: statistics is nil")
  parse_body body (some statistics) = parse_batch statistics (batch_of body)

  unfoldable pub parse_message : RunnerScaleSetMessage → Result ParsedMessage
  unfolding add_messages
  parse_message msg =
      if not (str_eq msg.message_type "RunnerScaleSetJobMessages")
      then err (plain ("invalid message type: " +++ msg.message_type))
      else parse_body msg.body msg.statistics
