-- ===== src/Tests/Session.antt =====
-- Runs of ghaec2/message_queue_scaler.go on messages, and of the client's error path.
use actionsspot.Prelude.{String, ◌≢◌, pos, ◌≡◌, refl, none, some, List, [], ◌∷◌, map}
use actionsspot.Json.{Json, at_key}
use actionsspot.Effect.{do_request, ◌>>=◌, Error, pure, plain, wrap, error_text, ok, err, wrapped}
use actionsspot.Ghaec2.Types.{JobAvailable, decode_job_available}
use actionsspot.Ghaec2.Client.{decode_gh_error, parse_error_response}
use actionsspot.Ghaec2.Client.Messages.{acquire_jobs, delete_message}
use actionsspot.Ghaec2.Scaler.{gets, deref, call, is_token_expired}
use actionsspot.Ghaec2.Scaler.Parse.{ParsedMessage, parse_message}
use actionsspot.Ghaec2.Scaler.Messages.{
  ask_message, ask_jobs, ask_delete, get_message, acquire_available_jobs, delete_last_message,
  acquire_step, settle, handle_message, set_last_message_id,
}
use actionsspot.Ghaec2.Scaler.Polling.{poll_loop, diagnostic, quiet}
use actionsspot.Ghaec2.Scaler.Expiry.{session_never_refreshed, explanation_lost}
use actionsspot.Ghaec2.Scaler.Acknowledge.{handle_message_unacquired, handle_message_acknowledged}
use actionsspot.Ghaec2.Scaler.Batch.{parse_message_collects}
use actionsspot.Ghaec2.Scaler.Pending.{poll_loop_keeps}
use actionsspot.Ghaec2.Tracker.Pending.{AllPending}
use actionsspot.Ghaec2.Tracker.{lookup}
use actionsspot.Effect.{Url, Env}
use actionsspot.Prelude.{str_eq, if◌then◌else◌, some, arith}
use actionsspot.Ghaec2.Scaler.Messages.{get_message}
use actionsspot.Ghaec2.Scaler.Following.{Asked, following, next_question}
use actionsspot.Tests.{session, env, starting, statistics, message_with, job_json}

-- What the messages parse to.
abbrev job : JobAvailable
job = record {
  message_type = "JobAvailable";
  runner_request_id = pos 7;
  repository_name = "";
  owner_name = "";
  job_workflow_ref = "";
  event_name = "";
  request_labels = [];
}

abbrev one_job : ParsedMessage
one_job = record {
  statistics = statistics;
  jobs_started = [];
  jobs_available = job ∷ [];
  jobs_completed = [];
}

abbrev no_jobs : ParsedMessage
no_jobs = record {
  statistics = statistics;
  jobs_started = [];
  jobs_available = [];
  jobs_completed = [];
}

parse_message_collects_example : parse_message env (message_with "batch") ≡ ok one_job
unfolding parse_message at_key decode_job_available
parse_message_collects_example =
    parse_message_collects env (message_with "batch") statistics (job_json ∷ []) refl refl refl

session_never_refreshed_example :
    (get_message env starting ≡ wrapped "failed to get next message" (ask_message env) starting)
    × ((jobs : List JobAvailable)
        → acquire_available_jobs env jobs starting
          ≡ wrapped "failed to acquire jobs"
              (ask_jobs env (map (λ j. j.runner_request_id) jobs) (gets λ t. t.client.admin_token))
              starting)
    × (delete_last_message env starting
        ≡ wrapped "failed to delete last message" (ask_delete env) starting)
session_never_refreshed_example = session_never_refreshed env starting

poll_loop_keeps_example :
    AllPending (poll_loop env (quiet ∷ diagnostic ∷ []) starting).1.instances
    × ((k : String)
        → lookup k starting.instances ≢ none
        → lookup k (poll_loop env (quiet ∷ diagnostic ∷ []) starting).1.instances ≢ none)
poll_loop_keeps_example = poll_loop_keeps env (quiet ∷ diagnostic ∷ []) starting (refl, refl, tt)

abbrev unreachable : Error
unreachable =
    wrap "failed to acquire jobs" (
      wrap "failed to acquire jobs" (wrap "failed to execute request" (plain "connection refused")))

handle_message_unacquired_example :
    (handle_message env (message_with "batch") starting
      ≡ (err unreachable, (acquire_step env (job ∷ []) starting).1))
    × ((handle_message env (message_with "batch") starting).1.last_message_id ≡ pos 4)
unfolding parse_message at_key decode_job_available acquire_available_jobs ◌>>=◌ gets call
    acquire_jobs do_request is_token_expired error_text
handle_message_unacquired_example =
    handle_message_unacquired env (message_with "batch") starting one_job unreachable refl refl

handle_message_acknowledged_example :
    ((handle_message env (message_with "") starting).1.last_message_id ≡ pos 5)
    × (handle_message env (message_with "") starting
        ≡ settle env (message_with "") no_jobs (acquire_step env [] starting).1)
unfolding parse_message pure
handle_message_acknowledged_example =
    handle_message_acknowledged env (message_with "") starting no_jobs refl refl

explanation_lost_example :
    error_text
      (parse_error_response env (record { status = 409; request_id = "r"; body = some "a" }))
    ≡ error_text
        (parse_error_response env (record { status = 409; request_id = "r"; body = some "b" }))
unfolding decode_gh_error at_key
explanation_lost_example =
    explanation_lost env 409 "r" "a" "b"
      (record { message = "a"; errors = []; documentation_url = "docs" })
      (record { message = "b"; errors = []; documentation_url = "docs" }) refl refl refl

abbrev queue : Url
queue = record { origin = "https://queue.example"; path = ""; params = [] }

-- The queue's address, and the one that asks for what follows message 5, are read as they are
-- written.
abbrev reading : Env
reading = record env {
  parse_url = λ s. some (if str_eq s "?lastMessageId=5" then following (pos 5) queue else queue);
  url_string = λ u. elim u.params [ [] ↦ u.origin | _ ↦ "?lastMessageId=5" ];
}

next_question_example :
    Asked
      (following (pos 5) queue)
      (handle_message reading (message_with "") starting).1.history
      (get_message reading (handle_message reading (message_with "") starting).1).1.history
unfolding parse_message pure handle_message ◌>>=◌ settle set_last_message_id delete_last_message
    gets deref call delete_message do_request is_token_expired error_text
next_question_example =
    next_question reading (message_with "") starting no_jobs session queue refl refl refl refl
      (omega arith) (omega arith) refl
