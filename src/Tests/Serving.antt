-- ===== src/Tests/Serving.antt =====
-- Whole runs of the scaler of ghaec2/message_queue_scaler.go, against a service that answers.
use actionsspot.Prelude.{
  arith, str_eq, if◌then◌else◌, ◌≤◌, pos_part, pos, ◌+++◌, decimal, some, [], ◌∷◌, length,
}
use actionsspot.Json.{Json, integer, text, array, object, nil, cons, end, field}
use actionsspot.Effect.{Env, replied}
use actionsspot.Ghaec2.Scaler.Polling.{periodic, quiet}
use actionsspot.Ghaec2.Scaler.Lifetime.{Tracked, run-Tracked}
use actionsspot.Ghaec2.Scaler.Limit.{run_within_limit}
use actionsspot.Ghaec2.Scaler.Start.{new_scaler, run}
use actionsspot.Tests.{config, env, job_json}

abbrev scale_set_json : Json
scale_set_json = object (field "id" (integer (pos 6)) (field "name" (text "set") end))

-- One object with the fields of every answer.
abbrev answer_json : Json
answer_json = object (
    field "token" (text "t") (
      field "url" (text "https://actions.example") (
        field "value" (array (cons scale_set_json nil)) (
          field "sessionId" (text "s") (
            field "runnerScaleSet" scale_set_json (
              field "messageQueueUrl" (text "https://queue.example") (
                field "messageId" (integer (pos 5)) (
                  field "messageType" (text "RunnerScaleSetJobMessages") (
                    field "body" (text "batch") (
                      field "statistics" (object (field "totalAssignedJobs" (integer (pos 2)) end))
                        end))))))))))

abbrev serving : Env
serving = record env {
  answer = λ h req. replied (record { status = 200; request_id = ""; body = some "answer" });
  unmarshal = λ s. some (if str_eq s "batch" then array (cons job_json nil) else answer_json);
  decode = λ s. some answer_json;
  new_uuid = λ h. decimal (length h) +++ "-000000";
}

run-Tracked_example : Tracked (run serving (periodic ∷ quiet ∷ []) (new_scaler config [])).1
run-Tracked_example = run-Tracked serving config [] (periodic ∷ quiet ∷ [])

run_within_limit_example :
    length (run serving (periodic ∷ quiet ∷ []) (new_scaler config [])).1.instances
    ≤ pos_part config.max_runners
run_within_limit_example =
    run_within_limit serving config [] (periodic ∷ quiet ∷ []) (omega arith, omega arith)
