-- ===== src/Lambda/Aws/Requests.antt =====
-- One spot instance for each call that creates one.
use actionsspot.Prelude.{ℕ, ℤ, String, List, [], ◌∷◌, ◌+◌, ◌≡◌, arith}
use actionsspot.Effect
use actionsspot.Effect.{
  Event, spot, http, History, Env, Result, pure, fail, wrapped, attempt, ◌>>=◌, ◌>>◌,
}
use actionsspot.Effect.Exactly.{
  Exactly, Exactly-first, Exactly-pure, Exactly-fail, Exactly-wrapped, Exactly-attempt, NoPanic,
  Calm, Calm-bind, Calm-pure, Calm-fail, Calm-wrapped, Calm-attempt,
}
use actionsspot.Lambda.Config.{Config}
use actionsspot.Lambda.Aws.{
  RunnerRecord, create_spot_instance, create_spot_instance_for_pipeline, now, pipeline_record,
  on_requests, request_spot_instances, store_runner_record,
}

-- A request for a spot instance weighs one, and nothing else weighs.
abbrev pub spots : Event → ℕ
spots (spot req) = 1
spots _ = 0

module _ (env : Env) (c : Config) where
  Exactly-request : (req : Effect.SpotRequest) → Exactly spots 1 (request_spot_instances env c req)
  unfolding request_spot_instances
  Exactly-request req = record { weighs = λ h. omega arith }

  Exactly-store : (r : RunnerRecord) → Exactly spots 0 (store_runner_record env c r)
  unfolding store_runner_record
  Exactly-store r = record { weighs = λ h. omega arith }

  pub Exactly-now : Exactly spots 0 (now env c)
  unfolding now
  Exactly-now = record { weighs = λ h. omega arith }

  Exactly-on_requests :
      (record_of : String → ℕ → RunnerRecord) (ids : List String)
      → Exactly spots 0 (on_requests env c record_of ids)
  Exactly-on_requests record_of [] = Exactly-fail _
  Exactly-on_requests record_of (id ∷ ids) =
      Exactly-first _ _ 0 Exactly-now
        λ time. Exactly-first _ _ 0 (Exactly-attempt _ 0 (Exactly-store _)) λ r. Exactly-pure _

  pub Exactly-create_spot :
      (job : ℤ) (labels : List String) → Exactly spots 1 (create_spot_instance env c job labels)
  unfolding create_spot_instance
  Exactly-create_spot job labels =
      Exactly-first _ _ 1 (Exactly-wrapped _ _ 1 (Exactly-request _))
        λ ids. Exactly-on_requests _ ids

  create_named :
      (name token : String) (labels : List String) (h : History)
      → Effect.Calls.weight spots (create_spot_instance_for_pipeline env c name token labels h).1
        ≡ Effect.Calls.weight spots h + 1
  unfolding create_spot_instance_for_pipeline ◌>>=◌ now
  create_named name token labels h =
      (Exactly-first _ (on_requests env c (pipeline_record env c name)) 1
          (Exactly-wrapped _ _ 1 (Exactly-request _))
          λ ids. Exactly-on_requests (pipeline_record env c name) ids).weighs
        h

  pub Exactly-create_spot_for_pipeline :
      (name token : String) (labels : List String)
      → Exactly spots 1 (create_spot_instance_for_pipeline env c name token labels)
  Exactly-create_spot_for_pipeline name token labels = record {
    weighs = create_named name token labels;
  }

  -- EC2 and DynamoDB answer with a value or an error.
  module _
      (spot_answers : (h : History) (req : Effect.SpotRequest) → NoPanic (env.spot_answer h req))
      (put_answers : (h : History) (item : List (String × String))
        → NoPanic (env.put_answer h item)) where
    Calm-request : (req : Effect.SpotRequest) → Calm (request_spot_instances env c req)
    unfolding request_spot_instances
    Calm-request req = record { calm = λ h. spot_answers h req }

    Calm-store : (r : RunnerRecord) → Calm (store_runner_record env c r)
    unfolding store_runner_record
    Calm-store r = record { calm = λ h. put_answers h _ }

    Calm-now : Calm (now env c)
    unfolding now
    Calm-now = record { calm = λ h. tt }

    Calm-on_requests :
        (record_of : String → ℕ → RunnerRecord) (ids : List String)
        → Calm (on_requests env c record_of ids)
    Calm-on_requests record_of [] = Calm-fail _
    Calm-on_requests record_of (id ∷ ids) =
        Calm-bind _ _ Calm-now
          λ time. Calm-bind _ _ (Calm-attempt _ (Calm-store _)) λ r. Calm-pure _

    pub Calm-create_spot :
        (job : ℤ) (labels : List String) → Calm (create_spot_instance env c job labels)
    unfolding create_spot_instance
    Calm-create_spot job labels =
        Calm-bind _ _ (Calm-wrapped _ _ (Calm-request _)) λ ids. Calm-on_requests _ ids
