-- ===== src/Ghaec2/Scaler/Batch/Collect.antt =====
-- The jobs of a batch, collected by filters, and the loop over the batch that adds them one by one.
use actionsspot.Prelude.{
  String, ◌≡◌, refl, Bool, false, Option, none, some, List, [], ◌∷◌, ◌++◌, str_eq, eq_iff,
  if◌then◌else◌, arith, Bool-cases, inl, inr,
}
use mathlib.Core.List.{append_assoc, append-nil}
use actionsspot.Json.{Json}
use actionsspot.Effect.{Env}
use actionsspot.Ghaec2.Types.{decode_job_available, decode_job_started, decode_job_completed}
use actionsspot.Ghaec2.Scaler.Parse.{
  ParsedMessage, message_type_of, add_typed, add_available, add_started, add_completed, add_message,
  add_messages,
}

abbrev has_type : String → Option String → Bool
has_type t none = false
has_type t (some u) = str_eq u t

-- What decodes of the messages of one type, in the batch's order.
abbrev pub typed {ℓ} : {A : Type ℓ} → String → (Json → Option A) → Json → Option A
typed t f j = if has_type t (message_type_of j) then f j else none

abbrev to_list {ℓ} : {A : Type ℓ} → Option A → List A
to_list none = []
to_list (some a) = a ∷ []

abbrev pub collect {ℓ} : {A : Type ℓ} → (Json → Option A) → List Json → List A
collect f [] = []
collect f (j ∷ js) = to_list (f j) ++ collect f js

module _ (env : Env) where
  abbrev pub extended : List Json → ParsedMessage → ParsedMessage
  extended js p = record {
    statistics = p.statistics;
    jobs_started =
        p.jobs_started ++ collect (typed "JobStarted" (decode_job_started env.valid_time)) js;
    jobs_available = p.jobs_available ++ collect (typed "JobAvailable" decode_job_available) js;
    jobs_completed =
        p.jobs_completed ++ collect (typed "JobCompleted" (decode_job_completed env.valid_time)) js;
  }

  -- The two sides at a given type of the message.
  abbrev added : Json → ParsedMessage → Option String → ParsedMessage
  added j p o = elim o [ none ↦ p | some t ↦ add_typed env t j p ]

  abbrev extended_by : Json → ParsedMessage → Option String → ParsedMessage
  extended_by j p o = record {
    statistics = p.statistics;
    jobs_started =
        p.jobs_started
        ++ (to_list (if has_type "JobStarted" o then decode_job_started env.valid_time j else none)
            ++ []);
    jobs_available =
        p.jobs_available
        ++ (to_list (if has_type "JobAvailable" o then decode_job_available j else none) ++ []);
    jobs_completed =
        p.jobs_completed
        ++ (to_list
              (if has_type "JobCompleted" o then decode_job_completed env.valid_time j else none)
            ++ []);
  }

  unchanged :
      (t : String) (j : Json) (p : ParsedMessage)
      → p ≡ record {
        statistics = p.statistics;
        jobs_started = p.jobs_started ++ [];
        jobs_available = p.jobs_available ++ [];
        jobs_completed = p.jobs_completed ++ [];
      }
  unchanged t j p =
      rw (append-nil p.jobs_started, append-nil p.jobs_available, append-nil p.jobs_completed)

  available_lem :
      (j : Json) (p : ParsedMessage)
      → add_typed env "JobAvailable" j p ≡ extended_by j p (some "JobAvailable")
  available_lem j p =
      rw (append-nil p.jobs_started, append-nil p.jobs_completed)
        (elim (decode_job_available j)
          as (λ o.
            add_available o p
            ≡ record p { jobs_available = p.jobs_available ++ (to_list o ++ []) }) [
              | none ↦ rw (append-nil p.jobs_available)
              | some job ↦ refl
            ])

  started_lem :
      (j : Json) (p : ParsedMessage)
      → add_typed env "JobStarted" j p ≡ extended_by j p (some "JobStarted")
  started_lem j p =
      rw (append-nil p.jobs_available, append-nil p.jobs_completed)
        (elim (decode_job_started env.valid_time j)
          as (λ o.
            add_started o p ≡ record p { jobs_started = p.jobs_started ++ (to_list o ++ []) }) [
              | none ↦ rw (append-nil p.jobs_started)
              | some job ↦ refl
            ])

  completed_lem :
      (j : Json) (p : ParsedMessage)
      → add_typed env "JobCompleted" j p ≡ extended_by j p (some "JobCompleted")
  completed_lem j p =
      rw (append-nil p.jobs_started, append-nil p.jobs_available)
        (elim (decode_job_completed env.valid_time j)
          as (λ o.
            add_completed o p
            ≡ record p { jobs_completed = p.jobs_completed ++ (to_list o ++ []) }) [
              | none ↦ rw (append-nil p.jobs_completed)
              | some job ↦ refl
            ])

  typed_lem :
      (t : String) (j : Json) (p : ParsedMessage) → add_typed env t j p ≡ extended_by j p (some t)
  typed_lem t j p = elim (Bool-cases (str_eq t "JobAvailable")) [
    | inl e ↦ rw ((eq_iff t "JobAvailable").0 e) (available_lem j p)
    | inr a ↦ elim (Bool-cases (str_eq t "JobStarted")) [
      | inl e ↦ rw ((eq_iff t "JobStarted").0 e) (started_lem j p)
      | inr b ↦ elim (Bool-cases (str_eq t "JobCompleted")) [
        | inl e ↦ rw ((eq_iff t "JobCompleted").0 e) (completed_lem j p)
        | inr c ↦ rw (a, b, c) (unchanged t j p)
      ]
    ]
  ]

  add_message_lem : (j : Json) (p : ParsedMessage) → add_message env j p ≡ extended (j ∷ []) p
  unfolding add_message
  add_message_lem j p = elim (message_type_of j) as (λ o. added j p o ≡ extended_by j p o) [
    | none ↦
        ground (
          arith,
          append-nil p.jobs_started,
          append-nil p.jobs_available,
          append-nil p.jobs_completed,
        )
    | some t ↦ typed_lem t j p
  ]

  pub add_messages_lem :
      (js : List Json) (p : ParsedMessage) → add_messages env js p ≡ extended js p
  unfolding add_messages
  add_messages_lem [] p =
      ground
        (arith, append-nil p.jobs_started, append-nil p.jobs_available, append-nil p.jobs_completed)
  add_messages_lem (j ∷ js) p =
      rw (add_message_lem j p, add_messages_lem js (extended (j ∷ []) p)) (simp append_assoc)
