-- ===== src/Lambda/Client/Matching.antt =====
-- What FilterWorkflowsMatchingLabels keeps.
use actionsspot.Prelude.{
  subst, is_empty, ◌||◌, if◌then◌else◌, String, ◌≡◌, refl, Bool, true, false, ◌&&◌, Option, none,
  some, List, [], ◌∷◌, ◌++◌, any, all, contains_text, str_eq, eq_refl, arith, Bool-cases, inl, inr,
}
use actionsspot.Effect
use actionsspot.Effect.{
  History, Env, Result, ok, err, crash, Exec, pure, fail, lift, wrapped, attempt, ◌>>=◌,
}
use actionsspot.Lambda.Types.{Repository, WorkflowJob, WorkflowRun}
use actionsspot.Lambda.Config.{Config}
use actionsspot.Lambda.Labels.Laws.{held, serves, serves_lem}
use actionsspot.Lambda.Client.Filter.{
  filter_repository, filter_run, filter_runs, filter_workflows_matching_labels, if_listed,
  is_matching, job_labels, on_jobs, placeholder,
}

-- The job waits for a runner.
abbrev is_waiting : WorkflowJob → Bool
is_waiting job = str_eq job.status "queued" || str_eq job.status "waiting"

abbrev required : WorkflowJob → List String
required job = if is_empty job.labels then job.runs_on else job.labels

-- The runner has each label that is required; where none is, it has "self-hosted".
-- The run has a job that waits and whose labels the runner has.
abbrev pub has_match : List String → WorkflowRun → Bool
has_match runner run = any (λ job. is_waiting job && serves runner (required job)) run.jobs

required_lem : (job : WorkflowJob) → job_labels job ≡ required job
required_lem job =
    elim job.labels
      as (λ labels.
        (elim labels [ [] ↦ job.runs_on | label ∷ labels ↦ label ∷ labels ])
        ≡ (if is_empty labels then job.runs_on else labels)) [ [] ↦ refl | label ∷ labels ↦ refl ]

any_matching :
    (runner : List String) (jobs : List WorkflowJob)
    → any (λ job. is_waiting job && serves runner (required job)) jobs
      ≡ any (is_matching runner) jobs
unfolding is_matching
any_matching runner [] = refl
any_matching runner (job ∷ jobs) =
    rw (serves_lem runner (job_labels job), required_lem job, any_matching runner jobs) refl

abbrev AllMatch : List String → Result (List WorkflowRun) → Type 0
AllMatch configured (ok runs) = all (has_match configured) runs ≡ true
AllMatch configured (err e) = Unit
AllMatch configured (crash m) = Unit

held_more :
    (label : String) (runner required : List String)
    → all (held runner) required ≡ true
    → all (held (label ∷ runner)) required ≡ true
held_more label runner [] h = refl
held_more label runner (r ∷ required) h = ground (arith, held_more label runner required)

-- A runner has all of its own labels.
held_self : (runner : List String) → all (held runner) runner ≡ true
held_self [] = refl
held_self (label ∷ runner) =
    ground (arith, eq_refl label, held_more label runner runner (held_self runner))

all_append :
    (p : WorkflowRun → Bool) (xs ys : List WorkflowRun)
    → all p xs ≡ true
    → all p ys ≡ true
    → all p (xs ++ ys) ≡ true
all_append p [] ys h k = k
all_append p (x ∷ xs) ys h k = ground (arith, all_append p xs ys)

module _ (env : Env) (c : Config) (label : String) (labels : List String) where
  abbrev configured : List String
  configured = label ∷ labels

  placeholder_matches :
      (run : WorkflowRun) → has_match configured (placeholder configured run) ≡ true
  placeholder_matches run = rw (held_self configured) refl

  kept :
      (run : WorkflowRun) (repo : Repository) (r : Result (List WorkflowJob))
      → AllMatch configured (on_jobs configured run repo r)
  kept run repo (ok jobs) = elim (Bool-cases (any (is_matching configured) jobs)) [
    | inl h ↦ rw h (rw (any_matching configured jobs, h) refl)
    | inr h ↦ rw h refl
  ]
  kept run repo (err e) =
      elim (Bool-cases
        (contains_text repo.full_name "test-spot-runner" && str_eq run.status "queued")) [
          | inl h ↦ rw h (rw (placeholder_matches run) refl)
          | inr h ↦ rw h refl
        ]
  kept run repo (crash m) = tt

  -- An action whose result is runs that match.
  pub record Yields (m : Exec History (List WorkflowRun)) : Type 0 where
    pub at : (h : History) → AllMatch configured (m h).0

  Yields-bind :
      {A : Type 0} (m : Exec History A) (f : A → Exec History (List WorkflowRun))
      → ((a : A) → Yields (f a))
      → Yields (m >>= f)
  unfolding ◌>>=◌
  Yields-bind {A} m f y = record { at = λ h. go (m h).0 (m h).1 }
    where
      go : (r : Result A) (t : History) → AllMatch configured (Effect.continue r f t).0
      go (ok a) t = (y a).at t
      go (err e) t = tt
      go (crash x) t = tt

  Yields-lift : (r : Result (List WorkflowRun)) → AllMatch configured r → Yields (lift r)
  unfolding lift
  Yields-lift r a = record { at = λ h. a }

  Yields-pure :
      (runs : List WorkflowRun) → all (has_match configured) runs ≡ true → Yields (pure runs)
  unfolding pure
  Yields-pure runs a = record { at = λ h. a }

  Yields-if_listed :
      (run : WorkflowRun) (repo : Repository) (b : Bool)
      → Yields (if_listed env c configured run repo b)
  Yields-if_listed run repo false = Yields-pure [] refl
  Yields-if_listed run repo true =
      Yields-bind _ _ λ owner. Yields-bind _ _ λ answer. Yields-lift _ (kept run repo answer)

  Yields-filter_repository :
      (run : WorkflowRun) (o : Option Repository)
      → Yields (filter_repository env c configured run o)
  Yields-filter_repository run none = Yields-pure [] refl
  Yields-filter_repository run (some repo) = Yields-bind _ _ λ b. Yields-if_listed run repo b

  filtered :
      (runs matching : List WorkflowRun)
      → all (has_match configured) matching ≡ true
      → Yields (filter_runs env c configured runs matching)
  unfolding filter_runs filter_run ◌>>=◌
  filtered [] matching h = record { at = λ t. h }
  filtered (run ∷ runs) matching h = record {
    at = λ t.
        go (filter_run env c configured run t).0 (filter_run env c configured run t).1
          ((Yields-filter_repository run run.repository).at t)
          (λ more k.
            filtered runs (matching ++ more) (all_append (has_match configured) matching more h k));
  }
    where
      go :
          (r : Result (List WorkflowRun)) (t : History)
          → AllMatch configured r
          → ((more : List WorkflowRun)
              → all (has_match configured) more ≡ true
              → Yields (filter_runs env c configured runs (matching ++ more)))
          → AllMatch configured
              (Effect.continue r (λ more. filter_runs env c configured runs (matching ++ more)) t).0
      go (ok more) t a next = (next more a).at t
      go (err e) t a next = tt
      go (crash x) t a next = tt

  -- For a runner with a label at least, every run that the filter returns has a job that is queued
  -- or waiting and all of whose labels the runner has ("self-hosted", where it has none): the run's
  -- own job, or the one put in for a test repository.
  pub filter_keeps_matching :
      (workflows : List WorkflowRun) (h : History) (runs : List WorkflowRun)
      → (filter_workflows_matching_labels env c (label ∷ labels) workflows h).0 ≡ ok runs
      → all (has_match (label ∷ labels)) runs ≡ true
  unfolding filter_workflows_matching_labels
  filter_keeps_matching workflows h runs e =
      subst (AllMatch configured) e ((filtered workflows [] refl).at h)
