-- ===== src/Lambda/Crd/Laws.antt =====
-- What the demand analysis counts.
use actionsspot.Prelude.{
  ℕ, ◌+◌, ◌<◌, ◌≤◌, ◌^◌, pos, suc_exact, String, ◌≡◌, ◌∙◌, Bool, true, false, ◌&&◌, List, [], ◌∷◌,
  length, select, str_eq, eq_iff, arith, Bool-cases, inl, inr, not,
}
use actionsspot.Lambda.Types.{WorkflowJob}
use actionsspot.Lambda.Labels.{is_counted}
use actionsspot.Lambda.Crd.{JobAnalysisResult, no_jobs, count_status, count_jobs}

-- The jobs that the labels serve and that have a status.
abbrev served_with : (String → Bool) → List String → List WorkflowJob → ℕ
served_with test labels jobs =
    length (select (λ job. is_counted labels job.labels && test job.status) jobs)

abbrev is_status : String → String → Bool
is_status name status = str_eq status name

abbrev is_other : String → Bool
is_other status =
    not (str_eq status "completed")
    && not (str_eq status "in_progress")
    && not (str_eq status "queued")

-- The counters as natural numbers.
abbrev tally : ℕ → ℕ → ℕ → JobAnalysisResult
tally q p u = record { queued = pos q; in_progress = pos p; unknown = pos u }

abbrev bit : Bool → ℕ
bit true = 1
bit false = 0

-- One job that the labels serve.
count_status_lem :
    (status : String) (q p u : ℕ)
    → q + p + u + 1 < 2 ^ 63
    → count_status status (tally q p u)
      ≡ tally
          (q + bit (is_status "queued" status))
          (p + bit (is_status "in_progress" status))
          (u + bit (is_other status))
unfolding count_status
count_status_lem status q p u h = elim (Bool-cases (str_eq status "completed")) [
  | inl e ↦ rw ((eq_iff status "completed").0 e) (ground arith)
  | inr a ↦ elim (Bool-cases (str_eq status "in_progress")) [
    | inl e ↦ rw ((eq_iff status "in_progress").0 e) (ground (arith, suc_exact p))
    | inr b ↦ elim (Bool-cases (str_eq status "queued")) [
      | inl e ↦ rw ((eq_iff status "queued").0 e) (ground (arith, suc_exact q))
      | inr c ↦ rw (a, b, c) (ground (arith, suc_exact u))
    ]
  ]
]

one_status :
    (s : String)
    → bit (is_status "queued" s) + bit (is_status "in_progress" s) + bit (is_other s) ≤ 1
one_status s = elim (Bool-cases (str_eq s "queued")) [
  | inl e ↦ rw ((eq_iff s "queued").0 e) (omega arith)
  | inr a ↦ rw a (ground arith)
]

count_jobs_from :
    (labels : List String) (jobs : List WorkflowJob) (q p u : ℕ)
    → q + p + u + length jobs < 2 ^ 63
    → count_jobs labels jobs (tally q p u)
      ≡ tally
          (q + served_with (is_status "queued") labels jobs)
          (p + served_with (is_status "in_progress") labels jobs)
          (u + served_with is_other labels jobs)
unfolding count_jobs
count_jobs_from labels [] q p u h = ground arith
count_jobs_from labels (job ∷ jobs) q p u h = elim (Bool-cases (is_counted labels job.labels)) [
  | inr skipped ↦ rw skipped (count_jobs_from labels jobs q p u (omega arith))
  | inl kept ↦
      let s = job.status in
      rw (kept, count_status_lem s q p u (omega arith))
        (count_jobs_from labels jobs (q + bit (is_status "queued" s))
            (p + bit (is_status "in_progress" s)) (u + bit (is_other s))
            (omega (arith, one_status s))
          ∙ ground arith)
]

-- Of the jobs of a run, fewer than an int counts, the analysis counts those that the runner's labels
-- serve: the queued ones, the ones in progress, and those with a status it does not know.
pub count_jobs_lem :
    (labels : List String) (jobs : List WorkflowJob)
    → length jobs < 2 ^ 63
    → count_jobs labels jobs no_jobs ≡ record {
      queued = pos (served_with (is_status "queued") labels jobs);
      in_progress = pos (served_with (is_status "in_progress") labels jobs);
      unknown = pos (served_with is_other labels jobs);
    }
count_jobs_lem labels jobs h = count_jobs_from labels jobs 0 0 0 (omega arith) ∙ ground arith
