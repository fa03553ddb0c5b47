-- ===== src/Lambda/Demand/Laws.antt =====
-- The analysis of the demand against the pipeline monitor's lists of runners.
use actionsspot.Prelude.{
  ℕ, ◌+◌, ◌<◌, ◌≤◌, ◌^◌, pos, suc_exact, eqb_ℤ, ◌≡◌, ap, ◌∙◌, List, [], ◌∷◌, length, select,
  if◌then◌else◌, arith, Bool-cases, inl, inr,
}
use actionsspot.Lambda.Types.{SelfHostedRunner, SelfHostedRunnerList, WorkflowRunsList}
use actionsspot.Lambda.Pipeline.{is_online, busy, available, wanted}
use actionsspot.Lambda.Demand.{RunnerDemandAnalysis, count_runners, no_demand, estimate, demand_of}

-- The counters as natural numbers.
abbrev counts : RunnerDemandAnalysis → ℕ → ℕ → ℕ → RunnerDemandAnalysis
counts a online occupied idle = record a {
  online_runners = pos online;
  busy_runners = pos occupied;
  idle_runners = pos idle;
}

count_runners_from :
    (rs : List SelfHostedRunner) (a : RunnerDemandAnalysis) (n b i : ℕ)
    → n + length rs < 2 ^ 62
    → b ≤ n
    → i ≤ n
    → count_runners rs (counts a n b i)
      ≡ counts a
          (n + length (select is_online rs))
          (b + length (busy rs))
          (i + length (available rs))
unfolding count_runners
count_runners_from [] a n b i h p q = ground arith
count_runners_from (r ∷ rs) a n b i h p q = elim (Bool-cases (is_online r)) [
  | inr off ↦ rw off (count_runners_from rs a n b i (omega arith) p q)
  | inl on ↦ elim (Bool-cases r.busy) [
    | inl e ↦
        rw (on, e, suc_exact n (omega arith), suc_exact b (omega arith))
          (count_runners_from rs a (n + 1) (b + 1) i (omega arith) (omega arith) (omega arith)
            ∙ ground arith)
    | inr e ↦
        rw (on, e, suc_exact n (omega arith), suc_exact i (omega arith))
          (count_runners_from rs a (n + 1) b (i + 1) (omega arith) (omega arith) (omega arith)
            ∙ ground arith)
  ]
]

-- Of fewer runners than an int counts, the analysis counts those that the pipeline monitor takes as
-- online, busy and available; its estimate is the number of runners that the monitor wants where none
-- is available, and none where one is.
pub demand_of_lem :
    (runners : SelfHostedRunnerList) (queued_runs : WorkflowRunsList)
    → length runners.runners < 2 ^ 62
    → demand_of runners queued_runs ≡ record {
      total_runners = runners.total_count;
      online_runners = pos (length (select is_online runners.runners));
      busy_runners = pos (length (busy runners.runners));
      idle_runners = pos (length (available runners.runners));
      queued_jobs = queued_runs.total_count;
      estimated_need =
          if eqb_ℤ (pos (length (available runners.runners))) (pos 0)
          then wanted queued_runs.total_count (pos (length (available runners.runners)))
          else pos 0;
    }
unfolding demand_of wanted
demand_of_lem runners queued_runs h =
    let start = no_demand runners.total_count queued_runs.total_count in
    ap estimate
      (count_runners_from runners.runners start 0 0 0 (omega arith) (omega arith) (omega arith))
    ∙ ground arith
