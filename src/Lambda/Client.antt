-- ===== src/Lambda/Client.antt =====
-- github-runner-scaler/ghe_client.go: the client of the GitHub Enterprise API.
pub mod Runs
pub mod Filter
pub mod Cost
pub mod Free
pub mod Shared
pub mod Matching
pub mod Pages
use actionsspot.Prelude.{
  ℕ, zero, suc, ◌+◌, ◌==◌, ltb, leb, ℤ, pos, String, ◌+++◌, is_blank, decimal, show_int, Bool, true,
  false, not, Option, none, some, List, [], ◌∷◌, ◌++◌, if◌then◌else◌,
}
use actionsspot.Json.{Json, as_list}
use actionsspot.Effect.{
  Request, Response, History, Env, Error, plain, wrap, Result, ok, err, crash, Exec, pure, fail,
  lift, wrapped, attempt, ◌>>=◌, ◌>>◌, new_request, do_request, set_header, decode_body,
  read_lenient,
}
use actionsspot.Lambda.Types.{
  SelfHostedRunnerList, RegistrationToken, Repository, WorkflowJob, WorkflowRunsList,
  decode_runner_list, decode_token, decode_repository, decode_jobs, decode_runs,
}
use actionsspot.Lambda.Config.{Config}

-- The constant gheAPIURL.
abbrev base_url : String
base_url = "https://TelenorSwedenAB.ghe.com/api/v3"

-- A read through a pointer; nil is a panic.
unfoldable pub deref : {A : Type 0} → Option A → Exec History A
deref none h = (crash "nil pointer dereference", h)
deref (some a) h = (ok a, h)

-- The body of a response with the status that the call expects; the text of another one is told.
abbrev expect : {A : Type 0} → ℕ → String → Response → Result A → Result A
expect status what resp decoded =
    if not (resp.status == status)
    then err (plain (what +++ " (HTTP " +++ decimal resp.status +++ "): " +++ read_lenient resp))
    else decoded

module _ (env : Env) (c : Config) where
  -- No call of the program has a body.
  unfoldable pub make_request : String → String → Exec History Response
  make_request method url = do
    req ← lift (new_request env method url none)
    do_request env (
        set_header "Accept" "application/vnd.github+json"
          (set_header "Authorization" ("token " +++ c.github_token) req))

  abbrev pub get_json :
      {A : Type 0} → (Json → Option A) → String → ℕ → String → String → Exec History A
  get_json decoder method status url what = do
    resp ← wrapped "failed to make request" (make_request method url)
    lift (expect status what resp (decode_body env decoder resp "failed to decode response"))

  abbrev org_url : String
  org_url = base_url +++ "/orgs/" +++ c.organization_name

  abbrev repo_url : String → String → String
  repo_url owner repo = base_url +++ "/repos/" +++ owner +++ "/" +++ repo

  unfoldable pub get_self_hosted_runners : Exec History SelfHostedRunnerList
  get_self_hosted_runners =
      get_json decode_runner_list "GET" 200 (org_url +++ "/actions/runners") "failed to get runners"

  abbrev page_url : ℕ → String
  page_url page = org_url +++ "/repos?per_page=100" +++ "&page=" +++ decimal page

  -- One page, and what stops the loop: an empty page, or the tenth one.
  abbrev pub more_repositories :
      (List Repository → Exec History (List Repository))
      → ℕ
      → List Repository
      → List Repository
      → Exec History (List Repository)
  more_repositories next page all [] = pure all
  more_repositories next page all (repo ∷ repos) =
      if ltb 10 (page + 1) then pure (all ++ repo ∷ repos) else next (all ++ repo ∷ repos)

  -- The loop over the pages, with as many rounds as the fuel.
  pub repository_pages : ℕ → ℕ → List Repository → Exec History (List Repository)
  repository_pages zero page all = pure all
  repository_pages (suc fuel) page all = do
    repos ←
        get_json (as_list decode_repository) "GET" 200 (page_url page) "failed to get repositories"
    more_repositories (repository_pages fuel (page + 1)) page all repos

  -- The loop stops by itself after ten pages.
  pub get_repositories_in_organization : Exec History (List Repository)
  get_repositories_in_organization = repository_pages 10 1 []

  unfoldable pub get_repository_workflow_runs :
      String → String → String → Exec History WorkflowRunsList
  get_repository_workflow_runs owner repo status =
      get_json decode_runs "GET" 200
        (repo_url owner repo +++ "/actions/runs?status=" +++ status +++ "&per_page=100")
        "failed to get workflow runs"

  unfoldable pub get_workflow_jobs : String → String → ℤ → Exec History (List WorkflowJob)
  get_workflow_jobs owner repo run_id =
      get_json decode_jobs "GET" 200
        (repo_url owner repo +++ "/actions/runs/" +++ show_int run_id +++ "/jobs")
        "failed to get workflow jobs"

  -- Any failure counts as disabled.
  abbrev pub is_enabled : Result Response → Exec History Bool
  is_enabled (ok resp) = pure (resp.status == 200)
  is_enabled (err e) = pure false
  is_enabled (crash m) = lift (crash m)

  unfoldable pub is_github_actions_enabled : String → String → Exec History Bool
  is_github_actions_enabled owner repo = do
    answer ← attempt (make_request "GET" (repo_url owner repo +++ "/actions/workflows"))
    is_enabled answer

  unfoldable pub get_registration_token : Exec History RegistrationToken
  get_registration_token =
      get_json (decode_token env.valid_time) "POST" 201
        (org_url +++ "/actions/runners/registration-token") "failed to get registration token"

  unfoldable pub remove_runner : ℤ → Exec History (Unit {0})
  remove_runner runner_id = do
    resp ←
        wrapped "failed to make request"
          (make_request "DELETE" (org_url +++ "/actions/runners/" +++ show_int runner_id))
    lift (expect 204 "failed to remove runner" resp (ok tt))
