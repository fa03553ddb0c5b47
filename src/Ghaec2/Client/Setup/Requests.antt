-- ===== src/Ghaec2/Client/Setup/Requests.antt =====
-- ghaec2/gha_actions_client.go: the configuration from a url, and requests to the GitHub API.
use actionsspot.Prelude.{String, ◌+++◌, split_char, trim_char, Option, none, some, List, [], ◌∷◌}
use actionsspot.Json.{Json}
use actionsspot.Effect.{
  Url, Request, Response, History, Env, plain, wrap, Result, ok, err, crash, Exec, pure, lift,
  wrapped, ◌>>=◌, new_request, do_request, set_header,
}
use actionsspot.Ghaec2.Client.{Client, GitHubConfig, organization, repository}

-- The parts of the url's path; there is always one.
abbrev config_of_parts : Url → List String → GitHubConfig
config_of_parts u (org ∷ repo ∷ parts) = record {
  config_url = u;
  scope = repository;
  organization = org;
  enterprise = "";
  repository = repo;
}
config_of_parts u (org ∷ []) = record {
  config_url = u;
  scope = organization;
  organization = org;
  enterprise = "";
  repository = "";
}
config_of_parts u [] = record {
  config_url = u;
  scope = organization;
  organization = "";
  enterprise = "";
  repository = "";
}

abbrev parsed_config : Option Url → Result GitHubConfig
parsed_config none = err (wrap "failed to parse github config url" (plain "invalid url"))
parsed_config (some u) = ok (config_of_parts u (split_char b'/' (trim_char b'/' u.path)))

module _ (env : Env) where
  unfoldable pub parse_github_config_from_url : String → Result GitHubConfig
  parse_github_config_from_url url = parsed_config (env.parse_url url)

  -- The path of the config's url is replaced; without a config this is a panic.
  abbrev api_request : String → String → Option Json → Option GitHubConfig → Result Request
  api_request method path body none = crash "nil pointer dereference"
  api_request method path body (some config) =
      new_request env method
        (env.url_string (record config.config_url { path = "/api/v3" +++ path })) body

  unfoldable pub new_github_api_request :
      Client → String → String → Option Json → Exec History Request
  new_github_api_request c method path body = do
    req ←
        wrapped "failed to create new GitHub API request"
          (lift (api_request method path body c.config))
    pure (set_header "User-Agent" "ghaec2-scaler/1.0" req)

  -- A request with the client's own token.
  abbrev pub own_request : Client → String → String → String → String → Exec History Response
  own_request c method path create send = do
    req ← wrapped create (new_github_api_request c method path none)
    wrapped send (
        do_request env (
          set_header "Content-Type" "application/vnd.github.v3+json"
            (set_header "Authorization" ("Bearer " +++ c.token) req)))
