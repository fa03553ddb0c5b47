-- ===== src/Ghaec2/Client.antt =====
-- ghaec2/gha_actions_client.go: the client's state, its token, and how a refused request is read.
pub mod Messages
pub mod Sessions
pub mod Setup
pub mod ScaleSets
pub mod Payload
pub mod Retries
pub mod Found
use actionsspot.Prelude.{
  ℕ, ℤ, ◌+◌, String, ◌+++◌, is_blank, join, Bool, true, false, not, Option, none, some, List, [],
  ◌∷◌, ◌++◌, ltb, if◌then◌else◌,
}
use actionsspot.Json
use actionsspot.Json.{Json, fields_of, at_key, as_text, as_list}
use actionsspot.Effect.{
  Url, Request, Response, History, Env, Error, plain, wrap, actions, Result, ok, err, Exec, pure,
  fail, lift, ◌>>=◌, ◌>>◌, new_request, do_request, set_header, unmarshal_as,
}

abbrev pub scale_set_endpoint : String
scale_set_endpoint = "_apis/runtime/runnerscalesets"

abbrev pub api_version : String
api_version = "6.0-preview"

pub data GitHubScope : Type 0 where
  organization enterprise repository : GitHubScope

pub record GitHubConfig : Type 0 where
  pub config_url : Url
  pub scope : GitHubScope
  pub organization : String
  pub enterprise : String
  pub repository : String

pub record Client : Type 0 where
  pub base_url : String
  pub token : String
  pub actions_service_url : String
  pub admin_token : String
  pub admin_token_expiry : ℕ
  pub config : Option GitHubConfig

pub record GhErrorItem : Type 0 where
  pub message : String
  pub code : String
  pub field : String

pub record GhError : Type 0 where
  pub message : String
  pub errors : List GhErrorItem
  pub documentation_url : String

abbrev decode_gh_error_item : Json → Option GhErrorItem
decode_gh_error_item j = Json.◌>>=◌ (fields_of j) λ fs.
    Json.◌>>=◌ (as_text (at_key "message" fs)) λ m. Json.◌>>=◌ (as_text (at_key "code" fs)) λ c.
      Json.◌>>=◌ (as_text (at_key "field" fs))
        λ f. some (record { message = m; code = c; field = f })

unfoldable pub decode_gh_error : Json → Option GhError
decode_gh_error j = Json.◌>>=◌ (fields_of j) λ fs. Json.◌>>=◌ (as_text (at_key "message" fs)) λ m.
    Json.◌>>=◌ (as_list decode_gh_error_item (at_key "errors" fs)) λ es.
      Json.◌>>=◌ (as_text (at_key "documentation_url" fs))
        λ d. some (record { message = m; errors = es; documentation_url = d })

abbrev pub item_messages : List GhErrorItem → List String
item_messages [] = []
item_messages (e ∷ es) =
    let rest = item_messages es in
    if is_blank e.message then rest else (e.field +++ ": " +++ e.message) ∷ rest

module _ (env : Env) where
  abbrev pub gh_error : ℕ → String → String → Option GhError → Error
  gh_error status id body none = actions status id body none
  gh_error status id body (some gh) =
      actions status id (join "; " (gh.message ∷ item_messages gh.errors))
        (some ("documentation: " +++ gh.documentation_url))

  abbrev pub error_of_body : ℕ → String → Option String → Error
  error_of_body status id none = actions status id "Failed to read error response" none
  error_of_body status id (some body) =
      gh_error status id body (unmarshal_as env decode_gh_error body)

  unfoldable pub parse_error_response : Response → Error
  parse_error_response resp = error_of_body resp.status resp.request_id resp.body

  -- The token lasts an hour, and is given up five minutes early; it is never renewed.
  unfoldable pub refresh_token_if_needed : Client → Exec History (Unit {0})
  refresh_token_if_needed c h =
      if ltb (env.now h + 300) c.admin_token_expiry
      then (ok tt, h)
      else (err (plain "token refresh not implemented - please reinitialize the client"), h)

  unfoldable pub make_actions_service_request :
      Client → String → String → Option Json → Exec History Response
  make_actions_service_request c method url payload = do
    req ← lift (new_request env method url payload)
    let bearer = if is_blank c.admin_token then c.token else c.admin_token
    let req₁ = set_header "Authorization" ("Bearer " +++ bearer) req
    let req₂ =
        set_header "User-Agent" "ghaec2-scaler/1.0" (set_header "Accept" "application/json" req₁)
    do_request env
        (elim payload [ none ↦ req₂ | some _ ↦ set_header "Content-Type" "application/json" req₂ ])
