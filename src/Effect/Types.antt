-- ===== src/Effect/Types.antt =====
-- What the program sends and receives, and its error values.
use actionsspot.Prelude.{ℕ, String, ◌+++◌, decimal, Option, none, some, List}
use actionsspot.Json.{Json}

-- net/url.URL: the scheme and host, the path, and the query's parameters.
pub record Url : Type 0 where
  pub origin : String
  pub path : String
  pub params : List (String × String)

-- net/http.Request; the body is the value that was marshalled.
pub record Request : Type 0 where
  pub method : String
  pub url : Url
  pub headers : List (String × String)
  pub body : Option Json

-- net/http.Response; `none` where reading the body fails. `request_id` is the header that the
-- error path reports.
pub record Response : Type 0 where
  pub status : ℕ
  pub request_id : String
  pub body : Option String

-- `httpClient.Do`: an error with its text, or a response.
pub data Reply : Type 0 where
  broken : String → Reply
  replied : Response → Reply

-- The spot instance request that is sent to EC2: what the program fills in.
pub record SpotRequest : Type 0 where
  pub price : String
  pub image_id : String
  pub instance_type : String
  pub key_name : String
  pub security_group : String
  pub subnet : String
  pub user_data : String
  pub tags : List (String × String)

-- One external call; `drew` is a draw from a source of randomness.
pub data Event : Type 0 where
  http : Request → Event
  sleep : ℕ → Event
  spot : SpotRequest → Event
  describe : String → Event
  terminate : List String → Event
  put_item : List (String × String) → Event
  drew : Event

abbrev pub History : Type 0
History = List Event

-- errors.New and fmt.Errorf without %w; fmt.Errorf with a prefix and %w; ActionsError.
pub data Error : Type 0 where
  plain : String → Error
  wrap : String → Error → Error
  actions : ℕ → String → String → Option String → Error

abbrev pub actions_detail : String → Option String → String
actions_detail message none = message
actions_detail message (some err) = err

-- err.Error()
unfoldable pub error_text : Error → String
error_text (plain s) = s
error_text (wrap s e) = s +++ ": " +++ error_text e
error_text (actions status activity message err) =
    "Actions API error (status: "
    +++ decimal status
    +++ ", activity: "
    +++ activity
    +++ "): "
    +++ actions_detail message err
