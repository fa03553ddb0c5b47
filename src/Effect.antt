-- ===== src/Effect.antt =====
-- What the program does to the outside, and what answers it. An action takes the events so far,
-- newest first, and returns its result and the events after it. Go's `error` is a value.
pub mod Calls
pub mod Returns
pub mod Fails
pub mod Exactly
pub mod Limits
pub mod Same
pub mod Ends
mod Types
use actionsspot.Prelude.{
  str_eq, if◌then◌else◌, ℕ, String, ◌+++◌, decimal, Bool, Option, none, some, List, [], ◌∷◌, ◌++◌,
}
use actionsspot.Json.{Json}
pub use Types.{
  Url, Request, Response, Reply, SpotRequest, Event, History, Error, actions_detail, broken,
  replied, http, sleep, spot, describe, terminate, put_item, drew, plain, wrap, actions,
}
unfoldable pub use Types.{error_text}

-- A value, an error value, or a panic (which no code of the program recovers from).
pub data Result {ℓ} (A : Type ℓ) : Type ℓ where
  ok : A → Result A
  err : Error → Result A
  crash : String → Result A

-- The outside: each answer may depend on everything that was done before.
pub record Env : Type 0 where
  pub answer : History → Request → Reply
  pub parse_url : String → Option Url
  pub url_string : Url → String
  pub unmarshal : String → Option Json
  pub decode : String → Option Json
  pub valid_time : String → Bool
  pub parse_uuid : String → Option String
  pub now : History → ℕ
  pub show_time : ℕ → String
  pub encode_base64 : String → String
  pub random_hex : History → ℕ → String
  pub jitter : History → ℕ
  pub hostname : String
  pub new_uuid : History → String
  pub visit : History → List String → List String
  pub spot_answer : History → SpotRequest → Result (List String)
  pub describe_answer : History → String → Result (List (List String))
  pub terminate_answer : History → List String → Result (Unit {0})
  pub put_answer : History → List (String × String) → Result (Unit {0})

abbrev pub Exec {ℓ} : Type ℓ → Type ℓ → Type ℓ
Exec S A = S → Result A × S

abbrev pub wrap_result {ℓ} : {A : Type ℓ} → String → Result A → Result A
wrap_result msg (ok a) = ok a
wrap_result msg (err e) = err (wrap msg e)
wrap_result msg (crash m) = crash m

abbrev pub attempt_result {ℓ} : {A : Type ℓ} → Result A → Result (Result A)
attempt_result (ok a) = ok (ok a)
attempt_result (err e) = ok (err e)
attempt_result (crash m) = crash m

module _ {ℓ} {S A : Type ℓ} where
  unfoldable pub pure : A → Exec S A
  pure a s = (ok a, s)

  unfoldable pub fail : Error → Exec S A
  fail e s = (err e, s)

  unfoldable pub lift : Result A → Exec S A
  lift r s = (r, s)

  -- fmt.Errorf("…: %w", err) around whatever goes wrong in an action
  unfoldable pub wrapped : String → Exec S A → Exec S A
  wrapped msg m s = let (r, s') = m s in (wrap_result msg r, s')

  or_fail : Option A → Error → Exec S A
  or_fail none e s = (err e, s)
  or_fail (some a) e s = (ok a, s)

-- `if err := m(); err != nil` where the caller looks at the error itself.
unfoldable pub attempt {ℓ} : {S A : Type ℓ} → Exec S A → Exec S (Result A)
attempt m s = let (r, s') = m s in (attempt_result r, s')

module _ {ℓ} {S A B : Type ℓ} where
  abbrev pub continue : Result A → (A → Exec S B) → Exec S B
  continue (ok a) f s = f a s
  continue (err e) f s = (err e, s)
  continue (crash m) f s = (crash m, s)

  infixl 5 ◌>>=◌ ◌>>◌
  unfoldable pub ◌>>=◌ : Exec S A → (A → Exec S B) → Exec S B
  unfolding pure fail lift wrapped or_fail attempt
  ◌>>=◌ m f s = let (r, s') = m s in continue r f s'

  abbrev pub ◌>>◌ : Exec S A → Exec S B → Exec S B
  m >> k = m >>= λ _. k

unfoldable record_event : Event → Exec History (Unit {0})
record_event e h = (ok tt, e ∷ h)

abbrev pub converted {ℓ} : {A : Type ℓ} → String → Option A → Result A
converted message none = err (wrap message (plain "json: cannot unmarshal"))
converted message (some a) = ok a

abbrev pub request_to : String → Option Json → Option Url → Result Request
request_to method body none = err (plain "failed to create request: invalid url")
request_to method body (some u) =
    ok (record { method = method; url = u; headers = []; body = body })

abbrev pub reply_result : Reply → Result Response
reply_result (broken e) = err (plain e)
reply_result (replied r) = ok r

module _ (env : Env) where
  abbrev pub decode_json {ℓ} : {A : Type ℓ} → (Json → Option A) → String → Option Json → Result A
  decode_json f message none = err (wrap message (plain "invalid JSON"))
  decode_json f message (some j) = converted message (f j)

  abbrev pub decode_read {ℓ} : {A : Type ℓ} → (Json → Option A) → String → Option String → Result A
  decode_read f message none = err (wrap message (plain "unexpected EOF"))
  decode_read f message (some s) = decode_json f message (env.decode s)

  -- json.NewDecoder(resp.Body).Decode into a struct
  abbrev pub decode_body {ℓ} : {A : Type ℓ} → (Json → Option A) → Response → String → Result A
  decode_body f resp message = decode_read f message resp.body

  -- json.Unmarshal into a struct
  abbrev pub unmarshal_as {ℓ} : {A : Type ℓ} → (Json → Option A) → String → Option A
  unmarshal_as f s = elim (env.unmarshal s) [ none ↦ none | some j ↦ f j ]

  -- http.NewRequestWithContext: the url has to parse.
  abbrev pub new_request : String → String → Option Json → Result Request
  new_request method url body = request_to method body (env.parse_url url)

  -- httpClient.Do
  unfoldable pub do_request : Request → Exec History Response
  do_request req h = (reply_result (env.answer h req), http req ∷ h)

-- url.Values.Set
abbrev drop_param : String → List (String × String) → List (String × String)
drop_param k [] = []
drop_param k ((j, v) ∷ ps) =
    let rest = drop_param k ps in if str_eq j k then rest else (j, v) ∷ rest

abbrev pub set_param : String → String → Url → Url
set_param k v u = record u { params = drop_param k u.params ++ (k, v) ∷ [] }

abbrev get_param : String → List (String × String) → Option String
get_param k [] = none
get_param k ((j, v) ∷ ps) = if str_eq j k then some v else get_param k ps

-- io.ReadAll(resp.Body)
abbrev read_text : String → Option String → Result String
read_text message none = err (wrap message (plain "unexpected EOF"))
read_text message (some s) = ok s

abbrev pub read_all : Response → String → Result String
read_all resp message = read_text message resp.body

-- `body, _ := io.ReadAll(resp.Body)`
abbrev pub read_lenient : Response → String
read_lenient resp = elim resp.body [ none ↦ "" | some s ↦ s ]

abbrev pub set_header : String → String → Request → Request
set_header k v req = record req { headers = req.headers ++ (k, v) ∷ [] }
