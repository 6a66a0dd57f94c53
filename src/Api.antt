-- ===== src/Api.antt =====
-- frontend/src/lib/api.ts, and the calls that features/orders/api.ts and features/properties/api.ts
-- make with it. What `fetch` answers is an argument.
pub mod Calls
pub mod Properties
pub mod Laws
mod Tests
use decentrarent.Prelude.{
  ℕ, String, ◌<>◌, Bool, true, false, Option, none, some, List, [], ◌∷◌, if◌then◌else◌, eqb, truthy,
  or_text,
}
use decentrarent.Prelude.Outcome.{Result, ok, threw, error_object}
use decentrarent.Prelude.Dict.{Dict, insert}

-- A member of the objects that are sent as JSON.
pub data Value : Type 0 where
  text_value : String → Value
  number_value : ℕ → Value

-- The arguments of `apiFetch`: no caller gives headers of its own.
pub record ApiCall : Type 0 where
  pub path : String
  pub method : String
  pub body : Option (Dict Value)
  pub token : Option String

pub record HttpRequest : Type 0 where
  pub url : String
  pub method : String
  pub headers : Dict String
  pub body : Option (Dict Value)

abbrev pub base_headers : Dict String
base_headers = ("Content-Type", "application/json") ∷ []

abbrev with_token : Option String → Dict String → Dict String
with_token none headers = headers
with_token (some token) headers =
    if truthy token then insert "Authorization" ("Bearer " <> token) headers else headers

-- What is given to `fetch`.
unfoldable pub fetch_request : ApiCall → HttpRequest
fetch_request call = record {
  url = "/api" <> call.path;
  method = call.method;
  headers = with_token call.token base_headers;
  body = call.body;
}

-- An answer: its status, what its body reads as, and the member `error` of the body as far as the
-- body is JSON and has one.
pub record HttpResponse (A : Type 0) : Type 0 where
  pub is_ok : Bool
  pub status : ℕ
  pub json : Result A
  pub error_json : Option String
  pub body_is_json : Bool

-- `body.error || …` of an answer that is not ok; a body that does not read as JSON stands for
-- `{ error: 'Unknown error' }`. `show` prints the status.
abbrev pub error_text : (ℕ → String) → ℕ → Bool → Option String → String
error_text show status false e = "Unknown error"
error_text show status true none = "Request failed: " <> show status
error_text show status true (some e) = or_text e ("Request failed: " <> show status)

-- The part after `fetch`. With status 204 there is nothing to read.
unfoldable pub receive : {A : Type 0} → (ℕ → String) → A → Result (HttpResponse A) → Result A
receive show nothing (threw e) = threw e
receive show nothing (ok res) =
    if res.is_ok
    then (if eqb res.status 204 then ok nothing else res.json)
    else threw (error_object (error_text show res.status res.body_is_json res.error_json))
