-- ===== src/Api/Laws.antt =====
-- What every request carries, and how its answer is read.
use decentrarent.Prelude.{
  ℕ, String, ◌<>◌, Bool, true, false, Option, none, some, ◌≡◌, refl, arith, ◌==◌, truthy,
  if◌then◌else◌, eq_iff, Bool-cases, inl, inr,
}
use text.Mathlib.TextLemmas.{append-eq-nil_iff, cons≢nil}
use decentrarent.Prelude.Outcome.{ok, threw, error_object}
use decentrarent.Prelude.Dict.{lookup, insert}
use decentrarent.Api.{ApiCall, HttpResponse, fetch_request, receive, error_text}

-- The bearer header that a token asks for.
abbrev pub bearer : Option String → Option String
bearer none = none
bearer (some t) = if truthy t then some ("Bearer " <> t) else none

-- A request carries the token as a bearer exactly when there is one, always says that its body is
-- JSON, and goes to the API's path with the method and the body that it was given.
pub fetch_request-carries :
    (call : ApiCall)
    → (lookup "Authorization" (fetch_request call).headers ≡ bearer call.token)
      × (lookup "Content-Type" (fetch_request call).headers ≡ some "application/json")
      × ((fetch_request call).url ≡ "/api" <> call.path)
      × ((fetch_request call).method ≡ call.method)
      × ((fetch_request call).body ≡ call.body)
unfolding fetch_request lookup insert
fetch_request-carries call = (auth call.token, content call.token, refl, refl, refl)
  where
    auth :
        (t : Option String)
        → lookup "Authorization" (fetch_request (record call { token = t })).headers ≡ bearer t
    auth none = refl
    auth (some t) = ground arith

    content :
        (t : Option String)
        → lookup "Content-Type" (fetch_request (record call { token = t })).headers
          ≡ some "application/json"
    content none = refl
    content (some t) = ground arith

prefixed : (s : String) → truthy ("Request failed: " <> s) ≡ true
prefixed s = elim (Bool-cases ("Request failed: " <> s == "")) [
  | inr filled ↦ rw filled refl
  | inl blank ↦
      absurd (cons≢nil (append-eq-nil_iff.0 ((eq_iff ("Request failed: " <> s) "").0 blank)).0)
]

refused_text :
    (show : ℕ → String) (status : ℕ) (is_json : Bool) (e : Option String)
    → truthy (error_text show status is_json e) ≡ true
refused_text show status false e = refl
refused_text show status true none = prefixed (show status)
refused_text show status true (some e) = elim (Bool-cases (truthy e)) [
  | inl said ↦ rw said said
  | inr blank ↦ rw blank (prefixed (show status))
]

-- An answer that is not ok always throws an error, and its message is never empty, whatever the
-- body is.
pub receive-tells :
    {A : Type 0} (show : ℕ → String) (nothing : A) (res : HttpResponse A)
    → res.is_ok ≡ false
    → (message : String) × (receive show nothing (ok res) ≡ threw (error_object message))
      × (truthy message ≡ true)
unfolding receive
receive-tells show nothing res refused = (
  error_text show res.status res.body_is_json res.error_json,
  rw refused refl,
  refused_text show res.status res.body_is_json res.error_json,
)
