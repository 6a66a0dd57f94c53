-- ===== src/Auth/Forms.antt =====
-- The forms that open a session: `handleLogin` of
-- frontend/src/features/auth/components/ConnectWallet.tsx and `handleSignup` of
-- frontend/src/pages/OnboardingNewbiePage.tsx and OnboardingWalletPage.tsx; and `handleSaveProfile` of
-- frontend/src/pages/ProfilePage.tsx.
pub mod Opens
mod Tests
use decentrarent.Prelude.{
  ℕ, String, Bool, true, false, not, ◌&&◌, ◌||◌, Option, none, some, List, [], ◌∷◌, ◌++◌,
  if◌then◌else◌, truthy, present, trim,
}
use decentrarent.Prelude.Outcome.{Result, ok, threw, message_of}
use decentrarent.Prelude.Dict.{Dict}
use decentrarent.Api.{ApiCall, Value, text_value}
use decentrarent.Auth.{User, AuthState, AuthResponse, login}

pub data Form : Type 0 where
  login_form signup_form : Form
  wallet_signup_form : String → Form  -- with the address of the connected wallet

pub record FormState : Type 0 where
  pub username : String
  pub password : String
  pub error : String
  pub loading : Bool
  pub step : ℕ  -- 1, and 2 once a signup is done; the login form stays at 1

abbrev pub path_of : Form → String
path_of login_form = "/auth/login"
path_of signup_form = "/auth/signup"
path_of (wallet_signup_form address) = "/auth/signup"

abbrev pub wallet_member : Form → Dict Value
wallet_member login_form = []
wallet_member signup_form = []
wallet_member (wallet_signup_form address) = ("wallet_address", text_value address) ∷ []

abbrev pub is_filled : FormState → Bool
is_filled f = truthy (trim f.username) && truthy (trim f.password)

abbrev pub form_call : Form → FormState → ApiCall
form_call form f = record {
  path = path_of form;
  method = "POST";
  body = some (
      ("username", text_value (trim f.username))
      ∷ ("password", text_value f.password)
      ∷ wallet_member form);
  token = none;
}

-- The part before the await, with the request that it sends.
unfoldable pub begin_form : Form → FormState → FormState × Option ApiCall
begin_form form f =
    if is_filled f
    then (record f { loading = true; error = "" }, some (form_call form f))
    else (record f { error = "Please fill in both fields" }, none)

abbrev pub failed_text : Form → String
failed_text login_form = "Login failed"
failed_text signup_form = "Signup failed"
failed_text (wallet_signup_form address) = "Signup failed"

abbrev pub next_step : Form → ℕ → ℕ
next_step login_form step = step
next_step signup_form step = 2
next_step (wallet_signup_form address) step = 2

abbrev pub next_page : Form → Option String
next_page login_form = some "/home"
next_page signup_form = none
next_page (wallet_signup_form address) = none

-- The part after it: the form, the session, and the page that is gone to.
unfoldable pub end_form :
    Form → Result AuthResponse → FormState × AuthState → FormState × AuthState × Option String
unfolding login
end_form form (ok r) (f, s) = (
  record f { loading = false; step = next_step form f.step },
  login r.token r.user s,
  next_page form,
)
end_form form (threw e) (f, s) =
    (record f { loading = false; error = message_of e (failed_text form) }, s, none)

abbrev pub finish_form :
    Form
    → Option ApiCall
    → (ApiCall → Result AuthResponse)
    → FormState × AuthState
    → FormState × AuthState × Option String
finish_form form none answer (f, s) = (f, s, none)
finish_form form (some call) answer (f, s) = end_form form (answer call) (f, s)

-- A whole submission, where the server answers each request as `answer` says.
unfoldable pub submit_form :
    Form
    → (ApiCall → Result AuthResponse)
    → FormState × AuthState
    → FormState × AuthState × Option String
unfolding begin_form end_form
submit_form form answer (f, s) =
    let (g, call) = begin_form form f in finish_form form call answer (g, s)

-- `handleSaveProfile`: what the server gives is the session's user from then on, with the balance
-- that was known.
abbrev pub balance_of : Option User → ℕ
balance_of none = 0
balance_of (some u) = u.balance

abbrev pub profile_saved : String → Result User → AuthState → AuthState × Option String
profile_saved token (ok u) s = (login token (record u { balance = balance_of s.user }) s, none)
profile_saved token (threw e) s = (s, some (message_of e "Failed to update"))

-- The session, and the error that is shown.
unfoldable pub save_profile : Result User → AuthState → AuthState × Option String
unfolding login
save_profile answer s = elim s.token [
  | none ↦ (s, none)
  | some token ↦ if truthy token then profile_saved token answer s else (s, none)
]
