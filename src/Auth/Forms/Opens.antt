-- ===== src/Auth/Forms/Opens.antt =====
-- What the forms make of the session.
use decentrarent.Prelude.{
  String, true, false, Option, none, some, [], ◌∷◌, ◌≡◌, ◌≢◌, ◌⊎◌, refl, truthy, trim, Bool-cases,
  inl, inr, ◌==◌, eq_iff, arith,
}
use decentrarent.Prelude.Outcome.{Result, ok, threw, message_of}
use decentrarent.Api.{ApiCall, text_value}
use decentrarent.Auth.{AuthState, AuthResponse, login}
use decentrarent.Auth.Session.{Reach, next, logs_in}
use decentrarent.Auth.Forms.{
  Form, login_form, signup_form, wallet_signup_form, FormState, form_call, begin_form, end_form,
  submit_form,
}

-- An answer gives no empty token.
abbrev pub HasToken : Result AuthResponse → Type 0
HasToken (ok r) = truthy r.token ≡ true
HasToken (threw e) = Unit

-- The request that each form should send: the name, the password and, with a wallet, the address.
abbrev pub asked : Form → String → String → ApiCall
asked login_form name password = record {
  path = "/auth/login";
  method = "POST";
  body = some (("username", text_value name) ∷ ("password", text_value password) ∷ []);
  token = none;
}
asked signup_form name password = record {
  path = "/auth/signup";
  method = "POST";
  body = some (("username", text_value name) ∷ ("password", text_value password) ∷ []);
  token = none;
}
asked (wallet_signup_form address) name password = record {
  path = "/auth/signup";
  method = "POST";
  body = some (
      ("username", text_value name)
      ∷ ("password", text_value password)
      ∷ ("wallet_address", text_value address)
      ∷ []);
  token = none;
}

-- A login goes home; a signup goes on to the second step.
abbrev pub GoesOn : Form → FormState → FormState → Option String → Type 0
GoesOn login_form f g page = (page ≡ some "/home") × (g.step ≡ f.step)
GoesOn signup_form f g page = (page ≡ none) × (g.step ≡ 2)
GoesOn (wallet_signup_form address) f g page = (page ≡ none) × (g.step ≡ 2)

abbrev pub failed : Form → String
failed login_form = "Login failed"
failed signup_form = "Signup failed"
failed (wallet_signup_form address) = "Signup failed"

-- What a request leaves, by its answer: the session that it names, or an error.
abbrev pub Opens :
    Form
    → Result AuthResponse
    → FormState × AuthState
    → FormState × AuthState × Option String
    → Type 0
Opens form (ok r) (f, s) (g, t, page) =
    (t ≡ record { token = some r.token; user = some r.user; is_authenticated = true })
    × GoesOn form f g page
    × (g.loading ≡ false)
    × (g.error ≡ "")
Opens form (threw e) (f, s) (g, t, page) =
    (t ≡ s) × (page ≡ none) × (g ≡ record f { loading = false; error = message_of e (failed form) })

-- A submission with a name or a password of blanks alone sends nothing and tells it; one with both
-- sends the form's request, and leaves what its answer says.
abbrev pub Submitted :
    Form
    → (ApiCall → Result AuthResponse)
    → FormState × AuthState
    → FormState × AuthState × Option String
    → Type 0
Submitted form answer (f, s) after =
    (((trim f.username ≡ "") ⊎ (trim f.password ≡ ""))
      × ((begin_form form f).1 ≡ none)
      × (after ≡ (record f { error = "Please fill in both fields" }, s, none)))
    ⊎ ((trim f.username ≢ "")
        × (trim f.password ≢ "")
        × ((begin_form form f).1 ≡ some (asked form (trim f.username) f.password))
        × Opens form (answer (asked form (trim f.username) f.password)) (f, s) after)

truthy-no : (t : String) → truthy t ≡ false → t ≡ ""
truthy-no t h = (eq_iff t "").0 (ground (arith, h))

truthy-yes : (t : String) → truthy t ≡ true → t ≢ ""
truthy-yes t h e = let blank : (t == "") ≡ true = (eq_iff t "").1 e in ground (arith, h, blank)

form_call-asked :
    (form : Form) (f : FormState) → form_call form f ≡ asked form (trim f.username) f.password
form_call-asked login_form f = refl
form_call-asked signup_form f = refl
form_call-asked (wallet_signup_form address) f = refl

submitted-Opens :
    (form : Form) (r : Result AuthResponse) (f : FormState) (s : AuthState)
    → Opens form r (f, s) (end_form form r (record f { loading = true; error = "" }, s))
unfolding end_form login
submitted-Opens login_form (ok r) f s = (refl, (refl, refl), refl, refl)
submitted-Opens signup_form (ok r) f s = (refl, (refl, refl), refl, refl)
submitted-Opens (wallet_signup_form address) (ok r) f s = (refl, (refl, refl), refl, refl)
submitted-Opens login_form (threw e) f s = (refl, refl, refl)
submitted-Opens signup_form (threw e) f s = (refl, refl, refl)
submitted-Opens (wallet_signup_form address) (threw e) f s = (refl, refl, refl)

ended-Reach :
    (form : Form) (r : Result AuthResponse) (g : FormState) (s : AuthState)
    → HasToken r
    → Reach s
    → Reach (end_form form r (g, s)).1
unfolding end_form
ended-Reach form (ok r) g s h reach = next reach (logs_in r.token r.user s h)
ended-Reach form (threw e) g s h reach = reach

-- From every state that the session reaches, where no answer gives an empty token: a submission in
-- which the name or the password is empty or blanks alone sends nothing, tells it, and leaves the
-- session. One with both sends the form's request, with the name without its outer blanks and the
-- password as typed; if the server accepts it, its token and user are the session, a login goes home
-- and a signup goes on to its second step; else the session and the page stay and the error is shown.
-- After each the form is free, and the session is one that its steps reach.
pub submit_form-Opens :
    (form : Form) (answer : ApiCall → Result AuthResponse) (f : FormState) (s : AuthState)
    → ((call : ApiCall) → HasToken (answer call))
    → Reach s
    → Submitted form answer (f, s) (submit_form form answer (f, s))
      × Reach (submit_form form answer (f, s)).1
unfolding submit_form begin_form
submit_form-Opens form answer f s has r = elim (Bool-cases (truthy (trim f.username))) [
  | inr blank ↦ rw blank (inl (inl (truthy-no (trim f.username) blank), refl, refl), r)
  | inl named ↦ elim (Bool-cases (truthy (trim f.password))) [
    | inr blank ↦ rw (named, blank) (inl (inr (truthy-no (trim f.password) blank), refl, refl), r)
    | inl both ↦
        rw (named, both, form_call-asked form f)
          (
            inr (
              truthy-yes (trim f.username) named,
              truthy-yes (trim f.password) both,
              refl,
              submitted-Opens form (answer (asked form (trim f.username) f.password)) f s,
            ),
            ended-Reach form (answer (asked form (trim f.username) f.password))
                (record f { loading = true; error = "" }) s
                (has (asked form (trim f.username) f.password)) r,
          )
  ]
]
