-- ===== src/Auth/Session.antt =====
-- A session is open exactly when there is a token, and survives the page.
use decentrarent.Prelude.{
  ℕ, String, Bool, true, false, none, some, List, ◌≡◌, refl, present, truthy, or_text, sym, ◌∙◌,
  Bool-cases, inl, inr, ◌==◌, eq_iff, ap, ◌≢◌,
}
use decentrarent.Prelude.Outcome.{Result, ok, threw, error_object, other, message_of}
use decentrarent.Api.{ApiCall}
use decentrarent.Auth.{
  User, AuthState, initial_auth, login, logout, verify_token, verified, partialize, rehydrate,
  AuthResponse, NonceResponse, WalletAuthResult, signed_in, wallet_not_registered, Wallet,
  SignInState, finish_sign_in, authenticate, sign_in,
}

-- What may happen to the session; the server gives no empty token.
pub data Step : AuthState → AuthState → Type 0 where
  logs_in :
      (token : String) (u : User) (s : AuthState) → truthy token ≡ true → Step s (login token u s)
  logs_out : (s : AuthState) → Step s (logout s)
  verifies : (send : ApiCall → Result (Unit {0})) (s : AuthState) → Step s (verify_token send s).1
  restarts : (s : AuthState) → Step s (rehydrate (partialize s))

pub data Reach : AuthState → Type 0 where
  start : Reach initial_auth
  next : {s t : AuthState} → Reach s → Step s t → Reach t

-- Signed in means that there is a token, and a user with it; signed out, that there is neither.
abbrev pub has_user : AuthState → Bool
has_user s = elim s.user [ none ↦ false | some _ ↦ true ]

pub record IsConsistent (s : AuthState) : Type 0 where
  pub by_token : s.is_authenticated ≡ present s.token
  pub by_user : s.is_authenticated ≡ has_user s

Step-IsConsistent : {s t : AuthState} → Step s t → IsConsistent s → IsConsistent t
unfolding login logout verify_token rehydrate partialize initial_auth
Step-IsConsistent (logs_in token u s h) c = record { by_token = sym h; by_user = refl }
Step-IsConsistent (logs_out s) c = record { by_token = refl; by_user = refl }
Step-IsConsistent (verifies send s) c = elim (Bool-cases (present s.token)) [
  | inr without ↦ rw without c
  | inl signed ↦ rw signed (after (send _))
]
  where
    after : (r : Result (Unit {0})) → IsConsistent (verified s r).1
    after (ok _) = c
    after (threw e) = record { by_token = refl; by_user = refl }
Step-IsConsistent (restarts s) c = elim (Bool-cases (present s.token)) [
  | inl signed ↦
      rw signed
        (record { by_token = sym signed; by_user = sym signed ∙ (sym c.by_token ∙ c.by_user) })
  | inr without ↦
      rw without
        (record { by_token = sym without; by_user = sym without ∙ (sym c.by_token ∙ c.by_user) })
]

-- In every state that the session can reach, being signed in means that there are a token and a
-- user, and being signed out that there is neither; and the next start of the page finds the session
-- as it was left.
pub Reach-IsConsistent : {s : AuthState} → Reach s → IsConsistent s × (rehydrate (partialize s) ≡ s)
unfolding initial_auth rehydrate partialize
Reach-IsConsistent r = (consistent r, restored (consistent r))
  where
    consistent : {s : AuthState} → Reach s → IsConsistent s
    consistent start = record { by_token = refl; by_user = refl }
    consistent (next r st) = Step-IsConsistent st (consistent r)

    restored : {s : AuthState} → IsConsistent s → rehydrate (partialize s) ≡ s
    restored {s} c = elim (Bool-cases (present s.token)) [
      | inl signed ↦
          rw signed (ap (λ b. record s { is_authenticated = b }) (sym (c.by_token ∙ signed)))
      | inr without ↦
          rw without (ap (λ b. record s { is_authenticated = b }) (sym (c.by_token ∙ without)))
    ]

-- What the end of a sign-in says of the session and of the hook.
module _ (answer : Result AuthResponse) (before : AuthState) where
  abbrev pub Ended : Result WalletAuthResult × AuthState × SignInState → Type 0
  Ended (ok signed_in, s, h) =
      (a : AuthResponse) × (answer ≡ ok a)
      × (s ≡ login a.token a.user before)
      × (h ≡ record { is_loading = false; error = none })
  Ended (ok wallet_not_registered, s, h) =
      (answer ≡ threw (error_object "wallet_not_registered"))
      × (s ≡ before)
      × (h ≡ record { is_loading = false; error = none })
  Ended (threw e, s, h) =
      (answer ≡ threw e)
      × (e ≢ error_object "wallet_not_registered")
      × (s ≡ before)
      × (h.is_loading ≡ false)
      × (present h.error ≡ true)

shown : (m : String) → truthy (or_text m "Authentication failed") ≡ true
shown m = elim (Bool-cases (truthy m)) [ inl said ↦ rw said said | inr blank ↦ rw blank refl ]

module _ (encode : String → List ℕ) (base58 : List ℕ → String)
    (ask_nonce : ApiCall → Result NonceResponse) (ask_verify : ApiCall → Result AuthResponse) where
  -- A sign-in with a wallet ends in one of three ways, by what the nonce, the wallet's signature and
  -- the server give in a line: it opens the session of the user that the server names; or it says
  -- that the wallet is not registered, exactly when the error does; or it throws another error and
  -- shows a message. Only the first changes the session, and none leaves the hook loading.
  pub sign_in-Ended :
      (w : Wallet) (s : AuthState) (h : SignInState)
      → Ended
          (authenticate encode base58 ask_nonce ask_verify w)
          s
          (sign_in encode base58 ask_nonce ask_verify (some w) s h)
  unfolding sign_in finish_sign_in
  sign_in-Ended w s h = ends (authenticate encode base58 ask_nonce ask_verify w)
    where
      unlike :
          (m : String)
          → (m == "wallet_not_registered") ≡ false
          → error_object m ≢ error_object "wallet_not_registered"
      unlike m differs e =
          let same : m ≡ "wallet_not_registered" = ap (λ t. message_of t "") e in
          cc (sym differs ∙ (eq_iff m "wallet_not_registered").1 same)

      ends :
          (r : Result AuthResponse)
          → Ended r s (finish_sign_in encode base58 ask_nonce ask_verify r s)
      ends (ok a) = (a, refl, refl, refl)
      ends (threw other) = (refl, λ e. cc e, refl, refl, refl)
      ends (threw (error_object m)) = elim (Bool-cases (m == "wallet_not_registered")) [
        | inl same ↦ rw same (ap (λ x. threw (error_object x)) ((eq_iff m _).0 same), refl, refl)
        | inr differs ↦ rw differs (refl, λ e. unlike m differs e, refl, refl, shown m)
      ]
