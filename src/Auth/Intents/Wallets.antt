-- ===== src/Auth/Intents/Wallets.antt =====
-- Where a sign-in with the wallet leads, and what the two intents do to each other.
use decentrarent.Prelude.{
  ℕ, String, Bool, true, false, Option, none, some, List, [], ◌∷◌, ◌≡◌, refl, if◌then◌else◌, ◌⊎◌,
  inl, inr, present, ◌≢◌,
}
use decentrarent.Prelude.Outcome.{Result, ok, threw, Thrown, error_object}
use decentrarent.Api.{ApiCall}
use decentrarent.Auth.{
  AuthState, AuthResponse, NonceResponse, WalletAuthResult, signed_in, wallet_not_registered,
  Wallet, SignInState, login, sign_in, authenticate,
}
use decentrarent.Auth.Session.{Ended, sign_in-Ended}
use decentrarent.Auth.Intents.{
  no_intents, signs_in, goes, on_wallet, handle_wallet_sign_in, have_wallet_click, shut_dialog,
  after_sign_in,
}
use decentrarent.Navigation.{home, onboarding_wallet, follow}

-- The three ways: into the session of the user that the server names, to the page where a wallet is
-- registered, or nowhere, with the error shown.
abbrev pub Gone : Result AuthResponse → AuthState → Option String × AuthState × SignInState → Type 0
Gone answer before (page, s, h) =
    ((a : AuthResponse) × (answer ≡ ok a)
      × (page ≡ some "/home")
      × (s ≡ login a.token a.user before)
      × (follow 3 s.is_authenticated ("home" ∷ []) ≡ some home))
    ⊎ ((answer ≡ threw (error_object "wallet_not_registered"))
        × (page ≡ some "/onboarding/wallet")
        × (s ≡ before)
        × (follow 3 s.is_authenticated ("onboarding" ∷ "wallet" ∷ []) ≡ some onboarding_wallet))
    ⊎ ((e : Thrown) × (answer ≡ threw e)
        × (e ≢ error_object "wallet_not_registered")
        × (page ≡ none)
        × (s ≡ before)
        × (present h.error ≡ true))

home_follows :
    (token : String) (a : AuthResponse) (s : AuthState)
    → follow 3 (login token a.user s).is_authenticated ("home" ∷ []) ≡ some home
unfolding follow login
home_follows token a s = refl

wallet_follows : (b : Bool) → follow 3 b ("onboarding" ∷ "wallet" ∷ []) ≡ some onboarding_wallet
unfolding follow
wallet_follows b = refl

module _ (encode : String → List ℕ) (base58 : List ℕ → String)
    (ask_nonce : ApiCall → Result NonceResponse) (ask_verify : ApiCall → Result AuthResponse) where
  -- `walletSignIn().then(…)`
  abbrev pub sign_in_and_go :
      Wallet → AuthState → SignInState → Option String × AuthState × SignInState
  sign_in_and_go w s h =
      let (r, t, g) = sign_in encode base58 ask_nonce ask_verify (some w) s h in
      (after_sign_in r, t, g)

  -- A sign-in with the wallet leads home exactly with the session of the user that the server names,
  -- and the home page then shows; to the registration exactly when the server does not know the
  -- wallet, and that page shows; and otherwise nowhere, with the session as it was and an error shown.
  pub sign_in_and_go-Gone :
      (w : Wallet) (s : AuthState) (h : SignInState)
      → Gone (authenticate encode base58 ask_nonce ask_verify w) s (sign_in_and_go w s h)
  unfolding after_sign_in
  sign_in_and_go-Gone w s h =
      leads (sign_in encode base58 ask_nonce ask_verify (some w) s h)
        (sign_in-Ended encode base58 ask_nonce ask_verify w s h)
    where
      answer : Result AuthResponse
      answer = authenticate encode base58 ask_nonce ask_verify w

      leads :
          (end : Result WalletAuthResult × AuthState × SignInState)
          → Ended answer s end
          → Gone answer s (after_sign_in end.0, end.1, end.2)
      leads (ok signed_in, t, g) (a, e, same, idle) =
          inl (a, e, refl, same, rw same (home_follows a.token a s))
      leads (ok wallet_not_registered, t, g) (e, same, idle) =
          inr (inl (e, refl, same, wallet_follows t.is_authenticated))
      leads (threw x, t, g) (e, other, same, idle, shown) =
          inr (inr (x, e, other, refl, same, shown))

-- A click on the button for who has a wallet whose dialog is shut without one leaves its intent: the
-- wallet that is connected for a sign-in afterwards leads to the registration, and signs in nobody,
-- until the effect runs again.
pub stale_intent-wins :
    let asked = (have_wallet_click false no_intents).0 in
    let again = (handle_wallet_sign_in false (shut_dialog asked)).0 in
    ((on_wallet true again).1 ≡ goes "/onboarding/wallet")
    × ((on_wallet true (on_wallet true again).0).1 ≡ signs_in)
unfolding have_wallet_click handle_wallet_sign_in shut_dialog on_wallet no_intents
stale_intent-wins = (refl, refl)

-- Without an older intent each of the two buttons gets what it is for, whether the wallet is connected
-- before the click or in its dialog.
pub intent-kept :
    (connected : Bool)
    → let (asked, move) = handle_wallet_sign_in connected no_intents in
      let (had, go) = have_wallet_click connected no_intents in
      ((if connected then move else (on_wallet true (shut_dialog asked)).1) ≡ signs_in)
      × ((if connected then go else (on_wallet true (shut_dialog had)).1)
          ≡ goes "/onboarding/wallet")
unfolding have_wallet_click handle_wallet_sign_in shut_dialog on_wallet no_intents
intent-kept true = (refl, refl)
intent-kept false = (refl, refl)
