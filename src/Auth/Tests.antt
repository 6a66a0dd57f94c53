-- ===== src/Auth/Tests.antt =====
-- The session's theorems at concrete inputs.
use decentrarent.Prelude.{true, false, none, some, [], ◌≡◌, refl}
use decentrarent.Prelude.Outcome.{ok, threw, error_object}
use decentrarent.Auth.{
  User, initial_auth, login, partialize, rehydrate, Wallet, SignInState, authenticate, sign_in,
}
use decentrarent.Auth.Session.{
  Reach, logs_in, IsConsistent, Reach-IsConsistent, Ended, sign_in-Ended,
}

abbrev alice : User
alice = record {
  id = "u1";
  wallet_address = "W";
  username = "alice";
  first_name = "A";
  last_name = "L";
  email = "a@l";
  phone = "";
  display_name = "Alice";
  is_admin = false;
  created_at = "0";
  balance = 0;
}

Reach-IsConsistent_example :
    IsConsistent (login "T" alice initial_auth)
    × (rehydrate (partialize (login "T" alice initial_auth)) ≡ login "T" alice initial_auth)
Reach-IsConsistent_example =
    Reach-IsConsistent (Reach.next Reach.start (logs_in "T" alice initial_auth refl))

abbrev wallet : Wallet
wallet = record { address = "W"; sign_message = λ m. ok m }

abbrev idle_hook : SignInState
idle_hook = record { is_loading = true; error = none }

sign_in-Ended_run :
    Ended
      (authenticate
        (λ s. [])
        (λ b. "sig")
        (λ c. ok (record { nonce = "n"; message = "m" }))
        (λ c. threw (error_object "wallet_not_registered"))
        wallet)
      initial_auth
      (sign_in
        (λ s. [])
        (λ b. "sig")
        (λ c. ok (record { nonce = "n"; message = "m" }))
        (λ c. threw (error_object "wallet_not_registered"))
        (some wallet)
        initial_auth
        idle_hook)
sign_in-Ended_run =
    sign_in-Ended (λ s. []) (λ b. "sig") (λ c. ok (record { nonce = "n"; message = "m" }))
      (λ c. threw (error_object "wallet_not_registered")) wallet initial_auth idle_hook
