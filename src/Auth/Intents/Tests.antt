-- ===== src/Auth/Intents/Tests.antt =====
-- The wallet buttons and the guides at concrete inputs.
use decentrarent.Prelude.{◌≤◌, none, [], ◌≡◌, eqb, false}
use decentrarent.Prelude.Outcome.{ok, threw, error_object}
use decentrarent.Auth.{Wallet, SignInState, initial_auth, authenticate}
use decentrarent.Auth.Intents.{newbie, step_on, step_back, progress}
use decentrarent.Auth.Intents.Wallets.{Gone, sign_in_and_go, sign_in_and_go-Gone}
use decentrarent.Auth.Intents.Steps.{first, signed, on, back, Reach-progress}

abbrev phantom : Wallet
phantom = record { address = "W"; sign_message = λ m. ok m }

abbrev free : SignInState
free = record { is_loading = false; error = none }

sign_in_and_go-Gone_example :
    Gone
      (authenticate
        (λ s. [])
        (λ b. "sig")
        (λ c. ok (record { nonce = "n"; message = "m" }))
        (λ c. threw (error_object "wallet_not_registered"))
        phantom)
      initial_auth
      (sign_in_and_go
        (λ s. [])
        (λ b. "sig")
        (λ c. ok (record { nonce = "n"; message = "m" }))
        (λ c. threw (error_object "wallet_not_registered"))
        phantom
        initial_auth
        free)
sign_in_and_go-Gone_example =
    sign_in_and_go-Gone (λ s. []) (λ b. "sig") (λ c. ok (record { nonce = "n"; message = "m" }))
      (λ c. threw (error_object "wallet_not_registered")) phantom initial_auth free

Reach-progress_run :
    let step = (step_back newbie (step_on newbie 2).0).0 in
    (1 ≤ step)
    × (step ≤ 4)
    × (progress newbie step ≤ 100)
    × (eqb (progress newbie step) 100 ≡ eqb step 4)
Reach-progress_run = Reach-progress newbie (back (on (signed first)))
