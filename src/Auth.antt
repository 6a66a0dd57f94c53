-- ===== src/Auth.antt =====
-- The session: frontend/src/features/auth/store.ts and hooks/useWalletAuth.ts. The persistence of
-- zustand is the pair of the part that is saved and what is made of it on the next start.
pub mod Session
pub mod Forms
pub mod Intents
mod Tests
use decentrarent.Prelude.{
  ℕ, String, ◌<>◌, Bool, true, false, Option, none, some, List, [], ◌∷◌, if◌then◌else◌, present,
  or_text, truthy, ◌==◌,
}
use decentrarent.Prelude.Outcome.{Result, ok, threw, Thrown, error_object, message_of, ◌>>=◌}
use decentrarent.Api.{ApiCall, Value, text_value}

pub record User : Type 0 where
  pub id : String
  pub wallet_address : String
  pub username : String
  pub first_name : String
  pub last_name : String
  pub email : String
  pub phone : String
  pub display_name : String
  pub is_admin : Bool
  pub created_at : String
  pub balance : ℕ

pub record AuthState : Type 0 where
  pub token : Option String
  pub user : Option User
  pub is_authenticated : Bool

unfoldable pub initial_auth : AuthState
initial_auth = record { token = none; user = none; is_authenticated = false }

unfoldable pub login : String → User → AuthState → AuthState
login token user s = record { token = some token; user = some user; is_authenticated = true }

unfoldable pub logout : AuthState → AuthState
logout s = record { token = none; user = none; is_authenticated = false }

-- `verifyToken`: the request that it sends, and what it makes of the answer.
abbrev pub verify_call : Option String → ApiCall
verify_call token = record { path = "/auth/verify"; method = "GET"; body = none; token = token }

abbrev pub verified : AuthState → Result (Unit {0}) → Bool × AuthState
verified s (ok _) = (true, s)
verified s (threw e) = (false, logout s)

unfoldable pub verify_token : (ApiCall → Result (Unit {0})) → AuthState → Bool × AuthState
unfolding logout
verify_token send s =
    if present s.token then verified s (send (verify_call s.token)) else (false, s)

-- `partialize`, and the next start: what was saved over the initial state, then the callback of
-- `onRehydrateStorage`.
pub record Saved : Type 0 where
  pub token : Option String
  pub user : Option User

unfoldable pub partialize : AuthState → Saved
partialize s = record { token = s.token; user = s.user }

unfoldable pub rehydrate : Saved → AuthState
unfolding initial_auth
rehydrate saved =
    let state : AuthState = record initial_auth { token = saved.token; user = saved.user } in
    if present state.token then record state { is_authenticated = true } else state

-- useWalletAuth: what its `try` block gets, in the order of its awaits. The wallet is its address
-- and its function `signMessage`; `encode` is `TextEncoder`, `base58` is bs58.
pub record NonceResponse : Type 0 where
  pub nonce : String
  pub message : String

pub record AuthResponse : Type 0 where
  pub token : String
  pub user : User

pub data WalletAuthResult : Type 0 where
  signed_in wallet_not_registered : WalletAuthResult

pub record Wallet : Type 0 where
  pub address : String
  pub sign_message : List ℕ → Result (List ℕ)

-- The two pieces of state of the hook.
pub record SignInState : Type 0 where
  pub is_loading : Bool
  pub error : Option String

-- `publicKey` and `signMessage` are both there.
module _ (encode : String → List ℕ) (base58 : List ℕ → String)
    (ask_nonce : ApiCall → Result NonceResponse) (ask_verify : ApiCall → Result AuthResponse) where
  abbrev pub nonce_call : Wallet → ApiCall
  nonce_call w = record {
    path = "/auth/nonce?wallet=" <> w.address;
    method = "GET";
    body = none;
    token = none;
  }

  abbrev pub sign_in_call : Wallet → String → List ℕ → ApiCall
  sign_in_call w nonce signature = record {
    path = "/auth/verify";
    method = "POST";
    body = some (
        ("wallet", text_value w.address)
        ∷ ("signature", text_value (base58 signature))
        ∷ ("nonce", text_value nonce)
        ∷ []);
    token = none;
  }

  unfoldable pub authenticate : Wallet → Result AuthResponse
  authenticate w = do
    challenge ← ask_nonce (nonce_call w)
    signature ← w.sign_message (encode challenge.message)
    ask_verify (sign_in_call w challenge.nonce signature)

  unfoldable pub finish_sign_in :
      Result AuthResponse → AuthState → Result WalletAuthResult × AuthState × SignInState
  unfolding login
  finish_sign_in (ok r) s =
      (ok signed_in, login r.token r.user s, record { is_loading = false; error = none })
  finish_sign_in (threw e) s =
      let msg = message_of e "" in
      if msg == "wallet_not_registered"
      then (ok wallet_not_registered, s, record { is_loading = false; error = none })
      else (
        threw e,
        s,
        record { is_loading = false; error = some (or_text msg "Authentication failed") },
      )

  unfoldable pub sign_in :
      Option Wallet → AuthState → SignInState → Result WalletAuthResult × AuthState × SignInState
  unfolding finish_sign_in
  sign_in none s h = (ok wallet_not_registered, s, record h { error = some "Wallet not connected" })
  sign_in (some w) s h = finish_sign_in (authenticate w) s
