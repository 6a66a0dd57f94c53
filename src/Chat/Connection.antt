-- ===== src/Chat/Connection.antt =====
-- The clients of the broker: frontend/src/features/chat/hooks/useCentrifugo.ts, an effect with its
-- cleanup, and the module variable of frontend/src/lib/centrifugo.ts. A client of the library is its
-- token and whether it is connected; all that were made are kept, in the order of their making.
pub mod Clients
pub mod Signed
mod Tests
use decentrarent.Prelude.{
  ℕ, String, Bool, true, false, ◌&&◌, Option, none, some, List, [], ◌∷◌, ◌++◌, if◌then◌else◌,
  present, default, length, not, ◌==◌,
}

pub record Client : Type 0 where
  pub token : String
  pub is_connected : Bool

abbrev pub connected_client : String → Client
connected_client token = record { token = token; is_connected = true }

-- `client.disconnect()` on the one at an index.
abbrev pub disconnect : ℕ → List Client → List Client
disconnect i [] = []
disconnect ℕ.zero (c ∷ cs) = record c { is_connected = false } ∷ cs
disconnect (ℕ.suc i) (c ∷ cs) = c ∷ disconnect i cs

-- The hook: `clientRef`, and the function that the last run of the effect returned.
pub record Hooked : Type 0 where
  pub clients : List Client
  pub client_ref : Option ℕ
  pub cleanup : Option ℕ

unfoldable pub mounted : Hooked
mounted = record { clients = []; client_ref = none; cleanup = none }

abbrev clean_at : Option ℕ → Hooked → Hooked
clean_at none h = h
clean_at (some i) h = record { clients = disconnect i h.clients; client_ref = none; cleanup = none }

unfoldable pub clean_up : Hooked → Hooked
clean_up h = clean_at h.cleanup h

-- The body of the effect; `token` and `is_authenticated` are those of the session.
unfoldable pub run_effect : Option String → Bool → Hooked → Hooked
run_effect token is_authenticated h =
    if is_authenticated && present token
    then record {
      clients = h.clients ++ connected_client (default token "") ∷ [];
      client_ref = some (length h.clients);
      cleanup = some (length h.clients);
    }
    else record h { cleanup = none }

-- A change of the session runs the cleanup and then the body.
unfoldable pub on_session : Option String → Bool → Hooked → Hooked
unfolding clean_up run_effect
on_session token is_authenticated h = run_effect token is_authenticated (clean_up h)

abbrev pub same_token : Option String → Option String → Bool
same_token none none = true
same_token (some a) (some b) = a == b
same_token _ _ = false

abbrev pub same_flag : Bool → Bool → Bool
same_flag true b = b
same_flag false b = not b

-- A rendering: the effect runs only if one of its two dependencies has changed.
unfoldable pub rerender : Option String × Bool → Option String × Bool → Hooked → Hooked
unfolding on_session
rerender (token, signed) (token', signed') h =
    if same_token token token' && same_flag signed signed' then h else on_session token' signed' h

-- lib/centrifugo.ts: its variable `client`.
pub record Module : Type 0 where
  pub clients : List Client
  pub client : Option ℕ

abbrev given : Option ℕ → String → Module → ℕ × Module
given (some i) token m = (i, m)
given none token m = (
  length m.clients,
  record { clients = m.clients ++ connected_client token ∷ []; client = some (length m.clients) },
)

unfoldable pub get_centrifugo_client : String → Module → ℕ × Module
get_centrifugo_client token m = given m.client token m

abbrev disconnected : Option ℕ → Module → Module
disconnected none m = m
disconnected (some i) m = record { clients = disconnect i m.clients; client = none }

unfoldable pub disconnect_centrifugo : Module → Module
disconnect_centrifugo m = disconnected m.client m
