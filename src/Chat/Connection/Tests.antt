-- ===== src/Chat/Connection/Tests.antt =====
-- The clients at a concrete run: a session, another, and the end of the component.
use decentrarent.Prelude.{true, false, some, [], ◌∷◌, ◌≡◌, refl}
use decentrarent.Navigation.{render}
use decentrarent.Auth.{User, initial_auth, login, rehydrate, partialize}
use decentrarent.Chat.Connection.Signed.{
  ShowsChat, Connected, logs_in, begins, opens, elsewhere, restarts, Runs-Connected,
}
use decentrarent.Chat.Connection.{
  mounted, clean_up, on_session, get_centrifugo_client, connected_client,
}
use decentrarent.Chat.Connection.Clients.{
  live, wanted, referred, newest, mounts, session, unmounts, Reach-live,
}

Reach-live_run :
    let h = on_session (some "b") true (clean_up (on_session (some "a") true mounted)) in
    (live h.clients ≡ wanted (some "b", true)) × (referred h ≡ newest (wanted (some "b", true)))
Reach-live_run = Reach-live (session (some "b") true (unmounts (session (some "a") true mounts)))

-- The client of the module is given for every token once it is there.
other_token :
    (get_centrifugo_client "b" (record { clients = connected_client "a" ∷ []; client = some 0 })).0
    ≡ 0
unfolding get_centrifugo_client
other_token = refl

abbrev carol : User
carol = record {
  id = "u3";
  wallet_address = "W";
  username = "carol";
  first_name = "C";
  last_name = "L";
  email = "c@l";
  phone = "";
  display_name = "Carol";
  is_admin = false;
  created_at = "0";
  balance = 0;
}

shows : ShowsChat (login "T" carol initial_auth)
unfolding render login
shows = refl

shows_again : ShowsChat (rehydrate (partialize (login "T" carol initial_auth)))
unfolding render login rehydrate partialize
shows_again = refl

-- Carol signs in and opens the chat, starts the page anew, and opens it again.
Runs-Connected_example :
    let s = login "T" carol initial_auth in
    let again = rehydrate (partialize s) in
    Connected true again (live (on_session again.token again.is_authenticated mounted).clients)
Runs-Connected_example = Runs-Connected (
    opens (restarts (opens (elsewhere begins (logs_in "T" carol initial_auth refl)) shows))
      shows_again)
