-- ===== src/Auth/Forms/Tests.antt =====
-- The forms' theorem at a concrete input: a signup with a wallet.
use decentrarent.Prelude.{false, ◌≡◌, refl, trim}
use decentrarent.Prelude.Outcome.{Result, ok}
use decentrarent.Api.{ApiCall}
use decentrarent.Auth.{User, AuthResponse, initial_auth}
use decentrarent.Auth.Session.{Reach, start}
use decentrarent.Auth.Forms.{wallet_signup_form, FormState, submit_form}
use decentrarent.Auth.Forms.Opens.{Submitted, submit_form-Opens}

trimmed : trim "  bob " ≡ "bob"
unfolding trim
trimmed = refl

abbrev bob : User
bob = record {
  id = "u3";
  wallet_address = "W";
  username = "bob";
  first_name = "";
  last_name = "";
  email = "";
  phone = "";
  display_name = "";
  is_admin = false;
  created_at = "0";
  balance = 0;
}

abbrev accepts : ApiCall → Result AuthResponse
accepts call = ok (record { token = "T"; user = bob })

abbrev typed : FormState
typed = record { username = "  bob "; password = "secret"; error = ""; loading = false; step = 1 }

submit_form-Opens_example :
    Submitted
      (wallet_signup_form "W")
      accepts
      (typed, initial_auth)
      (submit_form (wallet_signup_form "W") accepts (typed, initial_auth))
    × Reach (submit_form (wallet_signup_form "W") accepts (typed, initial_auth)).1
submit_form-Opens_example =
    submit_form-Opens (wallet_signup_form "W") accepts typed initial_auth (λ call. refl) start
