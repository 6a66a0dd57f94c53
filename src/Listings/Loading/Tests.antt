-- ===== src/Listings/Loading/Tests.antt =====
-- The loading of the list at concrete answers.
use decentrarent.Prelude.{false, some, [], ◌∷◌, ◌<>◌, ◌≡◌, refl, map}
use decentrarent.Prelude.Outcome.{ok}
use decentrarent.Properties.{Property}
use decentrarent.Api.Calls.{get}
use decentrarent.Auth.{User}
use decentrarent.Listings.Loading.{
  mine_answer, all_answer, initial_listed, asks_mine, asks_all, on_answer,
}
use decentrarent.Listings.Loading.Late.{shown_as, there_and_back, late_answer-shows}

abbrev loft : Property
loft = record {
  id = "p1";
  landlord_id = "u1";
  title = "Loft";
  description = "";
  location = "Here";
  price = 5;
  deposit_price = 10;
  token_mint = "SOL";
  period_type = "month";
  status = "listed";
  verification_status = "verified";
  media = [];
  created_at = "0";
  updated_at = "0";
}

abbrev dora : User
dora = record {
  id = "u1";
  wallet_address = "W";
  username = "dora";
  first_name = "D";
  last_name = "M";
  email = "d@m";
  phone = "";
  display_name = "Dora";
  is_admin = false;
  created_at = "0";
  balance = 0;
}

late_answer-shows_example :
    let (all, first, second) = there_and_back (some "T") dora initial_listed in
    let own = mine_answer (ok (some (loft ∷ []))) in
    let every = all_answer (ok []) in
    let late = on_answer own (on_answer every all) in
    (first ≡ some (asks_mine ("/api/properties?owner=" <> "u1") ("Bearer " <> "T")))
    × (second ≡ some (asks_all (get "/properties" (some "T"))))
    × ((on_answer every (on_answer own all)).properties ≡ map shown_as [])
    × (late.properties ≡ map shown_as (loft ∷ []))
    × (late.show_my_listings ≡ false)
    × (late.loading ≡ false)
late_answer-shows_example =
    late_answer-shows (some "T") dora initial_listed (loft ∷ []) [] refl
      (unfold initial_listed in refl)
