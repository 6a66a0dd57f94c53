-- ===== src/Overview/Tests.antt =====
-- The overviews' theorems at concrete inputs.
use decentrarent.Prelude.{
  ℕ, ◌*◌, ◌/◌, ◌≤◌, String, true, false, some, List, [], ◌∷◌, ◌≡◌, refl, includes, arith,
}
use decentrarent.Properties.{Property, Numbers}
use decentrarent.Auth.{User}
use decentrarent.Overview.{owl_index, owl_file}
use decentrarent.Overview.Avatars.{pictures, owl_file-there}
use decentrarent.Overview.Home.{greeting, escrow_label, wallet_short, assets_rented}
use decentrarent.Overview.Profile.{occupied_count, occupancy, completion_pct}
use decentrarent.Overview.Occupancy.{IsRounded, percentages-le}

-- The laws can be met.
abbrev naturals : Numbers
naturals = record {
  Num = ℕ;
  number = λ s. 2;
  text_of = λ n. "2";
  whole = λ n. n;
  times = λ a b. a * b;
  over = λ a b. a / b;
  round = λ n. n;
}

naturals-IsRounded : IsRounded naturals (λ a b. a ≤ b)
naturals-IsRounded = record {
  over_le = λ a b h pos. grind arith;
  times_le = λ x y k h. grind arith;
  round_le = λ x y h. h;
  round_whole = λ k. omega arith;
}

abbrev house : String → Property
house status = record {
  id = "p1";
  landlord_id = "u1";
  title = "Home";
  description = "";
  location = "Here";
  price = 5;
  deposit_price = 10;
  token_mint = "SOL";
  period_type = "month";
  status = status;
  verification_status = "verified";
  media = [];
  created_at = "0";
  updated_at = "0";
}

abbrev houses : List Property
houses = house "rented" ∷ house "available" ∷ house "rented" ∷ []

abbrev bob : User
bob = record {
  id = "b2";
  wallet_address = "Wabcdefgh";
  username = "bob";
  first_name = "B";
  last_name = "";
  email = "b@b";
  phone = "";
  display_name = "Bob";
  is_admin = false;
  created_at = "0";
  balance = 0;
}

owl_file-there_example :
    (n : ℕ) × (owl_index "b2" ≡ some n)
    × (1 ≤ n)
    × (n ≤ 20)
    × (includes pictures (owl_file (owl_index "b2")) ≡ true)
owl_file-there_example = owl_file-there "b2" (omega arith)

percentages_run : (occupancy naturals houses ≤ 100) × (completion_pct naturals bob ≤ 100)
percentages_run = percentages-le naturals (λ a b. a ≤ b) naturals-IsRounded houses bob

-- Two of three houses are rented: the home page says so, the profile counts one as occupied.
counted : (assets_rented houses ≡ 2) × (occupied_count houses ≡ 1)
unfolding assets_rented occupied_count
counted = (refl, refl)

told :
    (greeting 17 ≡ "Good afternoon")
    × (escrow_label "active" ≡ "Active")
    × (wallet_short bob ≡ "Wabcde...efgh")
unfolding greeting escrow_label wallet_short
told = (refl, refl, refl)
