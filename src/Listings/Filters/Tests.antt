-- ===== src/Listings/Filters/Tests.antt =====
-- The filters' theorem at a concrete input: a range from 5 on, and the slider at 2.
use decentrarent.Prelude.{
  ℕ, ◌*◌, ◌≤◌, Bool, false, trim, none, [], ◌∷◌, Memᴰ, ◌↔◌, ◌≡◌, refl, arith, ltb,
}
use decentrarent.Properties.{Property, Numbers}
use decentrarent.Listings.Filters.{Filters, set_high, slide, filtered}
use decentrarent.Listings.Filters.Ranges.{slide-empties}
use decentrarent.Listings.Filters.Passing.{Passes, filtered-exactly}

abbrev naturals : Numbers
naturals = record {
  Num = ℕ;
  number = λ s. 5;
  text_of = λ n. "5";
  whole = λ n. n;
  times = λ a b. a * b;
  over = λ a b. a;
  round = λ n. n;
}

abbrev above : ℕ → ℕ → Bool
above a b = ltb b a

in_order : (x lo hi : ℕ) → ltb x lo ≡ false → above x hi ≡ false → lo ≤ hi
in_order x lo hi a b = ground arith

abbrev home : Property
home = record {
  id = "p1";
  landlord_id = "u1";
  title = "Home";
  description = "";
  location = "Here";
  price = 5;
  deposit_price = 10;
  token_mint = "SOL";
  period_type = "month";
  status = "available";
  verification_status = "verified";
  media = [];
  created_at = "0";
  updated_at = "0";
}

abbrev from_five : Filters
from_five = record { status_filter = []; low = 5; high = 10; search_query = "" }

shown_before : filtered naturals ltb above (λ t. t) from_five (home ∷ []) ≡ home ∷ []
unfolding filtered trim
shown_before = refl

slide-empties_run :
    ((set_high none from_five).low ≤ (set_high none from_five).high)
    × (filtered naturals ltb above (λ t. t) (slide 2 from_five) (home ∷ []) ≡ [])
slide-empties_run =
    slide-empties naturals ltb above (λ t. t) from_five none 2 (home ∷ []) in_order (omega arith)

filtered-exactly_example :
    Memᴰ home (filtered naturals ltb above (λ t. t) from_five (home ∷ []))
    ↔ (Memᴰ home (home ∷ []) × Passes naturals ltb above (λ t. t) from_five home)
filtered-exactly_example = filtered-exactly naturals ltb above (λ t. t) from_five (home ∷ []) home

sought :
    filtered naturals ltb above (λ t. t) (record from_five { search_query = "er" }) (home ∷ [])
    ≡ home ∷ []
unfolding filtered trim
sought = refl
