-- ===== src/Listings/Filters/Modals.antt =====
-- The two dialogs of frontend/src/pages/ListingsPage.tsx, for the search and for the filters.
use decentrarent.Prelude.{ℕ, String, Bool, true, false, List, [], ◌∷◌, ◌≡◌, refl}
use decentrarent.Listings.Filters.{Filters, initial_filters, filtered}
use decentrarent.Properties.{Property, Numbers}

pub record Modals : Type 0 where
  pub filters : Filters
  pub show_search : Bool
  pub show_filter : Bool

unfoldable pub initial_modals : Modals
initial_modals = record { filters = initial_filters; show_search = false; show_filter = false }

unfoldable pub open_search : Modals → Modals
open_search m = record m { show_search = true }

unfoldable pub close_search : Modals → Modals
close_search m = record m { show_search = false }

unfoldable pub open_filter : Modals → Modals
open_filter m = record m { show_filter = true }

unfoldable pub close_filter : Modals → Modals
close_filter m = record m { show_filter = false }

-- The field of the search.
unfoldable pub enter_query : String → Filters → Filters
enter_query text f = record f { search_query = text }

-- The button that resets the filters.
unfoldable pub reset_filters : Filters → Filters
reset_filters f = record f {
  status_filter = "available" ∷ "rented" ∷ "archive" ∷ [];
  low = 0;
  high = 10000;
}

-- After a reset the list is that of the page's start with the same query: whatever was chosen, the
-- query alone is kept.
pub reset-initial :
    (n : Numbers) (below above : n.Num → ℕ → Bool) (lower : String → String) (f : Filters)
    (ps : List Property)
    → filtered n below above lower (reset_filters f) ps
      ≡ filtered n below above lower (enter_query f.search_query initial_filters) ps
unfolding reset_filters enter_query initial_filters
reset-initial n below above lower f ps = refl
