-- ===== src/Listings/Loading.antt =====
-- The effects that load frontend/src/pages/ListingsPage.tsx and PropertyDetailPage.tsx.
pub mod Late
pub mod Editing
mod Tests
use decentrarent.Prelude.{
  ℕ, String, ◌<>◌, Bool, true, false, not, ◌&&◌, Option, none, some, List, [], ◌∷◌, map, ◌==◌,
  if◌then◌else◌, truthy, present, default,
}
use decentrarent.Prelude.Outcome.{Result, ok, threw}
use decentrarent.Api.{ApiCall}
use decentrarent.Api.Calls.{list_orders_by_property}
use decentrarent.Api.Properties.{list_properties, get_property}
use decentrarent.Auth.{User}
use decentrarent.Orders.{Order}
use decentrarent.Properties.{Property}
use decentrarent.Listings.Filters.{normalize_status}
use decentrarent.Listings.Detail.{Detail, EditForm}

-- The state of the list that its effect reads and writes.
pub record Listed : Type 0 where
  pub properties : List Property
  pub loading : Bool
  pub show_my_listings : Bool

unfoldable pub initial_listed : Listed
initial_listed = record { properties = []; loading = true; show_my_listings = false }

-- The two requests: a plain `fetch` for the user's own, by its address and its header
-- `Authorization`, and that of the API for all.
pub data Asked : Type 0 where
  asks_mine : String → String → Asked
  asks_all : ApiCall → Asked

abbrev asked_by : Bool → Option String → Option User → Asked
asked_by mine token none = asks_all (list_properties "" token)
asked_by mine token (some u) =
    if mine && truthy u.id
    then asks_mine ("/api/properties?owner=" <> u.id) ("Bearer " <> default token "null")
    else asks_all (list_properties "" token)

-- One run of the effect.
unfoldable pub begin_list : Option String → Option User → Listed → Listed × Asked
begin_list token user l = (record l { loading = true }, asked_by l.show_my_listings token user)

-- The two buttons set what is listed, one's own or all; the effect runs again where that changes it.
abbrev is_shown : Bool → Bool → Bool
is_shown true shown = shown
is_shown false shown = not shown

unfoldable pub click_list : Bool → Option String → Option User → Listed → Listed × Option Asked
unfolding begin_list
click_list mine token user l =
    if is_shown mine l.show_my_listings
    then (l, none)
    else let (m, asked) = begin_list token user (record l { show_my_listings = mine }) in
      (m, some asked)

-- What a request gives: for the user's own, a list or what is no array.
pub data Answered : Type 0 where
  mine_answer : Result (Option (List Property)) → Answered
  all_answer : Result (List Property) → Answered

abbrev pub properties_of : Answered → List Property
properties_of (mine_answer (ok (some ps))) = map normalize_status ps
properties_of (mine_answer _) = []
properties_of (all_answer (ok ps)) = map normalize_status ps
properties_of (all_answer (threw e)) = []

unfoldable pub on_answer : Answered → Listed → Listed
on_answer a l = record l { properties = properties_of a; loading = false }

-- PropertyDetailPage.tsx: the requests for the property and for its orders; `encode_uri` is
-- `encodeURIComponent`, `show` prints the price.
unfoldable pub begin_detail : Option String → Option String → Option ApiCall
begin_detail none token = none
begin_detail (some id) token = if truthy id then some (get_property id token) else none

abbrev pub form_of : (ℕ → String) → Property → EditForm
form_of show p = record {
  title = p.title;
  description = p.description;
  location = p.location;
  price = show p.price;
}

unfoldable pub end_detail : (ℕ → String) → Result Property → Detail × Bool → Detail × Bool
end_detail show (ok p) (d, loading) =
    let q : Property = normalize_status p in
    (record d { property = some q; edit_form = form_of show q }, false)
end_detail show (threw e) (d, loading) = (record d { error = some "Property not found." }, false)

abbrev orders_call : (String → String) → String → Option String → Option ApiCall
orders_call encode_uri id none = none
orders_call encode_uri id (some token) =
    if truthy id && truthy token then some (list_orders_by_property encode_uri id token) else none

unfoldable pub begin_orders : (String → String) → Option String → Option String → Option ApiCall
begin_orders encode_uri none token = none
begin_orders encode_uri (some id) token = orders_call encode_uri id token

unfoldable pub end_orders : Result (List Order) → List Order
end_orders (ok orders) = orders
end_orders (threw e) = []

-- `isOwner`
unfoldable pub is_owner : Option User → Option Property → Bool
is_owner none p = false
is_owner (some u) none = false
is_owner (some u) (some p) = u.id == p.landlord_id
