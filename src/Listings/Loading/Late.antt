-- ===== src/Listings/Loading/Late.antt =====
-- The list shows what came last, whichever list it is of.
use decentrarent.Prelude.{
  String, ◌<>◌, true, false, Option, some, List, [], ◌∷◌, map, ◌≡◌, refl, ◌==◌, truthy, default,
  if◌then◌else◌, Bool-cases, inl, inr,
}
use decentrarent.Prelude.Outcome.{ok}
use decentrarent.Api.Calls.{get}
use decentrarent.Api.Properties.{list_properties}
use decentrarent.Auth.{User}
use decentrarent.Properties.{Property}
use decentrarent.Listings.Filters.{normalize_status}
use decentrarent.Listings.Loading.{
  Listed, Asked, asks_mine, asks_all, mine_answer, all_answer, begin_list, click_list, on_answer,
}

-- A property as the page should show it: the two older names of a status are replaced.
abbrev pub known_status : String → String
known_status status =
    if status == "listed" then "available" else if status == "unlisted" then "archive" else status

abbrev pub shown_as : Property → Property
shown_as p = record p { status = known_status p.status }

normalize-shown_as : (p : Property) → normalize_status p ≡ shown_as p
unfolding normalize_status
normalize-shown_as p = elim (Bool-cases (p.status == "listed")) [
  | inl old ↦ rw old refl
  | inr other ↦ elim (Bool-cases (p.status == "unlisted")) [
    | inl hidden ↦ rw (other, hidden) refl
    | inr known ↦ rw (other, known) refl
  ]
]

all-shown_as : (ps : List Property) → map normalize_status ps ≡ map shown_as ps
all-shown_as [] = refl
all-shown_as (p ∷ ps) = rw (normalize-shown_as p, all-shown_as ps) refl

-- The list after a click on the user's own and one on all, and the requests of the two.
abbrev pub there_and_back : Option String → User → Listed → Listed × Option Asked × Option Asked
there_and_back token u l =
    let (mine, first) = click_list true token (some u) l in
    let (all, second) = click_list false token (some u) mine in (all, first, second)

-- On the list of all, a user who clicks on the own listings and back on all asks for the own ones and
-- then for all. If the answers come in that order, the page shows all; if they come the other way
-- round, it shows the own ones, although it is set to all, and does not load any more. Each property
-- is shown as it is, with the older names of a status replaced.
pub late_answer-shows :
    (token : Option String) (u : User) (l : Listed) (ps qs : List Property)
    → truthy u.id ≡ true
    → l.show_my_listings ≡ false
    → let (all, first, second) = there_and_back token u l in
      let own = mine_answer (ok (some ps)) in
      let every = all_answer (ok qs) in
      let late = on_answer own (on_answer every all) in
      (first
        ≡ some (asks_mine ("/api/properties?owner=" <> u.id) ("Bearer " <> default token "null")))
      × (second ≡ some (asks_all (get "/properties" token)))
      × ((on_answer every (on_answer own all)).properties ≡ map shown_as qs)
      × (late.properties ≡ map shown_as ps)
      × (late.show_my_listings ≡ false)
      × (late.loading ≡ false)
unfolding click_list begin_list on_answer list_properties
late_answer-shows token u l ps qs named all =
    rw (all, named) (refl, refl, all-shown_as qs, all-shown_as ps, refl, refl)
