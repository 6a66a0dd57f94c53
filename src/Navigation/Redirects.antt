-- ===== src/Navigation/Redirects.antt =====
-- Where a path ends.
use decentrarent.Prelude.{
  ℕ, suc, ◌+◌, String, Bool, true, false, Option, none, some, List, [], ◌∷◌, ◌≡◌, refl, ap, ◌∙◌,
  arith, if◌then◌else◌,
}
use decentrarent.Navigation.{
  Page, connect_wallet, onboarding_newbie, onboarding_wallet, home, listings, create_listing, chat,
  profile, property_detail, admin, Route, home_redirect, fallback, public_page, protected_page,
  matches, one_segment, two_segments, route_of, render, follow, follow_with,
}

-- The application's pages by their paths, without regard to case: those that everybody sees.
abbrev pub open_pages : List (List String × Page)
open_pages =
    ("auth" ∷ [], connect_wallet)
    ∷ ("onboarding" ∷ "newbie" ∷ [], onboarding_newbie)
    ∷ ("onboarding" ∷ "wallet" ∷ [], onboarding_wallet)
    ∷ []

-- And those of who is signed in, but for that of a property.
abbrev pub signed_pages : List (List String × Page)
signed_pages =
    ("home" ∷ [], home)
    ∷ ("listings" ∷ [], listings)
    ∷ ("listings" ∷ "create" ∷ [], create_listing)
    ∷ ("chat" ∷ [], chat)
    ∷ ("profile" ∷ [], profile)
    ∷ ("admin" ∷ [], admin)
    ∷ []

abbrev pub same_path : List String → List String → Bool
same_path [] [] = true
same_path [] (s ∷ ss) = false
same_path (p ∷ ps) [] = false
same_path (p ∷ ps) (s ∷ ss) = let rest = same_path ps ss in if matches p s then rest else false

abbrev pub page_at : List String → List (List String × Page) → Option Page
page_at path [] = none
page_at path ((p, page) ∷ rest) =
    let later = page_at path rest in if same_path p path then some page else later

-- `/listings/:id`
abbrev pub property_at : List String → Option Page
property_at (s ∷ id ∷ []) = if matches "listings" s then some (property_detail id) else none
property_at _ = none

abbrev pub first_of : Option Page → Option Page → Option Page
first_of (some p) other = some p
first_of none other = other

abbrev pub or_page : Option Page → Page → Page
or_page (some p) other = p
or_page none other = other

-- The page that a path should end at.
abbrev pub destination : Bool → List String → Page
destination true path =
    or_page
      (first_of (page_at path open_pages) (first_of (page_at path signed_pages) (property_at path)))
      home
destination false path = or_page (page_at path open_pages) connect_wallet

-- The page that a route is for, for who is signed in or not.
abbrev pub lands : Bool → Route → Page
lands signed (public_page p) = p
lands true (protected_page p) = p
lands false (protected_page p) = connect_wallet
lands true home_redirect = home
lands false home_redirect = connect_wallet
lands true fallback = home
lands false fallback = connect_wallet

one-destination :
    (signed : Bool) (s : String) → lands signed (one_segment s) ≡ destination signed (s ∷ [])
one-destination true s = ground arith
one-destination false s = ground arith

two-destination :
    (signed : Bool) (s t : String)
    → lands signed (two_segments s t) ≡ destination signed (s ∷ t ∷ [])
two-destination true s t = ground arith
two-destination false s t = ground arith

route-destination :
    (signed : Bool) (path : List String) → lands signed (route_of path) ≡ destination signed path
unfolding route_of
route-destination true [] = refl
route-destination false [] = refl
route-destination signed (s ∷ []) = one-destination signed s
route-destination signed (s ∷ t ∷ []) = two-destination signed s t
route-destination true (s ∷ t ∷ u ∷ rest) = ground arith
route-destination false (s ∷ t ∷ u ∷ rest) = ground arith

follow-lands :
    (signed : Bool) (path : List String) (n : ℕ)
    → follow (3 + n) signed path ≡ some (lands signed (route_of path))
unfolding follow render route_of
follow-lands signed path n = rw (three n) (ends signed (route_of path))
  where
    three : (n : ℕ) → 3 + n ≡ suc (suc (suc n))
    three n = omega arith

    ends :
        (b : Bool) (r : Route)
        → follow_with (follow (suc (suc n)) b) (render b r) ≡ some (lands b r)
    ends b (public_page p) = refl
    ends true (protected_page p) = refl
    ends false (protected_page p) = refl
    ends true home_redirect = refl
    ends false home_redirect = refl
    ends true fallback = refl
    ends false fallback = refl

-- Every path ends at a page after two redirects at most, so that no redirects go in a circle. Who is
-- signed in comes to the page whose path it is, without regard to case, to a property's page by its
-- id, and by every other path home; who is not comes to the page to sign in, but by the paths of the
-- pages that everybody sees.
pub follow_ends :
    (signed : Bool) (path : List String) (n : ℕ)
    → follow (3 + n) signed path ≡ some (destination signed path)
follow_ends signed path n = follow-lands signed path n ∙ ap some (route-destination signed path)
