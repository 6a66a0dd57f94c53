-- ===== src/Navigation.antt =====
-- The routes of frontend/src/App.tsx and the bar of frontend/src/components/Layout/BottomNav.tsx. A
-- path is the list of its segments.
pub mod Lit
pub mod Redirects
pub mod Counts
mod Tests
use Prim.Native.Char.{code}
use decentrarent.Prelude.{
  ℕ, zero, suc, String, Bool, true, false, not, ◌&&◌, ◌||◌, Option, none, some, List, [], ◌∷◌, ◌++◌,
  ◌==◌, if◌then◌else◌, truthy, ltb, leb, eqb, ◌+◌,
}
use decentrarent.Prelude.Dict.{sum_values}
use decentrarent.Chat.{ChatState}
use decentrarent.Auth.{User}

pub data Page : Type 0 where
  connect_wallet onboarding_newbie onboarding_wallet home listings create_listing chat profile :
      Page
  property_detail : String → Page
  admin : Page

-- The elements of the table: the entry, a page, a page under `ProtectedRoute`, and the fallback.
pub data Route : Type 0 where
  home_redirect fallback : Route
  public_page protected_page : Page → Route

-- React Router compares a fixed segment without regard to case, that of the letters from A to Z.
abbrev pub fold_code : ℕ → ℕ
fold_code n = if leb 65 n && leb n 90 then n + 32 else n

abbrev pub matches : String → String → Bool
matches String.[] String.[] = true
matches String.[] (String.◌∷◌ d s) = false
matches (String.◌∷◌ c p) String.[] = false
matches (String.◌∷◌ c p) (String.◌∷◌ d s) =
    let rest = matches p s in if eqb (fold_code (code c)) (fold_code (code d)) then rest else false

abbrev pub one_segment : String → Route
one_segment s =
    if matches "auth" s
    then public_page connect_wallet
    else if matches "home" s
    then protected_page home
    else if matches "listings" s
    then protected_page listings
    else if matches "chat" s
    then protected_page chat
    else if matches "profile" s
    then protected_page profile
    else if matches "admin" s
    then protected_page admin
    else fallback

-- A route with a fixed segment goes before one with a parameter.
abbrev pub two_segments : String → String → Route
two_segments s t =
    if matches "onboarding" s && matches "newbie" t
    then public_page onboarding_newbie
    else if matches "onboarding" s && matches "wallet" t
    then public_page onboarding_wallet
    else if matches "listings" s && matches "create" t
    then protected_page create_listing
    else if matches "listings" s
    then protected_page (property_detail t)
    else fallback

unfoldable pub route_of : List String → Route
route_of [] = home_redirect
route_of (s ∷ []) = one_segment s
route_of (s ∷ t ∷ []) = two_segments s t
route_of _ = fallback

-- What an element renders: a page, or a redirect.
pub data Rendered : Type 0 where
  shown : Page → Rendered
  redirect : List String → Rendered

unfoldable pub render : Bool → Route → Rendered
render is_authenticated home_redirect =
    if is_authenticated then redirect ("home" ∷ []) else redirect ("auth" ∷ [])
render is_authenticated fallback = redirect []
render is_authenticated (public_page p) = shown p
render is_authenticated (protected_page p) =
    if is_authenticated then shown p else redirect ("auth" ∷ [])

abbrev pub follow_with : (List String → Option Page) → Rendered → Option Page
follow_with again (shown p) = some p
follow_with again (redirect path) = again path

-- The page at which a path ends after that many redirects at most.
unfoldable pub follow : ℕ → Bool → List String → Option Page
unfolding route_of render
follow zero is_authenticated path = none
follow (suc n) is_authenticated path =
    follow_with (follow n is_authenticated) (render is_authenticated (route_of path))

-- `HIDE_NAV.includes(location.pathname)`
unfoldable pub hides_nav : List String → Bool
hides_nav (s ∷ []) = s == "auth"
hides_nav (s ∷ t ∷ []) = s == "onboarding" && (t == "newbie" || t == "wallet")
hides_nav _ = false

-- The tabs of the bar, in order.
pub data Tab : Type 0 where
  home_tab listings_tab chat_tab profile_tab admin_tab : Tab

unfoldable pub visible_tabs : Option User → List Tab
visible_tabs none = home_tab ∷ listings_tab ∷ chat_tab ∷ profile_tab ∷ []
visible_tabs (some u) =
    (home_tab ∷ listings_tab ∷ chat_tab ∷ profile_tab ∷ [])
    ++ (if u.is_admin then admin_tab ∷ [] else [])

-- `totalUnread` and `profileIncomplete`
unfoldable pub total_unread : ChatState → ℕ
total_unread s = sum_values s.unread_counts

unfoldable pub profile_incomplete : Option User → Bool
profile_incomplete none = false
profile_incomplete (some u) =
    not (truthy u.first_name) || not (truthy u.last_name) || not (truthy u.email)

-- The badge on the chat's tab: no number, the number, or `99+`.
pub data Badge : Type 0 where
  no_badge many_badge : Badge
  count_badge : ℕ → Badge

unfoldable pub chat_badge : ChatState → Badge
unfolding total_unread
chat_badge s =
    let n = total_unread s in
    if ltb 0 n then (if ltb 99 n then many_badge else count_badge n) else no_badge
