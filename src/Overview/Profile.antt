-- ===== src/Overview/Profile.antt =====
-- frontend/src/pages/ProfilePage.tsx: its form, the numbers that it shows, and the way out. The
-- saving of the form is in Auth/Forms.
use decentrarent.Prelude.{
  ℕ, String, ◌<>◌, Bool, true, Option, none, some, List, [], ◌∷◌, filter, length, ◌==◌,
  if◌then◌else◌, truthy, ltb,
}
use decentrarent.Prelude.Slices.{head_slice, tail_slice}
use decentrarent.Prelude.Outcome.{Result, ok, threw}
use decentrarent.Auth.{User, AuthState, logout}
use decentrarent.Properties.{Property, Numbers}

pub record ProfileForm : Type 0 where
  pub display_name : String
  pub first_name : String
  pub last_name : String
  pub email : String
  pub phone : String

unfoldable pub empty_form : ProfileForm
empty_form = record { display_name = ""; first_name = ""; last_name = ""; email = ""; phone = "" }

-- The effect on the user.
unfoldable pub form_of : Option User → ProfileForm → ProfileForm
form_of none f = f
form_of (some u) f = record {
  display_name = u.display_name;
  first_name = u.first_name;
  last_name = u.last_name;
  email = u.email;
  phone = u.phone;
}

unfoldable pub on_listings : Result (List Property) → List Property
on_listings (ok ps) = ps
on_listings (threw e) = []

-- `handleLogout`: the session, whether the wallet is disconnected, and the page that is gone to.
unfoldable pub handle_logout : AuthState → AuthState × Bool × String
unfolding logout
handle_logout s = (logout s, true, "/auth")

unfoldable pub profile_short : User → String
profile_short u =
    if truthy u.wallet_address
    then head_slice 4 u.wallet_address <> ("…" <> tail_slice 4 u.wallet_address)
    else "Wallet"

-- `occupiedCount`
unfoldable pub occupied_count : List Property → ℕ
occupied_count listings = length (filter (λ l. l.status == "available") listings)

-- `[…].filter(Boolean).length`
unfoldable pub filled_count : User → ℕ
filled_count u =
    length (filter truthy (u.display_name ∷ u.first_name ∷ u.last_name ∷ u.email ∷ u.phone ∷ []))

module _ (n : Numbers) where
  open n use {whole, over, times, round}

  -- `Math.round((part / total) * 100)`
  abbrev pub percent : ℕ → ℕ → ℕ
  percent part total = round (times (over (whole part) total) 100)

  unfoldable pub occupancy : List Property → ℕ
  unfolding occupied_count
  occupancy listings =
      if ltb 0 (length listings) then percent (occupied_count listings) (length listings) else 0

  unfoldable pub completion_pct : User → ℕ
  unfolding filled_count
  completion_pct u = percent (filled_count u) 5
