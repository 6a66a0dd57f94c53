-- ===== src/Orders/Disputes/Admins.antt =====
-- Who is shown the tab of the disputes, and who is shown the disputes.
use decentrarent.Prelude.{
  Bool, true, false, not, Option, none, some, ◌≡◌, refl, any, Bool-cases, inl, inr,
}
use decentrarent.Auth.{User}
use decentrarent.Navigation.{Tab, admin_tab, visible_tabs}
use decentrarent.Orders.Disputes.{DisputePage, Shown, access_denied, disputes, show_page}

abbrev is_admin_tab : Tab → Bool
is_admin_tab admin_tab = true
is_admin_tab _ = false

abbrev is_denied : Shown → Bool
is_denied access_denied = true
is_denied (disputes n loading orders) = false

-- The bar has the tab of the disputes exactly for a user whom the page does not turn away.
pub visible_tabs-admit :
    (user : Option User) (p : DisputePage)
    → any is_admin_tab (visible_tabs user) ≡ not (is_denied (show_page user p))
unfolding visible_tabs show_page
visible_tabs-admit none p = refl
visible_tabs-admit (some u) p = elim (Bool-cases u.is_admin) [
  | inl admitted ↦ rw admitted refl
  | inr turned_away ↦ rw turned_away refl
]
