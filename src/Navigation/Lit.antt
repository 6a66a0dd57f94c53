-- ===== src/Navigation/Lit.antt =====
-- Which tab of frontend/src/components/Layout/BottomNav.tsx is lit.
use Prim.Native.Char.{code}
use decentrarent.Prelude.{
  ℕ, String, Bool, true, false, ◌≡◌, refl, ap, sym, ◌∙◌, eqb, arith, if◌then◌else◌,
}
use decentrarent.Prelude.Slices.{starts_with}
use decentrarent.Navigation.{Tab, home_tab, listings_tab, chat_tab, profile_tab, admin_tab}

unfoldable pub tab_path : Tab → String
tab_path home_tab = "/home"
tab_path listings_tab = "/listings"
tab_path chat_tab = "/chat"
tab_path profile_tab = "/profile"
tab_path admin_tab = "/admin"

-- `pathname.startsWith(t.to)`
unfoldable pub is_lit : String → Tab → Bool
is_lit pathname t = starts_with (tab_path t) pathname

-- The letter after the slash, by its code.
abbrev letter : String → ℕ
letter String.[] = 0
letter (String.◌∷◌ c String.[]) = 0
letter (String.◌∷◌ c (String.◌∷◌ d s)) = code d

abbrev tab_of : ℕ → Tab
tab_of n =
    if eqb n 104
    then home_tab
    else if eqb n 108
    then listings_tab
    else if eqb n 99
    then chat_tab
    else if eqb n 112
    then profile_tab
    else admin_tab

tab_of-letter : (t : Tab) → tab_of (letter (tab_path t)) ≡ t
unfolding tab_path
tab_of-letter home_tab = refl
tab_of-letter listings_tab = refl
tab_of-letter chat_tab = refl
tab_of-letter profile_tab = refl
tab_of-letter admin_tab = refl

letter-first :
    (p s : String) → eqb (letter p) 0 ≡ false → starts_with p s ≡ true → letter s ≡ letter p
letter-first String.[] s filled h = cc filled
letter-first (String.◌∷◌ c String.[]) s filled h = cc filled
letter-first (String.◌∷◌ c (String.◌∷◌ d p)) String.[] filled h = cc h
letter-first (String.◌∷◌ c (String.◌∷◌ d p)) (String.◌∷◌ e String.[]) filled h = ground (arith, h)
letter-first (String.◌∷◌ c (String.◌∷◌ d p)) (String.◌∷◌ e (String.◌∷◌ f s)) filled h =
    ground (arith, h)

active-letter :
    (pathname : String) (t : Tab) → is_lit pathname t ≡ true → letter pathname ≡ letter (tab_path t)
unfolding is_lit tab_path
active-letter pathname home_tab h = letter-first "/home" pathname refl h
active-letter pathname listings_tab h = letter-first "/listings" pathname refl h
active-letter pathname chat_tab h = letter-first "/chat" pathname refl h
active-letter pathname profile_tab h = letter-first "/profile" pathname refl h
active-letter pathname admin_tab h = letter-first "/admin" pathname refl h

-- At every path, also one that no route has, at most one tab is lit.
pub one_active :
    (pathname : String) (t u : Tab) → is_lit pathname t ≡ true → is_lit pathname u ≡ true → t ≡ u
one_active pathname t u h k =
    sym (tab_of-letter t)
    ∙ ap tab_of (sym (active-letter pathname t h) ∙ active-letter pathname u k)
    ∙ tab_of-letter u
