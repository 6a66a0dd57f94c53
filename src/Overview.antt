-- ===== src/Overview.antt =====
-- The overviews of frontend/src/pages/HomePage.tsx (Home) and ProfilePage.tsx (Profile); here the
-- picture of a user, which both choose by the user's id.
pub mod Home
pub mod Profile
pub mod WalletCard
pub mod Avatars
pub mod Occupancy
mod Tests
use Prim.Native.Char.{code}
use decentrarent.Prelude.{
  ℕ, suc, ◌+◌, ◌/◌, ◌%◌, String, ◌<>◌, Bool, true, false, Option, none, some, List, [], ◌∷◌,
  if◌then◌else◌, eqb, default, get_elem?,
}

-- `id.charCodeAt(0) + id.charCodeAt(1)`, with `none` for NaN; ids are of single code units.
abbrev pub first_codes : String → Option ℕ
first_codes String.[] = none
first_codes (String.◌∷◌ c String.[]) = none
first_codes (String.◌∷◌ c (String.◌∷◌ d s)) = some (code c + code d)

abbrev pub index_of : Option ℕ → Option ℕ
index_of none = none
index_of (some n) = some (n % 20 + 1)

-- `owlIndex` of a user's id.
unfoldable pub owl_index : String → Option ℕ
owl_index id = index_of (first_codes id)

abbrev pub digits : List String
digits = "0" ∷ "1" ∷ "2" ∷ "3" ∷ "4" ∷ "5" ∷ "6" ∷ "7" ∷ "8" ∷ "9" ∷ []

abbrev pub digit : ℕ → String
digit n = default (get_elem? digits n) ""

-- `String(n).padStart(2, '0')` below 100.
abbrev pub two_digits : ℕ → String
two_digits n = digit (n / 10) <> digit (n % 10)

-- `owlFile`
unfoldable pub owl_file : Option ℕ → String
owl_file none = "Owl - All versions-NaN.png"
owl_file (some n) =
    if eqb n 10
    then "Owl - All versions-" <> (two_digits n <> ".jpg")
    else "Owl - All versions-" <> (two_digits n <> ".png")
