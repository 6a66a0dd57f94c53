-- ===== src/Listings/Filters.antt =====
-- The filters of frontend/src/pages/ListingsPage.tsx. Prices are compared with whole numbers as IEEE
-- numbers; `lower` is `text.toLowerCase()`.
pub mod Ranges
pub mod Passing
pub mod Modals
mod Tests
use decentrarent.Prelude.{
  ℕ, String, Bool, true, false, not, ◌&&◌, ◌||◌, Option, none, some, List, [], ◌∷◌, ◌++◌, ◌==◌, ◌≡◌,
  refl, arith, eq_iff, if◌then◌else◌, truthy, trim, filter, includes, default, ltb,
}
use decentrarent.Prelude.Slices.{has_text}
use decentrarent.Properties.{Property, Numbers, to_display_amount}

-- `normalizeStatus`
unfoldable pub normalize_status : Property → Property
normalize_status p =
    if p.status == "listed"
    then record p { status = "available" }
    else if p.status == "unlisted"
    then record p { status = "archive" }
    else p

pub record Filters : Type 0 where
  pub status_filter : List String
  pub low : ℕ
  pub high : ℕ
  pub search_query : String

unfoldable pub initial_filters : Filters
initial_filters = record {
  status_filter = "available" ∷ "rented" ∷ "archive" ∷ [];
  low = 0;
  high = 10000;
  search_query = "";
}

abbrev pub toggled : String → List String → List String
toggled value statuses =
    if includes statuses value
    then filter (λ s. not (s == value)) statuses
    else statuses ++ value ∷ []

-- A click on a status.
unfoldable pub toggle_status : String → Filters → Filters
toggle_status value f = record f { status_filter = toggled value f.status_filter }

abbrev pub larger : ℕ → ℕ → ℕ
larger a b = if ltb a b then b else a

abbrev pub or_if_zero : Option ℕ → ℕ → ℕ
or_if_zero none d = d
or_if_zero (some n) d = if ltb 0 n then n else d

-- The two fields and the slider, on what `parseInt` reads, `none` for NaN, as far as that is not
-- negative (`Math.max` raises a lower end below 0 to 0).
unfoldable pub set_low : Option ℕ → Filters → Filters
set_low read f = record f { low = or_if_zero read 0 }

unfoldable pub set_high : Option ℕ → Filters → Filters
set_high read f = record f { high = larger f.low (or_if_zero read 10000) }

unfoldable pub slide : ℕ → Filters → Filters
slide value f = record f { high = value }

module _ (n : Numbers) (below above : n.Num → ℕ → Bool) (lower : String → String) where
  open n use {Num, number}

  abbrev pub price_human : Property → Num
  price_human p = number (to_display_amount n p.price p.token_mint)

  abbrev pub status_passes : List String → Property → Bool
  status_passes [] p = true
  status_passes (s ∷ ss) p = includes (s ∷ ss) p.status

  abbrev pub in_range : Filters → Property → Bool
  in_range f p = not (below (price_human p) f.low || above (price_human p) f.high)

  abbrev pub search_passes : String → Property → Bool
  search_passes query p =
      if truthy (trim query)
      then has_text (lower query) (lower p.title) || has_text (lower query) (lower p.location)
      else true

  unfoldable pub filtered : Filters → List Property → List Property
  filtered f =
      filter
        (λ p. status_passes f.status_filter p && (in_range f p && search_passes f.search_query p))
