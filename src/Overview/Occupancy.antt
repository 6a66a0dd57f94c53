-- ===== src/Overview/Occupancy.antt =====
-- The two overviews on the same listings, and the bounds of the percentages.
use decentrarent.Prelude.{
  ℕ, ◌+◌, ◌≤◌, ◌<◌, List, [], ◌∷◌, ◌≡◌, refl, length, length-filter-le, truthy, ltb, arith,
  Bool-cases, inl, inr, ◌==◌, All, ◌⊎◌,
}
use decentrarent.Auth.{User}
use decentrarent.Properties.{Property, Numbers}
use decentrarent.Overview.Home.{assets_rented}
use decentrarent.Overview.Profile.{occupied_count, filled_count, percent, occupancy, completion_pct}

-- IEEE numbers are rounded correctly: quotients, products and `Math.round` keep the order, and these
-- values are exact.
pub record IsRounded (n : Numbers) (le : n.Num → n.Num → Type 0) : Type 0 where
  pub over_le : (a b : ℕ) → a ≤ b → 0 < b → le (n.over (n.whole a) b) (n.whole 1)
  pub times_le : (x y : n.Num) (k : ℕ) → le x y → le (n.times x k) (n.times y k)
  pub round_le : (x y : n.Num) → le x y → n.round x ≤ n.round y
  pub round_whole : (k : ℕ) → n.round (n.times (n.whole 1) k) ≡ k

module _ (n : Numbers) (le : n.Num → n.Num → Type 0) (rounded : IsRounded n le) where
  open rounded use {over_le, times_le, round_le, round_whole}

  percent-le : (part total : ℕ) → part ≤ total → 0 < total → percent n part total ≤ 100
  percent-le part total h pos =
      omega (arith, round_le _ _ (times_le _ _ 100 (over_le part total h pos)), round_whole 100)

  -- No percentage of the profile is above 100, whatever the listings and the user's fields are.
  pub percentages-le :
      (listings : List Property) (u : User)
      → (occupancy n listings ≤ 100) × (completion_pct n u ≤ 100)
  unfolding occupancy completion_pct occupied_count filled_count
  percentages-le listings u = (
    some_listed,
    percent-le (filled_count u) 5
        (length-filter-le truthy
          (u.display_name ∷ u.first_name ∷ u.last_name ∷ u.email ∷ u.phone ∷ []))
        (omega arith),
  )
    where
      some_listed : occupancy n listings ≤ 100
      some_listed = elim (Bool-cases (ltb 0 (length listings))) [
        | inl listed ↦ rw listed (
            percent-le (occupied_count listings) (length listings)
              (length-filter-le (λ l. l.status == "available") listings) (ground (arith, listed)))
        | inr unlisted ↦ rw unlisted (omega arith)
      ]

-- Listings are available or rented.
abbrev pub Settled : Property → Type 0
Settled l = (l.status ≡ "available") ⊎ (l.status ≡ "rented")

-- Of listings that are available or rented, the profile counts as occupied those that the home page
-- does not count as rented: the more is rented, the lower the occupancy that is shown.
pub occupied-is_not_rented :
    (listings : List Property)
    → All Settled listings
    → occupied_count listings + assets_rented listings ≡ length listings
unfolding occupied_count assets_rented
occupied-is_not_rented [] h = refl
occupied-is_not_rented (l ∷ ls) (inl free, hs) =
    rw free (omega (arith, occupied-is_not_rented ls hs))
occupied-is_not_rented (l ∷ ls) (inr let_out, hs) =
    rw let_out (omega (arith, occupied-is_not_rented ls hs))
