-- ===== src/Listings/Filters/Ranges.antt =====
-- What the filters' controls do to what is shown.
use decentrarent.Prelude.{
  Option, ℕ, ◌≤◌, ◌<◌, String, Bool, false, not, ◌&&◌, ◌||◌, List, [], ◌∷◌, ◌++◌, ◌==◌, ◌≡◌, refl,
  arith, eq_iff, if◌then◌else◌, filter, includes, Bool-cases, inl, inr,
}
use decentrarent.Properties.{Property, Numbers}
use decentrarent.Listings.Filters.{
  Filters, toggle_status, set_high, slide, larger, or_if_zero, filtered, price_human, in_range,
}

includes-without :
    (v x : String) (ss : List String)
    → includes (filter (λ s. not (s == v)) ss) x ≡ (not (v == x) && includes ss x)
includes-without v x [] = ground arith
includes-without v x (s ∷ ss) =
    ground (arith, eq_iff s v, eq_iff s x, eq_iff v x, includes-without v x ss)

includes-with :
    (v x : String) (ss : List String) → includes (ss ++ v ∷ []) x ≡ (includes ss x || v == x)
includes-with v x [] = ground arith
includes-with v x (s ∷ ss) = ground (arith, includes-with v x ss)

-- A click on a status turns that status, and no other, from shown to hidden and back.
pub toggle_status-flips :
    (v x : String) (f : Filters)
    → includes (toggle_status v f).status_filter x
      ≡ (if v == x then not (includes f.status_filter x) else includes f.status_filter x)
unfolding toggle_status
toggle_status-flips v x f =
    ground
      (arith, eq_iff v x, includes-without v x f.status_filter, includes-with v x f.status_filter)

module _ (n : Numbers) (below above : n.Num → ℕ → Bool) (lower : String → String) where
  none_shown :
      (f : Filters) (ps : List Property)
      → ((p : Property) → in_range n below above lower f p ≡ false)
      → filtered n below above lower f ps ≡ []
  unfolding filtered
  none_shown f [] out = refl
  none_shown f (p ∷ ps) out = ground (arith, out p, none_shown f ps out)

  -- The field for the upper end never puts it below the lower end; but the slider does, wherever it is
  -- left of the lower end, and then no property is shown at all, whatever its price. A number that is
  -- not below one end and not above the other shows that the ends are in order.
  pub slide-empties :
      (f : Filters) (read : Option ℕ) (value : ℕ) (ps : List Property)
      → ((x : n.Num) (lo hi : ℕ) → below x lo ≡ false → above x hi ≡ false → lo ≤ hi)
      → value < f.low
      → ((set_high read f).low ≤ (set_high read f).high)
        × (filtered n below above lower (slide value f) ps ≡ [])
  unfolding set_high slide
  slide-empties f read value ps order left = (
    kept f.low (or_if_zero read 10000),
    none_shown (slide value f) ps λ p. out (price_human n below above lower p),
  )
    where
      kept : (a b : ℕ) → a ≤ larger a b
      kept a b = ground arith

      out : (x : n.Num) → not (below x f.low || above x value) ≡ false
      out x = elim (Bool-cases (below x f.low)) [
        | inl under ↦ rw under refl
        | inr over ↦ elim (Bool-cases (above x value)) [
          | inl beyond ↦ rw (over, beyond) refl
          | inr within ↦ absurd (omega (arith, order x f.low value over within))
        ]
      ]
