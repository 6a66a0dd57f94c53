-- ===== src/Listings/Filters/Passing.antt =====
-- Which properties the list shows.
use mathlib.Core.List.{cons≢nil}
use decentrarent.Prelude.{
  ℕ, String, ◌<>◌, Bool, true, false, ◌&&◌, ◌||◌, List, [], ◌∷◌, Memᴰ, ◌≡◌, refl, ◌⊎◌, ◌↔◌, inl,
  inr, truthy, trim, includes, mem-filter, filter-mem, Bool-cases, arith,
}
use decentrarent.Prelude.Slices.{has_text, has_text-append, has_text-splits}
use decentrarent.Properties.{Property, Numbers}
use decentrarent.Listings.Filters.{
  Filters, price_human, status_passes, in_range, search_passes, filtered,
}

split_and : (a b : Bool) → (a && b) ≡ true → (a ≡ true) × (b ≡ true)
split_and a b h = ground (arith, h)

split_or : (a b : Bool) → (a || b) ≡ true → (a ≡ true) ⊎ (b ≡ true)
split_or true b h = inl refl
split_or false b h = inr h

module _ (n : Numbers) (below above : n.Num → ℕ → Bool) (lower : String → String) where
  -- The query is a part of the text, both in lower case.
  abbrev pub Found : String → String → Type 0
  Found query t = (pre : String) × (post : String) × (lower t ≡ pre <> (lower query <> post))

  -- What a property must be to be shown.
  pub record Passes (f : Filters) (p : Property) : Type 0 where
    pub by_status : (f.status_filter ≡ []) ⊎ (includes f.status_filter p.status ≡ true)
    pub from_low : below (price_human n below above lower p) f.low ≡ false
    pub to_high : above (price_human n below above lower p) f.high ≡ false
    pub by_search :
        truthy (trim f.search_query) ≡ true
        → Found f.search_query p.title ⊎ Found f.search_query p.location

  status_to :
      (ss : List String) (p : Property)
      → status_passes n below above lower ss p ≡ true
      → (ss ≡ []) ⊎ (includes ss p.status ≡ true)
  status_to [] p h = inl refl
  status_to (s ∷ ss) p h = inr h

  status_from :
      (ss : List String) (p : Property)
      → (ss ≡ []) ⊎ (includes ss p.status ≡ true)
      → status_passes n below above lower ss p ≡ true
  status_from [] p h = refl
  status_from (s ∷ ss) p (inl e) = absurd (cons≢nil e)
  status_from (s ∷ ss) p (inr h) = h

  to-Found : (q t : String) → has_text (lower q) (lower t) ≡ true → Found q t
  to-Found q t h = has_text-splits (lower q) (lower t) h

  has_text-of_Found : (q t : String) → Found q t → has_text (lower q) (lower t) ≡ true
  has_text-of_Found q t (pre, post, e) = rw e (has_text-append pre (lower q) post)

  search_to :
      (q : String) (p : Property)
      → search_passes n below above lower q p ≡ true
      → truthy (trim q) ≡ true
      → Found q p.title ⊎ Found q p.location
  search_to q p h some_query = elim (split_or _ _ (rw some_query at h)) [
    | inl title ↦ inl (to-Found q p.title title)
    | inr place ↦ inr (to-Found q p.location place)
  ]

  search_from :
      (q : String) (p : Property)
      → (truthy (trim q) ≡ true → Found q p.title ⊎ Found q p.location)
      → search_passes n below above lower q p ≡ true
  search_from q p h = elim (Bool-cases (truthy (trim q))) [
    | inr blank ↦ rw blank refl
    | inl some_query ↦ rw some_query (elim (h some_query) [
      | inl title ↦ rw (has_text-of_Found q p.title title) refl
      | inr place ↦ ground (arith, has_text-of_Found q p.location place)
    ])
  ]

  to-Passes :
      (f : Filters) (p : Property)
      → (status_passes n below above lower f.status_filter p
          && (in_range n below above lower f p
              && search_passes n below above lower f.search_query p))
        ≡ true
      → Passes f p
  to-Passes f p h =
      let (status, rest) = split_and _ _ h in
      let (range, search) =
        split_and (in_range n below above lower f p)
          (search_passes n below above lower f.search_query p) rest in
      record {
        by_status = status_to f.status_filter p status;
        from_low = ground (arith, range);
        to_high = ground (arith, range);
        by_search = search_to f.search_query p search;
      }

  of-Passes :
      (f : Filters) (p : Property)
      → Passes f p
      → (status_passes n below above lower f.status_filter p
          && (in_range n below above lower f p
              && search_passes n below above lower f.search_query p))
        ≡ true
  of-Passes f p h =
      rw
        (
          status_from f.status_filter p h.by_status,
          h.from_low,
          h.to_high,
          search_from f.search_query p h.by_search,
        )
        refl

  -- The list shows exactly the properties that were loaded and pass all filters: a chosen status, or any
  -- where none is chosen; a price from the lower to the upper end; and, where the query is more than
  -- blanks, a title or a location of which it is a part, both in lower case.
  pub filtered-exactly :
      (f : Filters) (ps : List Property) (p : Property)
      → Memᴰ p (filtered n below above lower f ps) ↔ (Memᴰ p ps × Passes f p)
  unfolding filtered
  filtered-exactly f ps p = (
    λ m. let (there, h) = filter-mem _ ps m in (there, to-Passes f p h),
    λ h. mem-filter _ ps (of-Passes f p h.1) h.0,
  )
