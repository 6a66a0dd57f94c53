-- ===== src/Chat/Window/Sorting.antt =====
-- `newest_first`, the sorting of frontend/src/features/chat/components/ChatWindow.tsx: its result is in
-- order and holds what was there.
use decentrarent.Prelude.{
  ℕ, ◌+◌, ◌≤◌, List, [], ◌∷◌, ◌≡◌, refl, arith, leb, leb→le, All, Bool-cases, inl, inr, ◌∙◌,
}
use decentrarent.Chat.Window.{place, newest_first, sum_by}

module _ {ℓ} {A : Type ℓ} (key : A → ℕ) where
  -- Each element is at least as late as the next.
  abbrev pub Newest : List A → Type 0
  Newest [] = Unit
  Newest (x ∷ []) = Unit
  Newest (x ∷ y ∷ ys) = (key y ≤ key x) × Newest (y ∷ ys)

  Newest-cons : (x y : A) (ys : List A) → key y ≤ key x → Newest (y ∷ ys) → Newest (x ∷ y ∷ ys)
  Newest-cons x y ys l h = (l, h)

  -- What `place` puts below an element that is not earlier stays below it.
  place-Newest-below :
      (z x : A) (ys : List A) → key x ≤ key z → Newest (z ∷ ys) → Newest (z ∷ place key x ys)
  place-Newest-below z x [] l h = (l, tt)
  place-Newest-below z x (y ∷ ys) l h = elim (Bool-cases (leb (key y) (key x))) [
    | inl early ↦ rw early (l, (leb→le (key y) (key x) early, h.1))
    | inr late ↦ rw late (h.0, place-Newest-below y x ys (ground (arith, late)) h.1)
  ]

  place-Newest : (x : A) (ys : List A) → Newest ys → Newest (place key x ys)
  place-Newest x [] h = tt
  place-Newest x (y ∷ ys) h = elim (Bool-cases (leb (key y) (key x))) [
    | inl early ↦ rw early (leb→le (key y) (key x) early, h)
    | inr late ↦ rw late (place-Newest-below y x ys (ground (arith, late)) h)
  ]

  pub newest_first-Newest : (xs : List A) → Newest (newest_first key xs)
  newest_first-Newest [] = tt
  newest_first-Newest (x ∷ xs) = place-Newest x (newest_first key xs) (newest_first-Newest xs)

  place-sum : (f : A → ℕ) (x : A) (ys : List A) → sum_by f (place key x ys) ≡ f x + sum_by f ys
  place-sum f x [] = refl
  place-sum f x (y ∷ ys) = ground (arith, place-sum f x ys)

  pub newest_first-sum : (f : A → ℕ) (xs : List A) → sum_by f (newest_first key xs) ≡ sum_by f xs
  newest_first-sum f [] = refl
  newest_first-sum f (x ∷ xs) =
      place-sum f x (newest_first key xs) ∙ omega (arith, newest_first-sum f xs)

  place-All : (P : A → Type 0) (x : A) (ys : List A) → P x → All P ys → All P (place key x ys)
  place-All P x [] p h = (p, tt)
  place-All P x (y ∷ ys) p h = elim (Bool-cases (leb (key y) (key x))) [
    | inl early ↦ rw early (p, h)
    | inr late ↦ rw late (h.0, place-All P x ys p h.1)
  ]

  -- None is later than the first.
  first_newest-lower :
      (x y : A) (ys : List A)
      → key y ≤ key x
      → All (λ z. key z ≤ key y) ys
      → All (λ z. key z ≤ key x) ys
  first_newest-lower x y [] l h = tt
  first_newest-lower x y (z ∷ zs) l h = (omega (arith, l, h.0), first_newest-lower x y zs l h.1)

  pub Newest-first : (x : A) (xs : List A) → Newest (x ∷ xs) → All (λ y. key y ≤ key x) (x ∷ xs)
  Newest-first x [] h = (omega arith, tt)
  Newest-first x (y ∷ ys) h =
      let below = Newest-first y ys h.1 in
      (omega arith, (h.0, first_newest-lower x y ys h.0 below.1))

  pub newest_first-All : (P : A → Type 0) (xs : List A) → All P xs → All P (newest_first key xs)
  newest_first-All P [] h = tt
  newest_first-All P (x ∷ xs) h =
      place-All P x (newest_first key xs) h.0 (newest_first-All P xs h.1)
