-- ===== src/Listings/Create/Held.antt =====
-- The object URLs behind the previews of frontend/src/pages/CreateListingPage.tsx: which are held.
use decentrarent.Prelude.{
  ℕ, zero, suc, ◌+◌, ◌≤◌, List, [], ◌∷◌, ◌++◌, map, ◌≡◌, refl, arith, get_elem?, some, length, ap,
  sym, ◌∙◌, inl, inr, Option-cases, map-append,
}
use mathlib.Core.Option.{some-injective}
use decentrarent.Prelude.Outcome.{Result, ok, threw}
use decentrarent.Listings.Create.{Image}
use decentrarent.Listings.Create.Previews.{
  ImagePreview, Gallery, no_images, new_images, handle_add_images, without_index, revoke,
  handle_remove_image,
}

-- What the user may do to the images of the form.
pub data Step : Gallery → Gallery → Type 0 where
  added : (files : List Image) (g : Gallery) → Step g (handle_add_images files g)
  removed : {g h : Gallery} (index : ℕ) → handle_remove_image index g ≡ ok h → Step g h

pub data Reach : Gallery → Type 0 where
  start : Reach no_images
  next : {g h : Gallery} → Reach g → Step g h → Reach h

abbrev pub previews : List ImagePreview → List ℕ
previews = map (λ i. i.preview)

-- The URLs grow along the list, from `low` on and below `high`.
abbrev pub Rising : ℕ → List ImagePreview → ℕ → Type 0
Rising low [] high = low ≤ high
Rising low (x ∷ xs) high = (low ≤ x.preview) × Rising (suc x.preview) xs high

-- The URLs that hold a file are those of the images on the screen, in their order.
pub record IsHeld (g : Gallery) : Type 0 where
  live : g.live ≡ previews g.images
  rising : Rising 0 g.images g.made

Rising-new :
    (n high : ℕ) (files : List Image) → high ≡ n + length files → Rising n (new_images n files) high
Rising-new n high [] e = omega arith
Rising-new n high (f ∷ fs) e = (omega arith, Rising-new (suc n) high fs (omega arith))

Rising-lower :
    (low low' high : ℕ) (xs : List ImagePreview)
    → low' ≤ low
    → Rising low xs high
    → Rising low' xs high
Rising-lower low low' high [] l h = omega arith
Rising-lower low low' high (x ∷ xs) l h = (omega arith, h.1)

Rising-append :
    (low mid high : ℕ) (xs ys : List ImagePreview)
    → Rising low xs mid
    → Rising mid ys high
    → Rising low (xs ++ ys) high
Rising-append low mid high [] ys hx hy = Rising-lower mid low high ys hx hy
Rising-append low mid high (x ∷ xs) ys hx hy =
    (hx.0, Rising-append (suc x.preview) mid high xs ys hx.1 hy)

Rising-without :
    (low high index : ℕ) (xs : List ImagePreview)
    → Rising low xs high
    → Rising low (without_index index xs) high
Rising-without low high index [] h = h
Rising-without low high zero (x ∷ xs) h = Rising-lower (suc x.preview) low high xs (omega arith) h.1
Rising-without low high (suc i) (x ∷ xs) h = (h.0, Rising-without (suc x.preview) high i xs h.1)

Rising-found :
    (low high index : ℕ) (x : ImagePreview) (xs : List ImagePreview)
    → Rising low xs high
    → get_elem? xs index ≡ some x
    → low ≤ x.preview
Rising-found low high index x [] h found = cc (sym found)
Rising-found low high zero x (y ∷ ys) h found = rw (some-injective _ _ found) at h.0
Rising-found low high (suc i) x (y ∷ ys) h found =
    omega (arith, h.0, Rising-found (suc y.preview) high i x ys h.1 found)

-- Revoking a URL below all others changes nothing.
revoke-absent :
    (low high url : ℕ) (xs : List ImagePreview)
    → Rising low xs high
    → suc url ≤ low
    → revoke url (previews xs) ≡ previews xs
revoke-absent low high url [] h l = refl
revoke-absent low high url (x ∷ xs) h l =
    ground (arith, revoke-absent (suc x.preview) high url xs h.1)

revoke-first :
    (high url : ℕ) (x : ImagePreview) (xs : List ImagePreview)
    → x.preview ≡ url
    → Rising (suc x.preview) xs high
    → revoke url (previews (x ∷ xs)) ≡ previews xs
revoke-first high url x xs e h = ground (arith, e, revoke-absent (suc x.preview) high url xs h)

-- Revoking the URL of an image leaves those of the others.
revoke-found :
    (low high index : ℕ) (x : ImagePreview) (xs : List ImagePreview)
    → Rising low xs high
    → get_elem? xs index ≡ some x
    → revoke x.preview (previews xs) ≡ previews (without_index index xs)
revoke-found low high index x [] h found = cc
revoke-found low high zero x (y ∷ ys) h found =
    revoke-first high x.preview y ys (ap (λ i. i.preview) (some-injective _ _ found)) h.1
revoke-found low high (suc i) x (y ∷ ys) h found =
    let above = Rising-found (suc y.preview) high i x ys h.1 found in
    ground (arith, above, revoke-found (suc y.preview) high i x ys h.1 found)

abbrev pub kept : ℕ → Gallery → Gallery
kept index g = record g {
  images = without_index index g.images;
  live = previews (without_index index g.images);
}

removed-kept :
    (index : ℕ) (x : ImagePreview) (g : Gallery)
    → IsHeld g
    → get_elem? g.images index ≡ some x
    → handle_remove_image index g ≡ ok (kept index g)
unfolding handle_remove_image
removed-kept index x g v found =
    rw (found, v.live, revoke-found 0 g.made index x g.images v.rising found) refl

kept-IsHeld : (index : ℕ) (g : Gallery) → IsHeld g → IsHeld (kept index g)
kept-IsHeld index g v = record {
  live = refl;
  rising = Rising-without 0 g.made index g.images v.rising;
}

abbrev ok_or : Gallery → Result Gallery → Gallery
ok_or g (ok h) = h
ok_or g (threw e) = g

Step-IsHeld : {g h : Gallery} → Step g h → IsHeld g → IsHeld h
unfolding handle_add_images handle_remove_image
Step-IsHeld (added files g) v = record {
  live =
      ap (λ l. l ++ previews (new_images g.made files)) v.live
      ∙ sym (map-append _ g.images (new_images g.made files));
  rising = Rising-append 0 g.made _ g.images _ v.rising (Rising-new g.made _ files refl);
}
Step-IsHeld (removed {g} {h} index e) v = elim (Option-cases (get_elem? g.images index)) [
  | inl out ↦ cc (rw out at e)
  | inr (x, found) ↦
      rw (ap (ok_or h) (sym (removed-kept index x g v found) ∙ e)) at (kept-IsHeld index g v)
]

pub Reach-IsHeld : {g : Gallery} → Reach g → IsHeld g
unfolding no_images
Reach-IsHeld start = record { live = refl; rising = omega arith }
Reach-IsHeld (next r st) = Step-IsHeld st (Reach-IsHeld r)

-- In every state that the choices and the removals of images reach, the object URLs that hold a
-- file are those of the previews on the screen, in their order; and a click on the removal of an
-- image takes this one off, revokes its URL, and leaves the others with theirs.
pub remove_image-Held :
    {g : Gallery} (index : ℕ) (x : ImagePreview)
    → Reach g
    → get_elem? g.images index ≡ some x
    → (g.live ≡ previews g.images) × (handle_remove_image index g ≡ ok (kept index g))
remove_image-Held {g} index x r found =
    let v = Reach-IsHeld r in (v.live, removed-kept index x g v found)
