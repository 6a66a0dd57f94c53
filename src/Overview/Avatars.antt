-- ===== src/Overview/Avatars.antt =====
-- The picture of a user is one that there is.
use Prim.Native.Char.{code}
use decentrarent.Prelude.{
  ℕ, zero, suc, ◌+◌, ◌%◌, ◌≤◌, ◌<◌, String, Bool, true, ◌&&◌, some, List, [], ◌∷◌, ◌≡◌, refl, ◌∙◌,
  ap, includes, arith, inl, inr, ◌⊎◌,
}
use decentrarent.Prelude.Slices.{unit_count}
use decentrarent.Overview.{owl_index, owl_file}

-- The pictures that frontend/public holds.
abbrev pub pictures : List String
pictures =
    "Owl - All versions-01.png" ∷ "Owl - All versions-02.png" ∷ "Owl - All versions-03.png"
    ∷ "Owl - All versions-04.png" ∷ "Owl - All versions-05.png" ∷ "Owl - All versions-06.png"
    ∷ "Owl - All versions-07.png" ∷ "Owl - All versions-08.png" ∷ "Owl - All versions-09.png"
    ∷ "Owl - All versions-10.jpg" ∷ "Owl - All versions-11.png" ∷ "Owl - All versions-12.png"
    ∷ "Owl - All versions-13.png" ∷ "Owl - All versions-14.png" ∷ "Owl - All versions-15.png"
    ∷ "Owl - All versions-16.png" ∷ "Owl - All versions-17.png" ∷ "Owl - All versions-18.png"
    ∷ "Owl - All versions-19.png" ∷ "Owl - All versions-20.png" ∷ []

abbrev all_below : ℕ → (ℕ → Bool) → Bool
all_below zero p = true
all_below (suc n) p = p n && all_below n p

below : (m : ℕ) (p : ℕ → Bool) (k : ℕ) → all_below m p ≡ true → k < m → p k ≡ true
below zero p k h l = absurd (omega arith)
below (suc m) p k h l = elim last_or_less [
  | inl e ↦ ap p e ∙ ground (arith, h)
  | inr less ↦ below m p k (ground (arith, h)) less
]
  where
    last_or_less : (k ≡ m) ⊎ (k < m)
    last_or_less = omega arith

abbrev is_there : ℕ → Bool
is_there k = includes pictures (owl_file (some (k + 1)))

all_there : all_below 20 is_there ≡ true
unfolding owl_file
all_there = refl

-- A user whose id has two characters or more has an index from 1 to 20, and the file of that index
-- is one of the pictures, its ending included.
pub owl_file-there :
    (id : String)
    → 2 ≤ unit_count id
    → (n : ℕ) × (owl_index id ≡ some n)
      × (1 ≤ n)
      × (n ≤ 20)
      × (includes pictures (owl_file (owl_index id)) ≡ true)
unfolding owl_index
owl_file-there String.[] h = absurd (omega arith)
owl_file-there (String.◌∷◌ c String.[]) h = absurd (omega arith)
owl_file-there (String.◌∷◌ c (String.◌∷◌ d s)) h =
    let n = code c + code d in
    (n % 20 + 1, refl, omega arith, omega arith, below 20 is_there (n % 20) all_there (omega arith))
