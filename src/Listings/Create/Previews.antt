-- ===== src/Listings/Create/Previews.antt =====
-- The images of frontend/src/pages/CreateListingPage.tsx with their previews: `handleAddImages` and
-- `handleRemoveImage`. The object URLs of the browser are numbered in the order in which they are
-- made; those that are not revoked hold their file in memory.
use decentrarent.Prelude.{
  ℕ, zero, suc, ◌+◌, not, List, [], ◌∷◌, ◌++◌, map, eqb, filter, get_elem?, Option, none, some,
  length,
}
use decentrarent.Prelude.Outcome.{Result, ok, threw, Thrown}
use decentrarent.Listings.Create.{Image}

pub record ImagePreview : Type 0 where
  pub file : Image
  pub preview : ℕ

pub record Gallery : Type 0 where
  pub images : List ImagePreview
  pub made : ℕ
  pub live : List ℕ

unfoldable pub no_images : Gallery
no_images = record { images = []; made = 0; live = [] }

-- `files.map`, with an object URL for each file.
abbrev pub new_images : ℕ → List Image → List ImagePreview
new_images n [] = []
new_images n (file ∷ files) = record { file = file; preview = n } ∷ new_images (suc n) files

-- `handleAddImages`, on the files that the user chose.
unfoldable pub handle_add_images : List Image → Gallery → Gallery
handle_add_images files g =
    let added = new_images g.made files in
    record {
      images = g.images ++ added;
      made = g.made + length files;
      live = g.live ++ map (λ i. i.preview) added;
    }

-- `filter((_, i) => i !== index)`
abbrev pub without_index : ℕ → List ImagePreview → List ImagePreview
without_index i [] = []
without_index zero (x ∷ xs) = xs
without_index (suc i) (x ∷ xs) = x ∷ without_index i xs

-- `URL.revokeObjectURL`: nothing happens for a URL that is not there.
abbrev pub revoke : ℕ → List ℕ → List ℕ
revoke url live = filter (λ u. not (eqb u url)) live

abbrev pub remove_found : ℕ → Gallery → Option ImagePreview → Result Gallery
remove_found index g none = threw Thrown.other
remove_found index g (some x) =
    ok (record g { images = without_index index g.images; live = revoke x.preview g.live })

-- `handleRemoveImage`: an index out of range reads the preview of undefined, which throws.
unfoldable pub handle_remove_image : ℕ → Gallery → Result Gallery
handle_remove_image index g = remove_found index g (get_elem? g.images index)
