-- ===== src/Listings/Create/Progress.antt =====
-- The text on the save button of frontend/src/pages/CreateListingPage.tsx while images are uploaded.
use decentrarent.Prelude.{
  ℕ, ◌+◌, String, Bool, true, false, List, [], ◌∷◌, ◌++◌, ◌≡◌, refl, length, All, ap, ◌∙◌, arith,
}
use decentrarent.Prelude.Outcome.{Result, ok, threw, Thrown}
use decentrarent.Listings.Create.{Image, ImageAnswers, Call, upload_one}
use decentrarent.Listings.Create.Uploads.{Uploaded, upload_one-ok}

-- `uploadProgress`: the empty text, or that of the image under way, by its number and their count.
pub data UploadProgress : Type 0 where
  no_text : UploadProgress
  uploading_image : ℕ → ℕ → UploadProgress

abbrev pub stopped_or : Result (Unit {0}) → UploadProgress → UploadProgress → UploadProgress
stopped_or (threw e) here later = here
stopped_or (ok _) here later = later

-- What the loop of `uploadImages` leaves in `uploadProgress`, from the image of an index on: an image
-- that throws leaves its own text.
unfoldable pub progress_after : ℕ → ℕ → String → List (Image × ImageAnswers) → UploadProgress
progress_after i total id [] = no_text
progress_after i total id (x ∷ xs) =
    stopped_or (upload_one id x).1 (uploading_image (i + 1) total)
      (progress_after (i + 1) total id xs)

-- `uploadImages` as far as `uploadProgress` goes.
unfoldable pub upload_progress : String → List (Image × ImageAnswers) → UploadProgress
upload_progress id images = progress_after 0 (length images) id images

-- What the button shows: `saving ? (uploadProgress || 'Saving...') : 'Create Listing'`.
pub data ButtonText : Type 0 where
  create_listing saving_dots : ButtonText
  progress_text : ℕ → ℕ → ButtonText

unfoldable pub button_text : Bool → UploadProgress → ButtonText
button_text false p = create_listing
button_text true no_text = saving_dots
button_text true (uploading_image i n) = progress_text i n

progress-stop :
    (i total : ℕ) (id : String) (before : List (Image × ImageAnswers)) (x : Image × ImageAnswers)
    (after : List (Image × ImageAnswers)) (calls : List Call) (e : Thrown)
    → All Uploaded before
    → upload_one id x ≡ (calls, threw e)
    → progress_after i total id (before ++ x ∷ after)
      ≡ uploading_image (i + length before + 1) total
unfolding progress_after
progress-stop i total id [] x after calls e h fails =
    rw (ap (λ r. r.1) fails) (ap (λ k. uploading_image k total) (omega arith))
progress-stop i total id (y ∷ before) x after calls e h fails =
    rw (ap (λ r. r.1) (upload_one-ok id y h.0)) (
      progress-stop (i + 1) total id before x after calls e h.1 fails
      ∙ ap (λ k. uploading_image k total) (omega arith))

progress-ok :
    (i total : ℕ) (id : String) (images : List (Image × ImageAnswers))
    → All Uploaded images
    → progress_after i total id images ≡ no_text
unfolding progress_after
progress-ok i total id [] h = refl
progress-ok i total id (y ∷ ys) h =
    rw (ap (λ r. r.1) (upload_one-ok id y h.0)) (progress-ok (i + 1) total id ys h.1)

-- After an upload that failed at an image, the next save tells on its button, while it still
-- creates the property, that this image of the earlier upload is being uploaded.
pub stale_progress :
    (id : String) (before : List (Image × ImageAnswers)) (x : Image × ImageAnswers)
    (after : List (Image × ImageAnswers)) (calls : List Call) (e : Thrown)
    → All Uploaded before
    → upload_one id x ≡ (calls, threw e)
    → button_text true (upload_progress id (before ++ x ∷ after))
      ≡ progress_text (length before + 1) (length (before ++ x ∷ after))
unfolding upload_progress button_text
stale_progress id before x after calls e h fails =
    let total = length (before ++ x ∷ after) in
    ap (button_text true) (progress-stop 0 total id before x after calls e h fails)
    ∙ ap (λ k. progress_text k total) (omega arith)

-- After uploads that all succeed, the next save tells nothing of them.
pub full_progress :
    (id : String) (images : List (Image × ImageAnswers))
    → All Uploaded images
    → button_text true (upload_progress id images) ≡ saving_dots
unfolding upload_progress button_text
full_progress id images h = ap (button_text true) (progress-ok 0 (length images) id images h)
