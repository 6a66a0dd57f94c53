-- ===== src/Listings/Create/Tests.antt =====
-- The theorems on the form at concrete inputs: two images, of which the second fails.
use decentrarent.Prelude.{
  ℕ, ◌*◌, String, Bool, true, false, Option, none, some, List, [], ◌∷◌, ◌++◌, ◌≡◌, refl, All,
  get_elem?,
}
use decentrarent.Prelude.Outcome.{Result, ok, threw, error_object}
use decentrarent.Properties.{Numbers}
use decentrarent.Listings.Create.{
  Image, ImageAnswers, created, asked_url, put_file, sol, month, ListingForm, CreatePropertyRequest,
  SaveState, smallest, checked, handle_save,
}
use decentrarent.Listings.Create.Previews.{
  Gallery, no_images, handle_add_images, handle_remove_image,
}
use decentrarent.Listings.Create.Held
use decentrarent.Listings.Create.Held.{previews, kept, remove_image-Held}
use decentrarent.Listings.Create.Uploads.{
  Uploaded, all_calls, present_error, first_call, handle_save-completes, handle_save-leaves,
}

abbrev naturals : Numbers
naturals = record {
  Num = ℕ;
  number = λ s. 2;
  text_of = λ n. "2";
  whole = λ n. n;
  times = λ a b. a * b;
  over = λ a b. a;
  round = λ n. n;
}

abbrev two : String → Option ℕ
two s = some 2

abbrev positive : ℕ → Bool
positive n = true

abbrev negative : ℕ → Bool
negative n = false

abbrev form : ListingForm
form = record {
  title = "Home";
  location = "Here";
  description = "";
  price = "2";
  security_deposit = "2";
  token_mint = sol;
  period_type = month;
}

abbrev asked : CreatePropertyRequest
asked = record {
  title = "Home";
  description = "";
  location = "Here";
  price = 2000000000;
  deposit_price = 2000000000;
  token_mint = sol;
  period_type = month;
}

passes : checked naturals two positive negative form ≡ ok asked
unfolding checked smallest
passes = refl

abbrev good : Image × ImageAnswers
good = ("a.png", record { url = ok ("u", "k"); put = ok tt; register = ok tt })

abbrev bad : Image × ImageAnswers
bad = (
  "b.png",
  record { url = ok ("u", "k"); put = threw (error_object "offline"); register = ok tt },
)

abbrev good_up : All Uploaded (good ∷ [])
good_up = (record { upload_url = "u"; file_key = "k"; url = refl; put = refl; register = refl }, tt)

abbrev fresh : SaveState
fresh = record { saving = false; success = false; error = none }

handle_save-completes_example :
    handle_save naturals two positive negative (some "T") form (good ∷ []) (ok "p1") fresh ≡ (
      record { saving = false; success = true; error = none },
      created asked ∷ all_calls "p1" (good ∷ []) good_up,
    )
handle_save-completes_example =
    handle_save-completes naturals two positive negative "T" form asked "p1" (good ∷ []) fresh
      good_up refl passes

handle_save-leaves_example :
    let (t, trace) =
      handle_save naturals two positive negative
        (some "T")
        form
        ((good ∷ []) ++ bad ∷ [])
        (ok "p1")
        fresh in
    (t.saving ≡ false)
    × (t.success ≡ fresh.success)
    × (present_error t ≡ true)
    × (trace
        ≡ created asked
          ∷ (all_calls "p1" (good ∷ []) good_up
              ++ asked_url "p1" "b.png" ∷ put_file "u" "b.png" ∷ []))
    × ((again : List (Image × ImageAnswers)) (answer : Result String)
        → first_call (handle_save naturals two positive negative (some "T") form again answer t).1
          ≡ some (created asked))
handle_save-leaves_example =
    handle_save-leaves naturals two positive negative "T" form asked "p1" (good ∷ []) bad []
      (asked_url "p1" "b.png" ∷ put_file "u" "b.png" ∷ []) (error_object "offline") fresh good_up
      refl passes refl

abbrev two_images : Gallery
two_images = handle_add_images ("a.png" ∷ "b.png" ∷ []) no_images

first_there : get_elem? two_images.images 0 ≡ some (record { file = "a.png"; preview = 0 })
unfolding handle_add_images no_images
first_there = refl

-- The cover of two images is taken off.
remove_image-Held_example :
    (two_images.live ≡ previews two_images.images)
    × (handle_remove_image 0 two_images ≡ ok (kept 0 two_images))
remove_image-Held_example =
    remove_image-Held 0 (record { file = "a.png"; preview = 0 })
      (Held.Reach.next Held.Reach.start (Held.Step.added ("a.png" ∷ "b.png" ∷ []) no_images))
      first_there
