-- ===== src/Listings/Create/Uploads.antt =====
-- What a click on save has called when it ends well, and when it does not.
use decentrarent.Prelude.{
  String, Bool, true, false, Option, none, some, List, [], ◌∷◌, ◌++◌, ◌≡◌, refl, truthy, ap, All,
}
use decentrarent.Prelude.Outcome.{Result, ok, threw, Thrown, message_of}
use decentrarent.Properties.{Numbers}
use decentrarent.Listings.Create.{
  Image, ImageAnswers, Call, created, asked_url, put_file, registered, upload_one, upload_images,
  ListingForm, CreatePropertyRequest, SaveState, checked, saved, handle_save, after_create,
}

-- All three steps of an image succeed, with this address and key.
pub record Uploaded (i : Image × ImageAnswers) : Type 0 where
  pub upload_url : String
  pub file_key : String
  pub url : i.1.url ≡ ok (upload_url, file_key)
  pub put : i.1.put ≡ ok tt
  pub register : i.1.register ≡ ok tt

-- The calls of images that are all uploaded, in their order.
abbrev pub all_calls :
    (id : String) (is : List (Image × ImageAnswers)) → All Uploaded is → List Call
all_calls id [] h = []
all_calls id (i ∷ is) h =
    asked_url id i.0
    ∷ put_file h.0.upload_url i.0
    ∷ registered id h.0.file_key
    ∷ all_calls id is h.1

pub upload_one-ok :
    (id : String) (i : Image × ImageAnswers) (h : Uploaded i)
    → upload_one id i
      ≡ (asked_url id i.0 ∷ put_file h.upload_url i.0 ∷ registered id h.file_key ∷ [], ok tt)
upload_one-ok id i h = rw (h.url, h.put, h.register) refl

uploads-ok :
    (id : String) (is : List (Image × ImageAnswers)) (h : All Uploaded is)
    → upload_images id is ≡ (all_calls id is h, ok tt)
unfolding upload_images
uploads-ok id [] h = refl
uploads-ok id (i ∷ is) h = rw (upload_one-ok id i h.0, uploads-ok id is h.1) refl

-- The images after the first that fails are not touched.
uploads-stop :
    (id : String) (before : List (Image × ImageAnswers)) (h : All Uploaded before)
    (i : Image × ImageAnswers) (after : List (Image × ImageAnswers)) (calls : List Call)
    (e : Thrown)
    → upload_one id i ≡ (calls, threw e)
    → upload_images id (before ++ i ∷ after) ≡ (all_calls id before h ++ calls, threw e)
unfolding upload_images
uploads-stop id [] h i after calls e fails = rw fails refl
uploads-stop id (j ∷ before) h i after calls e fails =
    rw (upload_one-ok id j h.0, uploads-stop id before h.1 i after calls e fails) refl

abbrev pub present_error : SaveState → Bool
present_error s = elim s.error [ none ↦ false | some _ ↦ true ]

abbrev pub first_call : List Call → Option Call
first_call [] = none
first_call (c ∷ cs) = some c

saved-trace :
    (s : SaveState) (result : List Call × Result (Unit {0})) → (saved s result).1 ≡ result.0
saved-trace s (calls, ok _) = refl
saved-trace s (calls, threw e) = refl

first_created :
    (s : SaveState) (r : CreatePropertyRequest) (images : List (Image × ImageAnswers))
    (answer : Result String)
    → first_call (after_create s r images answer).1 ≡ some (created r)
first_created s r images (threw e) = refl
first_created s r images (ok id) =
    ap first_call
      (saved-trace s (created r ∷ (upload_images id images).0, (upload_images id images).1))

module _ (n : Numbers) (parse_float : String → Option n.Num)
    (is_positive is_negative : n.Num → Bool) where
  -- With a token, a form that passes the checks, a property that is created and images all steps of
  -- which succeed, one click on save creates the property once, and then, for each image in its
  -- order, asks for an address, puts the file there and registers its key; the page tells success.
  pub handle_save-completes :
      (token : String) (f : ListingForm) (r : CreatePropertyRequest) (id : String)
      (images : List (Image × ImageAnswers)) (s : SaveState) (h : All Uploaded images)
      → truthy token ≡ true
      → checked n parse_float is_positive is_negative f ≡ ok r
      → handle_save n parse_float is_positive is_negative (some token) f images (ok id) s ≡ (
        record { saving = false; success = true; error = none },
        created r ∷ all_calls id images h,
      )
  unfolding handle_save
  handle_save-completes token f r id images s h k passes =
      rw (k, passes, uploads-ok id images h) refl

  -- If a step of an image fails, the page tells an error, although the property has been created and
  -- the images before it are registered; the images after it are left out. The form is free, a notice
  -- of an earlier success stays, and a second click creates the property once more.
  pub handle_save-leaves :
      (token : String) (f : ListingForm) (r : CreatePropertyRequest) (id : String)
      (before : List (Image × ImageAnswers)) (i : Image × ImageAnswers)
      (after : List (Image × ImageAnswers)) (calls : List Call) (e : Thrown) (s : SaveState)
      (h : All Uploaded before)
      → truthy token ≡ true
      → checked n parse_float is_positive is_negative f ≡ ok r
      → upload_one id i ≡ (calls, threw e)
      → let (t, trace) =
          handle_save n parse_float is_positive is_negative
            (some token)
            f
            (before ++ i ∷ after)
            (ok id)
            s in
        (t.saving ≡ false)
        × (t.success ≡ s.success)
        × (present_error t ≡ true)
        × (trace ≡ created r ∷ (all_calls id before h ++ calls))
        × ((again : List (Image × ImageAnswers)) (answer : Result String)
            → first_call
                (handle_save n parse_float is_positive is_negative (some token) f again answer t).1
              ≡ some (created r))
  unfolding handle_save
  handle_save-leaves token f r id before i after calls e s h k passes fails =
      rw (k, passes, uploads-stop id before h i after calls e fails)
        (
          refl,
          refl,
          refl,
          refl,
          λ again answer.
              first_created
                (record s {
                  saving = false;
                  error = some (message_of e "Failed to create listing.");
                })
                r again answer,
        )
