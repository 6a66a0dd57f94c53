-- ===== src/Listings/Detail.antt =====
-- The handlers of frontend/src/pages/PropertyDetailPage.tsx: what each sends first, what its `try` block
-- makes of the answers, and what it leaves of the page's state.
pub mod Settled
mod Tests
use decentrarent.Prelude.{
  ℕ, String, ◌<>◌, Bool, true, false, Option, none, some, List, [], ◌∷◌, ◌==◌, default,
  if◌then◌else◌, truthy, present, ◌&&◌,
}
use decentrarent.Prelude.Outcome.{Result, ok, threw, Thrown, message_of, ◌>>=◌}
use decentrarent.Prelude.Dict.{Dict}
use decentrarent.Properties.{Property}
use decentrarent.Api.{ApiCall, Value, text_value, number_value}
use decentrarent.Api.Calls.{send}
use decentrarent.Api.Properties.{
  update_property, delete_property, update_property_status, delete_media, get_upload_url,
}
use decentrarent.Listings.Create.{Image, ImageAnswers, upload_images}

pub record EditForm : Type 0 where
  pub title : String
  pub description : String
  pub location : String
  pub price : String

-- One flag for each of saving, deleting, toggling, uploading, contacting; `deleting_media` is an id.
pub record Detail : Type 0 where
  pub property : Option Property
  pub error : Option String
  pub editing : Bool
  pub edit_form : EditForm
  pub saving : Bool
  pub deleting : Bool
  pub toggling_status : Bool
  pub uploading : Bool
  pub deleting_media : Option String
  pub contacting : Bool

pub data Action : Type 0 where
  save_edit delete toggle_status contact : Action
  upload : List (Image × ImageAnswers) → Action
  delete_image : String → Action

-- What the requests of a handler give, as far as it makes them: a property that was changed or read
-- again, nothing for a deletion, and the id of a conversation.
pub record Answers : Type 0 where
  pub property_answer : Result Property
  pub delete_answer : Result (Unit {0})
  pub conversation_answer : Result String

-- `property.status === 'available' ? 'archive' : 'available'`
unfoldable pub new_status : Property → String
new_status p = if p.status == "available" then "archive" else "available"

-- `read` is `parseInt`, `none` for NaN, on a text of a number that is not negative.
unfoldable pub changes : (String → Option ℕ) → EditForm → Dict Value
changes read f =
    ("title", text_value f.title)
    ∷ ("description", text_value f.description)
    ∷ ("location", text_value f.location)
    ∷ ("price", number_value (default (read f.price) 0))
    ∷ []

abbrev first_upload : String → String → List (Image × ImageAnswers) → Option ApiCall
first_upload id token [] = none
first_upload id token (i ∷ is) = some (get_upload_url id i.0 token)

-- The first request of a handler, with the page's id and a token and property that are there; an
-- upload of no files sends none.
unfoldable pub first_request :
    (String → Option ℕ) → String → String → Property → Detail → Action → Option ApiCall
first_request read id token p d save_edit =
    some (update_property id (changes read d.edit_form) token)
first_request read id token p d delete = some (delete_property id token)
first_request read id token p d toggle_status =
    some (update_property_status id (new_status p) token)
first_request read id token p d contact = some (
    send "POST" "/conversations"
      (some (("property_id", text_value p.id) ∷ ("landlord_id", text_value p.landlord_id) ∷ []))
      token)
first_request read id token p d (upload files) = first_upload id token files
first_request read id token p d (delete_image media) = some (delete_media id media token)

-- What a `try` block comes to: a property to show, or another page, with the conversation to open.
pub data Outcome : Type 0 where
  got : Property → Outcome
  left_for : String → Option String → Outcome

unfoldable pub tried : String → Answers → Action → Result Outcome
tried id a save_edit = a.property_answer >>= λ p. ok (got p)
tried id a delete = a.delete_answer >>= λ _. ok (left_for "/listings" none)
tried id a toggle_status = a.property_answer >>= λ p. ok (got p)
tried id a contact = a.conversation_answer >>= λ c. ok (left_for "/chat" (some c))
tried id a (upload files) = do done ← (upload_images id files).1; p ← a.property_answer; ok (got p)
tried id a (delete_image media) = do done ← a.delete_answer; p ← a.property_answer; ok (got p)

-- The flag of an action, and what it says while the action runs.
abbrev pub busy : Action → Detail → Bool
busy save_edit d = d.saving
busy delete d = d.deleting
busy toggle_status d = d.toggling_status
busy contact d = d.contacting
busy (upload files) d = d.uploading
busy (delete_image media) d = elim d.deleting_media [ none ↦ false | some _ ↦ true ]

-- The setters before the `try`; the contact clears the error.
unfoldable pub begin : Action → Detail → Detail
begin save_edit d = record d { saving = true }
begin delete d = record d { deleting = true }
begin toggle_status d = record d { toggling_status = true }
begin contact d = record d { contacting = true; error = none }
begin (upload files) d = record d { uploading = true }
begin (delete_image media) d = record d { deleting_media = some media }

abbrev pub show : Outcome → Action → Detail → Detail
show (got p) save_edit d = record d { property = some p; editing = false }
show (got p) _ d = record d { property = some p }
show (left_for page conv) _ d = d

abbrev pub failure : Action → Thrown → String
failure save_edit e = "Failed to update property."
failure delete e = "Failed to delete property."
failure toggle_status e = "Failed to update status."
failure contact e = message_of e "Failed to start conversation."
failure (upload files) e = "Failed to upload image."
failure (delete_image media) e = "Failed to delete image."

-- The `finally`. That of the deletion stands in its `catch` alone.
abbrev pub finally : Action → Detail → Detail
finally save_edit d = record d { saving = false }
finally delete d = record d { deleting = false }
finally toggle_status d = record d { toggling_status = false }
finally contact d = record d { contacting = false }
finally (upload files) d = record d { uploading = false }
finally (delete_image media) d = record d { deleting_media = none }

abbrev pub after_success : Action → Detail → Detail
after_success delete d = d
after_success save_edit d = finally save_edit d
after_success toggle_status d = finally toggle_status d
after_success contact d = finally contact d
after_success (upload files) d = finally (upload files) d
after_success (delete_image media) d = finally (delete_image media) d

abbrev pub settle : Action → Result Outcome → Detail → Detail
settle a (ok o) d = after_success a (show o a d)
settle a (threw e) d = finally a (record d { error = some (failure a e) })

-- Whether a handler gets past its guard.
abbrev pub some_property : Option Property → Bool
some_property none = false
some_property (some p) = true

abbrev pub is_allowed : Option String → Option String → Detail → Action → Bool
is_allowed id token d save_edit = present id && present token && some_property d.property
is_allowed id token d delete = present id && present token
is_allowed id token d toggle_status = present id && present token && some_property d.property
is_allowed id token d contact = some_property d.property && present token
is_allowed id token d (upload []) = false
is_allowed id token d (upload (f ∷ fs)) = present id && present token
is_allowed id token d (delete_image media) = present id && present token

-- A whole handler, on what its requests give.
unfoldable pub handle : Option String → Option String → Answers → Action → Detail → Detail
unfolding begin tried
handle id token answers a d =
    if is_allowed id token d a then settle a (tried (default id "") answers a) (begin a d) else d
