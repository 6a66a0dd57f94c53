-- ===== src/Listings/Loading/Editing.antt =====
-- The buttons of frontend/src/pages/PropertyDetailPage.tsx: which are there, and what those do that send
-- nothing. `show` is `String(·)` of a number, `read` is `parseInt`.
use decentrarent.Prelude.{
  ℕ, String, Bool, true, false, not, ◌&&◌, Option, some, List, [], ◌∷◌, ◌++◌, ◌≡◌, refl, ap, ◌∙◌,
  Bool-cases, inl, inr, ◌==◌, if◌then◌else◌,
}
use decentrarent.Prelude.Outcome.{ok}
use decentrarent.Prelude.Dict.{Dict}
use decentrarent.Api.{Value, text_value, number_value}
use decentrarent.Properties.{Property}
use decentrarent.Listings.Filters.{normalize_status}
use decentrarent.Listings.Detail.{Detail, EditForm, changes}
use decentrarent.Listings.Loading.{form_of, end_detail}

pub data PageControl : Type 0 where
  contact_landlord edit_property toggle_listing delete_property_button yes_delete cancel_delete :
      PageControl
  save_changes cancel_edit add_photos : PageControl
  remove_photo : String → PageControl

abbrev pub media_controls : List String → List PageControl
media_controls [] = add_photos ∷ []
media_controls (m ∷ ms) = remove_photo m ∷ media_controls ms

abbrev pub delete_controls : Bool → List PageControl
delete_controls confirm_delete =
    if confirm_delete then yes_delete ∷ cancel_delete ∷ [] else delete_property_button ∷ []

-- The buttons by `isOwner`, `editing`, `confirmDelete` and the ids of the photos.
unfoldable pub page_controls : Bool → Bool → Bool → List String → List PageControl
page_controls is_owner editing confirm_delete media =
    (if editing then media_controls media ++ save_changes ∷ cancel_edit ∷ [] else [])
    ++ (if not is_owner && not editing then contact_landlord ∷ [] else [])
    ++ (if is_owner && not editing
        then edit_property ∷ toggle_listing ∷ delete_controls confirm_delete
        else [])

-- `confirmDelete` after a click.
unfoldable pub confirm_delete_after : PageControl → Bool → Bool
confirm_delete_after delete_property_button confirm_delete = true
confirm_delete_after cancel_delete confirm_delete = false
confirm_delete_after _ confirm_delete = confirm_delete

unfoldable pub start_editing : Detail → Detail
start_editing d = record d { editing = true }

-- The field that is typed into.
pub data EditEntry : Type 0 where
  title_typed location_typed price_typed description_typed : String → EditEntry

unfoldable pub type_edit : EditEntry → EditForm → EditForm
type_edit (title_typed v) f = record f { title = v }
type_edit (location_typed v) f = record f { location = v }
type_edit (price_typed v) f = record f { price = v }
type_edit (description_typed v) f = record f { description = v }

-- The button that leaves the editor, with the property that is shown.
unfoldable pub stop_editing : (ℕ → String) → Property → Detail → Detail
stop_editing show p d = record d { editing = false; edit_form = form_of show p }

-- The fields of a property as a change names them.
abbrev pub same_fields : Property → Dict Value
same_fields p =
    ("title", text_value p.title)
    ∷ ("description", text_value p.description)
    ∷ ("location", text_value p.location)
    ∷ ("price", number_value p.price)
    ∷ []

normalized-form :
    (show : ℕ → String) (p : Property) → form_of show (normalize_status p) ≡ form_of show p
unfolding normalize_status
normalized-form show p = elim (Bool-cases (p.status == "listed")) [
  | inl old ↦ rw old refl
  | inr other ↦ rw other (elim (Bool-cases (p.status == "unlisted")) [
    | inl hidden ↦ rw hidden refl
    | inr known ↦ rw known refl
  ])
]

-- Where a printed price is read as itself, a save right after the property was loaded, or after the
-- editor was left, whatever was typed there, asks to change each field to what it is.
pub untouched_edit-same :
    (show : ℕ → String) (read : String → Option ℕ) (p : Property) (d : Detail) (loading : Bool)
    (f : EditForm)
    → read (show p.price) ≡ some p.price
    → (changes read (stop_editing show p (record d { edit_form = f })).edit_form ≡ same_fields p)
      × (changes read (end_detail show (ok p) (d, loading)).0.edit_form ≡ same_fields p)
unfolding changes stop_editing end_detail
untouched_edit-same show read p d loading f h =
    (rw h refl, ap (changes read) (normalized-form show p) ∙ rw h refl)
