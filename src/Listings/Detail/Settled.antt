-- ===== src/Listings/Detail/Settled.antt =====
-- How the handlers of the page end.
use decentrarent.Prelude.{false, some, ◌≡◌}
use decentrarent.Prelude.Outcome.{Result, ok, threw}
use decentrarent.Listings.Detail.{
  Detail, Action, save_edit, delete, toggle_status, contact, upload, delete_image, Outcome, got,
  left_for, busy, failure,
}

-- What a handler leaves, by what its `try` block came to.
abbrev pub Leaves : Action → Result Outcome → Detail → Detail → Type 0
Leaves a (ok (got p)) before after = (after.property ≡ some p) × (busy a after ≡ false)
Leaves a (ok (left_for page conv)) before after = after.property ≡ before.property
Leaves a (threw e) before after =
    (after.property ≡ before.property)
    × (after.error ≡ some (failure a e))
    × (busy a after ≡ false)
    × (after.editing ≡ before.editing)

abbrev Stays : Action → Type 0
Stays delete = ⊥
Stays save_edit = Unit
Stays toggle_status = Unit
Stays contact = Unit
Stays (upload files) = Unit
Stays (delete_image media) = Unit
