-- ===== src/Orders/Draft/Range.antt =====
-- The dates that the calendar lets a user pick, and what is then sent.
use decentrarent.Prelude.{
  ℕ, ◌≤◌, String, Bool, true, false, Option, none, some, ◌≡◌, refl, leb, leb→le, Bool-cases, inl,
  inr,
}
use decentrarent.Prelude.Outcome.{Result, ok, threw}
use decentrarent.Api.Calls.{CreateOrderRequest}
use decentrarent.Toast.{ToastRequest, ToastState, add_toast, error}
use decentrarent.Chat.{Conversation}
use decentrarent.Properties.{Property, Numbers}
use decentrarent.Orders.Draft.{
  Dates, Selecting, selecting_start, selecting_end, initial_dates, day_click, select_box, Draft,
  end_clicked, day_clicked, request, begin_submit, invalid_time, submit_order,
}

-- A click on a day that is not past (the button of a past day is disabled), or on a box.
pub data Step (today : ℕ) : Dates → Dates → Type 0 where
  picked : (date : ℕ) (d : Dates) → today ≤ date → Step today d (day_click date d)
  boxed : (which : Selecting) (d : Dates) → Step today d (select_box which d)

pub data Reach (today : ℕ) : Dates → Type 0 where
  start : Reach today initial_dates
  next : {d e : Dates} → Reach today d → Step today d e → Reach today e

-- An end needs a start that is not after it, and no date is past.
abbrev pub InOrder : ℕ → Option ℕ → Option ℕ → Type 0
InOrder today none none = Unit
InOrder today none (some e) = ⊥
InOrder today (some s) none = today ≤ s
InOrder today (some s) (some e) = (today ≤ s) × (s ≤ e)

InOrder-start : (today s : ℕ) (e : Option ℕ) → InOrder today (some s) e → today ≤ s
InOrder-start today s none h = h
InOrder-start today s (some e) h = h.0

module _ (today date : ℕ) (d : Dates) (l : today ≤ date) where
  end_clicked-InOrder :
      (so : Option ℕ)
      → d.start_date ≡ so
      → InOrder today so d.end_date
      → InOrder today (end_clicked date so d).start_date (end_clicked date so d).end_date
  end_clicked-InOrder none e h = l
  end_clicked-InOrder (some s) e h = elim (Bool-cases (leb s date)) [
    | inl after ↦ rw (after, e) (InOrder-start today s d.end_date h, leb→le s date after)
    | inr before ↦ rw before l
  ]

  day_clicked-InOrder :
      (which : Selecting)
      → InOrder today d.start_date d.end_date
      → InOrder today (day_clicked date which d).start_date (day_clicked date which d).end_date
  day_clicked-InOrder selecting_start h = l
  day_clicked-InOrder selecting_end h = end_clicked-InOrder d.start_date refl h

-- In every state that clicks can reach, an end date comes with a start date that is not after it,
-- and neither is past.
pub Reach-InOrder : {today : ℕ} {d : Dates} → Reach today d → InOrder today d.start_date d.end_date
unfolding initial_dates select_box day_click
Reach-InOrder start = tt
Reach-InOrder {today} (next r (picked date d l)) =
    day_clicked-InOrder today date d l d.selecting (Reach-InOrder r)
Reach-InOrder (next r (boxed which d)) = Reach-InOrder r

abbrev pub failed_toast : ToastRequest
failed_toast = record {
  variant = error;
  title = "Failed";
  message = some "Invalid time value";
  duration = none;
}

module _ (n : Numbers) (read : String → Option ℕ) (iso_at : ℕ → String → String) where
  module _ (token : String) (c : Conversation) (p : Property) (d : Dates) (f : Draft) (now : ℕ)
      (answer : CreateOrderRequest × String → Result (Unit {0})) (ts : ToastState) where
    -- What a click does for the days `s` and `e`, by whether both times of the day are there.
    abbrev pub Clicked : ℕ → ℕ → Bool → Type 0
    Clicked s e true = begin_submit n read iso_at (some token) c (some p) d f ≡ (
      record f { submitting = true },
      some (ok (request n read iso_at c f (iso_at s f.start_time) (iso_at e f.end_time), token)),
    )
    Clicked s e false =
        (begin_submit n read iso_at (some token) c (some p) d f
          ≡ (record f { submitting = true }, some (threw invalid_time)))
        × (submit_order n read iso_at (some token) c (some p) d now answer (f, ts)
            ≡ (record f { submitting = false }, add_toast now failed_toast ts, false))
