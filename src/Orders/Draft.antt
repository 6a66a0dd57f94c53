-- ===== src/Orders/Draft.antt =====
-- The form of frontend/src/features/orders/components/CreateOrderModal.tsx. A date that the calendar
-- gives is a midnight; it is its day's number, whose order is that of the midnights.
pub mod Calendar
pub mod Range
mod Tests
use decentrarent.Prelude.{
  ℕ, ◌*◌, String, Bool, true, false, not, ◌&&◌, Option, none, some, List, ◌∷◌, [], default,
  if◌then◌else◌, truthy, leb, ltb, eqb, or_text,
}
use decentrarent.Prelude.Outcome.{Result, ok, threw, Thrown, error_object, message_of, ◌>>=◌}
use decentrarent.Chat.{Conversation}
use decentrarent.Properties.{Property, Numbers, to_base_units, to_display_amount}
use decentrarent.Api.Calls.{CreateOrderRequest}
use decentrarent.Toast.{ToastState, add_toast, success, error}

pub data DeadlineUnit : Type 0 where
  minutes hours days : DeadlineUnit

pub data Selecting : Type 0 where
  selecting_start selecting_end : Selecting

-- The state that the calendar changes.
pub record Dates : Type 0 where
  pub start_date : Option ℕ
  pub end_date : Option ℕ
  pub selecting : Selecting

unfoldable pub initial_dates : Dates
initial_dates = record { start_date = none; end_date = none; selecting = selecting_start }

abbrev pub started : ℕ → Dates
started date = record { start_date = some date; end_date = none; selecting = selecting_end }

abbrev pub ended : ℕ → ℕ → Dates → Dates
ended start date d =
    if leb start date
    then record d { end_date = some date; selecting = selecting_start }
    else started date

abbrev pub end_clicked : ℕ → Option ℕ → Dates → Dates
end_clicked date none d = started date
end_clicked date (some start) d = ended start date d

abbrev pub day_clicked : ℕ → Selecting → Dates → Dates
day_clicked date selecting_start d = started date
day_clicked date selecting_end d = end_clicked date d.start_date d

-- `handleDayClick`
unfoldable pub day_click : ℕ → Dates → Dates
day_click date d = day_clicked date d.selecting d

-- The two boxes above the calendar.
unfoldable pub select_box : Selecting → Dates → Dates
select_box which d = record d { selecting = which }

-- What is typed and picked beside the dates.
pub record Draft : Type 0 where
  pub deposit_amount : String
  pub rent_amount : String
  pub token_mint : String
  pub deadline_value : String
  pub deadline_unit : DeadlineUnit
  pub start_time : String
  pub end_time : String
  pub submitting : Bool

module _ (n : Numbers) where
  abbrev pub deposit_text : Option Property → String
  deposit_text none = ""
  deposit_text (some p) =
      if eqb p.deposit_price 0 then "" else to_display_amount n p.deposit_price p.token_mint

  abbrev pub rent_text : Option Property → String
  rent_text none = ""
  rent_text (some p) = to_display_amount n p.price p.token_mint

  abbrev pub mint_or_sol : Option Property → String
  mint_or_sol none = "SOL"
  mint_or_sol (some p) = or_text p.token_mint "SOL"

  -- What the form starts with when it is opened; a later property does not change it.
  unfoldable pub initial_draft : Option Property → Draft
  initial_draft property = record {
    deposit_amount = deposit_text property;
    rent_amount = rent_text property;
    token_mint = mint_or_sol property;
    deadline_value = "7";
    deadline_unit = days;
    start_time = "12:00";
    end_time = "12:00";
    submitting = false;
  }

-- What is typed or picked beside the dates.
pub data Entry : Type 0 where
  deposit_entry rent_entry mint_entry deadline_entry start_entry end_entry : String → Entry
  unit_entry : DeadlineUnit → Entry

unfoldable pub enter : Entry → Draft → Draft
enter (deposit_entry v) f = record f { deposit_amount = v }
enter (rent_entry v) f = record f { rent_amount = v }
enter (mint_entry v) f = record f { token_mint = v }
enter (deadline_entry v) f = record f { deadline_value = v }
enter (start_entry v) f = record f { start_time = v }
enter (end_entry v) f = record f { end_time = v }
enter (unit_entry v) f = record f { deadline_unit = v }

-- `read` is `Number(·)` on a text of a whole number that is not negative, `none` for NaN.
unfoldable pub deadline_to_minutes : (String → Option ℕ) → Draft → ℕ
deadline_to_minutes read f =
    let val = default (read f.deadline_value) 0 in
    elim f.deadline_unit [ minutes ↦ val | hours ↦ val * 60 | days ↦ val * 24 * 60 ]

abbrev pub is_set : Option ℕ → Bool
is_set none = false
is_set (some d) = true

unfoldable pub can_submit : Dates → Draft → Bool
can_submit d f =
    truthy f.rent_amount
    && truthy f.deposit_amount
    && is_set d.start_date
    && is_set d.end_date
    && not f.submitting

-- What `toISOString` throws on a date that is none.
abbrev pub invalid_time : Thrown
invalid_time = error_object "Invalid time value"

-- A time field is empty or a time of the day. `iso_at date time` is
-- `applyTime(date, time).toISOString()` for a time of the day, in the browser's time zone.
module _ (n : Numbers) (read : String → Option ℕ) (iso_at : ℕ → String → String) where
  -- On an empty field `applyTime` gives a date that is none.
  abbrev pub iso_of : ℕ → String → Result String
  iso_of date time = if truthy time then ok (iso_at date time) else threw invalid_time

  abbrev pub request : Conversation → Draft → String → String → CreateOrderRequest
  request c f start end = record {
    conversation_id = c.id;
    property_id = c.property_id;
    landlord_id = c.landlord_id;
    deposit_amount = to_base_units n (n.number f.deposit_amount) f.token_mint;
    rent_amount = to_base_units n (n.number f.rent_amount) f.token_mint;
    token_mint = f.token_mint;
    escrow_address = "";
    rent_start_date = start;
    rent_end_date = end;
    sign_deadline_minutes = deadline_to_minutes read f;
  }

  -- The argument of `createOrder`, which the `try` computes.
  abbrev pub dated : Conversation → Draft → ℕ → ℕ → Result CreateOrderRequest
  dated c f start end = do
    rent_start ← iso_of start f.start_time
    rent_end ← iso_of end f.end_time
    ok (request c f rent_start rent_end)

  abbrev pub requested :
      Conversation
      → Draft
      → Option ℕ
      → Option ℕ
      → Option Property
      → Option (Result CreateOrderRequest)
  requested c f (some start) (some end) (some p) = some (dated c f start end)
  requested c f _ _ _ = none

  abbrev pub with_token :
      Option String
      → Option (Result CreateOrderRequest)
      → Option (Result (CreateOrderRequest × String))
  with_token (some token) (some r) =
      if truthy token then some (r >>= λ request. ok (request, token)) else none
  with_token _ _ = none

  abbrev pub submitting_with :
      Draft
      → Option (Result (CreateOrderRequest × String))
      → Draft × Option (Result (CreateOrderRequest × String))
  submitting_with f none = (f, none)
  submitting_with f (some call) = (record f { submitting = true }, some call)

  -- `handleSubmit` up to its await, if it gets past its guard: what it asks `createOrder` for, or
  -- what was thrown before.
  unfoldable pub begin_submit :
      Option String
      → Conversation
      → Option Property
      → Dates
      → Draft
      → Draft × Option (Result (CreateOrderRequest × String))
  begin_submit token c property d f = submitting_with f (
      if truthy f.deposit_amount
      then with_token token (requested c f d.start_date d.end_date property)
      else none)

-- The rest, on what the request gave, at time `now`; the flag says whether `onCreated` and
-- `onClose` were called.
unfoldable pub end_submit :
    {A : Type 0} → ℕ → Result A → Draft × ToastState → Draft × ToastState × Bool
end_submit now (ok _) (f, ts) = (
  record f { submitting = false },
  add_toast now
      (record {
        variant = success;
        title = "Agreement Created";
        message = some "Waiting for response";
        duration = none;
      })
      ts,
  true,
)
end_submit now (threw e) (f, ts) = (
  record f { submitting = false },
  add_toast now
      (record {
        variant = error;
        title = "Failed";
        message = some (message_of e "Unknown error");
        duration = none;
      })
      ts,
  false,
)

-- A whole click: what is asked for, and the rest on what the server gives for it, at time `now`.
module _ (n : Numbers) (read : String → Option ℕ) (iso_at : ℕ → String → String) where
  abbrev pub finish_submit :
      {A : Type 0}
      → ℕ
      → (CreateOrderRequest × String → Result A)
      → Option (Result (CreateOrderRequest × String))
      → Draft × ToastState
      → Draft × ToastState × Bool
  finish_submit now answer none (f, ts) = (f, ts, false)
  finish_submit now answer (some call) (f, ts) = end_submit now (call >>= answer) (f, ts)

  unfoldable pub submit_order :
      {A : Type 0}
      → Option String
      → Conversation
      → Option Property
      → Dates
      → ℕ
      → (CreateOrderRequest × String → Result A)
      → Draft × ToastState
      → Draft × ToastState × Bool
  unfolding begin_submit end_submit
  submit_order token c property d now answer (f, ts) =
      let (g, call) = begin_submit n read iso_at token c property d f in
      finish_submit now answer call (g, ts)
