-- ===== src/Orders/Draft/Tests.antt =====
-- The form's theorems at concrete inputs.
use decentrarent.Prelude.{
  ℕ, String, ◌+◌, ◌-◌, ◌*◌, ◌%◌, false, none, some, [], ◌≡◌, refl, arith, get_elem?,
}
use decentrarent.Prelude.Outcome.{Result, ok}
use decentrarent.Api.Calls.{CreateOrderRequest}
use decentrarent.Chat.{Conversation}
use decentrarent.Properties.{Property, Numbers}
use decentrarent.Orders.Draft.{
  days, Dates, selecting_start, initial_dates, day_click, Draft, deadline_to_minutes,
}
use decentrarent.Orders.Draft.Calendar.{
  cells, day_cell, start_offset, day_number, get_day, cells-aligned,
}
use decentrarent.Orders.Draft.Range.{Reach, start, next, picked, InOrder, Reach-InOrder}

-- 1 January 1970 was a Thursday, and 29 February 2024 is in its month.
epoch_day : day_number 1970 0 1 ≡ 719162
unfolding day_number
epoch_day = refl

epoch_weekday : get_day (day_number 1970 0 1) ≡ 4
unfolding day_number
epoch_weekday = refl

cells-aligned_example :
    (get_elem? (cells 738944 2024 1) (start_offset 2024 1 + (29 - 1))
      ≡ some (day_cell 738944 29 (day_number 2024 1 29)))
    × ((start_offset 2024 1 + (29 - 1)) % 7 ≡ (get_day (day_number 2024 1 29) + 6) % 7)
cells-aligned_example = cells-aligned 738944 2024 1 29 (omega arith) (omega arith)

abbrev week : Dates
week = record { start_date = some 5; end_date = some 9; selecting = selecting_start }

abbrev to_week : Reach 5 (day_click 9 (day_click 5 initial_dates))
to_week =
    next (next start (picked 5 initial_dates (omega arith)))
      (picked 9 (day_click 5 initial_dates) (omega arith))

Reach-InOrder_run :
    InOrder 5
      (day_click 9 (day_click 5 initial_dates)).start_date
      (day_click 9 (day_click 5 initial_dates)).end_date
Reach-InOrder_run = Reach-InOrder to_week

abbrev conversation : Conversation
conversation = record {
  id = "c1";
  property_id = "p1";
  landlord_id = "u1";
  loaner_id = "u2";
  last_message = none;
  last_message_at = none;
  created_at = "0";
}

abbrev home : Property
home = record {
  id = "p1";
  landlord_id = "u1";
  title = "Home";
  description = "";
  location = "Here";
  price = 5;
  deposit_price = 10;
  token_mint = "SOL";
  period_type = "month";
  status = "available";
  verification_status = "verified";
  media = [];
  created_at = "0";
  updated_at = "0";
}

abbrev naturals : Numbers
naturals = record {
  Num = ℕ;
  number = λ s. 2;
  text_of = λ n. "2";
  whole = λ n. n;
  times = λ a b. a * b;
  over = λ a b. a;
  round = λ n. n;
}

abbrev form : Draft
form = record {
  deposit_amount = "2";
  rent_amount = "2";
  token_mint = "SOL";
  deadline_value = "7";
  deadline_unit = days;
  start_time = "12:00";
  end_time = "12:00";
  submitting = false;
}

a_week_in_minutes : deadline_to_minutes (λ s. some 7) form ≡ 10080
unfolding deadline_to_minutes
a_week_in_minutes = refl

abbrev created : CreateOrderRequest × String → Result (Unit {0})
created call = ok tt

-- The end's time is cleared.
abbrev no_time : Draft
no_time = record form { end_time = "" }
