-- ===== src/Listings/Availability.antt =====
-- `AvailabilityCalendar` of frontend/src/pages/PropertyDetailPage.tsx. `day_of` is the number of the day
-- of a date, in the browser's time zone.
mod Tests
use native.Mathlib.Nat.{zero-add}
use decentrarent.Prelude.{
  ℕ, zero, suc, ◌+◌, ◌-◌, ◌≤◌, ◌<◌, String, Bool, true, false, not, ◌&&◌, ◌||◌, Option, none, some,
  List, [], ◌∷◌, ◌++◌, ◌≡◌, refl, arith, ◌∙◌, if◌then◌else◌, any, any-append, get_elem?, ltb, leb,
  eqb, ap,
}
use decentrarent.Orders.{
  Order, OrderStatus, awaiting_deposit, awaiting_signatures, active, disputed,
}
use decentrarent.Orders.Draft.Calendar.{days_in_month, day_number, start_offset}

-- `BOOKED_STATUSES.has(status)`
unfoldable pub is_booked_status : OrderStatus → Bool
is_booked_status awaiting_deposit = true
is_booked_status awaiting_signatures = true
is_booked_status active = true
is_booked_status disputed = true
is_booked_status _ = false

-- The `while` loop: the days from the cursor on, as many as are left up to the end.
abbrev pub days_from : ℕ → ℕ → List ℕ
days_from cursor zero = []
days_from cursor (suc left) = cursor ∷ days_from (cursor + 1) left

pub record Cell : Type 0 where
  pub day : ℕ
  pub booked : Bool
  pub past : Bool

abbrev blank : Cell
blank = record { day = 0; booked = false; past = true }

abbrev blanks : ℕ → List Cell
blanks zero = []
blanks (suc k) = blank ∷ blanks k

module _ (day_of : String → ℕ) where
  -- `cursor <= endNorm` holds for the end's number plus one, less the start's, rounds.
  abbrev pub order_days : Order → List ℕ
  order_days o =
      let start = day_of o.rent_start_date in
      if is_booked_status o.escrow_status
      then days_from start (day_of o.rent_end_date + 1 - start)
      else []

  -- `bookedDays`: the keys of a set are the days.
  unfoldable pub booked_days : List Order → List ℕ
  booked_days [] = []
  booked_days (o ∷ os) = order_days o ++ booked_days os

  abbrev pub is_booked : List Order → ℕ → Bool
  is_booked os d = any (λ e. eqb e d) (booked_days os)

  abbrev pub cell_of : List Order → ℕ → ℕ → ℕ → Cell
  cell_of os today day date = record {
    day = day;
    booked = is_booked os date;
    past = ltb date today;
  }

  abbrev pub month_of : List Order → ℕ → ℕ → ℕ → ℕ → List Cell
  month_of os today day date zero = []
  month_of os today day date (suc k) =
      cell_of os today day date ∷ month_of os today (day + 1) (date + 1) k

  unfoldable pub availability : List Order → ℕ → ℕ → ℕ → List Cell
  availability os today year month =
      blanks (start_offset year month)
      ++ month_of os today 1 (day_number year month 1) (days_in_month year month)

  -- An order that holds the property on a day, both ends included.
  abbrev pub covers : ℕ → Order → Bool
  covers d o =
      is_booked_status o.escrow_status
      && (leb (day_of o.rent_start_date) d && leb d (day_of o.rent_end_date))

  days_from-has :
      (d start left : ℕ)
      → any (λ e. eqb e d) (days_from start left) ≡ (leb start d && ltb d (start + left))
  days_from-has d start zero = ground arith
  days_from-has d start (suc left) = ground (arith, days_from-has d (start + 1) left)

  order_days-has : (d : ℕ) (o : Order) → any (λ e. eqb e d) (order_days o) ≡ covers d o
  order_days-has d o =
      let start = day_of o.rent_start_date in
      ground (arith, days_from-has d start (day_of o.rent_end_date + 1 - start))

  booked-covers : (d : ℕ) (os : List Order) → is_booked os d ≡ any (covers d) os
  unfolding booked_days
  booked-covers d [] = refl
  booked-covers d (o ∷ os) =
      any-append (λ e. eqb e d) (order_days o) (booked_days os)
      ∙ rw (order_days-has d o, booked-covers d os) refl

  suc_add : (n m : ℕ) → suc n + m ≡ suc (n + m)
  suc_add n m = omega arith

  get-blanks :
      (k i : ℕ) (rest : List Cell) → get_elem? (blanks k ++ rest) (k + i) ≡ get_elem? rest i
  get-blanks zero i rest = rw zero-add refl
  get-blanks (suc k) i rest = rw (suc_add k i) (get-blanks k i rest)

  get-month :
      (os : List Order) (today day date k i : ℕ)
      → i < k
      → get_elem? (month_of os today day date k) i ≡ some (cell_of os today (day + i) (date + i))
  get-month os today day date zero i h = absurd (omega arith)
  get-month os today day date (suc k) zero h = rw (add_zero day, add_zero date) refl
    where
      add_zero : (n : ℕ) → n + 0 ≡ n
      add_zero n = omega arith
  get-month os today day date (suc k) (suc i) h =
      rw (shift day, shift date) (get-month os today (day + 1) (date + 1) k i (omega arith))
    where
      shift : (n : ℕ) → n + suc i ≡ n + 1 + i
      shift n = omega arith

  -- The calendar of a month marks a day as booked exactly when some order in a status that holds the
  -- property runs over it, its first and last day included; orders that are new or over mark nothing.
  -- The cell of day d stands at `start_offset` + d - 1.
  pub availability-covers :
      (os : List Order) (today year month d : ℕ)
      → 1 ≤ d
      → d ≤ days_in_month year month
      → get_elem? (availability os today year month) (start_offset year month + (d - 1))
        ≡ some (record {
          day = d;
          booked = any (covers (day_number year month d)) os;
          past = ltb (day_number year month d) today;
        })
  unfolding availability day_number
  availability-covers os today year month d low high =
      get-blanks (start_offset year month) (d - 1) _
      ∙ (get-month os today 1 (day_number year month 1) (days_in_month year month) (d - 1)
            (omega arith)
          ∙ same)
    where
      date_same : day_number year month 1 + (d - 1) ≡ day_number year month d
      date_same = omega arith

      day_same : 1 + (d - 1) ≡ d
      day_same = omega arith

      same :
          some (cell_of os today (1 + (d - 1)) (day_number year month 1 + (d - 1)))
          ≡ some (record {
            day = d;
            booked = any (covers (day_number year month d)) os;
            past = ltb (day_number year month d) today;
          })
      same = rw (date_same, day_same, booked-covers (day_number year month d) os) refl
