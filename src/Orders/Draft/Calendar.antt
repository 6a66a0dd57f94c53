-- ===== src/Orders/Draft/Calendar.antt =====
-- `SelectableCalendar` of frontend/src/features/orders/components/CreateOrderModal.tsx: its cells, and
-- that each stands under its weekday. Months count from 0, as the language counts them; years from 1.
use native.Mathlib.Nat.{zero-add}
use decentrarent.Prelude.{
  ℕ, zero, suc, ◌+◌, ◌-◌, ◌*◌, ◌/◌, ◌%◌, ◌≤◌, ◌<◌, Bool, true, not, ◌&&◌, ◌||◌, List, [], ◌∷◌, ◌++◌,
  ◌≡◌, refl, arith, some, if◌then◌else◌, eqb, ltb, get_elem?, ◌∙◌,
}

abbrev pub is_leap : ℕ → Bool
is_leap year = eqb (year % 4) 0 && (not (eqb (year % 100) 0) || eqb (year % 400) 0)

-- `new Date(year, month + 1, 0).getDate()`
abbrev pub days_in_month : ℕ → ℕ → ℕ
days_in_month year month =
    if eqb month 1
    then (if is_leap year then 29 else 28)
    else if eqb month 3 || eqb month 5 || eqb month 8 || eqb month 10
    then 30
    else 31

days_before_month : ℕ → ℕ → ℕ
days_before_month year zero = 0
days_before_month year (suc month) = days_before_month year month + days_in_month year month

days_before_year : ℕ → ℕ
days_before_year year = let n = year - 1 in 365 * n + n / 4 + n / 400 - n / 100

-- The number of the day `new Date(year, month, day)`, counted from Monday, 1 January of the year 1.
unfoldable pub day_number : ℕ → ℕ → ℕ → ℕ
unfolding days_before_year days_before_month
day_number year month day = days_before_year year + days_before_month year month + (day - 1)

-- `date.getDay()`: 0 is Sunday.
abbrev pub get_day : ℕ → ℕ
get_day n = (n + 1) % 7

-- A cell; `day` is 0 for the blanks before the first of the month, whose date is the epoch's.
pub record Cell : Type 0 where
  pub day : ℕ
  pub date : ℕ
  pub past : Bool

abbrev epoch : ℕ
epoch = 719162

abbrev blank : Cell
blank = record { day = 0; date = epoch; past = true }

abbrev pub blanks : ℕ → List Cell
blanks zero = []
blanks (suc k) = blank ∷ blanks k

abbrev pub day_cell : ℕ → ℕ → ℕ → Cell
day_cell today day date = record { day = day; date = date; past = ltb date today }

-- The second loop for the `k` next days from `day`, the date of which is `date`.
abbrev pub month_cells : ℕ → ℕ → ℕ → ℕ → List Cell
month_cells today day date zero = []
month_cells today day date (suc k) =
    day_cell today day date ∷ month_cells today (day + 1) (date + 1) k

unfoldable pub start_offset : ℕ → ℕ → ℕ
start_offset year month = (get_day (day_number year month 1) + 6) % 7

unfoldable pub cells : ℕ → ℕ → ℕ → List Cell
unfolding start_offset
cells today year month =
    blanks (start_offset year month)
    ++ month_cells today 1 (day_number year month 1) (days_in_month year month)

-- `prevMonth` and `nextMonth`: `new Date(year, month - 1, 1)` and `new Date(year, month + 1, 1)`.
unfoldable pub prev_month : ℕ × ℕ → ℕ × ℕ
prev_month (year, zero) = (year - 1, 11)
prev_month (year, suc month) = (year, month)

unfoldable pub next_month : ℕ × ℕ → ℕ × ℕ
next_month (year, month) = if eqb month 11 then (year + 1, 0) else (year, month + 1)

suc_add : (n m : ℕ) → suc n + m ≡ suc (n + m)
suc_add n m = omega arith

add_zero : (n : ℕ) → n + 0 ≡ n
add_zero n = omega arith

shift : (n i : ℕ) → n + suc i ≡ n + 1 + i
shift n i = omega arith

get-blanks : (k i : ℕ) (rest : List Cell) → get_elem? (blanks k ++ rest) (k + i) ≡ get_elem? rest i
get-blanks zero i rest = rw zero-add refl
get-blanks (suc k) i rest = rw (suc_add k i) (get-blanks k i rest)

get-month :
    (today day date k i : ℕ)
    → i < k
    → get_elem? (month_cells today day date k) i ≡ some (day_cell today (day + i) (date + i))
get-month today day date zero i h = absurd (omega arith)
get-month today day date (suc k) zero h = rw (add_zero day, add_zero date) refl
get-month today day date (suc k) (suc i) h =
    rw (shift day i, shift date i) (get-month today (day + 1) (date + 1) k i (omega arith))

-- The days of a month stand in the calendar in their order, each at the place that its weekday has in
-- a week from Monday on: the cell of day d is the one at `start_offset` + d - 1, its date is that day,
-- the column of the cell is the day's weekday, and the cell counts as past exactly before today.
pub cells-aligned :
    (today year month d : ℕ)
    → 1 ≤ d
    → d ≤ days_in_month year month
    → (get_elem? (cells today year month) (start_offset year month + (d - 1))
        ≡ some (day_cell today d (day_number year month d)))
      × ((start_offset year month + (d - 1)) % 7 ≡ (get_day (day_number year month d) + 6) % 7)
unfolding cells start_offset day_number
cells-aligned today year month d low high = (
  get-blanks (start_offset year month) (d - 1) _
      ∙ (get-month today 1 (day_number year month 1) (days_in_month year month) (d - 1)
            (omega arith)
          ∙ same_cell),
  omega arith,
)
  where
    date_same : day_number year month 1 + (d - 1) ≡ day_number year month d
    date_same = omega arith

    day_same : 1 + (d - 1) ≡ d
    day_same = omega arith

    same_cell :
        some (day_cell today (1 + (d - 1)) (day_number year month 1 + (d - 1)))
        ≡ some (day_cell today d (day_number year month d))
    same_cell = rw (date_same, day_same) refl
