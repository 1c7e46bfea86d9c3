-- ===== src/Canonical/Calendar.antt =====
-- The proleptic Gregorian calendar of Python's `datetime`: month lengths, the next and the previous
-- day, and the number of a day.
use Prim.Native.Nat.{◌/◌, ◌%◌}
use plugshub_common.Common.{
  ℕ, ◌+◌, ◌-◌, ◌*◌, ◌≤◌, ◌<◌, ◌≡◌, refl, Bool, not, ◌&&◌, ◌||◌, Option, none, some, arith, ltb,
  ◌==◌, if◌then◌else◌,
}

pub record Date : Type 0 where
  pub year : ℕ
  pub month : ℕ
  pub day : ℕ

unfoldable pub is_leap : ℕ → Bool
is_leap y = (y % 4 == 0) && (not (y % 100 == 0) || (y % 400 == 0))

unfoldable pub february : ℕ → ℕ
unfolding is_leap
february year = if is_leap year then 29 else 28

abbrev pub has_30_days : ℕ → Bool
has_30_days month = (month == 11) || (month == 9) || (month == 6) || (month == 4)

unfoldable pub days_in_month : ℕ → ℕ → ℕ
unfolding february
days_in_month year month =
    if has_30_days month then 30 else if month == 2 then february year else 31

pub record IsDate (d : Date) : Type 0 where
  pub year_in : (1 ≤ d.year) × (d.year ≤ 9999)
  pub month_in : (1 ≤ d.month) × (d.month ≤ 12)
  pub day_in : (1 ≤ d.day) × (d.day ≤ days_in_month d.year d.month)

-- Past the last day of year 9999, or before the first of year 1, Python raises `OverflowError`.
unfoldable pub next_day : Date → Option Date
next_day d =
    if ltb d.day (days_in_month d.year d.month)
    then some (record d { day = d.day + 1 })
    else if ltb d.month 12
    then some (record d { month = d.month + 1; day = 1 })
    else if ltb d.year 9999
    then some (record { year = d.year + 1; month = 1; day = 1 })
    else none

unfoldable pub previous_day : Date → Option Date
previous_day d =
    if ltb 1 d.day
    then some (record d { day = d.day - 1 })
    else if ltb 1 d.month
    then some (record d { month = d.month - 1; day = days_in_month d.year (d.month - 1) })
    else if ltb 1 d.year
    then some (record { year = d.year - 1; month = 12; day = 31 })
    else none

unfoldable pub days_before_year : ℕ → ℕ
days_before_year year = let past = year - 1 in past / 4 + past / 400 + past * 365 - past / 100

-- Days of the year before the month, which is from 1 to 12.
unfoldable pub days_before_month : ℕ → ℕ → ℕ
unfolding is_leap
days_before_month y m =
    let leap = if is_leap y then 1 else 0 in
    if m == 1
    then 0
    else if m == 2
    then 31
    else if m == 3
    then 59 + leap
    else if m == 4
    then 90 + leap
    else if m == 5
    then 120 + leap
    else if m == 6
    then 151 + leap
    else if m == 7
    then 181 + leap
    else if m == 8
    then 212 + leap
    else if m == 9
    then 243 + leap
    else if m == 10
    then 273 + leap
    else if m == 11
    then 304 + leap
    else 334 + leap

-- `d.toordinal()`
unfoldable pub day_number : Date → ℕ
day_number d = days_before_year d.year + days_before_month d.year d.month + d.day

days_before_year-suc :
    (y : ℕ)
    → 1 ≤ y
    → days_before_year (y + 1) ≡ days_before_year y + 365 + (if is_leap y then 1 else 0)
unfolding days_before_year is_leap
days_before_year-suc y h = ground arith

days_before_month-suc :
    (y m : ℕ)
    → 1 ≤ m
    → m < 12
    → days_before_month y (m + 1) ≡ days_before_month y m + days_in_month y m
unfolding days_before_month days_in_month
days_before_month-suc y m h k = ground arith

days_before_month_last : (y : ℕ) → days_before_month y 12 + 31 ≡ 365 + (if is_leap y then 1 else 0)
unfolding days_before_month
days_before_month_last y = ground arith

days_before_month_first : (y : ℕ) → days_before_month y 1 ≡ 0
unfolding days_before_month
days_before_month_first y = refl

pub days_in_month_range : (y m : ℕ) → (28 ≤ days_in_month y m) × (days_in_month y m ≤ 31)
unfolding days_in_month
days_in_month_range y m = ground arith

days_in_month_last : (y : ℕ) → days_in_month y 12 ≡ 31
unfolding days_in_month
days_in_month_last y = refl

pub next_day-IsDate :
    (d e : Date) → IsDate d → next_day d ≡ some e → IsDate e × (day_number e ≡ day_number d + 1)
unfolding next_day day_number
next_day-IsDate d e v h = ground (
  arith,
  days_in_month_range d.year d.month,
  days_in_month_range d.year (d.month + 1),
  days_in_month_range (d.year + 1) 1,
  days_in_month_last d.year,
  days_before_month-suc d.year d.month,
  days_before_month_last d.year,
  days_before_month_first (d.year + 1),
  days_before_year-suc d.year,
)

pub previous_day-IsDate :
    (d e : Date) → IsDate d → previous_day d ≡ some e → IsDate e × (day_number e + 1 ≡ day_number d)
unfolding previous_day day_number
previous_day-IsDate d e v h = ground (
  arith,
  days_in_month_range d.year d.month,
  days_in_month_range d.year (d.month - 1),
  days_in_month_last (d.year - 1),
  days_before_month-suc d.year (d.month - 1),
  days_before_month_last (d.year - 1),
  days_before_month_first d.year,
  days_before_year-suc (d.year - 1),
)

pub next_day-none : (d : Date) → IsDate d → next_day d ≡ none → d.year ≡ 9999
unfolding next_day
next_day-none d v h = ground arith

pub previous_day-none : (d : Date) → IsDate d → previous_day d ≡ none → d.year ≡ 1
unfolding previous_day
previous_day-none d v h = ground arith
