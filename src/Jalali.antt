-- ===== src/Jalali.antt =====
-- shared/pkg/jalali/jalali.go: Gregorian dates to Jalali dates and back. Years are from 621 on, where
-- no number of the source is negative. A day of Go's time package is its year, month and day; the
-- text of a date is left out.
pub mod Split
pub mod Days
pub mod Search
mod Tests
use metaverse_rang_microserv.Common.{
  ℕ, zero, suc, ◌+◌, ◌-◌, ◌*◌, ◌/◌, ◌%◌, Bool, not, ◌&&◌, ◌||◌, ltb, ◌==◌, if◌then◌else◌,
}

pub record Day : Type 0 where
  pub year : ℕ
  pub month : ℕ
  pub day : ℕ

abbrev pub ymd : ℕ → ℕ → ℕ → Day
ymd y m d = record { year = y; month = m; day = d }

abbrev pub is_leap : ℕ → Bool
is_leap y = ((y % 4 == 0) && not (y % 100 == 0)) || (y % 400 == 0)

-- `gDM[month-1]`, with the value that `gDM[2]` has
unfoldable pub days_before_month : ℕ → ℕ → ℕ
days_before_month march m =
    if m == 1
    then 0
    else if m == 2
    then 31
    else if m == 3
    then march
    else if m == 4
    then 90
    else if m == 5
    then 120
    else if m == 6
    then 151
    else if m == 7
    then 181
    else if m == 8
    then 212
    else if m == 9
    then 243
    else if m == 10
    then 273
    else if m == 11
    then 304
    else 334

-- `gDM[2]` and `gd` after the two tests for a leap year, `y` the year after the subtraction
unfoldable pub march_days : ℕ → ℕ → ℕ
march_days y m = if ltb 2 m && is_leap (y + 1) then 60 else 59

unfoldable pub shifted_day : ℕ → ℕ → ℕ → ℕ
shifted_day y m d = if is_leap y && ltb 2 m then d + 1 else d

unfoldable pub day_count : ℕ → ℕ → ℕ → ℕ
day_count y m d =
    365 * y
    + (y + 3) / 4
    - (y + 99) / 100
    + (y + 399) / 400
    + shifted_day y m d
    + days_before_month (march_days y m) m
    - 1

-- the month and day of the day of a Jalali year
unfoldable pub month_and_day : ℕ → ℕ → Day
month_and_day jy days =
    if ltb days 186
    then ymd jy (1 + days / 31) (1 + days % 31)
    else ymd jy (7 + (days - 186) / 30) (1 + (days - 186) % 30)

-- the same after whole cycles of 33 and of 4 years
unfoldable pub year_in_cycle : ℕ → ℕ → Day
year_in_cycle jy days =
    if ltb 365 days
    then month_and_day (jy + (days - 1) / 365) ((days - 1) % 365)
    else month_and_day jy days

unfoldable pub split_days : ℕ → ℕ → Day
split_days jy days =
    year_in_cycle (jy + 33 * (days / 12053) + 4 * (days % 12053 / 1461)) (days % 12053 % 1461)

unfoldable pub gregorian_to_jalali : Day → Day
gregorian_to_jalali t =
    if ltb 1600 t.year
    then split_days 979 (day_count (t.year - 1600) t.month t.day)
    else split_days 0 (day_count (t.year - 621) t.month t.day)

-- Go's time package: the days of a month, `AddDate(0, 0, 1)` and `After`
unfoldable pub month_length : ℕ → ℕ → ℕ
month_length y m =
    if (m == 4) || ((m == 6) || ((m == 9) || (m == 11)))
    then 30
    else if m == 2
    then (if is_leap y then 29 else 28)
    else 31

unfoldable pub next_day : Day → Day
next_day t =
    if ltb t.day (month_length t.year t.month)
    then ymd t.year t.month (t.day + 1)
    else if ltb t.month 12
    then ymd t.year (t.month + 1) 1
    else ymd (t.year + 1) 1 1

unfoldable pub is_after : Day → Day → Bool
is_after a b =
    ltb b.year a.year
    || ((a.year == b.year) && (ltb b.month a.month || ((a.month == b.month) && ltb b.day a.day)))

unfoldable pub same_date : Day → Day → Bool
same_date a b = (a.year == b.year) && ((a.month == b.month) && (a.day == b.day))

-- what the search of `gregorianFromJalali` answers, and `stuck` where the fuel is used up
pub data Found : Type 0 where
  found : Day → Found
  invalid stuck : Found

unfoldable pub search : ℕ → Day → Day → Day → Found
search zero end target current = Found.stuck
search (suc fuel) end target current =
    let rest = search fuel end target (next_day current) in
    if is_after current end
    then Found.invalid
    else if same_date (gregorian_to_jalali current) target
    then found current
    else rest

-- 36 months of at most 31 days, and the round that ends the loop
abbrev pub search_fuel : ℕ
search_fuel = 1117

unfoldable pub gregorian_from_jalali : Day → Found
gregorian_from_jalali t = search search_fuel (ymd (t.year + 622) 12 31) t (ymd (t.year + 620) 1 1)
