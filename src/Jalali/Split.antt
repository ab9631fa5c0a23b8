-- ===== src/Jalali/Split.antt =====
-- shared/pkg/jalali/jalali.go: the Jalali date of a number of days.
use metaverse_rang_microserv.Common.{
  ℕ, ◌+◌, ◌-◌, ◌*◌, ◌/◌, ◌%◌, ◌≤◌, ◌<◌, ◌≡◌, Bool, true, false, ltb, arith, if◌then◌else◌, refl,
}
use metaverse_rang_microserv.Jalali.{
  Day, days_before_month, march_days, shifted_day, day_count, month_and_day, year_in_cycle,
  split_days, gregorian_to_jalali,
}
use metaverse_rang_microserv.Jalali.Days.{IsDay}

-- A date of the Jalali calendar: months of 31 days, and of 30 days from the seventh on.
pub record IsJalali (t : Day) : Type 0 where
  pub month_in : (1 ≤ t.month) × (t.month ≤ 12)
  pub day_in : (1 ≤ t.day) × (t.day ≤ 31)
  pub short : 7 ≤ t.month → t.day ≤ 30

month_and_day-IsJalali : (jy days : ℕ) → days ≤ 365 → IsJalali (month_and_day jy days)
unfolding month_and_day
month_and_day-IsJalali jy days h = record {
  month_in = ground arith;
  day_in = ground arith;
  short = ground arith;
}

choose-IsJalali :
    (b : Bool) (x y : Day)
    → (b ≡ true → IsJalali x)
    → (b ≡ false → IsJalali y)
    → IsJalali (if b then x else y)
choose-IsJalali true x y p q = p refl
choose-IsJalali false x y p q = q refl

year_in_cycle-IsJalali : (jy days : ℕ) → IsJalali (year_in_cycle jy days)
unfolding year_in_cycle
year_in_cycle-IsJalali jy days =
    choose-IsJalali (ltb 365 days) (month_and_day (jy + (days - 1) / 365) ((days - 1) % 365))
      (month_and_day jy days)
      (λ h. month_and_day-IsJalali (jy + (days - 1) / 365) ((days - 1) % 365) (omega arith))
      (λ h. month_and_day-IsJalali jy days (ground arith))

split_days-IsJalali : (jy days : ℕ) → IsJalali (split_days jy days)
unfolding split_days
split_days-IsJalali jy days =
    year_in_cycle-IsJalali (jy + 33 * (days / 12053) + 4 * (days % 12053 / 1461))
      (days % 12053 % 1461)

-- The Jalali date of a day of the calendar, from the year 621 on, has a month from 1 to 12 and a day
-- that this month has.
pub gregorian_to_jalali-IsJalali :
    (t : Day) → 621 ≤ t.year → IsDay t → IsJalali (gregorian_to_jalali t)
unfolding gregorian_to_jalali
gregorian_to_jalali-IsJalali t from v =
    let late = day_count (t.year - 1600) t.month t.day in
    let early = day_count (t.year - 621) t.month t.day in
    choose-IsJalali (ltb 1600 t.year) (split_days 979 late) (split_days 0 early)
      (λ h. split_days-IsJalali 979 late) (λ h. split_days-IsJalali 0 early)

year-year_in_cycle :
    (jy days : ℕ) → days ≤ 1460 → (year_in_cycle jy days).year ≡ jy + (days - 1) / 365
unfolding year_in_cycle month_and_day
year-year_in_cycle jy days h = ground arith

year-split_days :
    (jy days : ℕ)
    → (split_days jy days).year
      ≡ jy + 33 * (days / 12053) + 4 * (days % 12053 / 1461) + (days % 12053 % 1461 - 1) / 365
unfolding split_days
year-split_days jy days =
    year-year_in_cycle (jy + 33 * (days / 12053) + 4 * (days % 12053 / 1461)) (days % 12053 % 1461)
      (omega arith)

days_before_month-le : (march m : ℕ) → march ≤ 60 → days_before_month march m ≤ 334
unfolding days_before_month
days_before_month-le march m h = ground arith

march_days-le : (y m : ℕ) → march_days y m ≤ 60
unfolding march_days
march_days-le y m = ground arith

shifted_day-le : (y m d : ℕ) → (d ≤ shifted_day y m d) × (shifted_day y m d ≤ d + 1)
unfolding shifted_day
shifted_day-le y m d = (ground arith, ground arith)

-- the days before the year
abbrev year_start : ℕ → ℕ
year_start n = 365 * n + (n + 3) / 4 - (n + 99) / 100 + (n + 399) / 400

day_count-range :
    (n m d : ℕ)
    → (1 ≤ d) × (d ≤ 31)
    → (year_start n ≤ day_count n m d) × (day_count n m d ≤ year_start n + 365)
unfolding day_count
day_count-range n m d (lo, hi) =
    let before = days_before_month-le (march_days n m) m (march_days-le n m) in
    let (least, most) = shifted_day-le n m d in
    (omega (arith, before, least), omega (arith, before, most))

year_near :
    (n days : ℕ)
    → n ≤ 3400
    → year_start n ≤ days
    → days ≤ year_start n + 365
    → (33 * (days / 12053) + 4 * (days % 12053 / 1461) + (days % 12053 % 1461 - 1) / 365 ≤ n + 1)
      × (n ≤ 33 * (days / 12053) + 4 * (days % 12053 / 1461) + (days % 12053 % 1461 - 1) / 365 + 1)
year_near n days h lo hi = (omega arith, omega arith)

-- For the years 1601 to 5000 the Jalali year plus 621 is the Gregorian year, or the year before or
-- after it.
pub gregorian_to_jalali-near :
    (t : Day)
    → 1600 < t.year
    → t.year ≤ 5000
    → (1 ≤ t.day) × (t.day ≤ 31)
    → ((gregorian_to_jalali t).year + 620 ≤ t.year) × (t.year ≤ (gregorian_to_jalali t).year + 622)
unfolding gregorian_to_jalali
gregorian_to_jalali-near t lo hi d =
    let n = t.year - 1600 in
    let (least, most) = day_count-range n t.month t.day d in
    let (up_to, from) = year_near n (day_count n t.month t.day) (omega arith) least most in
    (
      ground (arith, year-split_days 979 (day_count n t.month t.day), up_to),
      ground (arith, year-split_days 979 (day_count n t.month t.day), from),
    )
