-- ===== src/Jalali/Days.antt =====
-- shared/pkg/jalali/jalali.go: the days that the search goes through.
use metaverse_rang_microserv.Common.{ℕ, ◌+◌, ◌*◌, ◌≤◌, ◌<◌, ◌≡◌, true, false, arith}
use metaverse_rang_microserv.Jalali.{Day, month_length, next_day, is_after}

-- a day that the Gregorian calendar has
pub record IsDay (t : Day) : Type 0 where
  pub day_there : (1 ≤ t.day) × (t.day ≤ month_length t.year t.month)
  pub month_there : (1 ≤ t.month) × (t.month ≤ 12)

pub month_length-range : (y m : ℕ) → (28 ≤ month_length y m) × (month_length y m ≤ 31)
unfolding month_length
month_length-range y m = (ground arith, ground arith)

pub next_day-IsDay : (t : Day) → IsDay t → IsDay (next_day t)
unfolding next_day
next_day-IsDay t v = record {
  month_there = ground (arith, v.month_there);
  day_there = ground (
    arith,
    v.day_there,
    month_length-range (t.year + 1) 1,
    month_length-range t.year (t.month + 1),
  );
}

-- places in months of 31 days
abbrev pub place : Day → ℕ
place t = t.year * 372 + t.month * 31 + t.day

pub place-next_day : (t : Day) → IsDay t → place t < place (next_day t)
unfolding next_day
place-next_day t v = ground (arith, v.month_there, v.day_there, month_length-range t.year t.month)

-- `After` compares places, on the days of the calendar.
pub is_after-place : (a b : Day) → IsDay a → IsDay b → place b < place a → is_after a b ≡ true
unfolding is_after
is_after-place a b v w h = ground (
  arith,
  v.month_there,
  v.day_there,
  w.month_there,
  w.day_there,
  month_length-range a.year a.month,
  month_length-range b.year b.month,
)

pub not_after-place : (a b : Day) → IsDay a → IsDay b → is_after a b ≡ false → place a ≤ place b
unfolding is_after
not_after-place a b v w h = ground (
  arith,
  v.month_there,
  v.day_there,
  w.month_there,
  w.day_there,
  month_length-range a.year a.month,
  month_length-range b.year b.month,
)

pub is_after_not-place : (a b : Day) → IsDay a → IsDay b → place a ≤ place b → is_after a b ≡ false
unfolding is_after
is_after_not-place a b v w h = ground (
  arith,
  v.month_there,
  v.day_there,
  w.month_there,
  w.day_there,
  month_length-range a.year a.month,
  month_length-range b.year b.month,
)

-- no day of the calendar lies between a day and the next
pub next_day-place :
    (a b : Day) → IsDay a → IsDay b → place a < place b → place (next_day a) ≤ place b
unfolding next_day
next_day-place a b v w h = ground (
  arith,
  v.month_there,
  v.day_there,
  w.month_there,
  w.day_there,
  month_length-range a.year a.month,
  month_length-range b.year b.month,
)

pub place_injective : (a b : Day) → IsDay a → IsDay b → place a ≡ place b → a ≡ b
place_injective a b v w h = ground (
  arith,
  v.month_there,
  v.day_there,
  w.month_there,
  w.day_there,
  month_length-range a.year a.month,
  month_length-range b.year b.month,
)
