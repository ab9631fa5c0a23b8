-- ===== src/Jalali/Search.antt =====
-- shared/pkg/jalali/jalali.go: the search of JalaliToCarbon for the day of a Jalali date.
use metaverse_rang_microserv.Common.{
  ℕ, zero, suc, ◌+◌, ◌-◌, ◌≤◌, ◌<◌, ◌≡◌, ◌≢◌, sym, ap, ◌∙◌, inl, inr, true, false, arith,
  Bool-cases,
}
use metaverse_rang_microserv.Jalali.{
  Day, ymd, is_leap, month_length, next_day, is_after, same_date, gregorian_to_jalali, Found, found,
  search, gregorian_from_jalali, search_fuel, day_count, march_days, shifted_day, days_before_month,
}
use metaverse_rang_microserv.Jalali.Days.{
  IsDay, month_length-range, next_day-IsDay, place, place-next_day, is_after-place,
  is_after_not-place, next_day-place, place_injective,
}
use metaverse_rang_microserv.Jalali.Split.{gregorian_to_jalali-near}

same_date_refl : (a : Day) → same_date a a ≡ true
unfolding same_date
same_date_refl a = ground arith

same_date-eq : (a b : Day) → same_date a b ≡ true → a ≡ b
unfolding same_date
same_date-eq a b h = ground arith

different-place :
    (a b : Day)
    → IsDay a
    → IsDay b
    → same_date (gregorian_to_jalali a) (gregorian_to_jalali b) ≡ false
    → place a ≢ place b
different-place a b v w differs e =
    let same = place_injective a b v w e in
    grind (arith, same, differs, same_date_refl (gregorian_to_jalali b))

-- with fuel for every place up to the end, and the round that ends the loop
search-not_stuck :
    (fuel : ℕ) (end target current : Day)
    → IsDay end
    → IsDay current
    → 1 ≤ fuel
    → place end + 2 ≤ place current + fuel
    → search fuel end target current ≢ Found.stuck
unfolding search
search-not_stuck zero end target current v w p h = absurd (omega (arith, p))
search-not_stuck (suc fuel) end target current v w p h = ground (
  arith,
  search-not_stuck fuel end target (next_day current) v (next_day-IsDay current w),
  place-next_day current w,
  is_after-place current end w v,
)

search-found :
    (fuel : ℕ) (end target current t : Day)
    → search fuel end target current ≡ found t
    → gregorian_to_jalali t ≡ target
unfolding search
search-found zero end target current t e = cc
search-found (suc fuel) end target current t e = ground (
  arith,
  search-found fuel end target (next_day current) t,
  same_date-eq (gregorian_to_jalali current) target,
)

-- A day with the wanted ymd, not before the current day and not after the end: the search finds
-- one, and none later.
search_complete :
    (fuel : ℕ) (end current t : Day)
    → IsDay end
    → IsDay current
    → IsDay t
    → place current ≤ place t
    → place t ≤ place end
    → place t < place current + fuel
    → (e : Day) × ((search fuel end (gregorian_to_jalali t) current ≡ found e)
        × ((IsDay e) × (place e ≤ place t)))
unfolding search
search_complete zero end current t v w x lo hi h = absurd (omega (arith, lo, h))
search_complete (suc fuel) end current t v w x lo hi h =
    elim (Bool-cases (same_date (gregorian_to_jalali current) (gregorian_to_jalali t))) [
      | inl same ↦ (current, (ground (arith, same, is_after_not-place current end w v), (w, lo)))
      | inr differs ↦
          let before : place current < place t =
            omega (arith, lo, different-place current t w x differs) in
          let (e, (finds, early)) =
            search_complete fuel end (next_day current) t v (next_day-IsDay current w) x
              (next_day-place current t w x before) hi
              (omega (arith, h, place-next_day current w)) in
          (e, (ground (arith, differs, finds, is_after_not-place current end w v), early))
    ]

abbrev first_day : Day → Day
first_day t = ymd (t.year + 620) 1 1

abbrev last_day : Day → Day
last_day t = ymd (t.year + 622) 12 31

first_day-IsDay : (t : Day) → IsDay (first_day t)
unfolding month_length
first_day-IsDay t = record {
  month_there = (omega arith, omega arith);
  day_there = (omega arith, ground arith);
}

last_day-IsDay : (t : Day) → IsDay (last_day t)
unfolding month_length
last_day-IsDay t = record {
  month_there = (omega arith, omega arith);
  day_there = (omega arith, ground arith);
}

-- The loop of JalaliToCarbon ends for every Jalali ymd, within the 1117 rounds of the model, and a
-- day that it finds has that Jalali date.
pub gregorian_from_jalali-ends :
    (t : Day)
    → 1 ≤ t.year
    → (gregorian_from_jalali t ≢ Found.stuck)
      × ((d : Day) → gregorian_from_jalali t ≡ found d → gregorian_to_jalali d ≡ t)
unfolding gregorian_from_jalali
gregorian_from_jalali-ends t start = (
  search-not_stuck search_fuel (last_day t) t (first_day t) (last_day-IsDay t) (first_day-IsDay t)
      (omega arith) (omega arith),
  λ d. search-found search_fuel (last_day t) t (first_day t) d,
)

-- For a day of the years 1601 to 5000, converting its Jalali date back finds a day, with the same
-- Jalali ymd, and none later than the day itself.
pub gregorian_from_jalali-gregorian_to_jalali :
    (t : Day)
    → IsDay t
    → 1600 < t.year
    → t.year ≤ 5000
    → (d : Day) × ((gregorian_from_jalali (gregorian_to_jalali t) ≡ found d)
        × ((gregorian_to_jalali d ≡ gregorian_to_jalali t) × (is_after d t ≡ false)))
unfolding gregorian_from_jalali
gregorian_from_jalali-gregorian_to_jalali t v lo hi =
    let j = gregorian_to_jalali t in
    let in_month = month_length-range t.year t.month in
    let (from, to) =
      gregorian_to_jalali-near t lo hi
        (omega (arith, v.day_there.0), omega (arith, v.day_there.1, in_month.1)) in
    let (d, (finds, (valid, early))) =
      search_complete search_fuel (last_day j) (first_day j) t (last_day-IsDay j)
        (first_day-IsDay j) v (omega (arith, from, v.month_there.0, v.day_there.0))
        (omega (arith, to, v.month_there.1, v.day_there.1, in_month.1))
        (omega (arith, to, v.month_there.1, v.day_there.1, in_month.1)) in
    (
      d,
      (
        finds,
        (
          (gregorian_from_jalali-ends j (omega (arith, lo, to))).1 d finds,
          is_after_not-place d t valid v early,
        ),
      ),
    )

leap_shift : (y : ℕ) → 1600 < y → is_leap (y + 1) ≡ is_leap (y - 1600 + 1)
leap_shift y lo = ground arith

day_count_collides : (n : ℕ) → is_leap (n + 1) ≡ true → day_count n 3 31 ≡ day_count n 4 1
unfolding day_count march_days shifted_day days_before_month
day_count_collides n leap = ground arith

later_found :
    (a b j : Day)
    → (e : (d : Day) × ((gregorian_from_jalali j ≡ found d) × (is_after d a ≡ false)))
    → is_after b a ≡ true
    → gregorian_from_jalali j ≢ found b
later_found a b j (d, (finds, early)) late at = grind (arith, finds, early, late, at)

-- In the year before a leap year, from 1601 on, the 31st of March and the 1st of April have the
-- same Jalali ymd, so that converting back the Jalali date of that 1st of April finds another day.
pub gregorian_to_jalali_collides :
    (y : ℕ)
    → 1600 < y
    → y ≤ 5000
    → is_leap (y + 1) ≡ true
    → (gregorian_to_jalali (ymd y 3 31) ≡ gregorian_to_jalali (ymd y 4 1))
      × (gregorian_from_jalali (gregorian_to_jalali (ymd y 4 1)) ≢ found (ymd y 4 1))
unfolding gregorian_to_jalali month_length is_after
gregorian_to_jalali_collides y lo hi leap =
    let same : gregorian_to_jalali (ymd y 3 31) ≡ gregorian_to_jalali (ymd y 4 1) =
      ground (arith, day_count_collides (y - 1600), leap_shift y) in
    let valid : IsDay (ymd y 3 31) = record {
      month_there = (omega arith, omega arith);
      day_there = (omega arith, ground arith);
    } in
    let (d, (finds, (_, early))) =
      gregorian_from_jalali-gregorian_to_jalali (ymd y 3 31) valid lo hi in
    (
      same,
      later_found (ymd y 3 31) (ymd y 4 1) (gregorian_to_jalali (ymd y 4 1))
          (d, (sym (ap gregorian_from_jalali same) ∙ finds, early)) (ground arith),
    )
