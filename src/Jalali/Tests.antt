-- ===== src/Jalali/Tests.antt =====
-- Dates at concrete inputs.
use metaverse_rang_microserv.Common.{◌≡◌, ◌≢◌, false, arith}
use metaverse_rang_microserv.Jalali.{
  Day, ymd, month_length, is_after, gregorian_to_jalali, Found, found, gregorian_from_jalali,
}
use metaverse_rang_microserv.Jalali.Days.{IsDay}
use metaverse_rang_microserv.Jalali.Search.{
  gregorian_from_jalali-ends, gregorian_from_jalali-gregorian_to_jalali,
}

abbrev spring : Day
spring = ymd 2003 4 1

spring-IsDay : IsDay spring
unfolding month_length
spring-IsDay = record {
  month_there = (omega arith, omega arith);
  day_there = (omega arith, ground arith);
}

gregorian_from_jalali-ends_example :
    (gregorian_from_jalali spring ≢ Found.stuck)
    × ((d : Day) → gregorian_from_jalali spring ≡ found d → gregorian_to_jalali d ≡ spring)
gregorian_from_jalali-ends_example = gregorian_from_jalali-ends spring (omega arith)

gregorian_from_jalali-gregorian_to_jalali_example :
    (d : Day) × ((gregorian_from_jalali (gregorian_to_jalali spring) ≡ found d)
      × ((gregorian_to_jalali d ≡ gregorian_to_jalali spring) × (is_after d spring ≡ false)))
gregorian_from_jalali-gregorian_to_jalali_example =
    gregorian_from_jalali-gregorian_to_jalali spring spring-IsDay (omega arith) (omega arith)
