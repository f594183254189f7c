-- ===== src/LocalTime.antt =====
-- `Time::toLocalTime` of src/mstime.cc, and the table of days of src/mstime.h.
-- A `struct tm` is the six fields that the function writes; it leaves the others as they were. A
-- read behind the table's end is none.
pub mod Calendar
pub mod Exact
mod Tests
use net_lib.Prelude.{
  ℕ, zero, suc, ◌+◌, ◌-◌, ◌*◌, ◌/◌, ◌%◌, ◌^◌, Option, none, some, List, [], ◌∷◌, ltb, ◌==◌,
  if◌then◌else◌,
}
use net_lib.Prelude.Int.{ℤ, pos, negsuc, ◌-ℤ◌}

pub record Tm : Type 0 where
  pub tm_sec : ℕ
  pub tm_min : ℕ
  pub tm_hour : ℕ
  pub tm_mday : ℕ
  pub tm_mon : ℕ
  pub tm_year : ℕ

-- The days of the months of a year that is no leap year.
abbrev pub days : List ℕ
days = 31 ∷ 28 ∷ 31 ∷ 30 ∷ 31 ∷ 30 ∷ 31 ∷ 31 ∷ 30 ∷ 31 ∷ 30 ∷ 31 ∷ []

-- The hours of four years.
abbrev pub four_years : ℕ
four_years = 1461 * 24

-- `n32_hpery`, the hours of the year `tm_year`.
unfoldable pub hours_per_year : ℕ → ℕ
hours_per_year year = if year % 4 == 0 then 365 * 24 + 24 else 365 * 24

-- The endless loop that counts the years, with the year and the hours that are left in it. The
-- rounds are counted down; none means that they did not suffice.
unfoldable pub year_loop : ℕ → ℕ → ℕ → Option (ℕ × ℕ)
unfolding hours_per_year
year_loop zero year hours = none
year_loop (suc n) year hours =
    let rest = year_loop n (year + 1) (hours - hours_per_year year) in
    if ltb hours (hours_per_year year) then some (year, hours) else rest

-- The loop over the table, from month `mon` on, with the month and the day in it.
unfoldable pub month_loop : List ℕ → ℕ → ℕ → Option (ℕ × ℕ)
month_loop [] mon day = none
month_loop (d ∷ ds) mon day =
    if ltb d day then month_loop ds (mon + 1) (day - d) else some (mon, day)

-- From the day of the year, counted from 1, to the month and the day in it.
unfoldable pub month_day : ℕ → ℕ → Option (ℕ × ℕ)
unfolding month_loop
month_day year day =
    if year % 4 == 0
    then if ltb 60 day
      then month_loop days 0 (day - 1)
      else if day == 60
      then some (1, 29)
      else month_loop days 0 day
    else month_loop days 0 day

abbrev pub set_date : ℕ → ℕ → ℕ → ℕ → Option (ℕ × ℕ) → Option Tm
set_date sec min hour year none = none
set_date sec min hour year (some (mon, mday)) = some (record {
  tm_sec = sec;
  tm_min = min;
  tm_hour = hour;
  tm_mday = mday;
  tm_mon = mon;
  tm_year = year;
})

abbrev pub set_day : ℕ → ℕ → Option (ℕ × ℕ) → Option Tm
set_day sec min none = none
set_day sec min (some (year, hours)) =
    set_date sec min (hours % 24) year (month_day year (hours / 24 + 1))

-- A year loop of four rounds suffices (LocalTime.Exact).
abbrev pub rounds : ℕ
rounds = 4

-- `second` is not negative; `(unsigned int)second` keeps 32 bits of the hours.
unfoldable pub of_seconds : ℕ → Option Tm
of_seconds second =
    let hours = second / 60 / 60 in
    let pass4year = hours % 2 ^ 32 / four_years in
    set_day (second % 60) (second / 60 % 60)
      (year_loop rounds (pass4year * 4 + 70) (hours % four_years))

-- A negative time is taken for 0.
abbrev pub clamp : ℤ → ℕ
clamp (pos n) = n
clamp (negsuc n) = 0

unfoldable pub to_local_time : ℤ → ℤ → Option Tm
to_local_time second timezone = of_seconds (clamp (second -ℤ timezone))
