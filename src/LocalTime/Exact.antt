-- ===== src/LocalTime/Exact.antt =====
-- `Time::toLocalTime` against the Gregorian calendar, until the end of 2099 and on 1 March 2100.
use native.Mathlib.Nat.{mod-eq_of_lt}
use mathlib.Core.Path.{subst}
use net_lib.Prelude.{
  ℕ, zero, suc, ◌+◌, ◌-◌, ◌*◌, ◌/◌, ◌%◌, ◌^◌, ◌≤◌, ◌<◌, ◌≡◌, inl, inr, refl, Bool, true, false,
  ◌&&◌, Option, none, some, ltb, leb, ◌==◌, if◌then◌else◌, arith, dec_lt, Option-cases,
}
use net_lib.Prelude.Int.{ℤ, ◌-ℤ◌}
use net_lib.LocalTime.{
  Tm, four_years, hours_per_year, year_loop, month_loop, month_day, rounds, of_seconds, clamp,
  to_local_time,
}
use net_lib.LocalTime.Calendar.{
  is_leap, days_in_month, days_before_month, days_of_years-eq, IsValid, seconds_of,
}

-- The year that the loop finds, `hours` behind the start of a group of four years.
record YearFound (q hours y left : ℕ) : Type 0 where
  found : year_loop rounds (q * 4 + 70) hours ≡ some (y, left)
  from : 70 + q * 4 ≤ y
  upto : y < 74 + q * 4
  within : left < hours_per_year y
  total : 24 * (365 * (y - 70) + (y - 70 + 1) / 4) + left ≡ four_years * q + hours

year_found : (q hours : ℕ) → hours < four_years → (y left : ℕ) × YearFound q hours y left
unfolding year_loop
year_found q hours h = elim (dec_lt hours 8760) [
  | yes first ↦ (
    q * 4 + 70,
    hours,
    record {
      found = ground arith;
      from = omega arith;
      upto = omega arith;
      within = ground arith;
      total = omega arith;
    },
  )
  | no more ↦ elim (dec_lt hours 17520) [
    | yes second ↦ (
      q * 4 + 71,
      hours - 8760,
      record {
        found = ground arith;
        from = omega arith;
        upto = omega arith;
        within = ground arith;
        total = omega arith;
      },
    )
    | no more2 ↦ elim (dec_lt hours 26304) [
      | yes third ↦ (
        q * 4 + 72,
        hours - 17520,
        record {
          found = ground arith;
          from = omega arith;
          upto = omega arith;
          within = ground arith;
          total = omega arith;
        },
      )
      | no more3 ↦ (
        q * 4 + 73,
        hours - 26304,
        record {
          found = ground arith;
          from = omega arith;
          upto = omega arith;
          within = ground arith;
          total = omega arith;
        },
      )
    ]
  ]
]

-- Every day of a year against the calendar, by evaluation.
all_below : ℕ → (ℕ → Bool) → Bool
all_below zero p = true
all_below (suc n) p = p n && all_below n p

all_below-elim : (n : ℕ) (p : ℕ → Bool) (x : ℕ) → all_below n p ≡ true → x < n → p x ≡ true
unfolding all_below
all_below-elim zero p x h lt = elim lt [ ]
all_below-elim (suc n) p x h lt = ground (arith, all_below-elim n p x)

abbrev is_date : Bool → ℕ → Option (ℕ × ℕ) → Bool
is_date leap day none = false
is_date leap day (some (mon, mday)) =
    ltb mon 12
    && leb 1 mday
    && leb mday (days_in_month leap mon)
    && (days_before_month leap mon + mday == day)

-- `month_day` looks at the year only to see whether it is divisible by four.
year_like : Bool → ℕ
year_like true = 0
year_like false = 1

month_day-like : (y day : ℕ) → month_day y day ≡ month_day (year_like (y % 4 == 0)) day
unfolding month_day year_like
month_day-like y day = ground arith

leap_table : all_below 366 (λ d. is_date true (d + 1) (month_day 0 (d + 1))) ≡ true
unfolding all_below month_day days_before_month
leap_table = refl

common_table : all_below 365 (λ d. is_date false (d + 1) (month_day 1 (d + 1))) ≡ true
unfolding all_below month_day days_before_month
common_table = refl

-- The month and the day that the code finds for a day of the year.
record DateFound (leap : Bool) (y day mon mday : ℕ) : Type 0 where
  found : month_day y day ≡ some (mon, mday)
  month : mon < 12
  low : 1 ≤ mday
  high : mday ≤ days_in_month leap mon
  total : days_before_month leap mon + mday ≡ day

is_date-DateFound :
    (leap : Bool) (y day : ℕ)
    → is_date leap day (month_day y day) ≡ true
    → (mon mday : ℕ) × DateFound leap y day mon mday
is_date-DateFound leap y day h = elim (Option-cases (month_day y day)) [
  | inl e ↦ cc (rw e at h)
  | inr ((mon, mday), e) ↦
      let p = rw e at h in
      (
        mon,
        mday,
        record {
          found = e;
          month = ground arith;
          low = ground arith;
          high = ground arith;
          total = ground arith;
        },
      )
]

-- Where every fourth year is a leap year, the code's date is the calendar's.
date_found :
    (y day : ℕ) (leap : Bool)
    → (y % 4 == 0) ≡ leap
    → 1 ≤ day
    → day ≤ (if leap then 366 else 365)
    → (mon mday : ℕ) × DateFound leap y day mon mday
unfolding year_like
date_found y day true e low high = is_date-DateFound true y day (
    rw (month_day-like y day, e)
      (subst (λ d. is_date true d (month_day 0 d) ≡ true) (omega arith)
        (all_below-elim 366 _ (day - 1) leap_table (omega arith))))
date_found y day false e low high = is_date-DateFound false y day (
    rw (month_day-like y day, e)
      (subst (λ d. is_date false d (month_day 1 d) ≡ true) (omega arith)
        (all_below-elim 365 _ (day - 1) common_table (omega arith))))

-- 2100-01-01 00:00:00
abbrev pub year_2100 : ℕ
year_2100 = 4_102_444_800

-- 2100-03-01 00:00:00
abbrev pub march_2100 : ℕ
march_2100 = 4_107_542_400

abbrev day_seconds : ℕ
day_seconds = 86_400

leap_before_2100 : (y : ℕ) → 70 ≤ y → y < 200 → (y % 4 == 0) ≡ is_leap y
leap_before_2100 y low high = ground arith

day_in_year :
    (y left : ℕ)
    → left < hours_per_year y
    → (y % 4 == 0) ≡ is_leap y
    → left / 24 + 1 ≤ (if is_leap y then 366 else 365)
unfolding hours_per_year
day_in_year y left h e = rw (← e) (ground arith)

-- The stages of the code at `second`, composed.
of_seconds_stages :
    (second y left mon mday : ℕ) (leap : Bool)
    → second / 60 / 60 < 2 ^ 32
    → YearFound (second / 60 / 60 / four_years) (second / 60 / 60 % four_years) y left
    → DateFound leap y (left / 24 + 1) mon mday
    → of_seconds second
      ≡ some (record {
        tm_sec = second % 60;
        tm_min = second / 60 % 60;
        tm_hour = left % 24;
        tm_mday = mday;
        tm_mon = mon;
        tm_year = y;
      })
unfolding of_seconds
of_seconds_stages second y left mon mday leap h v d =
    rw (mod-eq_of_lt {n = second / 60 / 60} {m = 2 ^ 32} h, v.found, d.found)

of_seconds_exact :
    (s : ℕ) → s < year_2100 → (t : Tm) × (of_seconds s ≡ some t) × IsValid t × (seconds_of t ≡ s)
of_seconds_exact s h =
    let (y, left, v) =
      year_found (s / 60 / 60 / four_years) (s / 60 / 60 % four_years) (omega arith) in
    let y_low : 70 ≤ y = omega (arith, v.from) in
    let y_high : y < 200 = omega (arith, v.total) in
    let (mon, mday, d) =
      date_found y (left / 24 + 1) (is_leap y) (leap_before_2100 y y_low y_high) (omega arith)
        (day_in_year y left v.within (leap_before_2100 y y_low y_high)) in
    (
      _,
      of_seconds_stages s y left mon mday (is_leap y) (omega arith) v d,
      record {
        sec = omega arith;
        min = omega arith;
        hour = omega arith;
        year = y_low;
        mon = d.month;
        mday_low = d.low;
        mday_high = d.high;
      },
      omega (arith, v.total, d.total, days_of_years-eq (y - 70) (omega arith)),
    )

-- Exact until the end of 2099: for every time of which the time zone leaves less than the seconds
-- from 1970 to 2100, `toLocalTime` ends within the table and gives a date and time that exists in the
-- Gregorian calendar and that lies exactly that many seconds behind 1970-01-01 00:00:00; a negative
-- time counts as 0.
pub to_local_time_exact :
    (second timezone : ℤ)
    → clamp (second -ℤ timezone) < year_2100
    → (t : Tm) × (to_local_time second timezone ≡ some t)
      × IsValid t
      × (seconds_of t ≡ clamp (second -ℤ timezone))
unfolding to_local_time
to_local_time_exact second timezone h = of_seconds_exact (clamp (second -ℤ timezone)) h

in_2100 :
    (s y left : ℕ)
    → march_2100 ≤ s
    → s < march_2100 + day_seconds
    → YearFound (s / 60 / 60 / four_years) (s / 60 / 60 % four_years) y left
    → (y ≡ 200) × (left / 24 ≡ 59)
unfolding hours_per_year
in_2100 s y left low high v = ground (arith, v.within, v.total)

leap_day : (y day : ℕ) → y ≡ 200 → day ≡ 60 → DateFound true y day 1 29
unfolding month_day month_loop days_before_month
leap_day y day e d = record {
  found = rw (e, d) refl;
  month = omega arith;
  low = omega arith;
  high = omega arith;
  total = omega arith;
}

not_a_date : (y : ℕ) → y ≡ 200 → 29 ≤ days_in_month (is_leap y) 1 → ⊥
unfolding days_in_month
not_a_date y e h = ground arith

-- The year 2100 is no leap year, but the code takes every fourth year for one: all day long on 1 March
-- 2100 it gives 29 February 2100, a date that does not exist.
pub to_local_time_2100 :
    (second timezone : ℤ)
    → march_2100 ≤ clamp (second -ℤ timezone)
    → clamp (second -ℤ timezone) < march_2100 + day_seconds
    → (t : Tm) × (to_local_time second timezone ≡ some t)
      × (t.tm_year ≡ 200)
      × (t.tm_mon ≡ 1)
      × (t.tm_mday ≡ 29)
      × ¬ IsValid t
unfolding to_local_time
to_local_time_2100 second timezone low high =
    let s : ℕ = clamp (second -ℤ timezone) in
    let (y, left, v) =
      year_found (s / 60 / 60 / four_years) (s / 60 / 60 % four_years) (omega arith) in
    let (e, d) = in_2100 s y left low high v in
    (
      record {
        tm_sec = s % 60;
        tm_min = s / 60 % 60;
        tm_hour = left % 24;
        tm_mday = 29;
        tm_mon = 1;
        tm_year = y;
      },
      of_seconds_stages s y left 1 29 true (omega arith) v
          (leap_day y (left / 24 + 1) e (omega (arith, d))),
      e,
      refl,
      refl,
      λ v. not_a_date y e v.mday_high,
    )
