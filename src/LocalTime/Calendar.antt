-- ===== src/LocalTime/Calendar.antt =====
-- The Gregorian calendar, independently of the code of src/mstime.cc: what a `struct tm` denotes.
use net_lib.Prelude.{
  ℕ, zero, suc, ◌+◌, ◌-◌, ◌*◌, ◌/◌, ◌%◌, ◌≤◌, ◌<◌, ◌≡◌, Bool, not, ◌&&◌, ◌||◌, ◌==◌, if◌then◌else◌,
  arith, refl,
}
use net_lib.LocalTime.{Tm}

-- Years are counted from 1900, as in `tm_year`.
abbrev pub is_leap : ℕ → Bool
is_leap y = ((1900 + y) % 4 == 0) && (not ((1900 + y) % 100 == 0) || ((1900 + y) % 400 == 0))

unfoldable pub days_in_month : Bool → ℕ → ℕ
days_in_month leap zero = 31
days_in_month leap (suc zero) = if leap then 29 else 28
days_in_month leap (suc (suc m)) = if (m == 1) || (m == 3) || (m == 6) || (m == 8) then 30 else 31

-- The days of the year before month `m`.
unfoldable pub days_before_month : Bool → ℕ → ℕ
unfolding days_in_month
days_before_month leap zero = 0
days_before_month leap (suc m) = days_before_month leap m + days_in_month leap m

unfoldable pub days_in_year : ℕ → ℕ
days_in_year y = if is_leap y then 366 else 365

-- The days of the `n` years from 1970 on.
pub days_of_years : ℕ → ℕ
days_of_years zero = 0
days_of_years (suc n) = days_of_years n + days_in_year (70 + n)

-- A date and time that exists, from 1970 on.
pub record IsValid (t : Tm) : Type 0 where
  pub sec : t.tm_sec < 60
  pub min : t.tm_min < 60
  pub hour : t.tm_hour < 24
  pub year : 70 ≤ t.tm_year
  pub mon : t.tm_mon < 12
  pub mday_low : 1 ≤ t.tm_mday
  pub mday_high : t.tm_mday ≤ days_in_month (is_leap t.tm_year) t.tm_mon

-- The days from 1970-01-01 to the date.
abbrev pub day_number : Tm → ℕ
day_number t =
    days_of_years (t.tm_year - 70) + days_before_month (is_leap t.tm_year) t.tm_mon + t.tm_mday - 1

-- The seconds from 1970-01-01 00:00:00 to the date and time.
abbrev pub seconds_of : Tm → ℕ
seconds_of t = ((day_number t * 24 + t.tm_hour) * 60 + t.tm_min) * 60 + t.tm_sec

-- Up to the year 2099 every fourth year is a leap year.
pub days_of_years-eq : (n : ℕ) → n ≤ 130 → days_of_years n ≡ 365 * n + (n + 1) / 4
unfolding days_of_years days_in_year
days_of_years-eq zero h = refl
days_of_years-eq (suc n) h = ground (arith, days_of_years-eq n)
