-- ===== src/Clock.antt =====
-- src/mstime.h and src/mstime.cc without `toLocalTime`: times in milliseconds and their distance.
-- A `Time` is a number of milliseconds since 1970, here not negative. What `gettimeofday` gives is an
-- argument.
pub mod Interval
pub mod Order
use net_lib.Prelude.{ℕ, ◌+◌, ◌-◌, ◌*◌, ◌/◌, ◌%◌, ltb, Bool, if◌then◌else◌}

pub record TimeVal : Type 0 where
  pub tv_sec : ℕ
  pub tv_usec : ℕ

pub record TimeSpec : Type 0 where
  pub tv_sec : ℕ
  pub tv_nsec : ℕ

-- `Time::now`
unfoldable pub now : TimeVal → ℕ
now tv = tv.tv_sec * 1000 + tv.tv_usec / 1000

-- `Time::nowSec`
unfoldable pub now_sec : TimeVal → ℕ
now_sec tv = tv.tv_sec

-- `Time::timeIntervalFromNow` where `Time::now` gives `present`. The difference of the source is
-- negative where the one here is 0, and takes the same branch.
unfoldable pub time_interval_from_now : ℕ → ℕ → TimeSpec
time_interval_from_now time present =
    let rest = time - present in
    if ltb rest 1
    then record { tv_sec = 0; tv_nsec = 1000 }
    else record { tv_sec = rest / 1000; tv_nsec = rest % 1000 * 1000 * 1000 }
