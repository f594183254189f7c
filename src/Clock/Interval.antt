-- ===== src/Clock/Interval.antt =====
-- The interval that a timer is set to (src/mstime.cc).
use net_lib.Prelude.{ℕ, ◌+◌, ◌-◌, ◌*◌, ◌/◌, ◌<◌, ◌≡◌, ltb, if◌then◌else◌, arith}
use net_lib.Clock.{TimeVal, TimeSpec, now, now_sec, time_interval_from_now}

abbrev pub nanos : TimeSpec → ℕ
nanos ts = ts.tv_sec * 1_000_000_000 + ts.tv_nsec

-- The interval from `present` to `time` is a valid `timespec` that is never zero, so that it never
-- disarms a timer: it is the distance, in nanoseconds, if `time` is still to come, and one
-- microsecond if it is not.
pub interval_exact :
    (time present : ℕ)
    → let ts = time_interval_from_now time present in
      (ts.tv_nsec < 1_000_000_000)
      × (0 < nanos ts)
      × (nanos ts ≡ (if ltb present time then (time - present) * 1_000_000 else 1000))
unfolding time_interval_from_now
interval_exact time present = (ground arith, ground arith, ground arith)

-- The clock in milliseconds is the clock in microseconds, rounded down, and its seconds are those
-- of `nowSec`, for a valid `timeval`.
pub now-now_sec :
    (tv : TimeVal)
    → tv.tv_usec < 1_000_000
    → (now tv ≡ (tv.tv_sec * 1_000_000 + tv.tv_usec) / 1000) × (now tv / 1000 ≡ now_sec tv)
unfolding now now_sec
now-now_sec tv h = (omega arith, omega arith)
