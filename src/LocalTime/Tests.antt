-- ===== src/LocalTime/Tests.antt =====
-- Runs of `toLocalTime`, and its theorems at them.
use net_lib.Prelude.{◌≡◌, refl, some, arith}
use net_lib.Prelude.Int.{pos, negsuc, ◌-ℤ◌}
use net_lib.LocalTime.{Tm, to_local_time, of_seconds, clamp, year_loop, month_day}
use net_lib.LocalTime.Calendar.{IsValid, seconds_of}
use net_lib.LocalTime.Exact.{to_local_time_exact, to_local_time_2100}

-- 2021-01-01 00:00:00 at UTC+8
new_year :
    to_local_time (pos 1_609_430_400) (negsuc 28_799)
    ≡ some (record { tm_sec = 0; tm_min = 0; tm_hour = 0; tm_mday = 1; tm_mon = 0; tm_year = 121 })
unfolding to_local_time of_seconds ◌-ℤ◌ year_loop month_day
new_year = refl

-- 2020-02-29 12:34:56
leap_noon :
    to_local_time (pos 1_582_979_696) (pos 0)
    ≡ some
        (record { tm_sec = 56; tm_min = 34; tm_hour = 12; tm_mday = 29; tm_mon = 1; tm_year = 120 })
unfolding to_local_time of_seconds ◌-ℤ◌ year_loop month_day
leap_noon = refl

to_local_time_exact_example :
    (t : Tm) × (to_local_time (pos 1_609_430_400) (negsuc 28_799) ≡ some t)
    × IsValid t
    × (seconds_of t ≡ clamp (pos 1_609_430_400 -ℤ negsuc 28_799))
unfolding ◌-ℤ◌
to_local_time_exact_example = to_local_time_exact (pos 1_609_430_400) (negsuc 28_799) (omega arith)

to_local_time_2100_example :
    (t : Tm) × (to_local_time (pos 4_107_550_000) (pos 0) ≡ some t)
    × (t.tm_year ≡ 200)
    × (t.tm_mon ≡ 1)
    × (t.tm_mday ≡ 29)
    × ¬ IsValid t
unfolding ◌-ℤ◌
to_local_time_2100_example =
    to_local_time_2100 (pos 4_107_550_000) (pos 0) (omega arith) (omega arith)
