-- ===== src/Timer/Tests.antt =====
-- Timers and clocks: runs, and the theorems at them.
use net_lib.Prelude.{◌+◌, ◌*◌, ◌≡◌, refl, true, false, none, some, List, [], ◌∷◌, map, arith}
use net_lib.Prelude.Int.{pos}
use net_lib.Clock.{time_interval_from_now}
use net_lib.Clock.Interval.{nanos}
use net_lib.Timer.{
  Entry, Setting, Timer, new_timer, push, run_at, run_after, wake_up, reset_timefd, pop_due, drain,
  get_expired,
}
use net_lib.Timer.Spec.{order, selected}
use net_lib.Timer.Refine.{timer_refines, abs_run, nobody}
use net_lib.Timer.Arming.{Op, sleeps, expires, apply, run, InTime, run-InTime, wake_up_overwritten}

-- 7 sleeps until 1500, 8 until 1200 and 9 until 1700.
abbrev entries : List Entry
entries =
    record { time = 1200; co = 8 }
    ∷ record { time = 1500; co = 7 }
    ∷ record { time = 1700; co = 9 }
    ∷ []

abbrev sleeping : Timer
sleeping = record { heap = entries; armed = none }

-- The descriptor is set again, to the entry that is left, when the two that are due are handed out.
expired_at_1600 :
    get_expired 1600 1601 (pos 8 ∷ []) sleeping
    ≡ some (
      8 ∷ 7 ∷ [],
      record {
        heap = record { time = 1700; co = 9 } ∷ [];
        armed =
            some (record { set_at = 1601; interval = record { tv_sec = 0; tv_nsec = 99_000_000 } });
      },
    )
unfolding get_expired pop_due drain reset_timefd time_interval_from_now
expired_at_1600 = refl

-- 7 goes to sleep until 1500, 8 until 1200, and the first is handed out.
abbrev night : List Op
night = sleeps 500 7 1000 1000 ∷ sleeps 200 8 1000 1001 ∷ expires 1200 1201 (pos 8 ∷ []) ∷ []

run-InTime_example : InTime 1500 (run night new_timer).armed
unfolding run apply run_after run_at push pop_due drain get_expired reset_timefd
run-InTime_example = run-InTime night (record { time = 1500; co = 7 }) [] refl

abbrev one_sleeper : Timer
one_sleeper = record { heap = record { time = 9000; co = 4 } ∷ []; armed = none }

wake_up_overwritten_example :
    let woken = wake_up 1000 1000 one_sleeper in
    ((s : Setting) × (woken.armed ≡ some s) × (s.set_at ≡ 1000) × (nanos s.interval ≡ 1000))
    × ((s : Setting) × ((run_at 5000 3 1001 woken).armed ≡ some s)
        × (s.set_at * 1_000_000 + nanos s.interval ≡ 5000 * 1_000_000))
wake_up_overwritten_example =
    wake_up_overwritten 5000 3 1000 1000 1001 one_sleeper (omega arith) (omega arith)
      (omega arith, tt)

timer_refines_example :
    let t = run night new_timer in
    let s = abs_run night nobody in
    (t.heap ≡ order s)
    × ((t' : Timer) × (get_expired 1600 1601 (pos 8 ∷ []) t
          ≡ some (map (λ e. e.co) (order (selected true 1600 s)), t'))
        × (t'.heap ≡ order (selected false 1600 s)))
unfolding drain
timer_refines_example = timer_refines night 1600 1601 (pos 8 ∷ []) [] refl
